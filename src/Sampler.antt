-- ===== src/Sampler.antt =====
-- src/client/lib/qos/sampler.js: a sampler driven by a clock's interval. The clock and the provider
-- are outside: a tick and the end of a sample are events. Intervals are whole milliseconds, and 0
-- stands for all that the constructor refuses.
pub mod Timer
mod Examples
use mediasoup_cpp.Shared.{ℕ, Bool, true, false, Option, none, some, ◌==◌, if◌then◌else◌}

pub record Sampler : Type 0 where
  pub interval_ms : ℕ
  pub running : Bool
  -- The interval for which a timer is registered with the clock.
  pub timer : Option ℕ
  pub sampling : Bool
  -- Whether `start` has stored its callbacks.
  pub has_listener : Bool

-- `none` is the `TypeError`.
unfoldable pub new_sampler : ℕ → Option Sampler
new_sampler interval =
    if interval == 0
    then none
    else some (record {
      interval_ms = interval;
      running = false;
      timer = none;
      sampling = false;
      has_listener = false;
    })

unfoldable pub start : Sampler → Sampler
start s =
    if s.running
    then s
    else record s { running = true; timer = some s.interval_ms; has_listener = true }

unfoldable pub stop : Sampler → Sampler
stop s = if s.running then record s { running = false; timer = none } else s

abbrev restart : Sampler → Sampler
restart s = if s.has_listener then start (stop s) else stop s

-- `updateIntervalMs`; `none` is the `TypeError`.
unfoldable pub update_interval : ℕ → Sampler → Option Sampler
unfolding start stop
update_interval interval s =
    if interval == 0
    then none
    else if interval == s.interval_ms
    then some s
    else let next = record s { interval_ms = interval } in
      some (if s.running then restart next else next)

-- The head of `runTick`: does this tick ask the provider for a sample?
unfoldable pub tick : Sampler → Sampler × Bool
tick s = if s.sampling then (s, false) else (record s { sampling = true }, true)

-- The `finally` of `runTick`, whether the sample was taken or failed.
unfoldable pub finish_sample : Sampler → Sampler
finish_sample s = record s { sampling = false }
