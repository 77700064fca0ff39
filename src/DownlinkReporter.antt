-- ===== src/DownlinkReporter.antt =====
-- src/client/lib/qos/downlinkReporter.js: the reports of a receiver. A tick that is not skipped begins
-- with the next number; the sampler and the server are outside, and the end of the tick, with success
-- or an error, is an event of its own, since ticks of the timer may come between.
mod Run
mod Examples
use mediasoup_cpp.Shared.{
  ℕ, ◌+◌, ◌-◌, ◌^◌, ◌%◌, Bool, true, false, not, ◌||◌, Option, none, some, leb, ◌==◌, if◌then◌else◌,
}

-- `DOWNLINK_MAX_SEQ`, which is `Number.MAX_SAFE_INTEGER`.
abbrev pub downlink_max_seq : ℕ
downlink_max_seq = 2 ^ 53 - 1

pub record Reporter : Type 0 where
  pub interval_ms : ℕ
  pub seq : ℕ
  -- The interval of the timer that is registered.
  pub timer : Option ℕ
  pub reporting : Bool
  pub consecutive_errors : ℕ

unfoldable pub new_reporter : ℕ → Reporter
new_reporter interval = record {
  interval_ms = interval;
  seq = 0;
  timer = none;
  reporting = false;
  consecutive_errors = 0;
}

abbrev start_timer : ℕ → Option ℕ → Option ℕ
start_timer interval none = some interval
start_timer interval (some i) = some i

unfoldable pub start : Reporter → Reporter
start r = record r { timer = start_timer r.interval_ms r.timer }

unfoldable pub stop : Reporter → Reporter
stop r = record r { timer = none }

-- The head of `_tick`, to the call of the sampler: the number of the report that is under way.
unfoldable pub begin_tick : Reporter → Reporter × Option ℕ
begin_tick r =
    let next_seq = if leb downlink_max_seq r.seq then 0 else r.seq + 1 in
    if r.reporting
    then (r, none)
    else (record r { reporting = true; seq = next_seq }, some next_seq)

-- The rest of `_tick`, when the report was sent or failed; and whether the error is logged.
unfoldable pub finish_tick : Bool → Reporter → Reporter × Bool
finish_tick true r = (record r { reporting = false; consecutive_errors = 0 }, false)
finish_tick false r =
    let errors = r.consecutive_errors + 1 in
    (record r { reporting = false; consecutive_errors = errors }, leb errors 3 || errors % 10 == 0)
