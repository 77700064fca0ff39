-- ===== src/Sampler/Timer.antt =====
-- The timer of src/client/lib/qos/sampler.js over any sequence of its operations and events.
use mediasoup_cpp.Shared.{
  ℕ, ◌<◌, ◌≡◌, true, none, some, List, [], ◌∷◌, arith, if◌then◌else◌, or_else,
}
use mediasoup_cpp.Sampler.{Sampler, new_sampler, start, stop, update_interval, tick, finish_sample}

-- A timer is registered exactly while the sampler runs, and for its present interval; and a sampler
-- that runs has its callbacks.
pub record IsTimed (s : Sampler) : Type 0 where
  pub registered : s.timer ≡ (if s.running then some s.interval_ms else none)
  pub positive : 0 < s.interval_ms
  pub listening : s.running ≡ true → s.has_listener ≡ true

pub data Event : Type 0 where
  started stopped ticked finished : Event
  updated : ℕ → Event

-- A refused update changes nothing; the events of a sample may come at any time.
abbrev pub on_event : Event → Sampler → Sampler
on_event started s = start s
on_event stopped s = stop s
on_event ticked s = (tick s).0
on_event finished s = finish_sample s
on_event (updated interval) s = or_else (update_interval interval s) s

abbrev pub on_events : List Event → Sampler → Sampler
on_events [] s = s
on_events (e ∷ es) s = on_events es (on_event e s)

on_event-IsTimed : (e : Event) (s : Sampler) → IsTimed s → IsTimed (on_event e s)
unfolding start stop tick finish_sample update_interval
on_event-IsTimed started s h = ground arith
on_event-IsTimed stopped s h = ground arith
on_event-IsTimed ticked s h = ground arith
on_event-IsTimed finished s h = ground arith
on_event-IsTimed (updated interval) s h = ground arith

new_sampler-IsTimed : (interval : ℕ) (s : Sampler) → new_sampler interval ≡ some s → IsTimed s
unfolding new_sampler
new_sampler-IsTimed interval s h = ground arith

-- The timer of a sampler agrees with its state and interval after any row of operations and events,
-- updates of the interval while it runs and refused ones among them.
pub on_events-IsTimed :
    (interval : ℕ) {s : Sampler} (es : List Event)
    → new_sampler interval ≡ some s
    → IsTimed (on_events es s)
on_events-IsTimed interval {s} es h = go es s (new_sampler-IsTimed interval s h)
  where
    go : (es : List Event) (s : Sampler) → IsTimed s → IsTimed (on_events es s)
    go [] s t = t
    go (e ∷ es) s t = go es (on_event e s) (on_event-IsTimed e s t)
