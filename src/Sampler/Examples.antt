-- ===== src/Sampler/Examples.antt =====
-- Tests of src/client/lib/qos/sampler.js and its theorem at a concrete run.
use mediasoup_cpp.Shared.{◌≡◌, refl, false, none, some, List, [], ◌∷◌}
use mediasoup_cpp.Sampler.{Sampler, new_sampler, start, stop, update_interval, tick, finish_sample}
use mediasoup_cpp.Sampler.Timer.{
  IsTimed, Event, started, ticked, finished, updated, on_events, on_events-IsTimed,
}

abbrev idle : Sampler
idle = record {
  interval_ms = 1000;
  running = false;
  timer = none;
  sampling = false;
  has_listener = false;
}

abbrev busy : List Event
busy = started ∷ ticked ∷ updated 500 ∷ updated 0 ∷ finished ∷ []

-- The new interval takes over the timer, and the refused one does not.
busy_timer : (on_events busy idle).timer ≡ some 500
unfolding start stop update_interval tick finish_sample
busy_timer = refl

on_events-IsTimed_example : IsTimed (on_events busy idle)
unfolding new_sampler
on_events-IsTimed_example = on_events-IsTimed 1000 busy refl
