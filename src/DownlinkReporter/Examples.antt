-- ===== src/DownlinkReporter/Examples.antt =====
-- A run of a reporter of src/client/lib/qos/downlinkReporter.js.
use mediasoup_cpp.Shared.{◌≡◌, refl, true, false, List, [], ◌∷◌}
use mediasoup_cpp.DownlinkReporter.{new_reporter, begin_tick, finish_tick, start}
use mediasoup_cpp.DownlinkReporter.Run.{
  Event, started, ticked, ended, on_events, Agrees, tell_all, nothing_yet, new_reporter-Agrees,
}

-- The second tick comes while the first report is under way, and is skipped.
abbrev events : List Event
events = started ∷ ticked ∷ ticked ∷ ended true ∷ ticked ∷ ended false ∷ []

two_reports : (on_events events (new_reporter 2000)).seq ≡ 2
unfolding new_reporter begin_tick finish_tick start
two_reports = refl

new_reporter-Agrees_example :
    Agrees (tell_all events nothing_yet) (on_events events (new_reporter 2000))
new_reporter-Agrees_example = new_reporter-Agrees 2000 events
