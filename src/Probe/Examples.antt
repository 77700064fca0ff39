-- ===== src/Probe/Examples.antt =====
-- Tests of src/client/lib/qos/probe.js and its theorems at concrete samples.
use mediasoup_cpp.Shared.{◌≡◌, false, none, List, [], ◌∷◌, arith, Milli, milli_number}
use mediasoup_cpp.Types.{Signals}
use mediasoup_cpp.Probe.{Probe, begin_probe, is_probe_healthy, successful}
use mediasoup_cpp.Probe.Outcome.{IsPending, begin_probe-IsPending, watch, watch_healthy}
use mediasoup_cpp.Fixtures.{calm_signals, limited_signals, camera_profile}

abbrev probe : Probe
probe = begin_probe 2 1 5000 false false none none

abbrev calm_row : List (Signals Milli)
calm_row = calm_signals ∷ calm_signals ∷ calm_signals ∷ []

abbrev limited_row : List (Signals Milli)
limited_row = limited_signals ∷ limited_signals ∷ []

begin_probe-IsPending_example : IsPending probe
begin_probe-IsPending_example = begin_probe-IsPending 2 1 5000 false false none none

watch_healthy_example : watch camera_profile probe calm_row ≡ successful
unfolding is_probe_healthy camera_profile begin_probe
watch_healthy_example =
    watch_healthy camera_profile probe calm_row
      (begin_probe-IsPending 2 1 5000 false false none none) (ground arith)
