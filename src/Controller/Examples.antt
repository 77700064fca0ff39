-- ===== src/Controller/Examples.antt =====
-- Theorems on src/client/lib/qos/controller.js at a concrete controller of a camera.
use mediasoup_cpp.Shared.{
  count, ◌≤◌, ◌+◌, pos, ◌≡◌, ◌≢◌, refl, true, false, none, some, List, [], ◌∷◌, All, codes, arith,
  Milli, milli_number, map, find,
}
use mediasoup_cpp.Types.{recovering, TrackKind, Action, level_of, is_enter, is_exit}
use mediasoup_cpp.StateMachine.{initial_context}
use mediasoup_cpp.Probe.{Probe, is_probe_healthy, is_probe_bad, evaluate_probe}
use mediasoup_cpp.Signals.{derive_signals}
use mediasoup_cpp.Planner.{clamp_level, plan_actions}
use mediasoup_cpp.Sampler.{new_sampler}
use mediasoup_cpp.Controller.State.{Controller, ControllerOptions, new_controller}
use mediasoup_cpp.Controller.Settings.{Policy, handle_policy}
use mediasoup_cpp.Controller.Filter.{filter_actions}
use mediasoup_cpp.Controller.Actions.{was_action_applied}
use mediasoup_cpp.Controller.Process.{process_sample, plan_sample, signals_of, transition_of}
use mediasoup_cpp.Controller.Policy.{ChangesMode, filter_actions-ChangesMode}
use mediasoup_cpp.Controller.Counts.{once}
use mediasoup_cpp.Controller.Forcing.{enters, exits_asked, leaves, count-filter_actions}
use mediasoup_cpp.Controller.Reports.{Reported, process_sample-Reported}
use mediasoup_cpp.Controller.Rollback.{RolledBack, process_sample-RolledBack}
use mediasoup_cpp.Controller.Suppression.{plan_sample_disabled}
use mediasoup_cpp.Controller.Policies.{PolicyOutcome, handle_policy-PolicyOutcome}
use mediasoup_cpp.Controller.Life.{
  Event, sampled, policy_changed, started, on_events, IsSound, new_controller-on_events,
}
use mediasoup_cpp.Fixtures.{camera_profile, camera_at, camera, willing, failing, limited}

abbrev options : ControllerOptions Milli
options = record {
  profile = camera_profile;
  track_id = codes "track-1";
  kind = TrackKind.video;
  producer_id = none;
  has_channel = true;
  initial_level = some (pos 2);
  initial_audio_only_mode = false;
  snapshot_interval_ms = none;
  sample_interval_ms = some 1000;
  allow_audio_only = some true;
  allow_video_pause = some false;
  trace_capacity = none;
}

process_sample-Reported_example :
    Reported 5000
      (transition_of limited 5000 camera).transitioned
      (process_sample limited 5000 willing camera)
process_sample-Reported_example = process_sample-Reported limited 5000 willing camera

filter_actions-ChangesMode_example :
    let actions = filter_actions camera none (Action.enter_audio_only 4 none ∷ []) in
    All (λ a. ¬ ChangesMode a) actions × (actions ≢ [])
filter_actions-ChangesMode_example =
    filter_actions-ChangesMode camera none (Action.enter_audio_only 4 none ∷ []) refl

-- A probe that has seen one bad sample of two.
abbrev probe : Probe
probe = record {
  active = true;
  started_at_ms = 3000;
  previous_level = 3;
  target_level = 2;
  previous_audio_only_mode = false;
  target_audio_only_mode = false;
  healthy_samples = 0;
  bad_samples = 1;
  required_healthy_samples = 3;
  required_bad_samples = 2;
}

abbrev probing : Controller Milli
probing = camera_at (initial_context 0) (some probe) none

process_sample-RolledBack_example :
    RolledBack (clamp_level (pos 3) 4) (5000 + 8000) (process_sample limited 5000 willing probing)
unfolding camera_profile signals_of evaluate_probe was_action_applied is_probe_healthy
    derive_signals is_probe_bad
process_sample-RolledBack_example =
    process_sample-RolledBack limited 5000 willing probing probe refl refl
      (record { applies = λ n a. refl; returns = λ n a. refl })

abbrev recovering_camera : Controller Milli
recovering_camera = camera_at (record (initial_context 0) { state = recovering }) none (some 9000)

plan_sample_disabled_example : All (λ a. 2 ≤ level_of a) (plan_sample recovering_camera none 5000)
unfolding camera_profile
plan_sample_disabled_example =
    plan_sample_disabled recovering_camera none 5000 (omega arith) refl refl refl

-- A policy that asks for the conservative profile.
abbrev policy : Policy
policy = record {
  sample_interval_ms = 500;
  snapshot_interval_ms = 2000;
  allow_audio_only = true;
  allow_video_pause = true;
  camera_profile = codes "conservative";
  screen_share_profile = [];
  audio_profile = [];
}

handle_policy-PolicyOutcome_example : PolicyOutcome policy camera (handle_policy policy camera)
handle_policy-PolicyOutcome_example = handle_policy-PolicyOutcome policy camera

abbrev fresh : Controller Milli
fresh = record camera {
  seq = 0;
  running = false;
  snapshot_interval_ms = camera_profile.snapshot_interval_ms;
}

abbrev events : List (Event Milli)
events =
    started
    ∷ sampled limited 5000 failing
    ∷ policy_changed policy
    ∷ sampled limited 6000 willing
    ∷ []

new_controller-on_events_example : IsSound (on_events events fresh)
unfolding camera_profile new_controller new_sampler
new_controller-on_events_example =
    new_controller-on_events options 0 fresh events refl refl (omega arith)

-- A stable track climbs although its recovery is put off.
suppressed_camera_climbs :
    map level_of (plan_sample (camera_at (initial_context 0) none (some 9000)) none 5000) ≡ 1 ∷ []
unfolding camera_profile plan_sample find plan_actions initial_context
suppressed_camera_climbs = refl

abbrev forced_camera : Controller Milli
forced_camera = record camera {
  allow_video_pause = true;
  coordination_override = some (record {
    max_level_clamp = none;
    disable_recovery = true;
    force_audio_only = true;
    pause_upstream = false;
    resume_upstream = false;
  });
}

-- Forced by the coordinator, it goes over to audio only once.
forced_camera-enters : enters forced_camera none (Action.noop 2 none ∷ []) ≡ 1
unfolding camera_profile count
forced_camera-enters = refl

count-filter_actions_example :
    (count is_enter (filter_actions forced_camera none (Action.noop 2 none ∷ []))
      ≡ enters forced_camera none (Action.noop 2 none ∷ []))
    × (count is_exit (filter_actions forced_camera none (Action.noop 2 none ∷ []))
        ≡ exits_asked forced_camera none (Action.noop 2 none ∷ [])
          + once (leaves forced_camera none (Action.noop 2 none ∷ [])))
count-filter_actions_example = count-filter_actions forced_camera none (Action.noop 2 none ∷ [])
