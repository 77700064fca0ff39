-- ===== src/Controller/Actions.antt =====
-- `executeActions`, `rollbackProbe` and `publishSnapshot` of src/client/lib/qos/controller.js.
use mediasoup_cpp.Shared.{
  ℕ, suc, ◌+◌, ◌^◌, ◌-◌, pos, Bool, true, false, not, ◌&&◌, ◌||◌, Option, none, some, List, [], ◌∷◌,
  Text, any, Number, ltb, leb, if◌then◌else◌,
}
use mediasoup_cpp.Types.{
  TrackKind, PeerMode, audio_only, audio_video, QosState, congested, Quality, RawSnapshot, Signals,
  Action, level_of, type_of, is_noop, is_enter, is_exit,
}
use mediasoup_cpp.Probe.{Probe, begin_probe}
use mediasoup_cpp.Planner.{PlannerInput, plan_actions_for_level}
use mediasoup_cpp.Trace.{append}
use mediasoup_cpp.Controller.State.{
  TraceProbe, running_probe, failed_probe, Report, Controller, reported,
}
use mediasoup_cpp.Controller.Settings.{Settled, completed, failed_at}
use mediasoup_cpp.Controller.Filter.{is_strong_recovery_signal}

-- What the executor answers: one of the values that `wasActionApplied` tells apart, or an error.
pub data Answer : Type 0 where
  nothing : Answer
  flag : Bool → Answer
  status_failed : Bool → Answer
  applied_false : Bool → Answer
  other_value : Answer
  threw : Text → Answer

unfoldable pub was_action_applied : Answer → Bool
was_action_applied nothing = true
was_action_applied (flag b) = b
was_action_applied (status_failed b) = not b
was_action_applied (applied_false b) = not b
was_action_applied other_value = false
was_action_applied (threw error) = false

abbrev pub is_thrown : Answer → Bool
is_thrown (threw error) = true
is_thrown a = false

-- `Number.MAX_SAFE_INTEGER`.
abbrev pub qos_max_seq : ℕ
qos_max_seq = 2 ^ 53 - 1

abbrev error_of : Answer → Option Text → Option Text
error_of (threw error) last = some error
error_of a last = last

-- What of a sample the traces of its actions tell.
pub record Moment (W : Type 0) : Type 0 where
  pub signals : Signals W
  pub now_ms : ℕ
  pub state_before : QosState
  pub state_after : QosState

abbrev running_probe_of : Option Probe → Option TraceProbe
running_probe_of none = none
running_probe_of (some p) = some (running_probe p.previous_level p.target_level)

module _ {W : Type 0} where
  -- The level and the mode after an action, if it was applied.
  unfoldable pub settle_action : Action W → Bool → Controller W → Controller W
  settle_action a applied c =
      if applied
      then record c {
        current_level = level_of a;
        in_audio_only_mode =
            if is_enter a then true else if is_exit a then false else c.in_audio_only_mode;
      }
      else c

  unfoldable pub trace_action :
      Moment W → Action W → Bool → Option TraceProbe → Controller W → Controller W
  trace_action m a applied probe c = record c {
    trace = append c.trace (record {
      seq = c.seq + 1;
      ts_ms = m.now_ms;
      track_id = c.track_id;
      source = c.profile.source;
      state_before = m.state_before;
      state_after = m.state_after;
      reason = m.signals.reason;
      signals = reported m.signals;
      action_type = type_of a;
      action_level = level_of a;
      applied = applied;
      probe = probe;
    });
  }

  -- One round of the loop of `executeActions`: a `noop` is not handed to the executor.
  unfoldable pub execute_action : Moment W → Action W → Answer → Controller W → Controller W
  unfolding settle_action trace_action was_action_applied
  execute_action m a answer c =
      let applied = is_noop a || was_action_applied answer in
      let error = if is_noop a then c.last_sample_error else error_of answer c.last_sample_error in
      let noted = record c { last_sample_error = error; last_action = some (type_of a, applied) } in
      trace_action m a applied (running_probe_of c.probe_context) (settle_action a applied noted)

  -- The executor's answer may depend on the action and on its place in the row.
  unfoldable pub execute_from :
      Moment W → (ℕ → Action W → Answer) → ℕ → List (Action W) → Controller W → Controller W
  execute_from m answers n [] c = c
  execute_from m answers n (a ∷ actions) c =
      execute_from m answers (suc n) actions (execute_action m a (answers n a) c)

abbrev pub resolve_peer_mode : Bool → TrackKind → PeerMode
resolve_peer_mode true kind = audio_only
resolve_peer_mode false TrackKind.audio = audio_only
resolve_peer_mode false TrackKind.video = audio_video

abbrev publish_error : Option Text → Option Text → Option Text
publish_error none last = last
publish_error (some error) last = some error

module _ {W : Type 0} ⦃num : Number W⦄ where
  abbrev pub starts_probe : List (Action W) → Controller W → Controller W → Bool
  starts_probe actions before after =
      any (λ a. not (is_noop a)) actions
      && (ltb after.current_level before.current_level
          || (before.in_audio_only_mode && not after.in_audio_only_mode))

  unfoldable pub execute_actions :
      Moment W → (ℕ → Action W → Answer) → List (Action W) → Controller W → Controller W
  unfolding execute_from execute_action is_strong_recovery_signal
  execute_actions m answers actions c =
      let after = execute_from m answers 0 actions c in
      let strong =
        ltb 0 c.recovery_probe_success_streak && is_strong_recovery_signal m.signals c.profile in
      let probe =
        begin_probe c.current_level after.current_level m.now_ms c.in_audio_only_mode
          after.in_audio_only_mode (some (if strong then 2 else 3)) none in
      if starts_probe actions c after then record after { probe_context = some probe } else after

  -- The loop of `rollbackProbe`. Every action goes to the executor, and an error ends the whole call.
  unfoldable pub revert_from :
      Moment W
      → Probe
      → (ℕ → Action W → Answer)
      → ℕ
      → List (Action W)
      → Controller W
      → Settled (Controller W)
  unfolding settle_action trace_action was_action_applied
  revert_from m p answers n [] c = completed c
  revert_from m p answers n (a ∷ actions) c =
      let applied = was_action_applied (answers n a) in
      let next =
        trace_action m a applied (some (failed_probe p.previous_level p.target_level))
          (settle_action a applied c) in
      let rest = revert_from m p answers (suc n) actions next in
      if is_thrown (answers n a) then failed_at c else rest

  abbrev pub then_congested : ℕ → Settled (Controller W) → Settled (Controller W)
  then_congested now (failed_at c) = failed_at c
  then_congested now (completed c) = completed (record c {
    state_context = record (c.state_context) {
      state = congested;
      entered_at_ms = now;
      last_congested_at_ms = some now;
    };
  })

  abbrev pub rollback_input : Controller W → PlannerInput W
  rollback_input c = record {
    source = c.profile.source;
    profile = c.profile;
    state = congested;
    current_level = pos c.current_level;
    override_clamp_level = none;
    in_audio_only_mode = c.in_audio_only_mode;
  }

  unfoldable pub rollback_probe :
      Moment W → Probe → (ℕ → Action W → Answer) → Controller W → Settled (Controller W)
  unfolding revert_from
  rollback_probe m p answers c = then_congested m.now_ms (
      revert_from m p answers 0 (plan_actions_for_level (rollback_input c) (pos p.previous_level))
        c)

  unfoldable pub report_of : RawSnapshot W → Signals W → Quality → ℕ → ℕ → Controller W → Report W
  report_of raw s quality now seq c = record {
    seq = seq;
    ts_ms = now;
    mode = resolve_peer_mode c.in_audio_only_mode c.kind;
    quality = quality;
    stale = false;
    track_id = c.track_id;
    producer_id = c.producer_id;
    kind = c.kind;
    source = c.profile.source;
    state = c.state_context.state;
    reason = s.reason;
    ladder_level = c.current_level;
    signals = reported s;
    frame_width = raw.frame_width;
    frame_height = raw.frame_height;
    frames_per_second = raw.frames_per_second;
    quality_limitation_reason = raw.quality_limitation_reason;
    last_action = c.last_action;
  }

  -- `publishSnapshot`: the controller, with its next sequence number, and the report that went out.
  -- The channel's error, if it throws, is kept and not passed on.
  unfoldable pub publish_snapshot :
      RawSnapshot W
      → Signals W
      → Quality
      → ℕ
      → (Report W → Option Text)
      → Controller W
      → Controller W × Option (Report W)
  unfolding report_of
  publish_snapshot raw s quality now channel c =
      let next_seq = if leb qos_max_seq c.seq then 0 else c.seq + 1 in
      let report = report_of raw s quality now next_seq c in
      if c.has_channel
      then (
        record c {
          seq = next_seq;
          last_sample_error = publish_error (channel report) c.last_sample_error;
        },
        some report,
      )
      else (c, none)
