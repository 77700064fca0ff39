-- ===== src/Controller/Filter.antt =====
-- The pure parts of `processSample` in src/client/lib/qos/controller.js: what the overrides ask for,
-- the signals that the state machine sees, and the actions that are let through.
use mediasoup_cpp.Shared.{
  ℕ, ℤ, pos, min, Bool, true, false, not, ◌&&◌, ◌||◌, Option, none, some, List, [], ◌∷◌, Text,
  codes, any, Number, ltb, if◌then◌else◌,
}
use mediasoup_cpp.Types.{
  camera, source_eq, congested, state_eq, Signals, Thresholds, Profile, Action, is_enter, is_exit,
}
use mediasoup_cpp.StateMachine.{recovery_jitter_ms, raw_jitter_ms, send_ready}
use mediasoup_cpp.Probe.{Probe}
use mediasoup_cpp.Overrides.{Override}
use mediasoup_cpp.Planner.{resolve_max_level}
use mediasoup_cpp.Controller.State.{Controller, Coordination}

abbrev pub override_flag : (Override → Bool) → Option Override → Bool
override_flag f none = false
override_flag f (some o) = f o

abbrev pub coordination_flag : (Coordination → Bool) → Option Coordination → Bool
coordination_flag f none = false
coordination_flag f (some o) = f o

abbrev override_clamp : Option Override → Option ℕ
override_clamp none = none
override_clamp (some o) = o.max_level_clamp

abbrev coordination_clamp : Option Coordination → Option ℕ
coordination_clamp none = none
coordination_clamp (some o) = o.max_level_clamp

abbrev least : Option ℕ → Option ℕ → Option ℤ
least none none = none
least (some a) none = some (pos a)
least none (some b) = some (pos b)
least (some a) (some b) = some (pos (min a b))

-- `combinedClampLevel`.
abbrev pub combined_clamp_level : Option Override → Option Coordination → Option ℤ
combined_clamp_level o c = least (override_clamp o) (coordination_clamp c)

-- `typeof until === 'number' && now < until`.
abbrev pub is_before : ℕ → Option ℕ → Bool
is_before now none = false
is_before now (some until) = ltb now until

abbrev pub is_probing : Option Probe → Bool
is_probing none = false
is_probing (some p) = p.active

module _ {W : Type 0} where
  abbrev pub recovery_disabled : Controller W → Option Override → ℕ → Bool
  recovery_disabled c o now =
      coordination_flag (λ k. k.disable_recovery) c.coordination_override
      || override_flag (λ k. k.disable_recovery) o
      || is_before now c.recovery_suppressed_until_ms

module _ {W : Type 0} ⦃num : Number W⦄ where
  open num use {decimal, infinity, is_finite, lt, le, max_of, min_of, minus}

  unfoldable pub is_strong_recovery_signal : Signals W → Profile W → Bool
  is_strong_recovery_signal s p =
      lt s.loss_ewma p.thresholds.stable_loss_rate
      && lt s.rtt_ewma p.thresholds.stable_rtt_ms
      && lt (raw_jitter_ms s) (recovery_jitter_ms p.thresholds)
      && send_ready s
      && not s.bandwidth_limited
      && not s.cpu_limited

  -- `Math.min(jitter, Math.max(0, stableJitterMs - 0.001))`, if there is such a threshold.
  abbrev calm_jitter : Option W → W → W
  calm_jitter none jitter = jitter
  calm_jitter (some stable) jitter =
      if is_finite stable
      then min_of jitter (max_of (decimal 0 0) (minus stable (decimal 1 3)))
      else jitter

  abbrev network_recovered : Signals W → Thresholds W → Bool
  network_recovered s t =
      lt s.loss_ewma t.stable_loss_rate
      && lt s.rtt_ewma t.stable_rtt_ms
      && not s.bandwidth_limited
      && not s.cpu_limited

  abbrev calmed : Thresholds W → Signals W → Signals W
  calmed t s = record s { jitter_ewma = calm_jitter t.stable_jitter_ms s.jitter_ewma }

  unfoldable pub get_transition_signals : Controller W → Signals W → Option Override → ℕ → Signals W
  get_transition_signals c s o now =
      let t = c.profile.thresholds in
      let recovered = network_recovered s t in
      let probing = is_probing c.probe_context || is_before now c.recovery_probe_grace_until_ms in
      let seen = if probing && recovered then calmed t s else s in
      let forced =
        override_flag (λ k. k.force_audio_only) o
        || coordination_flag (λ k. k.force_audio_only) c.coordination_override in
      if not c.in_audio_only_mode || not (state_eq c.state_context.state congested)
      then seen
      else if forced || not recovered
      then seen
      else record (calmed t seen) {
        bitrate_utilization = max_of seen.bitrate_utilization t.stable_bitrate_utilization;
      }

abbrev pub pause_reason : Text
pause_reason = codes "downlink_v3_zero_demand_pause"

abbrev pub resume_reason : Text
resume_reason = codes "downlink_v3_demand_resumed"

abbrev pub policy_reason : Text
policy_reason = codes "filtered-by-policy"

module _ {W : Type 0} where
  abbrev pub audio_only_allowed : Controller W → Bool
  audio_only_allowed c = c.allow_audio_only && c.allow_video_pause

  -- The first loop: changes of the audio-only mode are dropped where the policy forbids them.
  unfoldable pub drop_forbidden : Bool → List (Action W) → List (Action W)
  drop_forbidden allowed [] = []
  drop_forbidden allowed (a ∷ actions) =
      let kept = drop_forbidden allowed actions in
      if (is_enter a || is_exit a) && not allowed then kept else a ∷ kept

  -- `filtered.unshift(action)`, under a test.
  unfoldable pub put_first : Bool → Action W → List (Action W) → List (Action W)
  put_first true a actions = a ∷ actions
  put_first false a actions = actions

  unfoldable pub or_noop : ℕ → List (Action W) → List (Action W)
  or_noop level [] = Action.noop level (some policy_reason) ∷ []
  or_noop level (a ∷ actions) = a ∷ actions

  abbrev pub pause_active : Controller W → Option Override → Bool
  pause_active c o =
      override_flag (λ k. k.pause_upstream) o
      || coordination_flag (λ k. k.pause_upstream) c.coordination_override

  abbrev pub resume_active : Controller W → Option Override → Bool
  resume_active c o =
      override_flag (λ k. k.resume_upstream) o
      || coordination_flag (λ k. k.resume_upstream) c.coordination_override

  abbrev pub force_active : Controller W → Option Override → Bool
  force_active c o =
      override_flag (λ k. k.force_audio_only) o
      || coordination_flag (λ k. k.force_audio_only) c.coordination_override

  unfoldable pub filter_actions : Controller W → Option Override → List (Action W) → List (Action W)
  unfolding drop_forbidden
  filter_actions c o actions =
      let allowed = audio_only_allowed c in
      let level = c.current_level in
      let is_camera = source_eq c.profile.source camera in
      let can_enter = not c.in_audio_only_mode && is_camera && allowed in
      let can_exit = c.in_audio_only_mode && is_camera && allowed in
      let paused = pause_active c o in
      let dropped = drop_forbidden allowed actions in
      let pausing =
        put_first (paused && can_enter) (Action.enter_audio_only level (some pause_reason))
          dropped in
      let resuming =
        put_first (resume_active c o && can_exit && not paused)
          (Action.exit_audio_only level (some resume_reason)) pausing in
      let forcing =
        put_first (override_flag (λ k. k.force_audio_only) o && can_enter)
          (Action.enter_audio_only level none) resuming in
      let coordinating =
        put_first (coordination_flag (λ k. k.force_audio_only) c.coordination_override && can_enter)
          (Action.enter_audio_only level none) forcing in
      let leaving =
        can_exit
        && ltb level (resolve_max_level c.profile)
        && not (force_active c o)
        && not paused
        && not (any is_exit coordinating) in
      or_noop level (put_first leaving (Action.exit_audio_only level none) coordinating)
