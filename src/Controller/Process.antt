-- ===== src/Controller/Process.antt =====
-- `processSample` of src/client/lib/qos/controller.js, from the raw snapshot of a sample to the report.
use mediasoup_cpp.Shared.{
  ℕ, ◌+◌, ◌*◌, pos, Bool, true, false, not, ◌&&◌, ◌||◌, Option, none, some, or_else, List, [], ◌∷◌,
  Text, codes, Number, ltb, leb, ◌==◌, if◌then◌else◌,
}
use mediasoup_cpp.Types.{
  QosState, early_warning, congested, recovering, state_eq, LimitationReason, limitation_eq,
  RawSnapshot, Signals, Action,
}
use mediasoup_cpp.StateMachine.{Transition, evaluate_state_transition}
use mediasoup_cpp.Signals.{derive_signals}
use mediasoup_cpp.Probe.{Probe, ProbeResult, inconclusive, failed, successful, evaluate_probe}
use mediasoup_cpp.Overrides.{Override, get_active_override}
use mediasoup_cpp.Planner.{PlannerInput, plan_actions, plan_recovery}
use mediasoup_cpp.Controller.State.{Report, Controller}
use mediasoup_cpp.Controller.Settings.{Settled, completed, failed_at}
use mediasoup_cpp.Controller.Filter.{
  is_probing, recovery_disabled, combined_clamp_level, is_strong_recovery_signal,
  get_transition_signals, filter_actions,
}
use mediasoup_cpp.Controller.Actions.{
  Answer, Moment, execute_actions, rollback_probe, publish_snapshot,
}

-- A sample is processed to its end, perhaps with a report; or it is cut short.
pub data Outcome (W : Type 0) : Type 0 where
  processed : Controller W → Option (Report W) → Outcome W
  -- After a probe has failed and its step has been taken back.
  rolled_back : Controller W → Outcome W
  -- The executor threw while the step was being taken back; nothing catches the error.
  rejected : Controller W → Outcome W

-- What the world answers during a sample: the executor, at the places of the row of actions, and the
-- channel.
pub record World (W : Type 0) : Type 0 where
  pub executor : ℕ → Action W → Answer
  pub channel : Report W → Option Text

abbrev pub is_active : Option Override → Bool
is_active none = false
is_active (some o) = true

abbrev bad_samples_of : Option Probe → ℕ
bad_samples_of none = 0
bad_samples_of (some p) = p.bad_samples

module _ {W : Type 0} where
  unfoldable pub outcome_of : Settled (Controller W) → (Controller W → Controller W) → Outcome W
  outcome_of (completed c) f = rolled_back (f c)
  outcome_of (failed_at c) f = rejected c

  -- The lines that follow `rollbackProbe`.
  abbrev pub suppress_recovery : ℕ → Controller W → Controller W
  suppress_recovery now c = record c {
    probe_context = none;
    recovery_probe_success_streak = 0;
    recovery_probe_grace_until_ms = none;
    recovery_suppressed_until_ms = some (now + c.profile.recovery_cooldown_ms);
  }

  abbrev count_cpu : RawSnapshot W → ℕ → ℕ
  count_cpu raw count =
      if limitation_eq (or_else raw.quality_limitation_reason LimitationReason.unknown)
        LimitationReason.cpu
      then count + 1
      else 0

  unfoldable pub reset_streak : Controller W → Controller W
  reset_streak c =
      if not (is_probing c.probe_context)
        && (state_eq c.state_context.state congested || c.current_level == 0)
      then record c { recovery_probe_success_streak = 0 }
      else c

abbrev pub planning_state : QosState → QosState
planning_state recovering = early_warning
planning_state s = s

abbrev pub probe_in_progress : Text
probe_in_progress = codes "probe-in-progress"

module _ {W : Type 0} ⦃num : Number W⦄ where
  abbrev pub input_of : Controller W → Option Override → QosState → PlannerInput W
  input_of c o state = record {
    source = c.profile.source;
    profile = c.profile;
    state = state;
    current_level = pos c.current_level;
    override_clamp_level = combined_clamp_level o c.coordination_override;
    in_audio_only_mode = c.in_audio_only_mode;
  }

  -- `plannedActions`.
  unfoldable pub plan_sample : Controller W → Option Override → ℕ → List (Action W)
  plan_sample c o now =
      let state = c.state_context.state in
      if is_probing c.probe_context
      then Action.noop c.current_level (some probe_in_progress) ∷ []
      else if state_eq state recovering && not (recovery_disabled c o now)
      then plan_recovery (input_of c o state)
      else plan_actions (input_of c o (planning_state state))

  -- A probe that succeeded: the streak, the grace period and the end of the probe.
  unfoldable pub conclude_probe : Moment W → Option Probe → Controller W → Controller W
  conclude_probe m p c =
      let strong =
        is_strong_recovery_signal m.signals c.profile
        && bad_samples_of p == 0
        && (state_eq m.state_before recovering
            || state_eq c.state_context.state recovering
            || ltb 0 c.recovery_probe_success_streak)
        && ltb 0 c.current_level in
      record c {
        recovery_probe_success_streak = if strong then c.recovery_probe_success_streak + 1 else 0;
        recovery_probe_grace_until_ms =
            if strong then some (m.now_ms + c.sample_interval_ms * 3) else none;
        probe_context = none;
      }

  abbrev pub is_due : ℕ → Controller W → Bool → Bool
  is_due now c transitioned = transitioned || overdue c.last_published_at_ms
    where
      overdue : Option ℕ → Bool
      overdue none = true
      overdue (some last) = leb (last + c.snapshot_interval_ms) now

  unfoldable pub finish :
      RawSnapshot W → Signals W → ℕ → Controller W × Option (Report W) → Bool → Outcome W
  finish raw s now (c, report) due =
      processed
        (record c {
          last_published_at_ms = if due then some now else c.last_published_at_ms;
          previous_snapshot = some raw;
          previous_signals = some s;
        })
        report

  -- Planning, execution and the report, once the probe has been dealt with.
  unfoldable pub act :
      RawSnapshot W → Moment W → Option Override → Transition → World W → Controller W → Outcome W
  unfolding plan_sample
  act raw m o t world c =
      let ready = reset_streak c in
      let actions = filter_actions ready o (plan_sample ready o m.now_ms) in
      let acted = execute_actions m world.executor actions ready in
      let due = is_due m.now_ms acted t.transitioned in
      finish raw m.signals m.now_ms
        (if due
          then publish_snapshot raw m.signals t.quality m.now_ms world.channel acted
          else (acted, none))
        due

  -- What the verdict on the probe leads to.
  unfoldable pub dispatch :
      RawSnapshot W
      → Moment W
      → Option Override
      → Transition
      → World W
      → Option Probe
      → ProbeResult
      → Option Probe
      → Controller W
      → Outcome W
  dispatch raw m o t world (some p) failed next c =
      outcome_of (rollback_probe (record m { state_after = congested }) p world.executor c)
        (suppress_recovery m.now_ms)
  dispatch raw m o t world none failed next c = act raw m o t world c
  dispatch raw m o t world p successful next c = act raw m o t world (conclude_probe m next c)
  dispatch raw m o t world p inconclusive next c =
      act raw m o t world (record c { probe_context = next })

  -- The first half: overrides, signals and the state machine.
  abbrev pub override_at : ℕ → Controller W → Option Override
  override_at now c = (get_active_override now c.active_overrides).1

  unfoldable pub signals_of : RawSnapshot W → ℕ → Controller W → Signals W
  signals_of raw now c = derive_signals raw c.previous_snapshot c.previous_signals none (record {
    active_override = is_active (override_at now c);
    manual_override = false;
    cpu_sample_count = count_cpu raw c.cpu_sample_count;
  })

  unfoldable pub transition_of : RawSnapshot W → ℕ → Controller W → Transition
  unfolding signals_of
  transition_of raw now c =
      evaluate_state_transition c.state_context
        (get_transition_signals c (signals_of raw now c) (override_at now c) now) c.profile now

  unfoldable pub prepare : RawSnapshot W → ℕ → Controller W → Controller W
  unfolding transition_of
  prepare raw now c = record c {
    active_overrides = (get_active_override now c.active_overrides).0;
    cpu_sample_count = count_cpu raw c.cpu_sample_count;
    state_context = (transition_of raw now c).context;
  }

  unfoldable pub process_sample : RawSnapshot W → ℕ → World W → Controller W → Outcome W
  unfolding prepare act dispatch
  process_sample raw now world c =
      let ready = prepare raw now c in
      let m : Moment W = record {
        signals = signals_of raw now c;
        now_ms = now;
        state_before = c.state_context.state;
        state_after = ready.state_context.state;
      } in
      let verdict = evaluate_probe ready.probe_context m.signals ready.profile in
      dispatch raw m (override_at now c) (transition_of raw now c) world ready.probe_context
        verdict.result verdict.context ready
