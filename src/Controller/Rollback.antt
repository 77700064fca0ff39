-- ===== src/Controller/Rollback.antt =====
-- A failed probe is taken back: `rollbackProbe` and the lines after it in
-- src/client/lib/qos/controller.js.
use mediasoup_cpp.Shared.{
  ℕ, suc, pos, ◌+◌, ◌≡◌, refl, Bool, true, false, Option, none, some, List, [], ◌∷◌, All, arith,
  Number, ap, ◌∙◌,
}
use mediasoup_cpp.Types.{RawSnapshot, Action, level_of, congested}
use mediasoup_cpp.StateMachine.{Transition}
use mediasoup_cpp.Probe.{Probe, ProbeResult, failed, evaluate_probe}
use mediasoup_cpp.Overrides.{Override}
use mediasoup_cpp.Planner.{clamp_level, resolve_max_level}
use mediasoup_cpp.Planner.Levels.{AtLevel, plan_actions_for_level-AtLevel}
use mediasoup_cpp.Controller.State.{Controller, failed_probe}
use mediasoup_cpp.Controller.Settings.{Settled, completed, failed_at}
use mediasoup_cpp.Controller.Actions.{
  Answer, was_action_applied, is_thrown, Moment, settle_action, trace_action, revert_from,
  rollback_input, then_congested, rollback_probe,
}
use mediasoup_cpp.Controller.Process.{
  Outcome, processed, rolled_back, rejected, World, process_sample, prepare, dispatch, outcome_of,
  suppress_recovery, signals_of, transition_of,
}

module _ {W : Type 0} where
  -- The executor carries every action out.
  pub record Obeys (answers : ℕ → Action W → Answer) : Type 0 where
    pub applies : (n : ℕ) (a : Action W) → was_action_applied (answers n a) ≡ true
    pub returns : (n : ℕ) (a : Action W) → is_thrown (answers n a) ≡ false

  abbrev Lands : ℕ → Controller W → Settled (Controller W) → Type 0
  Lands level before (completed c) = (c.current_level ≡ level) × (c.profile ≡ before.profile)
  Lands level before (failed_at c) = ⊥

  -- The sample ended in a rollback to the level, and recovery is put off.
  abbrev pub RolledBack : ℕ → ℕ → Outcome W → Type 0
  RolledBack level until (rolled_back c) =
      (c.current_level ≡ level)
      × (c.state_context.state ≡ congested)
      × (c.probe_context ≡ none)
      × (c.recovery_suppressed_until_ms ≡ some until)
  RolledBack level until (processed c report) = ⊥
  RolledBack level until (rejected c) = ⊥

  settle_action_applied :
      (m : Moment W) (a : Action W) (applied : Bool) (c : Controller W) (l : ℕ) (q : Probe)
      → applied ≡ true
      → level_of a ≡ l
      → let next =
          trace_action m a applied
            (some (failed_probe q.previous_level q.target_level))
            (settle_action a applied c) in
        (next.current_level ≡ l) × (next.profile ≡ c.profile)
  unfolding settle_action trace_action
  settle_action_applied m a applied c l q e h = ground arith

module _ {W : Type 0} ⦃num : Number W⦄ where
  revert_from-Lands :
      (m : Moment W) (q : Probe) (answers : ℕ → Action W → Answer) (n l : ℕ)
      (actions : List (Action W)) (before c : Controller W)
      → Obeys answers
      → All (AtLevel l) actions
      → (actions ≡ [] → c.current_level ≡ l)
      → c.profile ≡ before.profile
      → Lands l before (revert_from m q answers n actions c)
  unfolding revert_from
  revert_from-Lands m q answers n l [] before c obeys h k e = (k refl, e)
  revert_from-Lands m q answers n l (a ∷ actions) before c obeys (h, hs) k e =
      let landed =
        settle_action_applied m a (was_action_applied (answers n a)) c l q (obeys.applies n a) h in
      rw (obeys.returns n a) (
        revert_from-Lands m q answers (suc n) l actions before _ obeys hs (λ empty. landed.0)
          (landed.1 ∙ e))

  then_congested-RolledBack :
      (now l : ℕ) (before : Controller W) (s : Settled (Controller W))
      → Lands l before s
      → RolledBack l
          (now + before.profile.recovery_cooldown_ms)
          (outcome_of (then_congested now s) (suppress_recovery now))
  unfolding outcome_of
  then_congested-RolledBack now l before (completed c) (h, e) =
      (h, refl, refl, ap (λ p. some (now + p.recovery_cooldown_ms)) e)
  then_congested-RolledBack now l before (failed_at c) h = ground arith

  rollback_probe-RolledBack :
      (m : Moment W) (q : Probe) (answers : ℕ → Action W → Answer) (c : Controller W)
      → Obeys answers
      → RolledBack
          (clamp_level (pos q.previous_level) (resolve_max_level c.profile))
          (m.now_ms + c.profile.recovery_cooldown_ms)
          (outcome_of (rollback_probe m q answers c) (suppress_recovery m.now_ms))
  unfolding rollback_probe
  rollback_probe-RolledBack m q answers c obeys =
      let planned = plan_actions_for_level-AtLevel (rollback_input c) (pos q.previous_level) in
      then_congested-RolledBack m.now_ms _ c _ (
        revert_from-Lands m q answers 0 _ _ c c obeys planned.0 (λ empty. absurd (planned.1 empty))
          refl)

  dispatch-RolledBack :
      (raw : RawSnapshot W) (m : Moment W) (o : Option Override) (t : Transition) (world : World W)
      (probe : Option Probe) (q : Probe) (verdict : ProbeResult) (next : Option Probe)
      (c : Controller W)
      → probe ≡ some q
      → verdict ≡ failed
      → Obeys world.executor
      → RolledBack
          (clamp_level (pos q.previous_level) (resolve_max_level c.profile))
          (m.now_ms + c.profile.recovery_cooldown_ms)
          (dispatch raw m o t world probe verdict next c)
  unfolding dispatch
  dispatch-RolledBack raw m o t world probe q verdict next c p v obeys =
      rw p (rw v (rollback_probe-RolledBack _ q world.executor c obeys))

  -- Where the sample fails the probe that was under way and the executor carries out what it is told,
  -- the sample ends with the track at the level from which the probe had set out, as far as the ladder
  -- has it, the machine congested, no probe, and recovery put off by the cooldown of the profile.
  pub process_sample-RolledBack :
      (raw : RawSnapshot W) (now : ℕ) (world : World W) (c : Controller W) (q : Probe)
      → c.probe_context ≡ some q
      → (evaluate_probe (some q) (signals_of raw now c) c.profile).result ≡ failed
      → Obeys world.executor
      → RolledBack
          (clamp_level (pos q.previous_level) (resolve_max_level c.profile))
          (now + c.profile.recovery_cooldown_ms)
          (process_sample raw now world c)
  unfolding process_sample prepare
  process_sample-RolledBack raw now world c q p v obeys =
      dispatch-RolledBack raw _ _ (transition_of raw now c) world c.probe_context q _ _ _ p (rw p v)
        obeys
