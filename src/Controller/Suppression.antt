-- ===== src/Controller/Suppression.antt =====
-- Recovery that is disabled: `disableRecovery` of `processSample` in
-- src/client/lib/qos/controller.js.
use mediasoup_cpp.Shared.{
  ℕ, pos, ◌≤◌, ◌≡◌, refl, Bool, true, false, not, ◌&&◌, Option, none, List, ◌⊎◌, All, All-if,
  All-weaken, arith, Number, if◌then◌else◌,
}
use mediasoup_cpp.Types.{
  QosState, stable, early_warning, congested, recovering, state_eq, Action, level_of,
}
use mediasoup_cpp.Overrides.{Override}
use mediasoup_cpp.Planner.{PlannerInput, clamp_level, resolve_max_level, plan_actions}
use mediasoup_cpp.Planner.Levels.{AtLevel, planned_level, plan_actions-Carries}
use mediasoup_cpp.Controller.State.{Controller}
use mediasoup_cpp.Controller.Filter.{recovery_disabled, combined_clamp_level, is_probing}
use mediasoup_cpp.Controller.Process.{plan_sample, input_of, planning_state}

degrading_state :
    (s : QosState)
    → state_eq s stable ≡ false
    → (planning_state s ≡ early_warning) ⊎ (planning_state s ≡ congested)
degrading_state s h = ground arith

module _ {W : Type 0} ⦃num : Number W⦄ where
  planned_level-ge :
      (i : PlannerInput W) (l : ℕ)
      → i.current_level ≡ pos l
      → l ≤ resolve_max_level i.profile
      → i.override_clamp_level ≡ none
      → (i.state ≡ early_warning) ⊎ (i.state ≡ congested)
      → l ≤ planned_level i
  unfolding clamp_level
  planned_level-ge i l e h n s = ground arith

  plan_actions-ge :
      (i : PlannerInput W) (l : ℕ)
      → i.current_level ≡ pos l
      → l ≤ resolve_max_level i.profile
      → i.override_clamp_level ≡ none
      → (i.state ≡ early_warning) ⊎ (i.state ≡ congested)
      → All (λ a. l ≤ level_of a) (plan_actions i)
  plan_actions-ge i l e h n s =
      All-weaken (AtLevel (planned_level i)) _ (plan_actions i)
        (λ a at. rw at (planned_level-ge i l e h n s)) (plan_actions-Carries i).0

  else-All :
      (P : Action W → Type 0) (test : Bool) (xs ys : List (Action W))
      → test ≡ false
      → All P ys
      → All P (if test then xs else ys)
  else-All P test xs ys e h = rw e h

  -- While recovery is disabled, and the machine is not stable, no planned action is for a better level
  -- than the present one, unless a clamp asks for it.
  pub plan_sample_disabled :
      (c : Controller W) (o : Option Override) (now : ℕ)
      → c.current_level ≤ resolve_max_level c.profile
      → combined_clamp_level o c.coordination_override ≡ none
      → recovery_disabled c o now ≡ true
      → state_eq c.state_context.state stable ≡ false
      → All (λ a. c.current_level ≤ level_of a) (plan_sample c o now)
  unfolding plan_sample
  plan_sample_disabled c o now h n d s =
      let better : Action W → Type 0 = λ a. c.current_level ≤ level_of a in
      let i : PlannerInput W = input_of c o (planning_state c.state_context.state) in
      All-if better (is_probing c.probe_context) _ _ (omega arith, tt)
        (else-All better
          (state_eq c.state_context.state recovering && not (recovery_disabled c o now)) _ _
          (ground (arith, d)) (plan_actions-ge i c.current_level refl h n (degrading_state _ s)))
