-- ===== src/Controller/Levels.antt =====
-- The levels of the actions that src/client/lib/qos/controller.js plans, filters and executes, and the
-- level of a track that is left on its ladder by each.
use mediasoup_cpp.Shared.{
  ℕ, suc, ℤ, ◌≤◌, ◌≡◌, Bool, not, ◌&&◌, Option, some, List, [], ◌∷◌, All, All-weaken, All-if, arith,
  Number, pos, subst,
}
use mediasoup_cpp.Types.{Profile, Action, level_of, recovering, state_eq}
use mediasoup_cpp.Probe.{Probe}
use mediasoup_cpp.Overrides.{Override}
use mediasoup_cpp.Planner.{
  PlannerInput, resolve_max_level, plan_actions, plan_recovery, plan_actions_for_level,
}
use mediasoup_cpp.Planner.Levels.{plan_actions_bounds, plan_actions_for_level-AtLevel}
use mediasoup_cpp.Planner.Ladder.{clamp_level-le}
use mediasoup_cpp.Controller.State.{Controller, TraceProbe, failed_probe}
use mediasoup_cpp.Controller.Settings.{Settled, completed, failed_at}
use mediasoup_cpp.Controller.Filter.{
  filter_actions, audio_only_allowed, is_probing, recovery_disabled,
}
use mediasoup_cpp.Controller.Policy.{drop_forbidden-All, filter_actions-All}
use mediasoup_cpp.Controller.Actions.{
  Answer, Moment, settle_action, trace_action, was_action_applied, execute_action, execute_from,
  execute_actions, revert_from, rollback_probe, rollback_input, then_congested,
}
use mediasoup_cpp.Controller.Process.{
  Outcome, processed, rolled_back, rejected, plan_sample, input_of, planning_state,
}

module _ {W : Type 0} where
  -- The track is on the ladder of the profile `p`, which is the controller's.
  pub record IsOnLadder (p : Profile W) (c : Controller W) : Type 0 where
    pub same_profile : c.profile ≡ p
    pub level_le : c.current_level ≤ resolve_max_level p

  abbrev pub Within : ℕ → Action W → Type 0
  Within m a = level_of a ≤ m

  pub filter_actions-Within :
      (m : ℕ) (c : Controller W) (o : Option Override) (actions : List (Action W))
      → c.current_level ≤ m
      → All (Within m) actions
      → All (Within m) (filter_actions c o actions)
  filter_actions-Within m c o actions l h =
      filter_actions-All (Within m) c o actions l (λ reason allowed. (l, l))
        (drop_forbidden-All (Within m) (audio_only_allowed c) actions h)

  -- An action that is carried out or refused, and traced.
  after-IsOnLadder :
      (p : Profile W) (m : Moment W) (a : Action W) (applied : Bool) (probe : Option TraceProbe)
      (c : Controller W)
      → Within (resolve_max_level p) a
      → IsOnLadder p c
      → IsOnLadder p (trace_action m a applied probe (settle_action a applied c))
  unfolding trace_action settle_action
  after-IsOnLadder p m a applied probe c h l = ground arith

  execute_action-IsOnLadder :
      (p : Profile W) (m : Moment W) (a : Action W) (answer : Answer) (c : Controller W)
      → Within (resolve_max_level p) a
      → IsOnLadder p c
      → IsOnLadder p (execute_action m a answer c)
  unfolding execute_action
  execute_action-IsOnLadder p m a answer c h l = ground arith

  execute_from-IsOnLadder :
      (p : Profile W) (m : Moment W) (answers : ℕ → Action W → Answer) (n : ℕ)
      (actions : List (Action W)) (c : Controller W)
      → All (Within (resolve_max_level p)) actions
      → IsOnLadder p c
      → IsOnLadder p (execute_from m answers n actions c)
  unfolding execute_from
  execute_from-IsOnLadder p m answers n [] c h l = l
  execute_from-IsOnLadder p m answers n (a ∷ actions) c (h, hs) l =
      execute_from-IsOnLadder p m answers (suc n) actions (execute_action m a (answers n a) c) hs
        (execute_action-IsOnLadder p m a (answers n a) c h l)

  -- A settled call leaves the track on the ladder, thrown or not.
  abbrev pub SettledOn : Profile W → Settled (Controller W) → Type 0
  SettledOn p (completed c) = IsOnLadder p c
  SettledOn p (failed_at c) = IsOnLadder p c

  abbrev pub OutcomeOn : Profile W → Outcome W → Type 0
  OutcomeOn p (processed c report) = IsOnLadder p c
  OutcomeOn p (rolled_back c) = IsOnLadder p c
  OutcomeOn p (rejected c) = IsOnLadder p c

module _ {W : Type 0} ⦃num : Number W⦄ where
  pub execute_actions-IsOnLadder :
      (p : Profile W) (m : Moment W) (answers : ℕ → Action W → Answer) (actions : List (Action W))
      (c : Controller W)
      → All (Within (resolve_max_level p)) actions
      → IsOnLadder p c
      → IsOnLadder p (execute_actions m answers actions c)
  unfolding execute_actions
  execute_actions-IsOnLadder p m answers actions c h l =
      ground (arith, execute_from-IsOnLadder p m answers 0 actions c h l)

  revert_from-SettledOn :
      (p : Profile W) (m : Moment W) (q : Probe) (answers : ℕ → Action W → Answer) (n : ℕ)
      (actions : List (Action W)) (c : Controller W)
      → All (Within (resolve_max_level p)) actions
      → IsOnLadder p c
      → SettledOn p (revert_from m q answers n actions c)
  unfolding revert_from
  revert_from-SettledOn p m q answers n [] c h l = l
  revert_from-SettledOn p m q answers n (a ∷ actions) c (h, hs) l = ground (
    arith,
    l,
    revert_from-SettledOn p m q answers (suc n) actions
        (trace_action m a (was_action_applied (answers n a))
          (some (failed_probe q.previous_level q.target_level))
          (settle_action a (was_action_applied (answers n a)) c))
        hs (after-IsOnLadder p m a (was_action_applied (answers n a)) _ c h l),
  )

  plan_actions-Within :
      (i : PlannerInput W) → All (Within (resolve_max_level i.profile)) (plan_actions i)
  plan_actions-Within i =
      All-weaken _ (Within (resolve_max_level i.profile)) (plan_actions i) (λ a h. h.0)
        (plan_actions_bounds i)

  plan_actions_for_level-Within :
      (p : Profile W) (i : PlannerInput W) (target : ℤ)
      → i.profile ≡ p
      → All (Within (resolve_max_level p)) (plan_actions_for_level i target)
  plan_actions_for_level-Within p i target e =
      subst (λ q. All (Within (resolve_max_level q)) (plan_actions_for_level i target)) e
        (All-weaken _ (Within (resolve_max_level i.profile)) (plan_actions_for_level i target)
          (λ a at. rw at (clamp_level-le target (resolve_max_level i.profile)))
          (plan_actions_for_level-AtLevel i target).0)

  then_congested-SettledOn :
      (p : Profile W) (now : ℕ) (s : Settled (Controller W))
      → SettledOn p s
      → SettledOn p (then_congested now s)
  then_congested-SettledOn p now s h = ground arith

  pub plan_sample-Within :
      (c : Controller W) (o : Option Override) (now : ℕ)
      → c.current_level ≤ resolve_max_level c.profile
      → All (Within (resolve_max_level c.profile)) (plan_sample c o now)
  unfolding plan_sample plan_recovery
  plan_sample-Within c o now l =
      let i : PlannerInput W = input_of c o (planning_state c.state_context.state) in
      let j : PlannerInput W = record (input_of c o c.state_context.state) { state = recovering } in
      All-if (Within (resolve_max_level c.profile)) (is_probing c.probe_context) _ _ (l, tt)
        (All-if (Within (resolve_max_level c.profile))
          (state_eq c.state_context.state recovering && not (recovery_disabled c o now)) _ _
          (plan_actions-Within j) (plan_actions-Within i))

  pub rollback_probe-SettledOn :
      (p : Profile W) (m : Moment W) (q : Probe) (answers : ℕ → Action W → Answer)
      (c : Controller W)
      → IsOnLadder p c
      → SettledOn p (rollback_probe m q answers c)
  unfolding rollback_probe
  rollback_probe-SettledOn p m q answers c l = then_congested-SettledOn p m.now_ms _ (
      revert_from-SettledOn p m q answers 0 _ c
        (plan_actions_for_level-Within p (rollback_input c) (pos q.previous_level) l.same_profile)
        l)
