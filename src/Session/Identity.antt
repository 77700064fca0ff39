-- ===== src/Session/Identity.antt =====
-- A sample leaves the identifier of a track as it is: `processSample` of
-- src/client/lib/qos/controller.js.
use mediasoup_cpp.Shared.{
  ℕ, suc, ◌≡◌, Bool, true, false, Option, none, some, List, [], ◌∷◌, Text, arith, Number,
  if◌then◌else◌,
}
use mediasoup_cpp.Types.{RawSnapshot, Signals, Quality, Action}
use mediasoup_cpp.StateMachine.{Transition}
use mediasoup_cpp.Probe.{Probe, ProbeResult, inconclusive, failed, successful}
use mediasoup_cpp.Overrides.{Override}
use mediasoup_cpp.Controller.{
  Controller, TraceProbe, failed_probe, Report, Settled, completed, failed_at, Answer, Moment,
  settle_action, trace_action, was_action_applied, is_thrown, execute_action, execute_from,
  execute_actions, publish_snapshot, revert_from, rollback_probe, then_congested, Outcome,
  processed, rolled_back, rejected, World, act, process_sample, prepare, dispatch, transition_of,
  reset_streak, finish, conclude_probe, outcome_of, suppress_recovery, plan_sample, filter_actions,
}

module _ {W : Type 0} (id : Text) where
  abbrev pub IsOf : Controller W → Type 0
  IsOf c = c.track_id ≡ id

  abbrev pub SettledOf : Settled (Controller W) → Type 0
  SettledOf (completed c) = IsOf c
  SettledOf (failed_at c) = IsOf c

  abbrev pub OutcomeOf : Outcome W → Type 0
  OutcomeOf (processed c report) = IsOf c
  OutcomeOf (rolled_back c) = IsOf c
  OutcomeOf (rejected c) = IsOf c

  after-IsOf :
      (m : Moment W) (a : Action W) (applied : Bool) (p : Option TraceProbe) (c : Controller W)
      → IsOf c
      → IsOf (trace_action m a applied p (settle_action a applied c))
  unfolding trace_action settle_action
  after-IsOf m a applied p c h = ground arith

  execute_action-IsOf :
      (m : Moment W) (a : Action W) (answer : Answer) (c : Controller W)
      → IsOf c
      → IsOf (execute_action m a answer c)
  unfolding execute_action settle_action trace_action
  execute_action-IsOf m a answer c h = ground arith

  execute_from-IsOf :
      (m : Moment W) (answers : ℕ → Action W → Answer) (n : ℕ) (actions : List (Action W))
      (c : Controller W)
      → IsOf c
      → IsOf (execute_from m answers n actions c)
  unfolding execute_from
  execute_from-IsOf m answers n [] c h = h
  execute_from-IsOf m answers n (a ∷ actions) c h =
      execute_from-IsOf m answers (suc n) actions (execute_action m a (answers n a) c)
        (execute_action-IsOf m a (answers n a) c h)

module _ {W : Type 0} ⦃num : Number W⦄ (id : Text) where
  if-SettledOf :
      (test : Bool) (s r : Settled (Controller W))
      → SettledOf id s
      → SettledOf id r
      → SettledOf id (if test then s else r)
  if-SettledOf true s r h k = h
  if-SettledOf false s r h k = k

  revert_from-SettledOf :
      (m : Moment W) (q : Probe) (answers : ℕ → Action W → Answer) (n : ℕ)
      (actions : List (Action W)) (c : Controller W)
      → IsOf id c
      → SettledOf id (revert_from m q answers n actions c)
  unfolding revert_from
  revert_from-SettledOf m q answers n [] c h = h
  revert_from-SettledOf m q answers n (a ∷ actions) c h =
      if-SettledOf (is_thrown (answers n a)) (failed_at c) _ h (
        revert_from-SettledOf m q answers (suc n) actions _ (
          after-IsOf id m a (was_action_applied (answers n a))
            (some (failed_probe q.previous_level q.target_level)) c h))

  then_congested-SettledOf :
      (now : ℕ) (s : Settled (Controller W)) → SettledOf id s → SettledOf id (then_congested now s)
  then_congested-SettledOf now s h = ground arith

  rollback_probe-SettledOf :
      (m : Moment W) (q : Probe) (answers : ℕ → Action W → Answer) (c : Controller W)
      → IsOf id c
      → SettledOf id (rollback_probe m q answers c)
  unfolding rollback_probe
  rollback_probe-SettledOf m q answers c h =
      then_congested-SettledOf m.now_ms _ (revert_from-SettledOf m q answers 0 _ c h)

  outcome_of-OutcomeOf :
      (now : ℕ) (s : Settled (Controller W))
      → SettledOf id s
      → OutcomeOf id (outcome_of s (suppress_recovery now))
  unfolding outcome_of
  outcome_of-OutcomeOf now s h = ground arith

  execute_actions-IsOf :
      (m : Moment W) (answers : ℕ → Action W → Answer) (actions : List (Action W))
      (c : Controller W)
      → IsOf id c
      → IsOf id (execute_actions m answers actions c)
  unfolding execute_actions
  execute_actions-IsOf m answers actions c h =
      ground (arith, execute_from-IsOf id m answers 0 actions c h)

  finish-OutcomeOf :
      (raw : RawSnapshot W) (s : Signals W) (now : ℕ) (due : Bool)
      (published unpublished : Controller W × Option (Report W))
      → IsOf id published.0
      → IsOf id unpublished.0
      → OutcomeOf id (finish raw s now (if due then published else unpublished) due)
  unfolding finish
  finish-OutcomeOf raw s now due published unpublished h k = ground arith

  publish_snapshot-IsOf :
      (raw : RawSnapshot W) (s : Signals W) (quality : Quality) (now : ℕ)
      (channel : Report W → Option Text) (c : Controller W)
      → IsOf id c
      → IsOf id (publish_snapshot raw s quality now channel c).0
  unfolding publish_snapshot
  publish_snapshot-IsOf raw s quality now channel c h = ground arith

  reset_streak-IsOf : (c : Controller W) → IsOf id c → IsOf id (reset_streak c)
  unfolding reset_streak
  reset_streak-IsOf c h = ground arith

  act-OutcomeOf :
      (raw : RawSnapshot W) (m : Moment W) (o : Option Override) (t : Transition) (world : World W)
      (c : Controller W)
      → IsOf id c
      → OutcomeOf id (act raw m o t world c)
  unfolding act
  act-OutcomeOf raw m o t world c h =
      let ready : Controller W = reset_streak c in
      let acted : IsOf id (execute_actions m world.executor _ ready) =
        execute_actions-IsOf m world.executor
          (filter_actions ready o (plan_sample ready o m.now_ms)) ready (reset_streak-IsOf c h) in
      finish-OutcomeOf raw m.signals m.now_ms _ _ _
        (publish_snapshot-IsOf raw m.signals t.quality m.now_ms world.channel _ acted) acted

  dispatch-OutcomeOf :
      (raw : RawSnapshot W) (m : Moment W) (o : Option Override) (t : Transition) (world : World W)
      (q : Option Probe) (verdict : ProbeResult) (next : Option Probe) (c : Controller W)
      → IsOf id c
      → OutcomeOf id (dispatch raw m o t world q verdict next c)
  unfolding dispatch conclude_probe
  dispatch-OutcomeOf raw m o t world (some q) failed next c h =
      outcome_of-OutcomeOf m.now_ms _ (rollback_probe-SettledOf _ q world.executor c h)
  dispatch-OutcomeOf raw m o t world none failed next c h = act-OutcomeOf raw m o t world c h
  dispatch-OutcomeOf raw m o t world q successful next c h = act-OutcomeOf raw m o t world _ h
  dispatch-OutcomeOf raw m o t world q inconclusive next c h = act-OutcomeOf raw m o t world _ h

  -- Whatever becomes of a sample, the controller is of the same track.
  pub process_sample-OutcomeOf :
      (raw : RawSnapshot W) (now : ℕ) (world : World W) (c : Controller W)
      → IsOf id c
      → OutcomeOf id (process_sample raw now world c)
  unfolding process_sample prepare
  process_sample-OutcomeOf raw now world c h =
      dispatch-OutcomeOf raw _ _ (transition_of raw now c) world _ _ _ (prepare raw now c) h
