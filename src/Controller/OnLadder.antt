-- ===== src/Controller/OnLadder.antt =====
-- A sample leaves the level of a track on its ladder: `processSample` of
-- src/client/lib/qos/controller.js, whatever the executor and the channel answer.
use mediasoup_cpp.Shared.{
  ℕ, Text, ◌≤◌, refl, Bool, Option, none, some, List, All, arith, Number, if◌then◌else◌, subst, sym,
}
use mediasoup_cpp.Types.{Profile, RawSnapshot, Signals, Quality, Action}
use mediasoup_cpp.StateMachine.{Transition}
use mediasoup_cpp.Probe.{Probe, ProbeResult, inconclusive, failed, successful}
use mediasoup_cpp.Overrides.{Override}
use mediasoup_cpp.Planner.{resolve_max_level}
use mediasoup_cpp.Controller.State.{Controller, Report}
use mediasoup_cpp.Controller.Settings.{Settled}
use mediasoup_cpp.Controller.Filter.{filter_actions}
use mediasoup_cpp.Controller.Actions.{Moment, execute_actions, publish_snapshot}
use mediasoup_cpp.Controller.Process.{
  World, plan_sample, act, process_sample, prepare, dispatch, transition_of, reset_streak, finish,
  conclude_probe, outcome_of, suppress_recovery,
}
use mediasoup_cpp.Controller.Levels.{
  IsOnLadder, Within, SettledOn, OutcomeOn, execute_actions-IsOnLadder, filter_actions-Within,
  plan_sample-Within, rollback_probe-SettledOn,
}

module _ {W : Type 0} ⦃num : Number W⦄ where
  prepare-IsOnLadder :
      (raw : RawSnapshot W) (now : ℕ) (c : Controller W)
      → c.current_level ≤ resolve_max_level c.profile
      → IsOnLadder c.profile (prepare raw now c)
  unfolding prepare
  prepare-IsOnLadder raw now c l = record { same_profile = refl; level_le = l }

  reset_streak-IsOnLadder :
      (p : Profile W) (c : Controller W) → IsOnLadder p c → IsOnLadder p (reset_streak c)
  unfolding reset_streak
  reset_streak-IsOnLadder p c l = ground arith

  publish_snapshot-IsOnLadder :
      (p : Profile W) (raw : RawSnapshot W) (s : Signals W) (quality : Quality) (now : ℕ)
      (channel : Report W → Option Text) (c : Controller W)
      → IsOnLadder p c
      → IsOnLadder p (publish_snapshot raw s quality now channel c).0
  unfolding publish_snapshot
  publish_snapshot-IsOnLadder p raw s quality now channel c l = ground arith

  finish-OutcomeOn :
      (p : Profile W) (raw : RawSnapshot W) (s : Signals W) (now : ℕ) (due : Bool)
      (published unpublished : Controller W × Option (Report W))
      → IsOnLadder p published.0
      → IsOnLadder p unpublished.0
      → OutcomeOn p (finish raw s now (if due then published else unpublished) due)
  unfolding finish
  finish-OutcomeOn p raw s now due published unpublished h k = ground arith

  plan_sample_on-Within :
      (p : Profile W) (c : Controller W) (o : Option Override) (now : ℕ)
      → IsOnLadder p c
      → All (Within (resolve_max_level p)) (plan_sample c o now)
  plan_sample_on-Within p c o now l =
      subst (λ q. All (Within (resolve_max_level q)) (plan_sample c o now)) l.same_profile
        (plan_sample-Within c o now
          (subst (λ q. c.current_level ≤ resolve_max_level q) (sym l.same_profile) l.level_le))

  act-OutcomeOn :
      (p : Profile W) (raw : RawSnapshot W) (m : Moment W) (o : Option Override) (t : Transition)
      (world : World W) (c : Controller W)
      → IsOnLadder p c
      → OutcomeOn p (act raw m o t world c)
  unfolding act
  act-OutcomeOn p raw m o t world c l =
      let ready : Controller W = reset_streak c in
      let on : IsOnLadder p ready = reset_streak-IsOnLadder p c l in
      let actions : List (Action W) = filter_actions ready o (plan_sample ready o m.now_ms) in
      let acted : IsOnLadder p (execute_actions m world.executor actions ready) =
        execute_actions-IsOnLadder p m world.executor actions ready
          (filter_actions-Within _ ready o _ on.level_le
            (plan_sample_on-Within p ready o m.now_ms on))
          on in
      finish-OutcomeOn p raw m.signals m.now_ms _ _ _
        (publish_snapshot-IsOnLadder p raw m.signals t.quality m.now_ms world.channel _ acted) acted

  conclude_probe-IsOnLadder :
      (p : Profile W) (m : Moment W) (q : Option Probe) (c : Controller W)
      → IsOnLadder p c
      → IsOnLadder p (conclude_probe m q c)
  unfolding conclude_probe
  conclude_probe-IsOnLadder p m q c l = ground arith

  outcome_of-OutcomeOn :
      (p : Profile W) (now : ℕ) (s : Settled (Controller W))
      → SettledOn p s
      → OutcomeOn p (outcome_of s (suppress_recovery now))
  unfolding outcome_of
  outcome_of-OutcomeOn p now s h = ground arith

  dispatch-OutcomeOn :
      (p : Profile W) (raw : RawSnapshot W) (m : Moment W) (o : Option Override) (t : Transition)
      (world : World W) (q : Option Probe) (verdict : ProbeResult) (next : Option Probe)
      (c : Controller W)
      → IsOnLadder p c
      → OutcomeOn p (dispatch raw m o t world q verdict next c)
  unfolding dispatch
  dispatch-OutcomeOn p raw m o t world (some q) failed next c l =
      outcome_of-OutcomeOn p m.now_ms _ (rollback_probe-SettledOn p _ q world.executor c l)
  dispatch-OutcomeOn p raw m o t world none failed next c l = act-OutcomeOn p raw m o t world c l
  dispatch-OutcomeOn p raw m o t world q successful next c l =
      act-OutcomeOn p raw m o t world _ (conclude_probe-IsOnLadder p m next c l)
  dispatch-OutcomeOn p raw m o t world q inconclusive next c l =
      act-OutcomeOn p raw m o t world _
        (record { same_profile = l.same_profile; level_le = l.level_le })

  -- A track whose level is on its ladder stays on it, and keeps its profile, through every sample:
  -- whatever the engine measured, whatever the executor answers, also where it throws.
  pub process_sample-IsOnLadder :
      (raw : RawSnapshot W) (now : ℕ) (world : World W) (c : Controller W)
      → c.current_level ≤ resolve_max_level c.profile
      → OutcomeOn c.profile (process_sample raw now world c)
  unfolding process_sample
  process_sample-IsOnLadder raw now world c l =
      dispatch-OutcomeOn c.profile raw _ _ (transition_of raw now c) world _ _ _ (prepare raw now c)
        (prepare-IsOnLadder raw now c l)
