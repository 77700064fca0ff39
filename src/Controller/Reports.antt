-- ===== src/Controller/Reports.antt =====
-- The report that a sample of src/client/lib/qos/controller.js sends, and the controller it leaves.
use mediasoup_cpp.Shared.{
  ℕ, ◌≤◌, ◌≡◌, Bool, false, ◌&&◌, Option, none, some, Text, arith, Number, if◌then◌else◌,
}
use mediasoup_cpp.Types.{RawSnapshot, Signals, Quality}
use mediasoup_cpp.StateMachine.{Transition}
use mediasoup_cpp.Probe.{Probe, ProbeResult, inconclusive, failed, successful}
use mediasoup_cpp.Overrides.{Override}
use mediasoup_cpp.Controller.State.{Report, Controller}
use mediasoup_cpp.Controller.Actions.{
  Moment, qos_max_seq, publish_snapshot, report_of, resolve_peer_mode,
}
use mediasoup_cpp.Controller.Process.{
  Outcome, processed, rolled_back, rejected, World, act, process_sample, dispatch, finish, is_due,
  outcome_of, transition_of,
}

module _ {W : Type 0} where
  -- The report tells of the controller as it is.
  pub record Describes (r : Report W) (c : Controller W) : Type 0 where
    pub same_level : r.ladder_level ≡ c.current_level
    pub same_state : r.state ≡ c.state_context.state
    pub same_mode : r.mode ≡ resolve_peer_mode c.in_audio_only_mode c.kind
    pub same_action : r.last_action ≡ c.last_action
    pub same_seq : r.seq ≡ c.seq
    pub seq_le : r.seq ≤ qos_max_seq

  -- A sample that is not cut short by a failed probe reports where the state has changed and there is
  -- a channel, and reports the truth.
  abbrev pub Reported : ℕ → Bool → Outcome W → Type 0
  Reported now transitioned (processed c none) = (c.has_channel && transitioned) ≡ false
  Reported now transitioned (processed c (some r)) =
      Describes r c × (r.ts_ms ≡ now) × (c.last_published_at_ms ≡ some now)
  Reported now transitioned (rolled_back c) = Unit
  Reported now transitioned (rejected c) = Unit

module _ {W : Type 0} ⦃num : Number W⦄ where
  finish-Reported :
      (raw : RawSnapshot W) (s : Signals W) (quality : Quality) (now : ℕ)
      (channel : Report W → Option Text) (transitioned : Bool) (c : Controller W)
      → let due = is_due now c transitioned in
        Reported now transitioned (
          finish raw s now
            (if due then publish_snapshot raw s quality now channel c else (c, none))
            due)
  unfolding finish publish_snapshot report_of
  finish-Reported raw s quality now channel transitioned c = ground arith

  act-Reported :
      (raw : RawSnapshot W) (m : Moment W) (o : Option Override) (t : Transition) (world : World W)
      (c : Controller W)
      → Reported m.now_ms t.transitioned (act raw m o t world c)
  unfolding act
  act-Reported raw m o t world c =
      finish-Reported raw m.signals t.quality m.now_ms world.channel t.transitioned _

  dispatch-Reported :
      (raw : RawSnapshot W) (m : Moment W) (o : Option Override) (t : Transition) (world : World W)
      (q : Option Probe) (verdict : ProbeResult) (next : Option Probe) (c : Controller W)
      → Reported m.now_ms t.transitioned (dispatch raw m o t world q verdict next c)
  unfolding dispatch outcome_of
  dispatch-Reported raw m o t world (some q) failed next c = ground arith
  dispatch-Reported raw m o t world none failed next c = act-Reported raw m o t world c
  dispatch-Reported raw m o t world q successful next c = act-Reported raw m o t world _
  dispatch-Reported raw m o t world q inconclusive next c = act-Reported raw m o t world _

  -- A sample that runs to its end sends a report if the state has changed and there is a channel, and
  -- every report that it sends has the level, state, mode, last action and number of the controller
  -- that it leaves, a number that JavaScript holds exactly, and the time of the sample.
  pub process_sample-Reported :
      (raw : RawSnapshot W) (now : ℕ) (world : World W) (c : Controller W)
      → Reported now (transition_of raw now c).transitioned (process_sample raw now world c)
  unfolding process_sample
  process_sample-Reported raw now world c =
      dispatch-Reported raw _ _ (transition_of raw now c) world _ _ _ _
