-- ===== src/DownlinkReporter/Run.antt =====
-- Any row of ticks and their ends at a reporter of src/client/lib/qos/downlinkReporter.js.
use mediasoup_cpp.Shared.{ℕ, ◌+◌, ◌≤◌, ◌≡◌, Bool, true, false, List, [], ◌∷◌, arith, if◌then◌else◌}
use mediasoup_cpp.DownlinkReporter.{
  Reporter, new_reporter, downlink_max_seq, start, stop, begin_tick, finish_tick,
}

-- An end stands for the end of the tick under way, and is no event where there is none.
pub data Event : Type 0 where
  started stopped ticked : Event
  ended : Bool → Event

abbrev pub on_event : Event → Reporter → Reporter
on_event started r = start r
on_event stopped r = stop r
on_event ticked r = (begin_tick r).0
on_event (ended sent) r = if r.reporting then (finish_tick sent r).0 else r

abbrev pub on_events : List Event → Reporter → Reporter
on_events [] r = r
on_events (e ∷ es) r = on_events es (on_event e r)

-- An independent account of a row: is a report under way, how many have been begun, and how many have
-- failed since the last that was sent.
pub record Account : Type 0 where
  pub under_way : Bool
  pub begun : ℕ
  pub failed_since : ℕ

abbrev pub tell : Event → Account → Account
tell started a = a
tell stopped a = a
tell ticked a = if a.under_way then a else record a { under_way = true; begun = a.begun + 1 }
tell (ended true) a = if a.under_way then record a { under_way = false; failed_since = 0 } else a
tell (ended false) a =
    if a.under_way then record a { under_way = false; failed_since = a.failed_since + 1 } else a

abbrev pub tell_all : List Event → Account → Account
tell_all [] a = a
tell_all (e ∷ es) a = tell_all es (tell e a)

-- The reporter agrees with the account.
pub record Agrees (a : Account) (r : Reporter) : Type 0 where
  pub same_under_way : r.reporting ≡ a.under_way
  pub same_errors : r.consecutive_errors ≡ a.failed_since
  pub seq_le : r.seq ≤ downlink_max_seq
  pub same_seq : a.begun ≤ downlink_max_seq → r.seq ≡ a.begun

on_event-Agrees :
    (e : Event) (a : Account) (r : Reporter) → Agrees a r → Agrees (tell e a) (on_event e r)
unfolding start stop begin_tick finish_tick
on_event-Agrees started a r h = ground arith
on_event-Agrees stopped a r h = ground arith
on_event-Agrees ticked a r h = ground arith
on_event-Agrees (ended true) a r h = ground arith
on_event-Agrees (ended false) a r h = ground arith

on_events-Agrees :
    (es : List Event) (a : Account) (r : Reporter)
    → Agrees a r
    → Agrees (tell_all es a) (on_events es r)
on_events-Agrees [] a r h = h
on_events-Agrees (e ∷ es) a r h =
    on_events-Agrees es (tell e a) (on_event e r) (on_event-Agrees e a r h)

abbrev pub nothing_yet : Account
nothing_yet = record { under_way = false; begun = 0; failed_since = 0 }

-- After any row of ticks, ends, starts and stops a new reporter has a report under way exactly if one
-- has begun and not ended, its count of errors is that of the failures since the last success, its
-- number is one that JavaScript holds exactly, and the number counts the reports that have begun as
-- long as there are no more of them than that.
pub new_reporter-Agrees :
    (interval : ℕ) (es : List Event)
    → Agrees (tell_all es nothing_yet) (on_events es (new_reporter interval))
unfolding new_reporter
new_reporter-Agrees interval es = on_events-Agrees es nothing_yet _ (ground arith)
