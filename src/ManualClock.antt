-- ===== src/ManualClock.antt =====
-- `ManualQosClock` of src/client/lib/qos/clock.js, on which tests and replays run. A callback is
-- outside, and is taken to leave the clock alone: a run tells which timers were called. Intervals and
-- times are whole milliseconds.
mod Passes
mod Run
mod Advance
mod Examples
use mediasoup_cpp.Shared.{
  ℕ, zero, suc, ◌+◌, max, Bool, true, false, not, Option, none, some, List, [], ◌∷◌, ◌++◌, map,
  filter, ltb, leb, ◌==◌, if◌then◌else◌,
}

pub record Timer : Type 0 where
  pub id : ℕ
  pub interval_ms : ℕ
  pub next_run_at_ms : ℕ

pub record Clock : Type 0 where
  pub now_ms : ℕ
  pub next_id : ℕ
  -- A map by identifier, in the order of insertion.
  pub timers : List Timer

unfoldable pub new_clock : Clock
new_clock = record { now_ms = 0; next_id = 1; timers = [] }

-- The new timer's identifier is the clock's `next_id`, and so is new to the map.
unfoldable pub set_interval : ℕ → Clock → Clock × ℕ
set_interval interval c =
    let safe = max 1 interval in
    (
      record c {
        next_id = c.next_id + 1;
        timers =
            c.timers
            ++ (record { id = c.next_id; interval_ms = safe; next_run_at_ms = c.now_ms + safe }
                ∷ []);
      },
      c.next_id,
    )

unfoldable pub clear_interval : ℕ → Clock → Clock
clear_interval id c = record c { timers = filter (λ t. not (t.id == id)) c.timers }

abbrev pub is_due : ℕ → Timer → Bool
is_due now t = leb t.next_run_at_ms now

-- The body of the inner loop of `runDueTimers`, for one timer.
abbrev pub run_timer : ℕ → Timer → Timer
run_timer now t = record t {
  next_run_at_ms = if is_due now t then t.next_run_at_ms + t.interval_ms else t.next_run_at_ms;
}

-- The inner loop: the timers after it, and those that were called.
unfoldable pub run_pass : ℕ → List Timer → List Timer × List ℕ
run_pass now [] = ([], [])
run_pass now (t ∷ ts) =
    let (rest, called) = run_pass now ts in
    (run_timer now t ∷ rest, if is_due now t then t.id ∷ called else called)

abbrev pub after_pass : List ℕ → Option (List Timer × List ℕ) → Option (List Timer × List ℕ)
after_pass called none = none
after_pass called (some (ts, later)) = some (ts, called ++ later)

-- The outer loop, on fuel: it ends with a pass in which nothing was due.
unfoldable pub run_due_timers : ℕ → ℕ → List Timer → Option (List Timer × List ℕ)
unfolding run_pass
run_due_timers zero now ts = none
run_due_timers (suc fuel) now ts = elim (run_pass now ts).1 [
  | [] ↦ some (run_pass now ts)
  | id ∷ ids ↦ after_pass (id ∷ ids) (run_due_timers fuel now (run_pass now ts).0)
]

abbrev pub store : Clock → Option (List Timer × List ℕ) → Option (Clock × List ℕ)
store c none = none
store c (some (ts, called)) = some (record c { timers = ts }, called)

-- `now + 2` rounds are enough: each puts every timer that is due off by a millisecond at least.
abbrev pub run_clock : Clock → Option (Clock × List ℕ)
run_clock c = store c (run_due_timers (c.now_ms + 2) c.now_ms c.timers)

unfoldable pub advance_by : ℕ → Clock → Option (Clock × List ℕ)
unfolding run_due_timers
advance_by delta c =
    if delta == 0 then some (c, []) else run_clock (record c { now_ms = c.now_ms + delta })

unfoldable pub advance_to : ℕ → Clock → Option (Clock × List ℕ)
unfolding run_due_timers
advance_to target c =
    if leb target c.now_ms then some (c, []) else run_clock (record c { now_ms = target })

unfoldable pub reset : ℕ → Clock → Clock
reset now c = record c { now_ms = now; timers = [] }
