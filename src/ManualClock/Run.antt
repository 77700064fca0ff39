-- ===== src/ManualClock/Run.antt =====
-- The loops of `runDueTimers` in src/client/lib/qos/clock.js end, and call each timer as often as its
-- times have passed.
use mediasoup_cpp.Shared.{
  ℕ, zero, suc, ◌+◌, ◌*◌, ◌≤◌, ◌<◌, ◌≡◌, refl, sym, subst, ◌∙◌, ◌⊎◌, inl, inr, Bool, true, false,
  Option, none, some, List, [], ◌∷◌, ◌++◌, map, All, count, leb, ◌==◌, if◌then◌else◌, arith,
}
use mediasoup_cpp.ManualClock.{Timer, is_due, run_timer, run_pass, run_due_timers, after_pass}
use mediasoup_cpp.ManualClock.Passes.{
  Within, IsProper, IsMap, called_for, All-run_pass, run_pass-IsMap, count-append, Fits,
  run_pass-Fits, map-run_pass,
}

-- How often a timer is called: until its next run comes after `now`, and no more.
abbrev OutAfter : ℕ → ℕ → ℕ → ℕ → Type 0
OutAfter now next interval times =
    (now < next + times * interval) × ((next + times * interval ≤ now + interval) ⊎ (times ≡ 0))

abbrev pub IsCalledOut : ℕ → List ℕ → Timer → Type 0
IsCalledOut now called t =
    OutAfter now t.next_run_at_ms t.interval_ms (count (λ i. i == t.id) called)

first_run :
    (now next interval times : ℕ)
    → leb next now ≡ true
    → times ≡ 1
    → next + times * interval ≤ now + interval
first_run now next interval times d e = rw e (ground arith)

OutAfter-once :
    (due : Bool) (now next interval k later : ℕ)
    → due ≡ leb next now
    → k ≡ (if due then 1 else 0)
    → OutAfter now (if due then next + interval else next) interval later
    → OutAfter now next interval (k + later)
OutAfter-once true now next interval k later d h (o, p) =
    let apart : (k + later) * interval ≡ interval + later * interval = rw h (grind arith) in
    (
      omega (arith, apart, o),
      elim p [
        | inl soon ↦ inl (omega (arith, apart, soon))
        | inr never ↦
            inl (first_run now next interval (k + later) (sym d) (omega (arith, h, never)))
      ],
    )
OutAfter-once false now next interval k later d h o =
    subst (OutAfter now next interval) (omega (arith, h)) o

IsCalledOut-run_timer :
    (now : ℕ) (called later : List ℕ) (t : Timer)
    → Fits now called t
    → IsCalledOut now later (run_timer now t)
    → IsCalledOut now (called ++ later) t
IsCalledOut-run_timer now called later t f h =
    subst (OutAfter now t.next_run_at_ms t.interval_ms)
      (sym (count-append (λ i. i == t.id) called later))
      (OutAfter-once (is_due now t) now t.next_run_at_ms t.interval_ms _ _ refl f h)

All-IsCalledOut :
    (now : ℕ) (called later : List ℕ) (ts : List Timer)
    → All (Fits now called) ts
    → All (IsCalledOut now later) (run_pass now ts).0
    → All (IsCalledOut now (called ++ later)) ts
unfolding run_pass
All-IsCalledOut now called later [] f h = tt
All-IsCalledOut now called later (t ∷ ts) (f, fs) (h, hs) =
    (IsCalledOut-run_timer now called later t f h, All-IsCalledOut now called later ts fs hs)

-- The loops have ended, each timer called as often as its times have passed.
abbrev pub HasRun : ℕ → List Timer → Option (List Timer × List ℕ) → Type 0
HasRun now ts none = ⊥
HasRun now ts (some (after, called)) =
    (after ≡ map (called_for called) ts) × All (IsCalledOut now called) ts

after_pass-HasRun :
    (now : ℕ) (called : List ℕ) (ts : List Timer) (r : Option (List Timer × List ℕ))
    → All (Fits now called) ts
    → HasRun now (run_pass now ts).0 r
    → HasRun now ts (after_pass called r)
after_pass-HasRun now called ts none f h = h
after_pass-HasRun now called ts (some (after, later)) f (h, hs) =
    (h ∙ map-run_pass now called later ts f, All-IsCalledOut now called later ts f hs)

idle-map :
    (now : ℕ) (ts : List Timer)
    → (run_pass now ts).1 ≡ []
    → (run_pass now ts).0 ≡ map (called_for []) ts
unfolding run_pass count
idle-map now [] e = refl
idle-map now (t ∷ ts) e = ground (arith, idle-map now ts)

idle-IsCalledOut :
    (now : ℕ) (ts : List Timer) → (run_pass now ts).1 ≡ [] → All (IsCalledOut now []) ts
unfolding run_pass count
idle-IsCalledOut now [] e = tt
idle-IsCalledOut now (t ∷ ts) e = ground (arith, idle-IsCalledOut now ts)

none_due :
    (now : ℕ) (ts : List Timer) → (run_pass now ts).1 ≡ [] → HasRun now ts (some (run_pass now ts))
none_due now ts e = rw e (idle-map now ts e, idle-IsCalledOut now ts e)

late-run_pass :
    (now : ℕ) (ts : List Timer)
    → All (λ t. IsProper t × Within 0 now t) ts
    → (run_pass now ts).1 ≡ []
unfolding run_pass
late-run_pass now [] h = refl
late-run_pass now (t ∷ ts) h = ground (arith, late-run_pass now ts)

Within-run_timer :
    (rounds now : ℕ) (t : Timer)
    → IsProper t × Within (suc rounds) now t
    → IsProper (run_timer now t) × Within rounds now (run_timer now t)
Within-run_timer rounds now t h = ground arith

next_round :
    (now : ℕ) (ts : List Timer) (later : Option (List Timer × List ℕ)) (called : List ℕ)
    → (run_pass now ts).1 ≡ called
    → IsMap ts
    → HasRun now (run_pass now ts).0 later
    → HasRun now ts
        (elim called [ [] ↦ some (run_pass now ts) | id ∷ ids ↦ after_pass (id ∷ ids) later ])
next_round now ts later [] e m h = none_due now ts e
next_round now ts later (id ∷ ids) e m h =
    after_pass-HasRun now (id ∷ ids) ts later
      (subst (λ c. All (Fits now c) ts) e (run_pass-Fits now ts m)) h

last_round :
    (now : ℕ) (ts : List Timer) (later : Option (List Timer × List ℕ)) (called : List ℕ)
    → (run_pass now ts).1 ≡ called
    → called ≡ []
    → HasRun now ts
        (elim called [ [] ↦ some (run_pass now ts) | id ∷ ids ↦ after_pass (id ∷ ids) later ])
last_round now ts later [] e h = none_due now ts e
last_round now ts later (id ∷ ids) e h = ground arith

-- With fuel for one round more than any timer is late, the loops end.
pub run_due_timers-HasRun :
    (fuel now : ℕ) (ts : List Timer)
    → IsMap ts
    → All (λ t. IsProper t × Within fuel now t) ts
    → HasRun now ts (run_due_timers (suc fuel) now ts)
unfolding run_due_timers
run_due_timers-HasRun zero now ts m h =
    last_round now ts (run_due_timers zero now (run_pass now ts).0) (run_pass now ts).1 refl
      (late-run_pass now ts h)
run_due_timers-HasRun (suc fuel) now ts m h =
    next_round now ts (run_due_timers (suc fuel) now (run_pass now ts).0) (run_pass now ts).1 refl m
      (run_due_timers-HasRun fuel now (run_pass now ts).0 (run_pass-IsMap now ts m)
        (All-run_pass _ _ now ts (Within-run_timer fuel now) h))
