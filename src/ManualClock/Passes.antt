-- ===== src/ManualClock/Passes.antt =====
-- One pass of `runDueTimers` in src/client/lib/qos/clock.js over the timers.
use mediasoup_cpp.Shared.{
  ℕ, ◌+◌, ◌*◌, ◌<◌, ◌≡◌, refl, ap, sym, ◌∙◌, Bool, true, false, List, [], ◌∷◌, ◌++◌, map, All,
  count, ◌==◌, if◌then◌else◌, arith,
}
use mediasoup_cpp.ManualClock.{Timer, is_due, run_timer, run_pass}

-- The timer comes after `now` once the rounds that are left have passed.
abbrev pub Within : ℕ → ℕ → Timer → Type 0
Within rounds now t = now < t.next_run_at_ms + rounds

abbrev pub IsProper : Timer → Type 0
IsProper t = 0 < t.interval_ms

-- Identifiers are those of a map.
abbrev pub IsMap : List Timer → Type 0
IsMap [] = Unit
IsMap (t ∷ ts) = All (λ u. (u.id == t.id) ≡ false) ts × IsMap ts

-- A timer that was called for each of its mentions in a row.
abbrev pub called_for : List ℕ → Timer → Timer
called_for called t = record t {
  next_run_at_ms = t.next_run_at_ms + count (λ i. i == t.id) called * t.interval_ms;
}

pub All-run_pass :
    (P Q : Timer → Type 0) (now : ℕ) (ts : List Timer)
    → ((t : Timer) → P t → Q (run_timer now t))
    → All P ts
    → All Q (run_pass now ts).0
unfolding run_pass
All-run_pass P Q now [] f h = tt
All-run_pass P Q now (t ∷ ts) f (p, ps) = (f t p, All-run_pass P Q now ts f ps)

pub run_pass-IsMap : (now : ℕ) (ts : List Timer) → IsMap ts → IsMap (run_pass now ts).0
unfolding run_pass
run_pass-IsMap now [] h = tt
run_pass-IsMap now (t ∷ ts) (h, hs) = (
  All-run_pass (λ u. (u.id == t.id) ≡ false) (λ u. (u.id == t.id) ≡ false) now ts (λ u e. e) h,
  run_pass-IsMap now ts hs,
)

-- A timer that is not in the map is not called.
count-absent :
    (now id : ℕ) (ts : List Timer)
    → All (λ u. (u.id == id) ≡ false) ts
    → count (λ i. i == id) (run_pass now ts).1 ≡ 0
unfolding run_pass count
count-absent now id [] h = refl
count-absent now id (t ∷ ts) h = ground (arith, count-absent now id ts)

pub count-append : (p : ℕ → Bool) (xs ys : List ℕ) → count p (xs ++ ys) ≡ count p xs + count p ys
unfolding count
count-append p [] ys = omega arith
count-append p (x ∷ xs) ys = ground (arith, count-append p xs ys)

-- The row has as many mentions of each timer as it is due: one or none.
abbrev pub Fits : ℕ → List ℕ → Timer → Type 0
Fits now called t = count (λ i. i == t.id) called ≡ (if is_due now t then 1 else 0)

Fits-later :
    (now : ℕ) (t : Timer) (called : List ℕ) (u : Timer)
    → (u.id == t.id) ≡ false
    → Fits now called u
    → Fits now (if is_due now t then t.id ∷ called else called) u
unfolding count
Fits-later now t called u e h = ground arith

All-Fits-later :
    (now : ℕ) (t : Timer) (called : List ℕ) (us : List Timer)
    → All (λ u. (u.id == t.id) ≡ false) us
    → All (Fits now called) us
    → All (Fits now (if is_due now t then t.id ∷ called else called)) us
All-Fits-later now t called [] h k = tt
All-Fits-later now t called (u ∷ us) (e, h) (f, k) =
    (Fits-later now t called u e f, All-Fits-later now t called us h k)

Fits-first :
    (now : ℕ) (t : Timer) (called : List ℕ)
    → count (λ i. i == t.id) called ≡ 0
    → Fits now (if is_due now t then t.id ∷ called else called) t
unfolding count
Fits-first now t called e = ground arith

pub run_pass-Fits : (now : ℕ) (ts : List Timer) → IsMap ts → All (Fits now (run_pass now ts).1) ts
unfolding run_pass
run_pass-Fits now [] h = tt
run_pass-Fits now (t ∷ ts) (h, hs) = (
  Fits-first now t (run_pass now ts).1 (count-absent now t.id ts h),
  All-Fits-later now t (run_pass now ts).1 ts h (run_pass-Fits now ts hs),
)

one_run :
    (due : Bool) (next interval k later : ℕ)
    → k ≡ (if due then 1 else 0)
    → (if due then next + interval else next) + later * interval ≡ next + (k + later) * interval
one_run true next interval k later h = rw h (grind arith)
one_run false next interval k later h = rw h (grind arith)

called_for-run_timer :
    (now : ℕ) (called later : List ℕ) (t : Timer)
    → Fits now called t
    → called_for later (run_timer now t) ≡ called_for (called ++ later) t
called_for-run_timer now called later t f =
    ap (λ n. record t { next_run_at_ms = n })
      (one_run (is_due now t) t.next_run_at_ms t.interval_ms _ _ f
        ∙ ap (λ k. t.next_run_at_ms + k * t.interval_ms)
            (sym (count-append (λ i. i == t.id) called later)))

pub map-run_pass :
    (now : ℕ) (called later : List ℕ) (ts : List Timer)
    → All (Fits now called) ts
    → map (called_for later) (run_pass now ts).0 ≡ map (called_for (called ++ later)) ts
unfolding run_pass
map-run_pass now called later [] h = refl
map-run_pass now called later (t ∷ ts) (f, h) =
    ground (arith, called_for-run_timer now called later t f, map-run_pass now called later ts h)
