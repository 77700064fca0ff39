-- ===== src/ManualClock/Advance.antt =====
-- A clock of src/client/lib/qos/clock.js through its operations.
use mediasoup_cpp.Shared.{
  ℕ, ◌+◌, ◌<◌, ◌≡◌, refl, sym, subst, Bool, false, Option, none, some, List, [], ◌∷◌, ◌++◌, map,
  filter, All, All-weaken, All-if, All-append, leb, ◌==◌, arith,
}
use mediasoup_cpp.ManualClock.{
  Timer, Clock, new_clock, set_interval, clear_interval, advance_by, advance_to, run_due_timers,
  run_clock, store,
}
use mediasoup_cpp.ManualClock.Passes.{IsProper, IsMap, Within, called_for}
use mediasoup_cpp.ManualClock.Run.{HasRun, run_due_timers-HasRun}

-- The map of timers is one, their intervals are positive, and the next identifier is new.
pub record IsSound (c : Clock) : Type 0 where
  pub unique : IsMap c.timers
  pub proper : All IsProper c.timers
  pub fresh : All (λ t. t.id < c.next_id) c.timers

-- The clock has come to the time, having called each timer as often as its times have passed.
abbrev pub HasAdvanced : ℕ → Clock → Option (Clock × List ℕ) → Type 0
HasAdvanced now c none = ⊥
HasAdvanced now c (some (after, called)) =
    (after.now_ms ≡ now) × HasRun now c.timers (some (after.timers, called)) × IsSound after

pub new_clock-IsSound : IsSound new_clock
unfolding new_clock
new_clock-IsSound = omega arith

IsMap-append :
    (ts : List Timer) (t : Timer) → IsMap ts → All (λ u. u.id < t.id) ts → IsMap (ts ++ (t ∷ []))
IsMap-append [] t m h = (tt, tt)
IsMap-append (u ∷ us) t (a, m) (l, h) = (
  All-append (λ v. (v.id == u.id) ≡ false) us (t ∷ []) a (ground arith, tt),
  IsMap-append us t m h,
)

pub set_interval-IsSound :
    (interval : ℕ) (c : Clock) → IsSound c → IsSound (set_interval interval c).0
unfolding set_interval
set_interval-IsSound interval c s = record {
  unique = IsMap-append c.timers _ s.unique s.fresh;
  proper = All-append IsProper c.timers _ s.proper (omega arith, tt);
  fresh =
      All-append (λ t. t.id < c.next_id + 1) c.timers _
        (All-weaken (λ t. t.id < c.next_id) (λ t. t.id < c.next_id + 1) c.timers
          (λ t h. omega (arith, h)) s.fresh)
        (omega arith, tt);
}

All-filter :
    (P : Timer → Type 0) (p : Timer → Bool) (ts : List Timer) → All P ts → All P (filter p ts)
unfolding filter
All-filter P p [] h = tt
All-filter P p (t ∷ ts) (h, hs) =
    All-if P (p t) (t ∷ filter p ts) (filter p ts) (h, All-filter P p ts hs) (All-filter P p ts hs)

filter-IsMap : (p : Timer → Bool) (ts : List Timer) → IsMap ts → IsMap (filter p ts)
unfolding filter
filter-IsMap p [] m = tt
filter-IsMap p (t ∷ ts) (a, m) =
    ground (arith, All-filter (λ u. (u.id == t.id) ≡ false) p ts a, filter-IsMap p ts m)

pub clear_interval-IsSound : (id : ℕ) (c : Clock) → IsSound c → IsSound (clear_interval id c)
unfolding clear_interval
clear_interval-IsSound id c s = record {
  unique = filter-IsMap _ c.timers s.unique;
  proper = All-filter IsProper _ c.timers s.proper;
  fresh = All-filter (λ t. t.id < c.next_id) _ c.timers s.fresh;
}

All-called_for :
    (P Q : Timer → Type 0) (called : List ℕ) (ts : List Timer)
    → ((t : Timer) → P t → Q (called_for called t))
    → All P ts
    → All Q (map (called_for called) ts)
All-called_for P Q called [] f h = tt
All-called_for P Q called (t ∷ ts) f (h, hs) = (f t h, All-called_for P Q called ts f hs)

map-IsMap : (called : List ℕ) (ts : List Timer) → IsMap ts → IsMap (map (called_for called) ts)
map-IsMap called [] m = tt
map-IsMap called (t ∷ ts) (a, m) = (
  All-called_for (λ u. (u.id == t.id) ≡ false) (λ u. (u.id == t.id) ≡ false) called ts (λ u e. e) a,
  map-IsMap called ts m,
)

store-HasAdvanced :
    (c : Clock) (r : Option (List Timer × List ℕ))
    → IsSound c
    → HasRun c.now_ms c.timers r
    → HasAdvanced c.now_ms c (store c r)
store-HasAdvanced c none s h = h
store-HasAdvanced c (some (ts, called)) s (e, h) = (
  refl,
  (e, h),
  subst (λ l. IsSound (record c { timers = l })) (sym e)
      (record {
        unique = map-IsMap called c.timers s.unique;
        proper = All-called_for IsProper IsProper called c.timers (λ t p. p) s.proper;
        fresh =
            All-called_for (λ t. t.id < c.next_id) (λ t. t.id < c.next_id) called c.timers
              (λ t p. p) s.fresh;
      }),
)

All-Within :
    (now : ℕ) (ts : List Timer)
    → All IsProper ts
    → All (λ t. IsProper t × Within (now + 1) now t) ts
All-Within now ts h =
    All-weaken IsProper (λ t. IsProper t × Within (now + 1) now t) ts (λ t p. (p, omega arith)) h

run_clock-HasAdvanced : (c : Clock) → IsSound c → HasAdvanced c.now_ms c (run_clock c)
run_clock-HasAdvanced c s = store-HasAdvanced c _ s (
    subst (λ f. HasRun c.now_ms c.timers (run_due_timers f c.now_ms c.timers)) (omega arith)
      (run_due_timers-HasRun (c.now_ms + 1) c.now_ms c.timers s.unique
        (All-Within c.now_ms c.timers s.proper)))

at_once : (time : ℕ) → 0 < time → (time == 0) ≡ false
at_once time h = ground arith

not_yet : (now time : ℕ) → 0 < time → leb (now + time) now ≡ false
not_yet now time h = ground arith

-- Moving a clock on ends, by a time or to one: the clock is then at that time, and each of its timers
-- has been called until its next run comes after that time, and no more.
pub advance-HasAdvanced :
    (c : Clock) (time : ℕ)
    → IsSound c
    → 0 < time
    → HasAdvanced (c.now_ms + time) c (advance_by time c)
      × HasAdvanced (c.now_ms + time) c (advance_to (c.now_ms + time) c)
unfolding advance_by advance_to
advance-HasAdvanced c time s h =
    let later : Clock = record c { now_ms = c.now_ms + time } in
    let run : HasAdvanced later.now_ms later (run_clock later) =
      run_clock-HasAdvanced later
        (record { unique = s.unique; proper = s.proper; fresh = s.fresh }) in
    (rw (at_once time h) run, rw (not_yet c.now_ms time h) run)
