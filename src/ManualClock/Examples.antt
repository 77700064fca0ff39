-- ===== src/ManualClock/Examples.antt =====
-- A run of a clock of src/client/lib/qos/clock.js with two timers.
use mediasoup_cpp.Shared.{ℕ, ◌+◌, ◌≡◌, refl, none, some, Option, List, [], ◌∷◌, arith}
use mediasoup_cpp.ManualClock.{Clock, new_clock, set_interval, advance_by, advance_to}
use mediasoup_cpp.ManualClock.Advance.{
  IsSound, HasAdvanced, new_clock-IsSound, set_interval-IsSound, advance-HasAdvanced,
}

unfoldable two_timers : Clock
unfolding set_interval new_clock
two_timers = (set_interval 5 (set_interval 2 new_clock).0).0

abbrev called_by : Option (Clock × List ℕ) → List ℕ
called_by none = []
called_by (some (c, called)) = called

-- The first pass calls both, the later ones the timer that is still behind.
calls_in_passes : called_by (advance_by 6 two_timers) ≡ 1 ∷ 2 ∷ 1 ∷ 1 ∷ []
unfolding advance_by two_timers
calls_in_passes = refl

two_timers-IsSound : IsSound two_timers
unfolding two_timers
two_timers-IsSound = set_interval-IsSound 5 _ (set_interval-IsSound 2 new_clock new_clock-IsSound)

advance-HasAdvanced_example :
    HasAdvanced (two_timers.now_ms + 6) two_timers (advance_by 6 two_timers)
    × HasAdvanced (two_timers.now_ms + 6) two_timers (advance_to (two_timers.now_ms + 6) two_timers)
advance-HasAdvanced_example = advance-HasAdvanced two_timers 6 two_timers-IsSound (omega arith)
