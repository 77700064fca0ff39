-- ===== src/StateMachine/Counters.antt =====
-- What the counters of consecutive samples in stateMachine.js count.
use mediasoup_cpp.Shared.{
  ℕ, suc, ◌+◌, ◌≡◌, refl, ◌∙◌, Bool, true, not, ◌&&◌, Number, arith, List, [], ◌∷◌, length,
  if◌then◌else◌,
}
use mediasoup_cpp.Types.{Profile}
use mediasoup_cpp.StateMachine.{
  Context, Sample, next_counter, next_context, run, is_warning, is_congested, is_healthy,
  is_recovery_healthy, is_fast_recovery_healthy, initial_context,
}

module _ {ℓ} {A : Type ℓ} where
  abbrev pub every : (A → Bool) → List A → Bool
  every p [] = true
  every p (x ∷ xs) = p x && every p xs

  -- The length of the longest suffix all of whose elements pass the test.
  abbrev pub trailing : (A → Bool) → List A → ℕ
  trailing p [] = 0
  trailing p (x ∷ xs) = if every p (x ∷ xs) then suc (length xs) else trailing p xs

  -- A counter that a row of tests brings up to date.
  abbrev tally : (A → Bool) → ℕ → List A → ℕ
  tally p n [] = n
  tally p n (x ∷ xs) = tally p (next_counter n (p x)) xs

  trailing-every : (p : A → Bool) (xs : List A) → every p xs ≡ true → trailing p xs ≡ length xs
  trailing-every p [] h = refl
  trailing-every p (x ∷ xs) h = ground arith

  tally_lem :
      (p : A → Bool) (n : ℕ) (xs : List A)
      → tally p n xs ≡ (if every p xs then n + length xs else trailing p xs)
  tally_lem p n [] = omega arith
  tally_lem p n (x ∷ xs) =
      ground (arith, trailing-every p xs, tally_lem p (next_counter n (p x)) xs)

  tally_zero : (p : A → Bool) (xs : List A) → tally p 0 xs ≡ trailing p xs
  tally_zero p [] = refl
  tally_zero p (x ∷ xs) = ground (arith, tally_lem p 0 (x ∷ xs))

module _ {W : Type 0} ⦃num : Number W⦄ (p : Profile W) where
  abbrev pub passes_warning : Sample W → Bool
  passes_warning x = is_warning x.signals p

  abbrev pub passes_congested : Sample W → Bool
  passes_congested x = is_congested x.signals p

  abbrev pub passes_healthy : Sample W → Bool
  passes_healthy x = is_healthy x.signals p

  abbrev pub passes_recovery : Sample W → Bool
  passes_recovery x = is_recovery_healthy x.signals p

  abbrev pub passes_fast_recovery : Sample W → Bool
  passes_fast_recovery x =
      not (is_recovery_healthy x.signals p) && is_fast_recovery_healthy x.signals p

  run_tallies :
      (c : Context) (xs : List (Sample W))
      → let end = run p c xs in
        (end.healthy_samples ≡ tally passes_healthy c.healthy_samples xs)
        × (end.recovery_samples ≡ tally passes_recovery c.recovery_samples xs)
        × (end.fast_recovery_samples ≡ tally passes_fast_recovery c.fast_recovery_samples xs)
        × (end.warning_samples ≡ tally passes_warning c.warning_samples xs)
        × (end.congested_samples ≡ tally passes_congested c.congested_samples xs)
  unfolding run next_context
  run_tallies c [] = (refl, refl, refl, refl, refl)
  run_tallies c (x ∷ xs) = ground (arith, run_tallies (next_context c x.signals p x.at_ms) xs)

  -- Whatever transitions a run makes, each counter of a machine that started afresh is the number of
  -- samples, up to the last one, that passed its test without a break.
  pub run_counters :
      (now : ℕ) (xs : List (Sample W))
      → let end = run p (initial_context now) xs in
        (end.healthy_samples ≡ trailing passes_healthy xs)
        × (end.recovery_samples ≡ trailing passes_recovery xs)
        × (end.fast_recovery_samples ≡ trailing passes_fast_recovery xs)
        × (end.warning_samples ≡ trailing passes_warning xs)
        × (end.congested_samples ≡ trailing passes_congested xs)
  unfolding initial_context
  run_counters now xs =
      let (healthy, recovery, fast, warning, congested) = run_tallies (initial_context now) xs in
      (
        healthy ∙ tally_zero passes_healthy xs,
        recovery ∙ tally_zero passes_recovery xs,
        fast ∙ tally_zero passes_fast_recovery xs,
        warning ∙ tally_zero passes_warning xs,
        congested ∙ tally_zero passes_congested xs,
      )
