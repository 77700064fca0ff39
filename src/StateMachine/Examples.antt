-- ===== src/StateMachine/Examples.antt =====
-- Tests of src/client/lib/qos/stateMachine.js and its theorems at concrete samples.
use mediasoup_cpp.Shared.{
  ◌≡◌, refl, ◌⊎◌, none, some, List, [], ◌∷◌, arith, Milli, milli_number, Milli-IsOrdered,
}
use mediasoup_cpp.Types.{stable, congested, recovering}
use mediasoup_cpp.StateMachine.{
  Context, Sample, initial_context, next_context, run, is_healthy, is_warning, is_congested,
  is_recovery_healthy, is_fast_recovery_healthy,
}
use mediasoup_cpp.StateMachine.Order.{IsGraded}
use mediasoup_cpp.StateMachine.Edges.{◌⟶◌, next_context_edge}
use mediasoup_cpp.StateMachine.Settling.{is_overloaded, run_settles, run_degrades, run_cooldown}
use mediasoup_cpp.StateMachine.Counters.{
  run_counters, trailing, passes_healthy, passes_recovery, passes_fast_recovery, passes_warning,
  passes_congested,
}
use mediasoup_cpp.Fixtures.{camera_profile, calm_at, limited_at, lossy_at, lossy_signals}

-- A machine that became congested at 1000.
abbrev jammed : Context
jammed = record {
  state = congested;
  entered_at_ms = 1000;
  last_congested_at_ms = some 1000;
  last_recovery_at_ms = none;
  healthy_samples = 0;
  recovery_samples = 0;
  fast_recovery_samples = 0;
  warning_samples = 3;
  congested_samples = 3;
}

graded : IsGraded camera_profile.thresholds
unfolding camera_profile
graded = ground arith

abbrev calm_row : List (Sample Milli)
calm_row =
    calm_at 9000
    ∷ calm_at 10_000
    ∷ calm_at 11_000
    ∷ calm_at 12_000
    ∷ calm_at 13_000
    ∷ calm_at 14_000
    ∷ []

abbrev limited_row : List (Sample Milli)
limited_row = limited_at 1000 ∷ limited_at 2000 ∷ limited_at 3000 ∷ []

-- Five calm samples are not enough.
five_calm :
    (run camera_profile jammed
      (calm_at 9000 ∷ calm_at 10_000 ∷ calm_at 11_000 ∷ calm_at 12_000 ∷ calm_at 13_000 ∷ [])).state
    ≡ recovering
unfolding run next_context camera_profile is_healthy is_warning is_congested is_recovery_healthy
    is_fast_recovery_healthy
five_calm = refl

next_context_edge_example :
    let c = initial_context 0 in
    let next = next_context c lossy_signals camera_profile 1000 in
    ((next.state ≡ c.state) × (next.entered_at_ms ≡ c.entered_at_ms))
    ⊎ ((c.state ⟶ next.state) × (next.entered_at_ms ≡ 1000))
next_context_edge_example = next_context_edge (initial_context 0) lossy_signals camera_profile 1000

run_settles_example : (run camera_profile jammed calm_row).state ≡ stable
unfolding is_healthy camera_profile
run_settles_example =
    run_settles Milli-IsOrdered camera_profile graded jammed calm_row 9000 (omega arith)
      (ground arith) (λ e. omega arith)

run_degrades_example : (run camera_profile (initial_context 0) limited_row).state ≡ congested
unfolding is_overloaded camera_profile
run_degrades_example =
    run_degrades Milli-IsOrdered camera_profile graded (initial_context 0) limited_row (omega arith)
      (ground arith)

run_cooldown_example :
    (run camera_profile jammed (calm_at 2000 ∷ calm_at 8999 ∷ [])).state ≡ congested
unfolding camera_profile
run_cooldown_example =
    run_cooldown camera_profile jammed (calm_at 2000 ∷ calm_at 8999 ∷ []) refl (omega arith)

run_counters_example :
    let xs : List (Sample Milli) = lossy_at 1000 ∷ calm_at 2000 ∷ calm_at 3000 ∷ [] in
    let end = run camera_profile (initial_context 0) xs in
    (end.healthy_samples ≡ trailing (passes_healthy camera_profile) xs)
    × (end.recovery_samples ≡ trailing (passes_recovery camera_profile) xs)
    × (end.fast_recovery_samples ≡ trailing (passes_fast_recovery camera_profile) xs)
    × (end.warning_samples ≡ trailing (passes_warning camera_profile) xs)
    × (end.congested_samples ≡ trailing (passes_congested camera_profile) xs)
run_counters_example =
    run_counters camera_profile 0 (lossy_at 1000 ∷ calm_at 2000 ∷ calm_at 3000 ∷ [])
