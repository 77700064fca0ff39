-- ===== src/StateMachine/Settling.antt =====
-- Where rows of equal samples take the machine of stateMachine.js, and how the cooldown holds it.
use mediasoup_cpp.Shared.{
  ℕ, suc, ◌+◌, ◌≤◌, ◌<◌, ◌≡◌, Bool, true, false, ◌||◌, Number, IsOrdered, arith, List, [], ◌∷◌,
  length, All, subst,
}
use mediasoup_cpp.Types.{stable, early_warning, congested, recovering, Signals, Profile}
use mediasoup_cpp.StateMachine.{
  Context, Sample, is_warning, is_congested, is_healthy, is_recovery_healthy,
  is_fast_recovery_healthy, next_context, run,
}
use mediasoup_cpp.StateMachine.Order.{
  IsGraded, healthy_not_warning, congested_warning, healthy_recovery_healthy, below_not_reached,
  healthy_not_congested,
}
use mediasoup_cpp.StateMachine.Edges.{since_ms}

-- How far a machine is after `k` overloaded samples in a row.
record Degrades (k : ℕ) (c : Context) : Type 0 where
  congested_run : k ≤ c.congested_samples
  warning_run : k ≤ c.warning_samples
  stable_left : c.state ≡ stable → k < 2
  warning_left : c.state ≡ early_warning → k < 3
  recovering_left : c.state ≡ recovering → k < 2

module _ {W : Type 0} ⦃num : Number W⦄ where
  open num use {le}

  -- A sample at `t` or later whose signals are healthy.
  abbrev pub HealthyAfter : Profile W → ℕ → Sample W → Type 0
  HealthyAfter p t x = (is_healthy x.signals p ≡ true) × (t ≤ x.at_ms)

  -- How far a machine is after `k` healthy samples in a row.
  record Recovers (p : Profile W) (t k : ℕ) (c : Context) : Type 0 where
    healthy_run : k ≤ c.healthy_samples
    recovery_run : k ≤ c.recovery_samples
    warning_left : c.state ≡ early_warning → k < 3
    recovering_left : c.state ≡ recovering → k ≤ 5
    congested_left : c.state ≡ congested → (k < 5) × (since_ms c + p.recovery_cooldown_ms ≤ t)

  -- Samples that the network alone makes congested.
  unfoldable pub is_overloaded : Signals W → Profile W → Bool
  is_overloaded s p =
      s.bandwidth_limited
      || le p.thresholds.congested_loss_rate s.loss_ewma
      || le p.thresholds.congested_rtt_ms s.rtt_ewma

  abbrev pub Overloaded : Profile W → Sample W → Type 0
  Overloaded p x = is_overloaded x.signals p ≡ true

  -- Such a sample is congested, and fit for no kind of recovery.
  record IsBad (p : Profile W) (x : Sample W) : Type 0 where
    bad_congested : is_congested x.signals p ≡ true
    bad_warning : is_warning x.signals p ≡ true
    not_recovery : is_recovery_healthy x.signals p ≡ false
    not_fast_recovery : is_fast_recovery_healthy x.signals p ≡ false

  module _ (laws : IsOrdered W) (p : Profile W) (graded : IsGraded p.thresholds) where
    open laws use {le_trans}

    Overloaded-congested : (x : Sample W) → Overloaded p x → is_congested x.signals p ≡ true
    unfolding is_overloaded is_congested
    Overloaded-congested x h = ground arith

    Overloaded-unfit :
        (x : Sample W)
        → Overloaded p x
        → (is_recovery_healthy x.signals p ≡ false) × (is_fast_recovery_healthy x.signals p ≡ false)
    unfolding is_overloaded is_recovery_healthy is_fast_recovery_healthy
    Overloaded-unfit x h =
        let loss = le_trans _ _ _ graded.loss_stable graded.loss_warn in
        let rtt = le_trans _ _ _ graded.rtt_stable graded.rtt_warn in
        ground (
          arith,
          below_not_reached laws x.signals.loss_ewma p.thresholds.stable_loss_rate
              p.thresholds.congested_loss_rate,
          below_not_reached laws x.signals.rtt_ewma p.thresholds.stable_rtt_ms
              p.thresholds.congested_rtt_ms,
          loss,
          rtt,
        )

    Overloaded-IsBad : (x : Sample W) → Overloaded p x → IsBad p x
    Overloaded-IsBad x h = record {
      bad_congested = Overloaded-congested x h;
      bad_warning = congested_warning laws x.signals p graded (Overloaded-congested x h);
      not_recovery = (Overloaded-unfit x h).0;
      not_fast_recovery = (Overloaded-unfit x h).1;
    }

    Recovers-step :
        (t k : ℕ) (c : Context) (x : Sample W)
        → Recovers p t k c
        → HealthyAfter p t x
        → Recovers p t (suc k) (next_context c x.signals p x.at_ms)
    unfolding next_context
    Recovers-step t k c x r h = ground (
      arith,
      healthy_not_warning laws x.signals p graded h.0,
      healthy_not_congested laws x.signals p graded h.0,
      healthy_recovery_healthy laws x.signals p h.0,
    )

    Recovers-run :
        (t k : ℕ) (c : Context) (xs : List (Sample W))
        → Recovers p t k c
        → All (HealthyAfter p t) xs
        → Recovers p t (length xs + k) (run p c xs)
    unfolding run
    Recovers-run t k c [] r h = subst (λ n. Recovers p t n c) (omega arith) r
    Recovers-run t k c (x ∷ xs) r (h, hs) =
        subst (λ n. Recovers p t n (run p (next_context c x.signals p x.at_ms) xs)) (omega arith)
          (Recovers-run t (suc k) _ xs (Recovers-step t k c x r h) hs)

    Degrades-step :
        (k : ℕ) (c : Context) (x : Sample W)
        → Degrades k c
        → IsBad p x
        → Degrades (suc k) (next_context c x.signals p x.at_ms)
    unfolding next_context
    Degrades-step k c x r h = ground arith

    Degrades-run :
        (k : ℕ) (c : Context) (xs : List (Sample W))
        → Degrades k c
        → All (Overloaded p) xs
        → Degrades (length xs + k) (run p c xs)
    unfolding run
    Degrades-run k c [] r h = subst (λ n. Degrades n c) (omega arith) r
    Degrades-run k c (x ∷ xs) r (h, hs) =
        subst (λ n. Degrades n (run p (next_context c x.signals p x.at_ms) xs)) (omega arith)
          (Degrades-run (suc k) _ xs (Degrades-step k c x r (Overloaded-IsBad x h)) hs)

    -- For graded thresholds: six or more healthy samples in a row take the machine to `stable` from
    -- any context, if no sample is earlier than the end of the cooldown that a congested context
    -- still has to sit out.
    pub run_settles :
        (c : Context) (xs : List (Sample W)) (t : ℕ)
        → 6 ≤ length xs
        → All (HealthyAfter p t) xs
        → (c.state ≡ congested → since_ms c + p.recovery_cooldown_ms ≤ t)
        → (run p c xs).state ≡ stable
    run_settles c xs t n h cool =
        let start : Recovers p t 0 c = ground arith in ground (arith, Recovers-run t 0 c xs start h)

    -- For graded thresholds: three or more overloaded samples in a row take the machine to
    -- `congested` from any context and at any times.
    pub run_degrades :
        (c : Context) (xs : List (Sample W))
        → 3 ≤ length xs
        → All (Overloaded p) xs
        → (run p c xs).state ≡ congested
    run_degrades c xs n h =
        let start : Degrades 0 c = ground arith in ground (arith, Degrades-run 0 c xs start h)

  cooldown_step :
      (p : Profile W) (c : Context) (x : Sample W)
      → c.state ≡ congested
      → x.at_ms < since_ms c + p.recovery_cooldown_ms
      → let next = next_context c x.signals p x.at_ms in
        (next.state ≡ congested) × (since_ms next ≡ since_ms c)
  unfolding next_context
  cooldown_step p c x h early = ground arith

  -- A congested machine leaves its state for no samples that all come before the cooldown has
  -- passed since the state was entered or, if that is on record, last became congested.
  pub run_cooldown :
      (p : Profile W) (c : Context) (xs : List (Sample W))
      → c.state ≡ congested
      → All (λ x. x.at_ms < since_ms c + p.recovery_cooldown_ms) xs
      → (run p c xs).state ≡ congested
  unfolding run
  run_cooldown p c [] h early = h
  run_cooldown p c (x ∷ xs) h (early, rest) =
      let next = next_context c x.signals p x.at_ms in
      let (stays, since) = cooldown_step p c x h early in
      run_cooldown p next xs stays (rw since rest)
