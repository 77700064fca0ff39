-- ===== src/StateMachine/Order.antt =====
-- How the health tests of stateMachine.js are related, for thresholds in their intended order.
use mediasoup_cpp.Shared.{◌≡◌, true, false, Number, IsOrdered, finite_or, arith, Option, none, some}
use mediasoup_cpp.Types.{Signals, Thresholds, Profile}
use mediasoup_cpp.StateMachine.{
  is_warning, is_congested, is_healthy, is_recovery_healthy, recovery_jitter_ms,
}

module _ {W : Type 0} ⦃num : Number W⦄ where
  open num use {le, lt, infinity, is_finite}

  -- The thresholds of a profile grow from stable over warning to congested.
  pub record IsGraded (t : Thresholds W) : Type 0 where
    pub loss_stable : le t.stable_loss_rate t.warn_loss_rate ≡ true
    pub loss_warn : le t.warn_loss_rate t.congested_loss_rate ≡ true
    pub rtt_stable : le t.stable_rtt_ms t.warn_rtt_ms ≡ true
    pub rtt_warn : le t.warn_rtt_ms t.congested_rtt_ms ≡ true
    pub jitter_stable :
        le (finite_or t.stable_jitter_ms infinity) (finite_or t.warn_jitter_ms infinity) ≡ true
    pub jitter_warn :
        le (finite_or t.warn_jitter_ms infinity) (finite_or t.congested_jitter_ms infinity) ≡ true

  module _ (laws : IsOrdered W) where
    open laws use {
      le_trans, lt_le_trans, lt-not-ge, le_refl_of_finite, le_refl_infinity, le-max_left,
    }

    -- A value below one limit does not reach a limit above that one.
    pub below_not_reached : (x a b : W) → lt x a ≡ true → le a b ≡ true → le b x ≡ false
    below_not_reached x a b h k = lt-not-ge x b (lt_le_trans x a b h k)

    pub healthy_not_warning :
        (s : Signals W) (p : Profile W)
        → IsGraded p.thresholds
        → is_healthy s p ≡ true
        → is_warning s p ≡ false
    unfolding is_healthy is_warning
    healthy_not_warning s p g h = ground (
      arith,
      below_not_reached s.loss_ewma p.thresholds.stable_loss_rate p.thresholds.warn_loss_rate,
      below_not_reached s.rtt_ewma p.thresholds.stable_rtt_ms p.thresholds.warn_rtt_ms,
      below_not_reached s.jitter_ewma (finite_or p.thresholds.stable_jitter_ms infinity)
          (finite_or p.thresholds.warn_jitter_ms infinity),
    )

    pub congested_warning :
        (s : Signals W) (p : Profile W)
        → IsGraded p.thresholds
        → is_congested s p ≡ true
        → is_warning s p ≡ true
    unfolding is_congested is_warning
    congested_warning s p g h = ground (
      arith,
      le_trans p.thresholds.warn_loss_rate p.thresholds.congested_loss_rate s.loss_ewma,
      le_trans p.thresholds.warn_rtt_ms p.thresholds.congested_rtt_ms s.rtt_ewma,
      le_trans (finite_or p.thresholds.warn_jitter_ms infinity)
          (finite_or p.thresholds.congested_jitter_ms infinity) s.jitter_ewma,
    )

    -- A limit with its default is never NaN.
    finite_or_refl :
        (o : Option W) (d : W) → le d d ≡ true → le (finite_or o d) (finite_or o d) ≡ true
    finite_or_refl none d h = h
    finite_or_refl (some x) d h = ground (arith, le_refl_of_finite x)

    stable_le_recovery_jitter :
        (t : Thresholds W)
        → le (finite_or t.stable_jitter_ms infinity) (recovery_jitter_ms t) ≡ true
    stable_le_recovery_jitter t =
        let stable_refl = finite_or_refl t.stable_jitter_ms infinity le_refl_infinity in
        le-max_left _ _ stable_refl (finite_or_refl t.warn_jitter_ms _ stable_refl)

    jitter_widened :
        (x : W) (t : Thresholds W)
        → lt x (finite_or t.stable_jitter_ms infinity) ≡ true
        → lt x (recovery_jitter_ms t) ≡ true
    jitter_widened x t h = lt_le_trans x _ _ h (stable_le_recovery_jitter t)

    pub healthy_recovery_healthy :
        (s : Signals W) (p : Profile W) → is_healthy s p ≡ true → is_recovery_healthy s p ≡ true
    unfolding is_healthy is_recovery_healthy
    healthy_recovery_healthy s p h = ground (arith, jitter_widened s.jitter_ewma p.thresholds)

    pub healthy_not_congested :
        (s : Signals W) (p : Profile W)
        → IsGraded p.thresholds
        → is_healthy s p ≡ true
        → is_congested s p ≡ false
    healthy_not_congested s p g h =
        ground (arith, healthy_not_warning s p g h, congested_warning s p g)
