-- ===== src/Signals/Bounds.antt =====
-- The ranges of the signals that src/client/lib/qos/signals.js derives, and what their reason says.
use mediasoup_cpp.Shared.{
  ◌≤◌, ◌≡◌, Bool, true, false, Option, none, some, Number, IsOrdered, arith, if◌then◌else◌, or_else,
}
use mediasoup_cpp.Types.{Reason, LimitationReason, RawSnapshot, Signals}
use mediasoup_cpp.Signals.{
  ReasonContext, nought, as_finite_or_zero, as_finite_or_undefined, clamp_to_unit_range,
  compute_counter_delta, compute_loss_rate, compute_bitrate_bps, derive_signals, measured,
}

module _ {W : Type 0} ⦃num : Number W⦄ where
  open num use {decimal, le, lt, is_finite, max_of, minus, times, over}

  abbrev pub NonNegative : W → Type 0
  NonNegative x = le nought x ≡ true

  -- Neither below 0 nor above 1.
  abbrev pub InUnitRange : W → Type 0
  InUnitRange x = (lt x nought ≡ false) × (lt (decimal 1 0) x ≡ false)

  module _ (laws : IsOrdered W) where
    open laws use {
      lt-not-ge, decimal_le, decimal_finite, lt_of_not_le, minus_nonneg, le-max_left,
      le_refl_of_finite, minus_pos, decimal_lt, times_nonneg, over_not_below,
    }

    finite-as_finite_or_zero : (o : Option W) → is_finite (as_finite_or_zero o) ≡ true
    finite-as_finite_or_zero none = decimal_finite 0 0 (omega arith)
    finite-as_finite_or_zero (some x) = ground (arith, decimal_finite 0 0)

    compute_counter_delta-NonNegative :
        (current previous : Option W) → NonNegative (compute_counter_delta current previous)
    unfolding compute_counter_delta
    compute_counter_delta-NonNegative current previous =
        let a : W = as_finite_or_zero current in
        let b : W = as_finite_or_zero previous in
        ground (
          arith,
          decimal_le 0 0 0 0,
          minus_nonneg a b (finite-as_finite_or_zero current) (finite-as_finite_or_zero previous),
          lt_of_not_le a b (finite-as_finite_or_zero current) (finite-as_finite_or_zero previous),
        )

    not_lt_of_le : (a b : W) → le b a ≡ true → lt a b ≡ false
    not_lt_of_le a b h = ground (arith, lt-not-ge a b)

    clamp_to_unit_range-InUnitRange : (x : W) → InUnitRange (clamp_to_unit_range x)
    unfolding clamp_to_unit_range
    clamp_to_unit_range-InUnitRange x = ground (
      arith,
      not_lt_of_le nought nought (decimal_le 0 0 0 0 (omega arith)),
      not_lt_of_le (decimal 1 0) nought (decimal_le 0 0 1 0 (omega arith)),
      not_lt_of_le (decimal 1 0) (decimal 1 0) (decimal_le 1 0 1 0 (omega arith)),
    )

    InUnitRange-if :
        (b : Bool) (x y : W) → InUnitRange x → InUnitRange y → InUnitRange (if b then x else y)
    InUnitRange-if true x y p q = p
    InUnitRange-if false x y p q = q

    nought-InUnitRange : InUnitRange nought
    nought-InUnitRange = (
      not_lt_of_le nought nought (decimal_le 0 0 0 0 (omega arith)),
      not_lt_of_le (decimal 1 0) nought (decimal_le 0 0 1 0 (omega arith)),
    )

    compute_loss_rate-InUnitRange : (sent lost : W) → InUnitRange (compute_loss_rate sent lost)
    unfolding compute_loss_rate
    compute_loss_rate-InUnitRange sent lost =
        InUnitRange-if _ nought _ nought-InUnitRange (clamp_to_unit_range-InUnitRange _)

    max-NonNegative : (x : W) → is_finite x ≡ true → NonNegative (max_of nought x)
    max-NonNegative x h =
        le-max_left nought x (decimal_le 0 0 0 0 (omega arith)) (le_refl_of_finite x h)

    measured-NonNegative :
        (o previous : Option W) → NonNegative (measured (as_finite_or_undefined o) previous)
    measured-NonNegative none previous = max-NonNegative _ (finite-as_finite_or_zero previous)
    measured-NonNegative (some x) previous = ground (
      arith,
      max-NonNegative x,
      max-NonNegative (as_finite_or_zero previous) (finite-as_finite_or_zero previous),
    )

    -- A span of time that is positive, and bytes in it that are not negative.
    bitrate_not_below :
        (delta timestamp before : W)
        → NonNegative delta
        → is_finite timestamp ≡ true
        → is_finite before ≡ true
        → le timestamp before ≡ false
        → lt
            (over (times (times delta (decimal 8 0)) (decimal 1000 0)) (minus timestamp before))
            nought
          ≡ false
    bitrate_not_below delta timestamp before h f g later =
        over_not_below _ _
          (times_nonneg _ _
            (times_nonneg delta (decimal 8 0) h (decimal_lt 0 8 (omega arith) (omega arith))
              (decimal_finite 8 0 (omega arith)))
            (decimal_lt 0 1000 (omega arith) (omega arith)) (decimal_finite 1000 0 (omega arith)))
          (minus_pos timestamp before f g (lt_of_not_le timestamp before f g later))

    compute_bitrate_bps-not_below :
        (bytes previous_bytes : Option W) (timestamp : W) (previous_timestamp : Option W)
        → lt (compute_bitrate_bps bytes previous_bytes timestamp previous_timestamp) nought ≡ false
    unfolding compute_bitrate_bps
    compute_bitrate_bps-not_below bytes previous_bytes timestamp previous_timestamp =
        let delta : W = compute_counter_delta bytes previous_bytes in
        let before : W = as_finite_or_zero previous_timestamp in
        ground (
          arith,
          not_lt_of_le nought nought (decimal_le 0 0 0 0 (omega arith)),
          bitrate_not_below delta timestamp before
              (compute_counter_delta-NonNegative bytes previous_bytes),
          finite-as_finite_or_zero previous_timestamp,
        )

    -- Whatever the engine reports, missing or infinite values and counters that run backwards
    -- included: the deltas, the target bitrate, the round trip time and the jitter are not negative,
    -- the bitrate that was sent is not below 0, and the loss rate is neither below 0 nor above 1.
    pub derive_signals_bounds :
        (current : RawSnapshot W) (previous : Option (RawSnapshot W)) (before : Option (Signals W))
        (alpha : Option W) (context : ReasonContext)
        → let s = derive_signals current previous before alpha context in
          NonNegative s.packets_sent_delta
          × NonNegative s.packets_lost_delta
          × NonNegative s.retransmitted_packets_sent_delta
          × InUnitRange s.loss_rate
          × (lt s.send_bitrate_bps nought ≡ false)
          × NonNegative s.target_bitrate_bps
          × NonNegative s.rtt_ms
          × NonNegative s.jitter_ms
    unfolding derive_signals
    derive_signals_bounds current previous before alpha context = (
      compute_counter_delta-NonNegative _ _,
      compute_counter_delta-NonNegative _ _,
      compute_counter_delta-NonNegative _ _,
      compute_loss_rate-InUnitRange _ _,
      compute_bitrate_bps-not_below current.bytes_sent _ _ _,
      max-NonNegative _ (finite-as_finite_or_zero current.target_bitrate_bps),
      measured-NonNegative current.round_trip_time_ms _,
      measured-NonNegative current.jitter_ms _,
    )

  -- The reason is `cpu` only for a sender that the processor limits and bandwidth does not, from the
  -- second such sample on, and under no override, automatic or manual.
  pub derive_signals_cpu :
      (current : RawSnapshot W) (previous : Option (RawSnapshot W)) (before : Option (Signals W))
      (alpha : Option W) (context : ReasonContext)
      → let s = derive_signals current previous before alpha context in
        s.reason ≡ Reason.cpu
        → (s.cpu_limited ≡ true)
          × (s.bandwidth_limited ≡ false)
          × (2 ≤ context.cpu_sample_count)
          × (context.active_override ≡ false)
          × (context.manual_override ≡ false)
  unfolding derive_signals
  derive_signals_cpu current previous before alpha context h =
      let quality = or_else current.quality_limitation_reason LimitationReason.unknown in
      ground arith
