-- ===== src/DownlinkSampler/Percent.antt =====
-- The bounds of the loss in src/client/lib/qos/downlinkSampler.js.
use mediasoup_cpp.Shared.{
  ◌≡◌, Bool, true, false, Option, none, some, Number, IsOrdered, if◌then◌else◌, arith,
}
use mediasoup_cpp.DownlinkSampler.Arithmetic.{
  InboundReport, loss_between, loss_of, compute_loss_percent,
}

module _ {W : Type 0} ⦃num : Number W⦄ where
  open num use {decimal, lt, le, max_of, min_of}

  -- Neither below nothing nor above a hundred.
  abbrev pub IsPercent : W → Type 0
  IsPercent x = (lt x (decimal 0 0) ≡ false) × (lt (decimal 100 0) x ≡ false)

  module _ (laws : IsOrdered W) where
    not_lt : (a b : W) → le b a ≡ true → lt a b ≡ false
    not_lt a b h = ground (arith, laws.lt-not-ge a b)

    zero-IsPercent : IsPercent (decimal 0 0)
    zero-IsPercent = (
      not_lt (decimal 0 0) (decimal 0 0) (laws.decimal_le 0 0 0 0 (omega arith)),
      not_lt (decimal 100 0) (decimal 0 0) (laws.decimal_le 0 0 100 0 (omega arith)),
    )

    clamp-IsPercent : (x : W) → IsPercent (max_of (decimal 0 0) (min_of (decimal 100 0) x))
    clamp-IsPercent x = (
      laws.max_not_lt (decimal 0 0) (min_of (decimal 100 0) x),
      laws.max_below (decimal 0 0) (min_of (decimal 100 0) x) (decimal 100 0)
          (not_lt (decimal 100 0) (decimal 0 0) (laws.decimal_le 0 0 100 0 (omega arith)))
          (laws.min_not_gt (decimal 100 0) x),
    )

    if-IsPercent :
        (test : Bool) (x y : W) → IsPercent x → IsPercent y → IsPercent (if test then x else y)
    if-IsPercent true x y p q = p
    if-IsPercent false x y p q = q

    loss_between-IsPercent : (a b c d : W) → IsPercent (loss_between a b c d)
    unfolding loss_between
    loss_between-IsPercent a b c d =
        if-IsPercent _ _ _ zero-IsPercent (if-IsPercent _ _ _ zero-IsPercent (clamp-IsPercent _))

    loss_of-IsPercent : (a b c d : Option W) → IsPercent (loss_of a b c d)
    unfolding loss_of
    loss_of-IsPercent none b c d = zero-IsPercent
    loss_of-IsPercent (some a) none c d = zero-IsPercent
    loss_of-IsPercent (some a) (some b) none d = zero-IsPercent
    loss_of-IsPercent (some a) (some b) (some c) none = zero-IsPercent
    loss_of-IsPercent (some a) (some b) (some c) (some d) = loss_between-IsPercent a b c d

    pub compute_loss_percent-IsPercent :
        (stats : Option (InboundReport W)) (lost received : Option W)
        → IsPercent (compute_loss_percent stats lost received)
    unfolding compute_loss_percent
    compute_loss_percent-IsPercent none lost received = zero-IsPercent
    compute_loss_percent-IsPercent (some stats) lost received = loss_of-IsPercent _ _ _ _
