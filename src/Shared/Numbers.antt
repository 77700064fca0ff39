-- ===== src/Shared/Numbers.antt =====
-- The numbers of the language that the sources are written in, as far as the sources use them.
-- Their arithmetic is the engine's: it is a parameter, with laws of IEEE 754 that every engine keeps.
use mathlib.Core.Path.{◌≡◌}
use mathlib.Core.Bool.{Bool, true, false}
use mathlib.Core.Option.{Option, none, some}
use Prim.Native.Nat.{ℕ, ◌*◌, ◌^◌, ◌≤◌, ◌<◌}
use mediasoup_cpp.Shared.Tests.{if◌then◌else◌}

pub record Number (W : Type 0) : Type 0 where
  -- `decimal n k` is the literal n · 10 ^ -k.
  pub decimal : ℕ → ℕ → W
  pub infinity : W
  pub is_finite : W → Bool
  pub is_integer : W → Bool
  pub lt : W → W → Bool
  pub le : W → W → Bool
  pub max_of : W → W → W
  pub min_of : W → W → W
  pub plus : W → W → W
  pub minus : W → W → W
  pub times : W → W → W
  pub over : W → W → W
  -- `Math.round`.
  pub round : W → W

-- What the proofs use of the order: NaN is the value that is not `<=` itself.
pub record IsOrdered (W : Type 0) ⦃num : Number W⦄ : Type 0 where
  pub le_trans : (a b c : W) → num.le a b ≡ true → num.le b c ≡ true → num.le a c ≡ true
  pub lt_le_trans : (a b c : W) → num.lt a b ≡ true → num.le b c ≡ true → num.lt a c ≡ true
  pub lt-not-ge : (a b : W) → num.lt a b ≡ true → num.le b a ≡ false
  pub le_refl_of_finite : (a : W) → num.is_finite a ≡ true → num.le a a ≡ true
  pub le_refl_infinity : num.le num.infinity num.infinity ≡ true
  -- Rounding a literal keeps the order, and a literal below 2 ^ 53 is finite.
  pub decimal_le :
      (n k m j : ℕ) → n * 10 ^ j ≤ m * 10 ^ k → num.le (num.decimal n k) (num.decimal m j) ≡ true
  pub decimal_finite : (n k : ℕ) → n < 2 ^ 53 → num.is_finite (num.decimal n k) ≡ true
  pub decimal_integer : (n : ℕ) → n < 2 ^ 53 → num.is_integer (num.decimal n 0) ≡ true
  -- The order is total on finite numbers, and the greater minus the less is not negative.
  pub lt_of_not_le :
      (a b : W)
      → num.is_finite a ≡ true
      → num.is_finite b ≡ true
      → num.le a b ≡ false
      → num.lt b a ≡ true
  pub minus_nonneg :
      (a b : W)
      → num.is_finite a ≡ true
      → num.is_finite b ≡ true
      → num.lt b a ≡ true
      → num.le (num.decimal 0 0) (num.minus a b) ≡ true
  -- It is greater than 0, since small numbers underflow gradually.
  pub minus_pos :
      (a b : W)
      → num.is_finite a ≡ true
      → num.is_finite b ≡ true
      → num.lt b a ≡ true
      → num.lt (num.decimal 0 0) (num.minus a b) ≡ true
  -- Integers below 2 ^ 53 are exact.
  pub decimal_lt :
      (n m : ℕ) → n < m → m < 2 ^ 53 → num.lt (num.decimal n 0) (num.decimal m 0) ≡ true
  -- The signs of products and quotients; a quotient may be NaN, which is not below 0.
  pub times_nonneg :
      (a b : W)
      → num.le (num.decimal 0 0) a ≡ true
      → num.lt (num.decimal 0 0) b ≡ true
      → num.is_finite b ≡ true
      → num.le (num.decimal 0 0) (num.times a b) ≡ true
  pub over_not_below :
      (a b : W)
      → num.le (num.decimal 0 0) a ≡ true
      → num.lt (num.decimal 0 0) b ≡ true
      → num.lt (num.over a b) (num.decimal 0 0) ≡ false
  -- `Math.max` and `Math.min`, also where they are NaN.
  pub max_not_lt : (a b : W) → num.lt (num.max_of a b) a ≡ false
  pub min_not_gt : (a b : W) → num.lt a (num.min_of a b) ≡ false
  pub max_below :
      (a b c : W) → num.lt c a ≡ false → num.lt c b ≡ false → num.lt c (num.max_of a b) ≡ false
  pub le-max_left :
      (a b : W) → num.le a a ≡ true → num.le b b ≡ true → num.le a (num.max_of a b) ≡ true

module _ {W : Type 0} ⦃num : Number W⦄ where
  open num use {is_finite}

  -- `Number.isFinite(x) ? x : d`, for an `x` that may be missing.
  abbrev pub finite_or : Option W → W → W
  finite_or none d = d
  finite_or (some x) d = if is_finite x then x else d
