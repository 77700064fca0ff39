-- ===== src/Shared/Thousandths.antt =====
-- A concrete type of numbers that meets the laws: the tests and the examples run on it.
use mathlib.Core.Path.{refl}
use mathlib.Core.Bool.{Bool, true, false}
use Prim.Native.Nat.{ℕ, zero, suc, ◌≤◌, ◌<◌, ◌*◌, ◌/◌, ◌%◌, ◌^◌, ◌+◌, ◌-◌}
use native.Mathlib.Nat.{pow-suc, le-div_iff_mul-le, div-mul-le_self, mul-le-mul_right}
use native.Mathlib.Omega.{arith}
use mediasoup_cpp.Shared.Tests.{if◌then◌else◌, ◌==◌, ltb, leb, le→leb}
use mediasoup_cpp.Shared.Numbers.{Number, IsOrdered}

-- A concrete number: thousandths from 0 up, and infinity.
pub data Milli : Type 0 where
  milli : ℕ → Milli
  unbounded : Milli

abbrev milli_lt : Milli → Milli → Bool
milli_lt (milli a) (milli b) = ltb a b
milli_lt (milli a) unbounded = true
milli_lt unbounded b = false

abbrev milli_le : Milli → Milli → Bool
milli_le (milli a) (milli b) = leb a b
milli_le a unbounded = true
milli_le unbounded (milli b) = false

abbrev milli_is_finite : Milli → Bool
milli_is_finite (milli a) = true
milli_is_finite unbounded = false

abbrev milli_is_integer : Milli → Bool
milli_is_integer (milli a) = a % 1000 == 0
milli_is_integer unbounded = false

abbrev milli_round : Milli → Milli
milli_round (milli a) = milli ((a + 500) / 1000 * 1000)
milli_round unbounded = unbounded

abbrev milli_lift : (ℕ → ℕ → ℕ) → Milli → Milli → Milli
milli_lift f (milli a) (milli b) = milli (f a b)
milli_lift f _ _ = unbounded

instance abbrev pub milli_number : Number Milli
milli_number = record {
  decimal = λ n k. milli (n * 1000 / 10 ^ k);
  infinity = unbounded;
  is_finite = milli_is_finite;
  is_integer = milli_is_integer;
  lt = milli_lt;
  le = milli_le;
  max_of = λ a b. if milli_le a b then b else a;
  min_of = λ a b. if milli_le a b then a else b;
  plus = milli_lift (λ a b. a + b);
  minus = milli_lift (λ a b. a - b);
  times = milli_lift (λ a b. a * b / 1000);
  over = milli_lift (λ a b. a * 1000 / b);
  round = milli_round;
}

cancel : (x y p : ℕ) → 0 < p → x * p ≤ y * p → x ≤ y
cancel x y p h k = grind arith

-- a / p is at most b / q as soon as a * q is at most b * p.
div-le-div : (a b p q : ℕ) → 0 < p → 0 < q → a * q ≤ b * p → a / p ≤ b / q
div-le-div a b p q hp hq h =
    (le-div_iff_mul-le hq).1
      (cancel (a / p * q) b p hp (omega (arith, h, mul-le-mul_right q (div-mul-le_self a p))))

pow_pos : (k : ℕ) → 0 < 10 ^ k
pow_pos zero = omega arith
pow_pos (suc k) = rw pow-suc (grind (arith, pow_pos k))

milli_decimal_le : (n k m j : ℕ) → n * 10 ^ j ≤ m * 10 ^ k → n * 1000 / 10 ^ k ≤ m * 1000 / 10 ^ j
milli_decimal_le n k m j h =
    div-le-div (n * 1000) (m * 1000) (10 ^ k) (10 ^ j) (pow_pos k) (pow_pos j) (omega (arith, h))

pub Milli-IsOrdered : IsOrdered Milli
Milli-IsOrdered = record {
  le_trans = λ a b c p q. ground arith;
  lt_le_trans = λ a b c p q. ground arith;
  lt-not-ge = λ a b p. ground arith;
  le_refl_of_finite = λ a p. ground arith;
  le_refl_infinity = refl;
  decimal_le = λ n k m j h. le→leb _ _ (milli_decimal_le n k m j h);
  decimal_finite = λ n k h. refl;
  decimal_integer = λ n h. ground arith;
  lt_of_not_le = λ a b p q h. ground arith;
  minus_nonneg = λ a b p q h. ground arith;
  minus_pos = λ a b p q h. ground arith;
  decimal_lt = λ n m h k. ground arith;
  times_nonneg = λ a b h k f. ground arith;
  over_not_below = λ a b h k. ground arith;
  max_not_lt = λ a b. ground arith;
  min_not_gt = λ a b. ground arith;
  max_below = λ a b c p q. ground arith;
  le-max_left = λ a b p q. ground arith;
}
