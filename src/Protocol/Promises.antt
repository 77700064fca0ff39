-- ===== src/Protocol/Promises.antt =====
-- What the readers of src/client/lib/qos/protocol.js make of a value that was written for them, and
-- what they promise of any value.
use mediasoup_cpp.Shared.{
  ◌≡◌, refl, Option, none, some, List, Text, Number, arith, ok, Returns, Returns-bind,
}
use mediasoup_cpp.Dynamic.{Value, missing, null, boolean, number, text, array, object}
use mediasoup_cpp.Protocol.Readers.{
  Trail, Reading, member_of, as_non_empty_string, as_string_enum, optional_value,
  as_non_negative_number, as_non_negative_int,
}
use mediasoup_cpp.Protocol.Values.{or_missing}
use mediasoup_cpp.Protocol.Validity.{OnSome, IsId, IsAmount, IsCount}

module _ (W : Type 0) where
  pub as_non_empty_string-text :
      (s : Text) (at : Trail) → IsId s → as_non_empty_string {W = W} (text s) at ≡ ok s
  unfolding as_non_empty_string
  as_non_empty_string-text s at h = ground arith

  pub as_string_enum-text :
      {A : Type 0} (table : List (Text × A)) (s : Text) (a : A) (at : Trail)
      → member_of s table ≡ some a
      → as_string_enum {W = W} table (text s) at ≡ ok a
  unfolding as_string_enum
  as_string_enum-text table s a at h = rw h refl

module _ {W : Type 0} where
  -- The printed value is there, so that it is read.
  abbrev pub IsShown :
      {A : Type 0} → (Value W → Trail → Reading A) → (A → Value W) → Trail → A → Type 0
  IsShown read print at a = optional_value read (print a) at ≡ ok (some a)

  pub optional_value-or_missing :
      {A : Type 0} (read : Value W → Trail → Reading A) (print : A → Value W) (at : Trail)
      (o : Option A)
      → OnSome (IsShown read print at) o
      → optional_value read (or_missing print o) at ≡ ok o
  unfolding optional_value
  optional_value-or_missing read print at none h = refl
  optional_value-or_missing read print at (some a) h = h

  pub optional_value-Returns :
      {A : Type 0} (P : A → Type 0) (read : Value W → Trail → Reading A) (v : Value W) (at : Trail)
      → ((v : Value W) → Returns P (read v at))
      → Returns (OnSome P) (optional_value read v at)
  unfolding optional_value
  optional_value-Returns P read missing at h = tt
  optional_value-Returns P read null at h =
      Returns-bind P (OnSome P) (read null at) _ (h null) (λ a p. p)
  optional_value-Returns P read (boolean b) at h =
      Returns-bind P (OnSome P) (read (boolean b) at) _ (h (boolean b)) (λ a p. p)
  optional_value-Returns P read (number x) at h =
      Returns-bind P (OnSome P) (read (number x) at) _ (h (number x)) (λ a p. p)
  optional_value-Returns P read (text s) at h =
      Returns-bind P (OnSome P) (read (text s) at) _ (h (text s)) (λ a p. p)
  optional_value-Returns P read (array vs) at h =
      Returns-bind P (OnSome P) (read (array vs) at) _ (h (array vs)) (λ a p. p)
  optional_value-Returns P read (object fs) at h =
      Returns-bind P (OnSome P) (read (object fs) at) _ (h (object fs)) (λ a p. p)

  pub as_non_empty_string-Returns :
      (v : Value W) (at : Trail) → Returns IsId (as_non_empty_string v at)
  unfolding as_non_empty_string
  as_non_empty_string-Returns v at = ground arith

module _ {W : Type 0} ⦃num : Number W⦄ where
  pub as_non_negative_number-number :
      (x : W) (at : Trail) → IsAmount x → as_non_negative_number (number x) at ≡ ok x
  unfolding as_non_negative_number
  as_non_negative_number-number x at h = ground arith

  pub as_non_negative_int-number :
      (x : W) (at : Trail) → IsCount x → as_non_negative_int (number x) at ≡ ok x
  unfolding as_non_negative_int
  as_non_negative_int-number x at h = ground arith

  pub as_non_negative_number-Returns :
      (v : Value W) (at : Trail) → Returns IsAmount (as_non_negative_number v at)
  unfolding as_non_negative_number
  as_non_negative_number-Returns v at = ground arith

  pub as_non_negative_int-Returns :
      (v : Value W) (at : Trail) → Returns IsCount (as_non_negative_int v at)
  unfolding as_non_negative_int
  as_non_negative_int-Returns v at = ground arith

  pub amount_shown :
      (at : Trail) (o : Option W)
      → OnSome IsAmount o
      → optional_value as_non_negative_number (or_missing number o) at ≡ ok o
  unfolding optional_value
  amount_shown at none h = refl
  amount_shown at (some x) h = rw (as_non_negative_number-number x at h) refl

  pub count_shown :
      (at : Trail) (o : Option W)
      → OnSome IsCount o
      → optional_value as_non_negative_int (or_missing number o) at ≡ ok o
  unfolding optional_value
  count_shown at none h = refl
  count_shown at (some x) h = rw (as_non_negative_int-number x at h) refl
