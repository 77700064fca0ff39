-- ===== src/Protocol/Readers.antt =====
-- The readers at the head of src/client/lib/qos/protocol.js: `asObject` to `asStringEnum`. An error
-- tells where in the payload it was found, the innermost step first, and what was wrong there.
use mediasoup_cpp.Shared.{
  ℕ, Bool, not, Option, none, some, List, [], ◌∷◌, Text, text_eq, is_empty, Number, Result, ok,
  refused, ◌>>=◌, ◌>>◌, guard, if◌then◌else◌,
}
use mediasoup_cpp.Dynamic.{Value, missing, boolean, number, text, array, object, Items, Fields, get}

pub data Step : Type 0 where
  key : Text → Step
  place : ℕ → Step

pub data Complaint : Type 0 where
  no_object no_array no_text empty_text no_boolean : Complaint
  not_finite negative no_integer not_listed wrong_schema : Complaint
  too_great too_many no_track_id both_directions : Complaint

abbrev pub Trail : Type 0
Trail = List Step

abbrev pub Reading : Type 0 → Type 0
Reading A = Result (Trail × Complaint) A

-- What a list of names and members has under a name.
unfoldable pub member_of : {A : Type 0} → Text → List (Text × A) → Option A
member_of s [] = none
member_of s ((name, a) ∷ rest) = if text_eq s name then some a else member_of s rest

abbrev or_refuse : {A : Type 0} → Option A → Trail × Complaint → Reading A
or_refuse none e = refused e
or_refuse (some a) e = ok a

module _ {W : Type 0} where
  unfoldable pub as_object : Value W → Trail → Reading (Fields W)
  as_object (object fields) at = ok fields
  as_object v at = refused (at, no_object)

  unfoldable pub as_array : Value W → Trail → Reading (Items W)
  as_array (array items) at = ok items
  as_array v at = refused (at, no_array)

  unfoldable pub as_string : Value W → Trail → Reading Text
  as_string (text s) at = ok s
  as_string v at = refused (at, no_text)

  unfoldable pub as_non_empty_string : Value W → Trail → Reading Text
  unfolding as_string ◌>>=◌
  as_non_empty_string v at = do s ← as_string v at; guard (not (is_empty s)) (at, empty_text); ok s

  unfoldable pub as_boolean : Value W → Trail → Reading Bool
  as_boolean (boolean b) at = ok b
  as_boolean v at = refused (at, no_boolean)

  unfoldable pub as_string_enum : {A : Type 0} → List (Text × A) → Value W → Trail → Reading A
  unfolding as_string member_of ◌>>=◌
  as_string_enum allowed v at = do
    s ← as_string v at
    or_refuse (member_of s allowed) (at, not_listed)

  -- A key that is not there, or is `undefined`, is passed over: `optionalNumber` and its like.
  unfoldable pub optional_value :
      {A : Type 0} → (Value W → Trail → Reading A) → Value W → Trail → Reading (Option A)
  unfolding ◌>>=◌
  optional_value read missing at = ok none
  optional_value read v at = do a ← read v at; ok (some a)

  abbrev pub optional :
      {A : Type 0} → (Value W → Trail → Reading A) → Fields W → Text → Trail → Reading (Option A)
  optional read fields k at = optional_value read (get fields k) (key k ∷ at)

  abbrev pub required :
      {A : Type 0} → (Value W → Trail → Reading A) → Fields W → Text → Trail → Reading A
  required read fields k at = read (get fields k) (key k ∷ at)

module _ {W : Type 0} ⦃num : Number W⦄ where
  open num use {is_finite, is_integer, lt, decimal}

  unfoldable pub as_finite_number : Value W → Trail → Reading W
  unfolding ◌>>=◌
  as_finite_number (number x) at = do guard (is_finite x) (at, not_finite); ok x
  as_finite_number v at = refused (at, not_finite)

  unfoldable pub as_non_negative_number : Value W → Trail → Reading W
  unfolding as_finite_number ◌>>=◌
  as_non_negative_number v at = do
    x ← as_finite_number v at
    guard (not (lt x (decimal 0 0))) (at, negative)
    ok x

  unfoldable pub as_int : Value W → Trail → Reading W
  unfolding as_finite_number ◌>>=◌
  as_int v at = do x ← as_finite_number v at; guard (is_integer x) (at, no_integer); ok x

  unfoldable pub as_non_negative_int : Value W → Trail → Reading W
  unfolding as_int ◌>>=◌
  as_non_negative_int v at = do
    x ← as_int v at
    guard (not (lt x (decimal 0 0))) (at, negative)
    ok x
