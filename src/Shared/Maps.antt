-- ===== src/Shared/Maps.antt =====
-- `Map` objects with texts for keys, in the order of insertion.
use mathlib.Core.Path.{◌≡◌, refl}
use mathlib.Core.Bool.{true}
use mathlib.Core.Option.{Option, none, some}
use mathlib.Core.List.{List, [], ◌∷◌}
use native.Mathlib.Omega.{arith}
use mediasoup_cpp.Shared.Tests.{if◌then◌else◌}
use mediasoup_cpp.Shared.Texts.{Text, text_eq, text_eq_refl, text_eq_sound}

module _ {ℓ} {A : Type ℓ} where
  -- `map.get(key)`.
  unfoldable pub value_at : Text → List (Text × A) → Option A
  value_at key [] = none
  value_at key ((k, a) ∷ rest) = if text_eq k key then some a else value_at key rest

  -- `map.set(key, a)`: a key that is there keeps its place.
  unfoldable pub set_at : Text → A → List (Text × A) → List (Text × A)
  set_at key a [] = (key, a) ∷ []
  set_at key a ((k, b) ∷ rest) =
      let others = set_at key a rest in if text_eq k key then (k, a) ∷ rest else (k, b) ∷ others

  -- `map.delete(key)`.
  unfoldable pub delete_at : Text → List (Text × A) → List (Text × A)
  delete_at key [] = []
  delete_at key ((k, b) ∷ rest) =
      let others = delete_at key rest in if text_eq k key then others else (k, b) ∷ others

  -- A change of the value under a key that is there.
  unfoldable pub update_at : Text → (A → A) → List (Text × A) → List (Text × A)
  update_at key f [] = []
  update_at key f ((k, b) ∷ rest) =
      let others = update_at key f rest in
      if text_eq k key then (k, f b) ∷ rest else (k, b) ∷ others

text_eq_joins : (a b c : Text) → text_eq a c ≡ true → text_eq b c ≡ true → text_eq a b ≡ true
text_eq_joins a b c h k = rw (text_eq_sound a c h) (rw (text_eq_sound b c k) (text_eq_refl c))

text_eq_swap : (a b : Text) → text_eq a b ≡ true → text_eq b a ≡ true
text_eq_swap a b h = rw (text_eq_sound a b h) (text_eq_refl b)

module _ {ℓ} {A : Type ℓ} where
  pub value_at-set_at :
      (key k : Text) (a : A) (m : List (Text × A))
      → value_at key (set_at k a m) ≡ (if text_eq k key then some a else value_at key m)
  unfolding value_at set_at
  value_at-set_at key k a [] = refl
  value_at-set_at key k a ((j, b) ∷ rest) =
      ground (arith, text_eq_joins j k key, text_eq_sound j k, value_at-set_at key k a rest)

  pub value_at-delete_at :
      (key k : Text) (m : List (Text × A))
      → value_at key (delete_at k m) ≡ (if text_eq k key then none else value_at key m)
  unfolding value_at delete_at
  value_at-delete_at key k [] = ground arith
  value_at-delete_at key k ((j, b) ∷ rest) =
      ground (arith, text_eq_joins j k key, text_eq_sound j k, value_at-delete_at key k rest)

  abbrev pub map_option : (A → A) → Option A → Option A
  map_option f none = none
  map_option f (some a) = some (f a)

  pub value_at-update_at :
      (key k : Text) (f : A → A) (m : List (Text × A))
      → value_at key (update_at k f m)
        ≡ (if text_eq k key then map_option f (value_at key m) else value_at key m)
  unfolding value_at update_at
  value_at-update_at key k f [] = ground arith
  value_at-update_at key k f ((j, b) ∷ rest) =
      ground (arith, text_eq_joins j k key, text_eq_sound j k, value_at-update_at key k f rest)
