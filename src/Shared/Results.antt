-- ===== src/Shared/Results.antt =====
-- Calls that return or throw, in `do` blocks, and what holds of their results.
use mathlib.Core.Path.{◌≡◌, refl, ap, ◌∙◌, subst}
use mathlib.Core.Bool.{Bool, true, false}

-- `E` is what an error tells.
pub data Result {ℓ κ} (E : Type ℓ) (A : Type κ) : Type (ℓ ⊔ κ) where
  ok : A → Result E A
  refused : E → Result E A

infixl 5 ◌>>=◌ ◌>>◌
unfoldable pub ◌>>=◌ {ℓ κ μ} :
    {E : Type ℓ} {A : Type κ} {B : Type μ} → Result E A → (A → Result E B) → Result E B
ok a >>= f = f a
refused e >>= f = refused e

abbrev pub ◌>>◌ {ℓ κ} : {E : Type ℓ} {B : Type κ} → Result E (Unit {0}) → Result E B → Result E B
m >> k = m >>= λ _. k

-- `if (test) throw ...`, for the test that must hold.
abbrev pub guard {ℓ} : {E : Type ℓ} → Bool → E → Result E (Unit {0})
guard true e = ok tt
guard false e = refused e

abbrev pub is_ok {ℓ κ} : {E : Type ℓ} {A : Type κ} → Result E A → Bool
is_ok (ok a) = true
is_ok (refused e) = false

-- A result that is there has the property.
abbrev pub Returns {ℓ κ} : {E : Type ℓ} {A : Type κ} → (A → Type 0) → Result E A → Type 0
Returns P (ok a) = P a
Returns P (refused e) = Unit

module _ {ℓ} {E : Type ℓ} {A B : Type 0} where
  pub then_ok :
      (m : Result E A) (f : A → Result E B) {a : A} {r : Result E B}
      → m ≡ ok a
      → f a ≡ r
      → (m >>= f) ≡ r
  unfolding ◌>>=◌
  then_ok m f e h = ap (λ n. n >>= f) e ∙ h

  pub Returns-bind :
      (P : A → Type 0) (Q : B → Type 0) (m : Result E A) (f : A → Result E B)
      → Returns P m
      → ((a : A) → P a → Returns Q (f a))
      → Returns Q (m >>= f)
  unfolding ◌>>=◌
  Returns-bind P Q (ok a) f h k = k a h
  Returns-bind P Q (refused e) f h k = tt

  -- For a step of which nothing is asked.
  pub Returns-skip :
      (Q : B → Type 0) (m : Result E A) (f : A → Result E B)
      → ((a : A) → Returns Q (f a))
      → Returns Q (m >>= f)
  unfolding ◌>>=◌
  Returns-skip Q (ok a) f k = k a
  Returns-skip Q (refused e) f k = tt

module _ {ℓ} {E : Type ℓ} {A : Type 0} where
  pub Returns-guard :
      (Q : A → Type 0) (test : Bool) (e : E) (r : Result E A)
      → (test ≡ true → Returns Q r)
      → Returns Q (guard test e >> r)
  unfolding ◌>>=◌
  Returns-guard Q true e r k = k refl
  Returns-guard Q false e r k = tt

  pub Returns-ok : (P : A → Type 0) (m : Result E A) {a : A} → Returns P m → m ≡ ok a → P a
  Returns-ok P m h e = subst (Returns P) e h
