-- ===== src/Shared/Sorting.antt =====
-- A stable sort by a test, and what it keeps. It is what `sort` of an array gives for a comparison that
-- orders the elements: `after x y` is `compare(x, y) > 0`.
use Prim.Native.Nat.{ℕ, ◌+◌}
use mathlib.Core.Path.{◌≡◌, refl, ap, ◌∙◌}
use mathlib.Core.Bool.{Bool, true, false, ◌||◌}
use mathlib.Core.Logic.{◌≢◌}
use mathlib.Core.List.{List, [], ◌∷◌}
use native.Mathlib.Omega.{arith}
use mediasoup_cpp.Shared.Tests.{if◌then◌else◌}
use mediasoup_cpp.Shared.Lists.{All, All-weaken, All-if, any}

module _ {ℓ} {A : Type ℓ} where
  unfoldable pub insert : (A → A → Bool) → A → List A → List A
  insert after x [] = x ∷ []
  insert after x (y ∷ ys) = if after x y then y ∷ insert after x ys else x ∷ y ∷ ys

  unfoldable pub sort_by : (A → A → Bool) → List A → List A
  unfolding insert
  sort_by after [] = []
  sort_by after (x ∷ xs) = insert after x (sort_by after xs)

  -- `filter` of an array.
  unfoldable pub filter : (A → Bool) → List A → List A
  filter p [] = []
  filter p (x ∷ xs) = if p x then x ∷ filter p xs else filter p xs

  -- How many elements pass the test.
  unfoldable pub count : (A → Bool) → List A → ℕ
  count p [] = 0
  count p (x ∷ xs) = (if p x then 1 else 0) + count p xs

  -- No element goes after one that follows it.
  abbrev pub Ordered : (A → A → Bool) → List A → Type 0
  Ordered after [] = Unit
  Ordered after (x ∷ xs) = All (λ y. after x y ≡ false) xs × Ordered after xs

  count-insert :
      (p : A → Bool) (after : A → A → Bool) (x : A) (xs : List A)
      → count p (insert after x xs) ≡ count p (x ∷ xs)
  unfolding insert count
  count-insert p after x [] = refl
  count-insert p after x (y ∷ ys) = ground (arith, count-insert p after x ys)

  pub count-sort_by :
      (p : A → Bool) (after : A → A → Bool) (xs : List A) → count p (sort_by after xs) ≡ count p xs
  unfolding sort_by count
  count-sort_by p after [] = refl
  count-sort_by p after (x ∷ xs) =
      ground (arith, count-insert p after x (sort_by after xs), count-sort_by p after xs)

  any-insert :
      (p : A → Bool) (after : A → A → Bool) (x : A) (xs : List A)
      → any p (insert after x xs) ≡ (p x || any p xs)
  unfolding insert
  any-insert p after x [] = refl
  any-insert p after x (y ∷ ys) = ground (arith, any-insert p after x ys)

  pub any-sort_by :
      (p : A → Bool) (after : A → A → Bool) (xs : List A) → any p (sort_by after xs) ≡ any p xs
  unfolding sort_by
  any-sort_by p after [] = refl
  any-sort_by p after (x ∷ xs) =
      any-insert p after x (sort_by after xs) ∙ ap (λ b. p x || b) (any-sort_by p after xs)

  insert_inhabited : (after : A → A → Bool) (x : A) (xs : List A) → insert after x xs ≢ []
  unfolding insert
  insert_inhabited after x [] = ground arith
  insert_inhabited after x (y ∷ ys) = ground arith

  pub sort_by_inhabited : (after : A → A → Bool) (x : A) (xs : List A) → sort_by after (x ∷ xs) ≢ []
  unfolding sort_by
  sort_by_inhabited after x xs = insert_inhabited after x (sort_by after xs)

  pub record IsOrder (after : A → A → Bool) : Type ℓ where
    pub asymmetric : (x y : A) → after x y ≡ true → after y x ≡ false
    pub transitive : (x y z : A) → after x y ≡ false → after y z ≡ false → after x z ≡ false

  pub All-insert {κ} :
      (P : A → Type κ) (after : A → A → Bool) (x : A) (xs : List A)
      → P x
      → All P xs
      → All P (insert after x xs)
  unfolding insert
  All-insert P after x [] p ps = (p, tt)
  All-insert P after x (y ∷ ys) p (q, qs) =
      All-if P (after x y) (y ∷ insert after x ys) (x ∷ y ∷ ys) (q, All-insert P after x ys p qs)
        (p, (q, qs))

  pub All-sort_by {κ} :
      (P : A → Type κ) (after : A → A → Bool) (xs : List A) → All P xs → All P (sort_by after xs)
  unfolding sort_by
  All-sort_by P after [] h = tt
  All-sort_by P after (x ∷ xs) (p, ps) =
      All-insert P after x (sort_by after xs) p (All-sort_by P after xs ps)

  Ordered-if :
      (after : A → A → Bool) (test : Bool) (xs ys : List A)
      → (test ≡ true → Ordered after xs)
      → (test ≡ false → Ordered after ys)
      → Ordered after (if test then xs else ys)
  Ordered-if after true xs ys h k = h refl
  Ordered-if after false xs ys h k = k refl

  insert-Ordered :
      (after : A → A → Bool) (x : A) (xs : List A)
      → IsOrder after
      → Ordered after xs
      → Ordered after (insert after x xs)
  unfolding insert
  insert-Ordered after x [] order h = (tt, tt)
  insert-Ordered after x (y ∷ ys) order (h, hs) =
      Ordered-if after (after x y) (y ∷ insert after x ys) (x ∷ y ∷ ys)
        (λ e. (
          All-insert (λ z. after y z ≡ false) after x ys (order.asymmetric x y e) h,
          insert-Ordered after x ys order hs,
        ))
        (λ e. (
          (e, All-weaken _ (λ z. after x z ≡ false) ys (λ z f. order.transitive x y z e f) h),
          (h, hs),
        ))

  -- A list that is sorted is in order, for a test that orders the elements.
  pub sort_by-Ordered :
      (after : A → A → Bool) (xs : List A) → IsOrder after → Ordered after (sort_by after xs)
  unfolding sort_by
  sort_by-Ordered after [] order = tt
  sort_by-Ordered after (x ∷ xs) order =
      insert-Ordered after x (sort_by after xs) order (sort_by-Ordered after xs order)

  insert_first :
      (after : A → A → Bool) (x : A) (xs : List A)
      → All (λ y. after x y ≡ false) xs
      → insert after x xs ≡ x ∷ xs
  unfolding insert
  insert_first after x [] h = refl
  insert_first after x (y ∷ ys) (e, h) = rw e refl

  -- A list in order is its own sort.
  pub sort_by_fixed :
      (after : A → A → Bool) (xs : List A) → Ordered after xs → sort_by after xs ≡ xs
  unfolding sort_by
  sort_by_fixed after [] h = refl
  sort_by_fixed after (x ∷ xs) (e, h) = rw (sort_by_fixed after xs h) (insert_first after x xs e)
