-- ===== src/Trace/Window.antt =====
-- The buffer of src/client/lib/qos/trace.js is a window on what was appended.
use mediasoup_cpp.Shared.{
  ℕ, zero, suc, ◌-◌, ◌+◌, ◌≤◌, ◌≡◌, refl, sym, ap, ◌∙◌, List, [], ◌∷◌, ◌++◌, length, drop,
  length-append, length-drop, arith, Option, Bool-cases, inl, inr, ltb, ltb→lt, ℤ, min,
  if◌then◌else◌,
}
use mathlib.Core.List.{append-nil, append_assoc}
use mediasoup_cpp.Trace.{TraceBuffer, create, append, append_all, capacity_of, get_entries, size}

module _ {ℓ} {A : Type ℓ} where
  drop-append : (n : ℕ) (xs ys : List A) → n ≤ length xs → drop n (xs ++ ys) ≡ drop n xs ++ ys
  drop-append zero xs ys h = refl
  drop-append (suc n) [] ys h = absurd (omega arith)
  drop-append (suc n) (x ∷ xs) ys h = drop-append n xs ys (omega arith)

  drop-nil : (n : ℕ) → drop {A = A} n [] ≡ []
  drop-nil zero = refl
  drop-nil (suc n) = refl

  drop-drop : (m n : ℕ) (xs : List A) → drop m (drop n xs) ≡ drop (n + m) xs
  drop-drop m zero xs = ap (λ k. drop k xs) (omega arith)
  drop-drop m (suc n) [] = drop-nil m ∙ sym (drop-nil (suc n + m))
  drop-drop m (suc n) (x ∷ xs) =
      let carried : suc n + m ≡ suc (n + m) = omega arith in rw carried (drop-drop m n xs)

  -- The last `n` elements, or all if there are fewer.
  abbrev pub last : ℕ → List A → List A
  last n xs = drop (length xs - n) xs

  -- The window after one more element, as the code computes it from the window before.
  window_step :
      (cap : ℕ) (xs : List A) (x : A)
      → let entries = last cap xs ++ (x ∷ []) in
        (if ltb cap (length entries) then drop (length entries - cap) entries else entries)
        ≡ last cap (xs ++ (x ∷ []))
  window_step cap xs x =
      let k : ℕ = length xs - cap in
      let joined : last cap xs ++ (x ∷ []) ≡ drop k (xs ++ (x ∷ [])) =
        sym (drop-append k xs (x ∷ []) (omega arith)) in
      let size : length (xs ++ (x ∷ [])) ≡ length xs + 1 = length-append xs (x ∷ []) in
      let room : length (drop k (xs ++ (x ∷ []))) ≡ length xs + 1 - k =
        length-drop k (xs ++ (x ∷ [])) ∙ ap (λ n. n - k) size in
      rw joined (elim (Bool-cases (ltb cap (length (drop k (xs ++ (x ∷ [])))))) [
        | inl over ↦ rw over (
            drop-drop _ k (xs ++ (x ∷ []))
            ∙ ap (λ n. drop n (xs ++ (x ∷ []))) (omega (arith, size, room, ltb→lt _ _ over)))
        | inr fits ↦ rw fits (ap (λ n. drop n (xs ++ (x ∷ []))) (ground (arith, size, room)))
      ])

module _ {A : Type 0} where
  append-last :
      (b : TraceBuffer A) (xs : List A) (x : A)
      → b.entries ≡ last b.capacity xs
      → (append b x).entries ≡ last b.capacity (xs ++ (x ∷ []))
  unfolding append
  append-last b xs x e = rw e (window_step b.capacity xs x)

  append_all-last :
      (b : TraceBuffer A) (xs ys : List A)
      → b.entries ≡ last b.capacity xs
      → ((append_all b ys).entries ≡ last b.capacity (xs ++ ys))
        × ((append_all b ys).capacity ≡ b.capacity)
  unfolding append_all append
  append_all-last b xs [] e = (e ∙ ap (last b.capacity) (sym (append-nil xs)), refl)
  append_all-last b xs (y ∷ ys) e =
      let (kept, same) = append_all-last (append b y) (xs ++ (y ∷ [])) ys (append-last b xs y e) in
      (kept ∙ ap (last b.capacity) (append_assoc xs (y ∷ []) ys), same)

  -- A new buffer to which entries are appended holds the last of them in order, as many as its
  -- capacity admits: the default of 256, or what was asked for but at least one.
  pub append_all-create :
      (capacity : Option ℤ) (xs : List A)
      → let b = append_all (create capacity) xs in
        (get_entries b ≡ last (capacity_of capacity) xs)
        × (size b ≡ min (length xs) (capacity_of capacity))
        × (1 ≤ capacity_of capacity)
  unfolding create size get_entries
  append_all-create capacity xs =
      let (kept, same) = append_all-last (create capacity) [] xs (sym (drop-nil _)) in
      (kept, rw kept (length-drop _ xs ∙ omega arith), ground arith)
