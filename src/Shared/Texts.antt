-- ===== src/Shared/Texts.antt =====
-- Texts as lists of code units, with the string operations that the sources use.
use Prim.Native.Nat.{ℕ}
use Prim.Native.Char.{code}
use Prim.Native.String.{String}
use mathlib.Core.Path.{◌≡◌, refl, ap, ◌∙◌}
use mathlib.Core.Logic.{◌↔◌}
use mathlib.Core.Bool.{Bool, true, false, ◌&&◌}
use mathlib.Core.List.{List, [], ◌∷◌, ◌++◌, reverse, reverse-append, reverse-reverse}
use native.Mathlib.Omega.{arith}
use mediasoup_cpp.Shared.Tests.{◌==◌, if◌then◌else◌}
use mediasoup_cpp.Shared.Lists.{drop, length, length-append}

abbrev pub Text : Type 0
Text = List ℕ

abbrev pub codes : String → Text
codes String.[] = []
codes (String.◌∷◌ c s) = code c ∷ codes s

abbrev pub text_eq : Text → Text → Bool
text_eq [] [] = true
text_eq (a ∷ s) (b ∷ t) = a == b && text_eq s t
text_eq _ _ = false

pub text_eq_refl : (s : Text) → text_eq s s ≡ true
text_eq_refl [] = refl
text_eq_refl (a ∷ s) = ground (arith, text_eq_refl s)

pub text_eq_sound : (s t : Text) → text_eq s t ≡ true → s ≡ t
text_eq_sound [] [] h = refl
text_eq_sound (a ∷ s) (b ∷ t) h = ground (arith, text_eq_sound s t)
text_eq_sound [] (b ∷ t) h = ground arith
text_eq_sound (a ∷ s) [] h = ground arith

pub text_eq_iff : (s t : Text) → (text_eq s t ≡ true) ↔ (s ≡ t)
text_eq_iff s t = (text_eq_sound s t, λ e. ground (arith, text_eq_refl s))

-- `s.startsWith(prefix)`.
unfoldable pub starts_with : Text → Text → Bool
starts_with s [] = true
starts_with [] (p ∷ ps) = false
starts_with (c ∷ s) (p ∷ ps) = c == p && starts_with s ps

-- `s.replace(/suffix$/, '')`.
unfoldable pub strip_suffix : Text → Text → Text
unfolding starts_with
strip_suffix suffix s =
    if starts_with (reverse s) (reverse suffix)
    then reverse (drop (length suffix) (reverse s))
    else s

pub starts_with-append : (p t : Text) → starts_with (p ++ t) p ≡ true
unfolding starts_with
starts_with-append [] [] = refl
starts_with-append [] (c ∷ t) = refl
starts_with-append (c ∷ p) t = ground (arith, starts_with-append p t)

drop-length-append : (p t : Text) → drop (length p) (p ++ t) ≡ t
drop-length-append [] t = refl
drop-length-append (c ∷ p) t = drop-length-append p t

length-reverse : (s : Text) → length (reverse s) ≡ length s
length-reverse [] = refl
length-reverse (c ∷ s) =
    ap length (reverse-append (c ∷ []) s)
    ∙ (length-append (reverse s) (c ∷ []) ∙ omega (arith, length-reverse s))

pub strip_suffix-append : (suffix s : Text) → strip_suffix suffix (s ++ suffix) ≡ s
unfolding strip_suffix
strip_suffix-append suffix s = rw (reverse-append s suffix) (
    rw (starts_with-append (reverse suffix) (reverse s)) (
      rw (← length-reverse suffix)
        (ap reverse (drop-length-append (reverse suffix) (reverse s)) ∙ reverse-reverse s)))

abbrev pub is_empty : Text → Bool
is_empty [] = true
is_empty (c ∷ s) = false
