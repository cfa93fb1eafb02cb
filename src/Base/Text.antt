-- ===== src/Base/Text.antt =====
-- Texts that the code walks, as lists of character codes, with the operations of `str` it uses.
use Prim.Native.Char.{code}
use Prim.Native.Nat.{ℕ, suc, ◌+◌}
use Prim.Native.String.{String}
use mathlib.Core.Path.{◌≡◌, refl, ap, ap₂}
use mathlib.Core.Logic.{◌↔◌, inl, inr}
use mathlib.Core.Bool.{Bool, true, false, ◌&&◌}
use mathlib.Core.Option
use mathlib.Core.Option.{Option, none, some}
use mathlib.Core.List.{List, [], ◌∷◌, ◌++◌}
use native.Mathlib.Omega.{arith}
use liongate.Base.Tests.{if◌then◌else◌, ◌==◌, ==_iff, ==_refl, Bool-cases}

abbrev pub Text : Type 0
Text = List ℕ

-- A text literal.
abbrev pub codes : String → Text
codes String.[] = []
codes (String.◌∷◌ c s) = code c ∷ codes s

unfoldable pub text_eq : Text → Text → Bool
text_eq [] [] = true
text_eq [] (y ∷ ys) = false
text_eq (x ∷ xs) [] = false
text_eq (x ∷ xs) (y ∷ ys) = x == y && text_eq xs ys

-- `text.starts_with(prefix)`; the prefix comes first.
unfoldable pub has_prefix : Text → Text → Bool
has_prefix [] text = true
has_prefix (x ∷ xs) [] = false
has_prefix (x ∷ xs) (y ∷ ys) = x == y && has_prefix xs ys

-- `text.strip_suffix(suffix)`.
unfoldable pub strip_suffix : Text → Text → Option Text
unfolding text_eq
strip_suffix suffix [] = if text_eq [] suffix then some [] else none
strip_suffix suffix (x ∷ xs) =
    if text_eq (x ∷ xs) suffix then some [] else Option.map (λ r. x ∷ r) (strip_suffix suffix xs)

pub text_eq_refl : (xs : Text) → text_eq xs xs ≡ true
unfolding text_eq
text_eq_refl [] = refl
text_eq_refl (x ∷ xs) = ground (arith, text_eq_refl xs)

pub text_eq_sound : (xs ys : Text) → text_eq xs ys ≡ true → xs ≡ ys
unfolding text_eq
text_eq_sound [] [] h = refl
text_eq_sound [] (y ∷ ys) h = cc
text_eq_sound (x ∷ xs) [] h = cc
text_eq_sound (x ∷ xs) (y ∷ ys) h =
    ap₂ ◌∷◌ ((==_iff x y).0 (ground arith)) (text_eq_sound xs ys (ground arith))

pub text_eq_iff : (xs ys : Text) → (text_eq xs ys ≡ true) ↔ (xs ≡ ys)
text_eq_iff xs ys = (text_eq_sound xs ys, λ e. rw e (text_eq_refl ys))

pub has_prefix-append : (xs ys : Text) → has_prefix xs (xs ++ ys) ≡ true
unfolding has_prefix
has_prefix-append [] ys = refl
has_prefix-append (x ∷ xs) ys = ground (arith, has_prefix-append xs ys)

pub has_prefix_trans :
    (xs ys zs : Text) → has_prefix xs ys ≡ true → has_prefix ys zs ≡ true → has_prefix xs zs ≡ true
unfolding has_prefix
has_prefix_trans [] ys zs h k = refl
has_prefix_trans (x ∷ xs) [] zs h k = cc
has_prefix_trans (x ∷ xs) (y ∷ ys) [] h k = cc
has_prefix_trans (x ∷ xs) (y ∷ ys) (z ∷ zs) h k = ground (arith, has_prefix_trans xs ys zs)

abbrev size : Text → ℕ
size [] = 0
size (x ∷ xs) = suc (size xs)

text_eq_size : (xs ys : Text) → text_eq xs ys ≡ true → size xs ≡ size ys
text_eq_size xs ys h = ap size (text_eq_sound xs ys h)

size-append : (xs ys : Text) → size (xs ++ ys) ≡ size xs + size ys
size-append [] ys = omega arith
size-append (x ∷ xs) ys = omega (arith, size-append xs ys)

longer : (x : ℕ) (xs suffix : Text) → text_eq (x ∷ xs ++ suffix) suffix ≡ false
longer x xs suffix = elim (Bool-cases (text_eq (x ∷ xs ++ suffix) suffix)) [
  | inl e ↦ absurd (omega (arith, text_eq_size (x ∷ xs ++ suffix) suffix e, size-append xs suffix))
  | inr e ↦ e
]

strip_suffix_self : (suffix : Text) → strip_suffix suffix suffix ≡ some []
unfolding strip_suffix
strip_suffix_self [] = refl
strip_suffix_self (x ∷ xs) = rw (text_eq_refl (x ∷ xs))

pub strip_suffix-append : (xs suffix : Text) → strip_suffix suffix (xs ++ suffix) ≡ some xs
unfolding strip_suffix
strip_suffix-append [] suffix = strip_suffix_self suffix
strip_suffix-append (x ∷ xs) suffix = rw (longer x xs suffix, strip_suffix-append xs suffix)

pub has_prefix-cancel : (xs ys zs : Text) → has_prefix (xs ++ ys) (xs ++ zs) ≡ has_prefix ys zs
unfolding has_prefix
has_prefix-cancel [] ys zs = refl
has_prefix-cancel (x ∷ xs) ys zs = rw (==_refl x, has_prefix-cancel xs ys zs)
