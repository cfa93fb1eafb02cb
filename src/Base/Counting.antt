-- ===== src/Base/Counting.antt =====
-- How many elements of a list pass a test.
use Prim.Native.Nat.{ℕ, suc, ◌+◌, ◌≤◌}
use mathlib.Core.Path.{◌≡◌, refl}
use mathlib.Core.Logic.{◌≢◌, inl, inr}
use mathlib.Core.Bool.{Bool, true, false, ◌&&◌, ◌||◌}
use mathlib.Core.List.{List, [], ◌∷◌, Memᴰ}
use native.Mathlib.Omega.{arith}
use liongate.Base.Tests.{if◌then◌else◌, Bool-cases}
use liongate.Base.Lists.{◌∈◌, length}

module _ {ℓ} {A : Type ℓ} where
  abbrev pub count : (A → Bool) → List A → ℕ
  count p [] = 0
  count p (x ∷ xs) = if p x then suc (count p xs) else count p xs

  pub count_cong :
      (p q : A → Bool) (xs : List A) → ((a : A) → a ∈ xs → p a ≡ q a) → count p xs ≡ count q xs
  count_cong p q [] h = refl
  count_cong p q (x ∷ xs) h =
      ground (arith, h x (Memᴰ.head refl), count_cong p q xs (λ a m. h a (Memᴰ.tail m)))

  -- A test that two others split between them.
  pub count_split :
      (p q r : A → Bool) (xs : List A)
      → ((a : A) → a ∈ xs → p a ≡ (q a || r a))
      → ((a : A) → a ∈ xs → (q a && r a) ≡ false)
      → count p xs ≡ count q xs + count r xs
  count_split p q r [] h k = refl
  count_split p q r (x ∷ xs) h k = ground (
    arith,
    h x (Memᴰ.head refl),
    k x (Memᴰ.head refl),
    count_split p q r xs (λ a m. h a (Memᴰ.tail m)) (λ a m. k a (Memᴰ.tail m)),
  )

  pub count-none : (p : A → Bool) {a : A} {xs : List A} → count p xs ≡ 0 → a ∈ xs → p a ≡ false
  count-none p h (Memᴰ.head e) = rw e (ground arith)
  count-none p h (Memᴰ.tail {xs = xs} m) = count-none p (ground arith) m

  pub count-some : (p : A → Bool) (xs : List A) → count p xs ≢ 0 → (a : A) × (a ∈ xs) × (p a ≡ true)
  count-some p [] h = absurd (h refl)
  count-some p (x ∷ xs) h = elim (Bool-cases (p x)) [
    | inl e ↦ (x, Memᴰ.head refl, e)
    | inr e ↦ let (a, m, q) = count-some p xs (λ z. h (ground arith)) in (a, Memᴰ.tail m, q)
  ]

  pub count-zero : (p : A → Bool) (xs : List A) → ((a : A) → a ∈ xs → p a ≡ false) → count p xs ≡ 0
  count-zero p [] h = refl
  count-zero p (x ∷ xs) h =
      ground (arith, h x (Memᴰ.head refl), count-zero p xs (λ a m. h a (Memᴰ.tail m)))

  pub count_mono :
      (p q : A → Bool) (xs : List A)
      → ((a : A) → a ∈ xs → p a ≡ true → q a ≡ true)
      → count p xs ≤ count q xs
  count_mono p q [] h = omega arith
  count_mono p q (x ∷ xs) h =
      ground (arith, h x (Memᴰ.head refl), count_mono p q xs (λ a m. h a (Memᴰ.tail m)))

  pub count-length : (p : A → Bool) (xs : List A) → count p xs ≤ length xs
  count-length p [] = omega arith
  count-length p (x ∷ xs) = ground (arith, count-length p xs)
