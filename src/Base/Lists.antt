-- ===== src/Base/Lists.antt =====
-- Lists measured by native numbers, Boolean folds, membership by recursion, association lists.
use Prim.Native.Nat.{ℕ, suc, ◌+◌}
use mathlib.Core.Path.{◌≡◌, refl, sym, ap, ◌∙◌}
use mathlib.Core.Logic.{◌⊎◌, inl, inr}
use mathlib.Core.Bool.{Bool, true, false, ◌&&◌, ◌||◌}
use mathlib.Core.Option.{Option, none, some}
use mathlib.Core.List.{List, [], ◌∷◌, ◌++◌, map, Memᴰ}
use native.Mathlib.Omega.{arith}
use liongate.Base.Tests.{if◌then◌else◌, Bool-cases}

module _ {ℓ} {A : Type ℓ} where
  abbrev pub length : List A → ℕ
  length [] = 0
  length (x ∷ xs) = suc (length xs)

  abbrev pub any : (A → Bool) → List A → Bool
  any p [] = false
  any p (x ∷ xs) = p x || any p xs

  abbrev pub all : (A → Bool) → List A → Bool
  all p [] = true
  all p (x ∷ xs) = p x && all p xs

  abbrev pub filter : (A → Bool) → List A → List A
  filter p [] = []
  filter p (x ∷ xs) = if p x then x ∷ filter p xs else filter p xs

  abbrev pub is_empty : List A → Bool
  is_empty [] = true
  is_empty (x ∷ xs) = false

  -- Membership that keeps the position: it can be matched.
  infix 45 ◌∈◌
  abbrev pub ◌∈◌ : A → List A → Type ℓ
  a ∈ xs = Memᴰ a xs

  abbrev pub All {κ} : (A → Type κ) → List A → Type κ
  All P [] = Unit
  All P (x ∷ xs) = P x × All P xs

module _ {ℓ} {A : Type ℓ} where
  pub length-append : (xs ys : List A) → length (xs ++ ys) ≡ length xs + length ys
  length-append [] ys = omega arith
  length-append (x ∷ xs) ys = omega (arith, length-append xs ys)

  pub All-mem {κ} : (P : A → Type κ) {a : A} {xs : List A} → All P xs → a ∈ xs → P a
  All-mem P h (Memᴰ.head e) = rw e h.0
  All-mem P h (Memᴰ.tail m) = All-mem P h.1 m

  pub All-of_mem {κ} : (P : A → Type κ) (xs : List A) → ((a : A) → a ∈ xs → P a) → All P xs
  All-of_mem P [] h = tt
  All-of_mem P (x ∷ xs) h = (h x (Memᴰ.head refl), All-of_mem P xs (λ a m. h a (Memᴰ.tail m)))

  pub any-intro : (p : A → Bool) {a : A} {xs : List A} → a ∈ xs → p a ≡ true → any p xs ≡ true
  any-intro p (Memᴰ.head e) h = rw (← e, h)
  any-intro p (Memᴰ.tail {x = x} {xs = xs} m) h = ground (arith, any-intro p m h)

  pub any-elim : (p : A → Bool) (xs : List A) → any p xs ≡ true → (a : A) × (a ∈ xs) × (p a ≡ true)
  any-elim p [] h = cc
  any-elim p (x ∷ xs) h = elim (Bool-cases (p x)) [
    | inl e ↦ (x, Memᴰ.head refl, e)
    | inr e ↦ let (a, m, q) = any-elim p xs (ground arith) in (a, Memᴰ.tail m, q)
  ]

  pub all-elim : (p : A → Bool) {a : A} {xs : List A} → all p xs ≡ true → a ∈ xs → p a ≡ true
  all-elim p h (Memᴰ.head e) = rw e (ground arith)
  all-elim p h (Memᴰ.tail m) = all-elim p (ground arith) m

  pub all-intro : (p : A → Bool) (xs : List A) → ((a : A) → a ∈ xs → p a ≡ true) → all p xs ≡ true
  all-intro p [] h = refl
  all-intro p (x ∷ xs) h =
      ground (arith, h x (Memᴰ.head refl), all-intro p xs (λ a m. h a (Memᴰ.tail m)))

  pub all-fail :
      (p : A → Bool) (xs : List A) → all p xs ≡ false → (a : A) × (a ∈ xs) × (p a ≡ false)
  all-fail p [] h = absurd (cc h)
  all-fail p (x ∷ xs) h = elim (Bool-cases (p x)) [
    | inl e ↦ let (a, m, q) = all-fail p xs (ground arith) in (a, Memᴰ.tail m, q)
    | inr e ↦ (x, Memᴰ.head refl, e)
  ]

  pub mem-append_left : {a : A} {xs : List A} (ys : List A) → a ∈ xs → a ∈ (xs ++ ys)
  mem-append_left ys (Memᴰ.head e) = Memᴰ.head e
  mem-append_left ys (Memᴰ.tail m) = Memᴰ.tail (mem-append_left ys m)

  pub mem-append_right : (xs : List A) {ys : List A} {a : A} → a ∈ ys → a ∈ (xs ++ ys)
  mem-append_right [] m = m
  mem-append_right (x ∷ xs) m = Memᴰ.tail (mem-append_right xs m)

  pub mem-append_cases : (xs ys : List A) {a : A} → a ∈ (xs ++ ys) → (a ∈ xs) ⊎ (a ∈ ys)
  mem-append_cases [] ys m = inr m
  mem-append_cases (x ∷ xs) ys (Memᴰ.head e) = inl (Memᴰ.head e)
  mem-append_cases (x ∷ xs) ys (Memᴰ.tail m) = elim (mem-append_cases xs ys m) [
    | inl l ↦ inl (Memᴰ.tail l)
    | inr r ↦ inr r
  ]

  -- Membership in `filter p xs`, one element further.
  filter_step :
      (p : A → Bool) (x : A) (xs : List A) {a : A}
      → a ∈ filter p (x ∷ xs)
      → ((a ≡ x) × (p x ≡ true)) ⊎ (a ∈ filter p xs)
  filter_step p x xs m = elim (Bool-cases (p x)) [
    | inl e ↦ kept e (rw e at m)
    | inr e ↦ inr (rw e at m)
  ]
    where
      kept :
          {a : A}
          → p x ≡ true
          → a ∈ (x ∷ filter p xs)
          → ((a ≡ x) × (p x ≡ true)) ⊎ (a ∈ filter p xs)
      kept e (Memᴰ.head q) = inl (q, e)
      kept e (Memᴰ.tail k) = inr k

  pub mem-filter_elim :
      (p : A → Bool) (xs : List A) {a : A} → a ∈ filter p xs → (a ∈ xs) × (p a ≡ true)
  mem-filter_elim p [] m = elim m [ ]
  mem-filter_elim p (x ∷ xs) m = elim (filter_step p x xs m) [
    | inl (q, e) ↦ (Memᴰ.head q, rw q e)
    | inr k ↦ let (r, h) = mem-filter_elim p xs k in (Memᴰ.tail r, h)
  ]

  pub mem-filter_intro :
      (p : A → Bool) {a : A} {xs : List A} → a ∈ xs → p a ≡ true → a ∈ filter p xs
  mem-filter_intro p (Memᴰ.head e) h = rw (ap p (sym e) ∙ h) (Memᴰ.head e)
  mem-filter_intro p (Memᴰ.tail {x = y} {xs = ys} m) h = elim (Bool-cases (p y)) [
    | inl e ↦ rw e (Memᴰ.tail (mem-filter_intro p m h))
    | inr e ↦ rw e (mem-filter_intro p m h)
  ]

module _ {ℓ κ} {A : Type ℓ} {B : Type κ} (f : A → B) where
  pub mem-map : {a : A} {xs : List A} → a ∈ xs → f a ∈ map f xs
  mem-map (Memᴰ.head e) = Memᴰ.head (ap f e)
  mem-map (Memᴰ.tail m) = Memᴰ.tail (mem-map m)

  pub mem-map_elim : (xs : List A) {b : B} → b ∈ map f xs → (a : A) × (a ∈ xs) × (b ≡ f a)
  mem-map_elim [] m = elim m [ ]
  mem-map_elim (x ∷ xs) (Memᴰ.head e) = (x, Memᴰ.head refl, e)
  mem-map_elim (x ∷ xs) (Memᴰ.tail m) = let (a, k, e) = mem-map_elim xs m in (a, Memᴰ.tail k, e)

module _ {κ} {B : Type κ} where
  abbrev put : Option B → List B → List B
  put none ys = ys
  put (some y) ys = y ∷ ys

  put_elim : (o : Option B) (ys : List B) {b : B} → b ∈ put o ys → (o ≡ some b) ⊎ (b ∈ ys)
  put_elim none ys m = inr m
  put_elim (some y) ys (Memᴰ.head e) = inl (ap some (sym e))
  put_elim (some y) ys (Memᴰ.tail m) = inr m

  put_old : (o : Option B) (ys : List B) {b : B} → b ∈ ys → b ∈ put o ys
  put_old none ys m = m
  put_old (some y) ys m = Memᴰ.tail m

module _ {ℓ κ} {A : Type ℓ} {B : Type κ} where
  abbrev pub filter_map : (A → Option B) → List A → List B
  filter_map f [] = []
  filter_map f (x ∷ xs) = put (f x) (filter_map f xs)

  pub mem-filter_map_elim :
      (f : A → Option B) (xs : List A) {b : B}
      → b ∈ filter_map f xs
      → (a : A) × (a ∈ xs) × (f a ≡ some b)
  mem-filter_map_elim f [] m = elim m [ ]
  mem-filter_map_elim f (x ∷ xs) m = elim (put_elim (f x) (filter_map f xs) m) [
    | inl e ↦ (x, Memᴰ.head refl, e)
    | inr k ↦ let (a, n, e) = mem-filter_map_elim f xs k in (a, Memᴰ.tail n, e)
  ]

  pub mem-filter_map_intro :
      (f : A → Option B) {a : A} {xs : List A} {b : B} → a ∈ xs → f a ≡ some b → b ∈ filter_map f xs
  mem-filter_map_intro f (Memᴰ.head e) h = rw (ap f (sym e) ∙ h) (Memᴰ.head refl)
  mem-filter_map_intro f (Memᴰ.tail {x = y} {xs = ys} m) h =
      put_old (f y) (filter_map f ys) (mem-filter_map_intro f m h)
