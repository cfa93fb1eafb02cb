-- ===== src/Base/OrdMap.antt =====
-- `BTreeMap<usize, V>`: an association list in the order of its keys.
use Prim.Native.Nat.{ℕ}
use mathlib.Core.Path.{◌≡◌}
use mathlib.Core.Logic.{◌⊎◌, inl, inr}
use mathlib.Core.Option.{Option, none, some}
use mathlib.Core.List.{List, [], ◌∷◌, Memᴰ}
use liongate.Base.Tests.{if◌then◌else◌, Bool-cases, ltb, ◌==◌}
use liongate.Base.Lists.{◌∈◌}

abbrev pub OrdMap {ℓ} : Type ℓ → Type ℓ
OrdMap V = List (ℕ × V)

module _ {ℓ} {V : Type ℓ} where
  unfoldable pub insert : ℕ → V → OrdMap V → OrdMap V
  insert k v [] = (k, v) ∷ []
  insert k v ((j, w) ∷ m) =
      if ltb k j then (k, v) ∷ (j, w) ∷ m else if k == j then (k, v) ∷ m else (j, w) ∷ insert k v m

  unfoldable pub get : ℕ → OrdMap V → Option V
  get k [] = none
  get k ((j, w) ∷ m) = if k == j then some w else get k m

  unfoldable pub remove : ℕ → OrdMap V → OrdMap V
  remove k [] = []
  remove k ((j, w) ∷ m) = if k == j then m else (j, w) ∷ remove k m

  -- `range(..end)`: the entries whose key is below the end.
  unfoldable pub range_below : ℕ → OrdMap V → OrdMap V
  range_below end [] = []
  range_below end ((j, w) ∷ m) = if ltb j end then (j, w) ∷ range_below end m else range_below end m

  abbrev pub values : OrdMap V → List V
  values [] = []
  values ((j, w) ∷ m) = w ∷ values m

  abbrev pub keys : OrdMap V → List ℕ
  keys [] = []
  keys ((j, w) ∷ m) = j ∷ keys m

  pub values-insert_elim :
      (k : ℕ) (v : V) (m : OrdMap V) {w : V} → w ∈ values (insert k v m) → (w ≡ v) ⊎ (w ∈ values m)
  unfolding insert
  values-insert_elim k v [] (Memᴰ.head e) = inl e
  values-insert_elim k v [] (Memᴰ.tail n) = elim n [ ]
  values-insert_elim k v ((j, u) ∷ m) {w} n = elim (Bool-cases (ltb k j)) [
    | inl e ↦ front (rw e at n)
    | inr e ↦ elim (Bool-cases (k == j)) [
      | inl f ↦ over (rw (e, f) at n)
      | inr f ↦ deep (values-insert_elim k v m) (rw (e, f) at n)
    ]
  ]
    where
      front : w ∈ (v ∷ u ∷ values m) → (w ≡ v) ⊎ (w ∈ (u ∷ values m))
      front (Memᴰ.head e) = inl e
      front (Memᴰ.tail r) = inr r

      over : w ∈ (v ∷ values m) → (w ≡ v) ⊎ (w ∈ (u ∷ values m))
      over (Memᴰ.head e) = inl e
      over (Memᴰ.tail r) = inr (Memᴰ.tail r)

      deep :
          (w ∈ values (insert k v m) → (w ≡ v) ⊎ (w ∈ values m))
          → w ∈ (u ∷ values (insert k v m))
          → (w ≡ v) ⊎ (w ∈ (u ∷ values m))
      deep ih (Memᴰ.head e) = inr (Memᴰ.head e)
      deep ih (Memᴰ.tail r) = elim (ih r) [ inl e ↦ inl e | inr q ↦ inr (Memᴰ.tail q) ]

  pub range_below_sub :
      (end : ℕ) (m : OrdMap V) {w : V} → w ∈ values (range_below end m) → w ∈ values m
  unfolding range_below
  range_below_sub end [] n = elim n [ ]
  range_below_sub end ((j, u) ∷ m) {w} n = elim (Bool-cases (ltb j end)) [
    | inl e ↦ kept (range_below_sub end m) (rw e at n)
    | inr e ↦ Memᴰ.tail (range_below_sub end m (rw e at n))
  ]
    where
      kept :
          (w ∈ values (range_below end m) → w ∈ values m)
          → w ∈ (u ∷ values (range_below end m))
          → w ∈ (u ∷ values m)
      kept ih (Memᴰ.head e) = Memᴰ.head e
      kept ih (Memᴰ.tail r) = Memᴰ.tail (ih r)
