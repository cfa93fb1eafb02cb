-- ===== src/Base/HashMap.antt =====
-- `HashMap<K, V>` and `DashMap<K, V>`: an association list with one entry for a key, in the order of
-- iteration. A new key goes to the end.
use mathlib.Core.Path.{◌≡◌, refl, sym, ap, ◌∙◌}
use mathlib.Core.Option
use mathlib.Core.Option.{Option, none, some}
use mathlib.Core.List.{List, [], ◌∷◌, Memᴰ}
use native.Mathlib.Omega.{arith}
use mathlib.Core.Logic.{◌⊎◌, inl, inr}
use mathlib.Core.Bool.{Bool, true}
use liongate.Base.Tests.{if◌then◌else◌, is_some, Bool-cases}
use Prim.Native.Nat.{suc}
use liongate.Base.Counting.{count}
use liongate.Base.Lists.{◌∈◌, is_empty}
use liongate.Base.Eq.{Eq, beq_refl}

abbrev pub HashMap : Type 0 → Type 0 → Type 0
HashMap K V = List (K × V)

module _ {K : Type 0} ⦃e : Eq K⦄ {V : Type 0} where
  unfoldable pub get : K → HashMap K V → Option V
  get k [] = none
  get k ((j, v) ∷ m) = if e.beq j k then some v else get k m

  unfoldable pub insert : K → V → HashMap K V → HashMap K V
  insert k v [] = (k, v) ∷ []
  insert k v ((j, w) ∷ m) = if e.beq j k then (j, v) ∷ m else (j, w) ∷ insert k v m

  -- Every entry of the key goes, so a key is absent afterwards whatever the list.
  unfoldable pub remove : K → HashMap K V → HashMap K V
  remove k [] = []
  remove k ((j, w) ∷ m) = let rest = remove k m in if e.beq j k then rest else (j, w) ∷ rest

  abbrev pub contains_key : K → HashMap K V → Bool
  contains_key k m = is_some (get k m)

  pub get-insert :
      (j k : K) (v : V) (m : HashMap K V)
      → get j (insert k v m) ≡ (if e.beq k j then some v else get j m)
  unfolding get insert
  get-insert j k v [] = refl
  get-insert j k v ((i, w) ∷ m) =
      ground (arith, e.beq_iff i k, e.beq_iff i j, e.beq_iff k j, get-insert j k v m)

  pub get-insert_self : (k : K) (v : V) (m : HashMap K V) → get k (insert k v m) ≡ some v
  get-insert_self k v m = rw (get-insert k k v m, beq_refl e k)

  pub get-remove :
      (j k : K) (m : HashMap K V) → get j (remove k m) ≡ (if e.beq k j then none else get j m)
  unfolding get remove
  get-remove j k [] = ground arith
  get-remove j k ((i, w) ∷ m) =
      ground (arith, e.beq_iff i k, e.beq_iff i j, e.beq_iff k j, get-remove j k m)

abbrev pub values : {K V : Type 0} → HashMap K V → List V
values [] = []
values ((k, v) ∷ m) = v ∷ values m

abbrev pub keys : {K V : Type 0} → HashMap K V → List K
keys [] = []
keys ((k, v) ∷ m) = k ∷ keys m

module _ {K : Type 0} ⦃e : Eq K⦄ {V : Type 0} where
  -- One entry for a key.
  abbrev pub IsUnique : HashMap K V → Type 0
  IsUnique [] = Unit
  IsUnique ((k, v) ∷ m) = (get k m ≡ none) × IsUnique m

  pub insert-IsUnique : (k : K) (v : V) (m : HashMap K V) → IsUnique m → IsUnique (insert k v m)
  unfolding insert get
  insert-IsUnique k v [] u = (refl, tt)
  insert-IsUnique k v ((j, w) ∷ m) u = elim (Bool-cases (e.beq j k)) [
    | inl same ↦ rw same u
    | inr other ↦ rw other (
      get-insert j k v m ∙ ground (arith, other, e.beq_iff j k, e.beq_iff k j, u.0),
      insert-IsUnique k v m u.1,
    )
  ]

  pub get-values : (k : K) (m : HashMap K V) {v : V} → get k m ≡ some v → v ∈ values m
  unfolding get
  get-values k [] h = cc
  get-values k ((j, w) ∷ m) {v} h = elim (Bool-cases (e.beq j k)) [
    | inl same ↦ Memᴰ.head (ground (arith, same))
    | inr other ↦ Memᴰ.tail (get-values k m (ground (arith, other)))
  ]

  pub values_elim :
      (m : HashMap K V) {v : V} → IsUnique m → v ∈ values m → (k : K) × (get k m ≡ some v)
  unfolding get
  values_elim [] u t = elim t [ ]
  values_elim ((j, w) ∷ m) u (Memᴰ.head q) = (j, rw (beq_refl e j) (ap some (sym q)))
  values_elim ((j, w) ∷ m) {v} u (Memᴰ.tail t) =
      let (k, h) = values_elim m u.1 t in
      (
        k,
        elim (Bool-cases (e.beq j k)) [
          | inl same ↦ absurd (ground (arith, h, u.0, ap (λ i. get i m) ((e.beq_iff j k).0 same)))
          | inr other ↦ rw other h
        ],
      )

cons_cases : {V : Type 0} {a b : V} {vs : List V} → a ∈ (b ∷ vs) → (a ≡ b) ⊎ (a ∈ vs)
cons_cases (Memᴰ.head q) = inl q
cons_cases (Memᴰ.tail t) = inr t

-- `get_mut` with a change of the value that is there.
module _ {K : Type 0} ⦃e : Eq K⦄ {V : Type 0} where
  unfoldable pub modify : K → (V → V) → HashMap K V → HashMap K V
  modify k f [] = []
  modify k f ((j, w) ∷ m) = if e.beq j k then (j, f w) ∷ m else (j, w) ∷ modify k f m

  pub get-modify :
      (j k : K) (f : V → V) (m : HashMap K V)
      → get j (modify k f m) ≡ (if e.beq k j then Option.map f (get j m) else get j m)
  unfolding get modify
  get-modify j k f [] = ground arith
  get-modify j k f ((i, w) ∷ m) =
      ground (arith, e.beq_iff i k, e.beq_iff i j, e.beq_iff k j, get-modify j k f m)

  pub modify-IsUnique : (k : K) (f : V → V) (m : HashMap K V) → IsUnique m → IsUnique (modify k f m)
  unfolding modify
  modify-IsUnique k f [] u = tt
  modify-IsUnique k f ((j, w) ∷ m) u = elim (Bool-cases (e.beq j k)) [
    | inl same ↦ rw same u
    | inr other ↦ rw other (
      ground (arith, get-modify j k f m, u.0, e.beq_iff j k, e.beq_iff k j),
      modify-IsUnique k f m u.1,
    )
  ]

  -- A new key adds its value to the values.
  pub count-insert :
      (p : V → Bool) (k : K) (v : V) (m : HashMap K V)
      → get k m ≡ none
      → count p (values (insert k v m))
        ≡ (if p v then suc (count p (values m)) else count p (values m))
  unfolding get insert
  count-insert p k v [] h = refl
  count-insert p k v ((j, w) ∷ m) h = ground (arith, count-insert p k v m)

  pub values-insert_elim :
      (k : K) (v : V) (m : HashMap K V) {w : V}
      → w ∈ values (insert k v m)
      → (w ≡ v) ⊎ (w ∈ values m)
  unfolding insert
  values-insert_elim k v [] t = cons_cases t
  values-insert_elim k v ((j, u) ∷ m) t = elim (Bool-cases (e.beq j k)) [
    | inl same ↦ elim (cons_cases (rw same at t)) [ inl q ↦ inl q | inr r ↦ inr (Memᴰ.tail r) ]
    | inr other ↦ elim (cons_cases (rw other at t)) [
      | inl q ↦ inr (Memᴰ.head q)
      | inr r ↦ elim (values-insert_elim k v m r) [ inl q ↦ inl q | inr x ↦ inr (Memᴰ.tail x) ]
    ]
  ]

module _ {K : Type 0} ⦃e : Eq K⦄ {V : Type 0} where
  pub get-keys : (k : K) (m : HashMap K V) → is_some (get k m) ≡ true → k ∈ keys m
  unfolding get
  get-keys k [] h = cc
  get-keys k ((j, w) ∷ m) h = elim (Bool-cases (e.beq j k)) [
    | inl same ↦ Memᴰ.head (sym ((e.beq_iff j k).0 same))
    | inr other ↦ Memᴰ.tail (get-keys k m (ground (arith, other, h)))
  ]

  pub keys-get : (k : K) (m : HashMap K V) → k ∈ keys m → is_some (get k m) ≡ true
  unfolding get
  keys-get k [] t = elim t [ ]
  keys-get k ((j, w) ∷ m) (Memᴰ.head q) = rw (q, beq_refl e j) refl
  keys-get k ((j, w) ∷ m) (Memᴰ.tail t) = ground (arith, keys-get k m t)

  pub get-is_empty : (k : K) (m : HashMap K V) → is_empty m ≡ true → get k m ≡ none
  unfolding get
  get-is_empty k [] h = refl
  get-is_empty k (x ∷ m) h = cc
