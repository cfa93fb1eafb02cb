-- ===== src/Base/HashSet.antt =====
-- `HashSet<T>`: a list in the order of iteration. A new element goes to the end.
use mathlib.Core.Path.{◌≡◌, refl, sym}
use mathlib.Core.Logic.{inl, inr}
use mathlib.Core.Bool.{Bool, true, false, ◌||◌, not, ◌&&◌}
use mathlib.Core.List.{List, [], ◌∷◌, Memᴰ}
use native.Mathlib.Omega.{arith}
use liongate.Base.Tests.{if◌then◌else◌, Bool-cases}
use liongate.Base.Eq.{Eq, beq_refl}
use liongate.Base.Lists.{◌∈◌}
use liongate.Base.Counting.{count}
use Prim.Native.Nat.{suc}

module _ {K : Type 0} ⦃e : Eq K⦄ where
  abbrev pub contains : K → List K → Bool
  contains k [] = false
  contains k (j ∷ s) = e.beq j k || contains k s

  unfoldable pub insert : K → List K → List K
  insert k [] = k ∷ []
  insert k (j ∷ s) = if e.beq j k then j ∷ s else j ∷ insert k s

  unfoldable pub remove : K → List K → List K
  remove k [] = []
  remove k (j ∷ s) = let rest = remove k s in if e.beq j k then rest else j ∷ rest

  pub contains-insert :
      (j k : K) (s : List K) → contains j (insert k s) ≡ (e.beq k j || contains j s)
  unfolding insert
  contains-insert j k [] = refl
  contains-insert j k (i ∷ s) =
      ground (arith, e.beq_iff i k, e.beq_iff i j, e.beq_iff k j, contains-insert j k s)

  pub contains-remove :
      (j k : K) (s : List K) → contains j (remove k s) ≡ (not (e.beq k j) && contains j s)
  unfolding remove
  contains-remove j k [] = ground arith
  contains-remove j k (i ∷ s) =
      ground (arith, e.beq_iff i k, e.beq_iff i j, e.beq_iff k j, contains-remove j k s)

  pub contains-of_mem : {k : K} {s : List K} → k ∈ s → contains k s ≡ true
  contains-of_mem {k} (Memᴰ.head q) = rw (q, beq_refl e _) refl
  contains-of_mem {k} (Memᴰ.tail {x = j} {xs = s} m) = ground (arith, contains-of_mem m)

  pub contains-mem : (k : K) (s : List K) → contains k s ≡ true → k ∈ s
  contains-mem k [] h = cc
  contains-mem k (j ∷ s) h = elim (Bool-cases (e.beq j k)) [
    | inl same ↦ Memᴰ.head (sym ((e.beq_iff j k).0 same))
    | inr other ↦ Memᴰ.tail (contains-mem k s (ground (arith, other)))
  ]

  -- A new element adds one to a count if it passes the test.
  pub count-insert :
      (p : K → Bool) (k : K) (s : List K)
      → contains k s ≡ false
      → count p (insert k s) ≡ (if p k then suc (count p s) else count p s)
  unfolding insert
  count-insert p k [] h = refl
  count-insert p k (j ∷ s) h = ground (arith, count-insert p k s)
