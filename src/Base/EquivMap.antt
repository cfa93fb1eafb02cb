-- ===== src/Base/EquivMap.antt =====
-- `HashMap<K, V>` for keys whose `PartialEq` is an equivalence that does not tell all of them apart. An
-- insertion for a key that is equal to one of the map keeps that key and replaces its value.
use mathlib.Core.Path.{◌≡◌, refl, ap}
use mathlib.Core.Bool.{Bool, true}
use mathlib.Core.Option.{Option, none, some}
use mathlib.Core.List.{[], ◌∷◌}
use native.Mathlib.Omega.{arith}
use Prim.Native.Nat.{ℕ}
use liongate.Base.Tests.{if◌then◌else◌}
use liongate.Base.Eq.{Eq, beq_refl, nat_Eq}
use liongate.Base.HashMap.{HashMap}

pub record Equiv (K : Type 0) : Type 0 where
  pub same : K → K → Bool
  pub same_refl : (a : K) → same a a ≡ true
  pub same_sym : (a b : K) → same a b ≡ same b a
  pub same_congr : (a b c : K) → same a b ≡ true → same a c ≡ same b c

-- An equality test that tells all values apart is one of these.
module _ {K : Type 0} (e : Eq K) where
  pub beq_sym : (a b : K) → e.beq a b ≡ e.beq b a
  beq_sym a b = ground (arith, e.beq_iff a b, e.beq_iff b a)

  pub beq_congr : (a b c : K) → e.beq a b ≡ true → e.beq a c ≡ e.beq b c
  beq_congr a b c h = ap (λ k. e.beq k c) ((e.beq_iff a b).0 h)

  abbrev pub of_eq : Equiv K
  of_eq = record {
    same = e.beq;
    same_refl = beq_refl e;
    same_sym = beq_sym;
    same_congr = beq_congr;
  }

instance abbrev pub nat_Equiv : Equiv ℕ
nat_Equiv = of_eq nat_Eq

module _ {K : Type 0} ⦃e : Equiv K⦄ {V : Type 0} where
  unfoldable pub get : K → HashMap K V → Option V
  get k [] = none
  get k ((j, v) ∷ m) = if e.same j k then some v else get k m

  unfoldable pub insert : K → V → HashMap K V → HashMap K V
  insert k v [] = (k, v) ∷ []
  insert k v ((j, w) ∷ m) = if e.same j k then (j, v) ∷ m else (j, w) ∷ insert k v m

  pub get-insert :
      (j k : K) (v : V) (m : HashMap K V)
      → get j (insert k v m) ≡ (if e.same k j then some v else get j m)
  unfolding get insert
  get-insert j k v [] = refl
  get-insert j k v ((i, w) ∷ m) =
      ground (arith, e.same_congr i k j, e.same_congr i j k, e.same_sym j k, get-insert j k v m)

  pub get-insert_self : (k : K) (v : V) (m : HashMap K V) → get k (insert k v m) ≡ some v
  get-insert_self k v m = rw (get-insert k k v m, e.same_refl k) refl

  -- Equal keys find the same.
  pub get_congr : (a b : K) (m : HashMap K V) → e.same a b ≡ true → get a m ≡ get b m
  unfolding get
  get_congr a b [] h = refl
  get_congr a b ((j, v) ∷ m) h =
      ground (arith, e.same_sym j a, e.same_sym j b, e.same_congr a b j h, get_congr a b m h)
