-- ===== src/Capability/Memory/Joining.antt =====
-- Where `join` of memory capabilities loses a permission.
use liongate.Base.{◌+◌, ◌≤◌, ◌<◌, ◌≡◌, refl, some, [], ◌∷◌, ok, arith}
use liongate.Base.OrdMap.{insert, get, remove, values}
use liongate.Capability.Memory.{
  MemoryRange, MemoryCapability, new, join, hull, merge_ranges, merge_range, absorb,
  overlapping_keys, union,
}
use liongate.Capability.Memory.Range.{IsBounded}

two_keys :
    (a b r : MemoryRange)
    → IsBounded a
    → IsBounded b
    → IsBounded r
    → r.base ≤ a.base
    → a.base < b.base
    → b.base < r.base + r.size
    → 0 < a.size
    → 0 < b.size
    → overlapping_keys r ((a.base, a) ∷ (b.base, b) ∷ []) ≡ a.base ∷ b.base ∷ []
unfolding overlapping_keys
two_keys a b r ha hb hr p q s na nb = ground arith

sorted_pair :
    (a b : MemoryRange)
    → a.base < b.base
    → (new (a ∷ b ∷ [])).ranges ≡ (a.base, a) ∷ (b.base, b) ∷ []
unfolding new insert
sorted_pair a b h = ground arith

absorbed :
    (a b r : MemoryRange)
    → r.base ≤ a.base
    → a.base < b.base
    → absorb ((a.base, a) ∷ (b.base, b) ∷ []) r (a.base ∷ b.base ∷ []) ≡ (r.base, hull b r) ∷ []
unfolding absorb insert get remove
absorbed a b r p q = ground arith

single : (r : MemoryRange) → values (new (r ∷ [])).ranges ≡ r ∷ []
unfolding new insert
single r = refl

hull_operations : (b r : MemoryRange) → (hull b r).operations ≡ union b.operations r.operations
unfolding hull
hull_operations b r = refl

merged :
    (a b r : MemoryRange)
    → overlapping_keys r ((a.base, a) ∷ (b.base, b) ∷ []) ≡ a.base ∷ b.base ∷ []
    → absorb ((a.base, a) ∷ (b.base, b) ∷ []) r (a.base ∷ b.base ∷ []) ≡ (r.base, hull b r) ∷ []
    → merge_ranges ((a.base, a) ∷ (b.base, b) ∷ []) (r ∷ []) ≡ (r.base, hull b r) ∷ []
unfolding merge_range merge_ranges
merged a b r e f = rw (merge_ranges, merge_range, e) f

join-hull :
    (a b r : MemoryRange)
    → IsBounded a
    → IsBounded b
    → IsBounded r
    → r.base ≤ a.base
    → a.base < b.base
    → b.base < r.base + r.size
    → 0 < a.size
    → 0 < b.size
    → join (new (a ∷ b ∷ [])) (some (new (r ∷ []))) ≡ ok (new (hull b r ∷ []))
unfolding join
join-hull a b r ha hb hr p q s na nb =
    let e = merged a b r (two_keys a b r ha hb hr p q s na nb) (absorbed a b r p q) in
    rw (sorted_pair a b q, sorted_pair a b q, single r, e)

-- Where a range r starts no later than two ranges a and b of a capability, a before b, and reaches
-- into both, joining the capability with one for r puts the hull of a and r, and then that of b and
-- r, under the same key: only the hull of b and r is left, without the operations of a.
pub join_drops :
    (a b r : MemoryRange)
    → IsBounded a
    → IsBounded b
    → IsBounded r
    → r.base ≤ a.base
    → a.base < b.base
    → b.base < r.base + r.size
    → 0 < a.size
    → 0 < b.size
    → (e : MemoryCapability) × (join (new (a ∷ b ∷ [])) (some (new (r ∷ []))) ≡ ok e)
      × (values e.ranges ≡ hull b r ∷ [])
      × ((hull b r).operations ≡ union b.operations r.operations)
join_drops a b r ha hb hr p q s na nb = (
  new (hull b r ∷ []),
  join-hull a b r ha hb hr p q s na nb,
  single (hull b r),
  hull_operations b r,
)
