-- ===== src/Capability/Memory/Range.antt =====
-- Memory ranges byte by byte.
use liongate.Base.{ℕ, ◌+◌, ◌<◌, Bool, true, false, not, ◌&&◌, ◌≡◌, Option, none, some, arith, ◌∈◌}
use liongate.Base.OrdMap
use liongate.Base.OrdMap.{values-insert_elim, range_below_sub}
use liongate.Capability.Memory.{
  MemoryRange, MemoryCapability, usize_mod, contains, intersect, intersection, no_flags,
  contains_range,
}

-- The range ends within the address space.
abbrev pub IsBounded : MemoryRange → Type 0
IsBounded r = r.base + r.size < usize_mod

abbrev pub AreBounded : MemoryCapability → Type 0
AreBounded c = (r : MemoryRange) → r ∈ OrdMap.values c.ranges → IsBounded r

-- Whether an intersection, where there is one, holds the byte.
abbrev pub holds : Option MemoryRange → ℕ → Bool
holds none x = false
holds (some r) x = contains r x

-- The intersection of two ranges holds exactly the bytes of both, and there is one only if the two
-- have an operation in common.
pub intersect_exact :
    (a b : MemoryRange) (x : ℕ)
    → IsBounded a
    → IsBounded b
    → holds (intersect a b) x
      ≡ (contains a x && contains b x && not (no_flags (intersection a.operations b.operations)))
unfolding intersect contains
intersect_exact a b x ha hb = ground arith

-- An intersection lies within both ranges and has the operations that both have.
pub intersect_within :
    (a b i : MemoryRange)
    → IsBounded a
    → IsBounded b
    → intersect a b ≡ some i
    → IsBounded i
      × (contains_range a i ≡ true)
      × (contains_range b i ≡ true)
      × (i.operations ≡ intersection a.operations b.operations)
unfolding intersect contains_range
intersect_within a b i ha hb h = (ground arith, ground arith, ground arith, ground arith)
