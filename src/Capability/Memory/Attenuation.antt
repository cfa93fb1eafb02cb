-- ===== src/Capability/Memory/Attenuation.antt =====
-- No operation on memory capabilities but `join` adds a byte or an operation.
use liongate.Base.{
  ℕ, ◌+◌, ◌≤◌, ◌<◌, Bool, true, ◌≡◌, ◌⊎◌, inl, inr, some, List, [], ◌∷◌, ok, bind-eq-ok,
  ok_injective, arith, ◌∈◌, Memᴰ, implies, All, mem-filter_elim, filter_map, mem-filter_map_elim,
}
use liongate.Base.OrdMap
use liongate.Base.OrdMap.{values-insert_elim, range_below_sub}
use liongate.Capability.{Constraint, memory_range}
use liongate.Capability.Memory.{
  MemoryRange, MemoryCapability, usize_mod, contains, intersect, has_operations, contains_range,
  insert_all, new, find_overlapping_ranges, wrapping_add, apply_range_constraint, constrain,
}
use liongate.Capability.Memory.Range.{IsBounded, AreBounded, intersect_within}

-- Some range of the capability holds the byte and has the operations asked for.
abbrev pub Allows : MemoryCapability → ℕ → Bool → Bool → Type 0
Allows c x read write =
    (r : MemoryRange) × (r ∈ OrdMap.values c.ranges)
    × (contains r x ≡ true)
    × (has_operations r.operations (record { read = read; write = write }) ≡ true)

insert_all_elim :
    (m : OrdMap.OrdMap MemoryRange) (rs : List MemoryRange) {w : MemoryRange}
    → w ∈ OrdMap.values (insert_all m rs)
    → (w ∈ rs) ⊎ (w ∈ OrdMap.values m)
unfolding insert_all
insert_all_elim m [] n = inr n
insert_all_elim m (r ∷ rs) n = elim (insert_all_elim (OrdMap.insert r.base r m) rs n) [
  | inl k ↦ inl (Memᴰ.tail k)
  | inr k ↦ elim (values-insert_elim r.base r m k) [ inl e ↦ inl (Memᴰ.head e) | inr l ↦ inr l ]
]

pub new_elim :
    (rs : List MemoryRange) {w : MemoryRange} → w ∈ OrdMap.values (new rs).ranges → w ∈ rs
unfolding new
new_elim rs n = elim (insert_all_elim [] rs n) [ inl k ↦ k | inr k ↦ elim k [ ] ]

pub find_overlapping_elim :
    (c : MemoryCapability) (start stop : ℕ) {w : MemoryRange}
    → w ∈ find_overlapping_ranges c start stop
    → w ∈ OrdMap.values c.ranges
unfolding find_overlapping_ranges
find_overlapping_elim c start stop n =
    range_below_sub stop c.ranges
      (mem-filter_elim _ (OrdMap.values (OrdMap.range_below stop c.ranges)) n).0

abbrev request_range : ℕ → ℕ → Bool → Bool → MemoryRange
request_range base size read write = record {
  base = base;
  size = size;
  operations = record { read = read; write = write };
}

pub range_constraint-eq_ok :
    (c d : MemoryCapability) (base size : ℕ) (read write : Bool)
    → apply_range_constraint c base size read write ≡ ok d
    → d
      ≡ new (
          filter_map
            (λ r. intersect r (request_range base size read write))
            (find_overlapping_ranges c base (wrapping_add base size)))
unfolding apply_range_constraint
range_constraint-eq_ok c d base size read write h = ground arith

-- Each range of the constrained capability is the intersection of an old one with the constraint.
range_constraint_ranges :
    (c d : MemoryCapability) (base size : ℕ) (read write : Bool)
    → apply_range_constraint c base size read write ≡ ok d
    → (w : MemoryRange) → w ∈ OrdMap.values d.ranges
    → (r : MemoryRange) × (r ∈ OrdMap.values c.ranges)
      × (intersect r (request_range base size read write) ≡ some w)
range_constraint_ranges c d base size read write h w n =
    let e = range_constraint-eq_ok c d base size read write h in
    let found = find_overlapping_ranges c base (wrapping_add base size) in
    let (r, m, i) = mem-filter_map_elim _ found (new_elim _ (rw e at n)) in
    (r, find_overlapping_elim c base (wrapping_add base size) m, i)

-- A range with fewer bytes and fewer operations allows no more.
pub narrower :
    (r w : MemoryRange) (x : ℕ) (read write : Bool)
    → contains_range r w ≡ true
    → has_operations r.operations w.operations ≡ true
    → contains w x ≡ true
    → has_operations w.operations (record { read = read; write = write }) ≡ true
    → (contains r x ≡ true)
      × (has_operations r.operations (record { read = read; write = write }) ≡ true)
unfolding contains_range contains
narrower r w x read write bytes ops h k = (ground arith, ground arith)

pub intersect_left :
    (a b i : MemoryRange) (x : ℕ) (read write : Bool)
    → IsBounded a
    → IsBounded b
    → intersect a b ≡ some i
    → contains i x ≡ true
    → has_operations i.operations (record { read = read; write = write }) ≡ true
    → (contains a x ≡ true)
      × (has_operations a.operations (record { read = read; write = write }) ≡ true)
intersect_left a b i x read write ha hb e h k =
    let (_, left, _, ops) = intersect_within a b i ha hb e in
    narrower a i x read write left (ground arith) h k

pub intersect_right :
    (a b i : MemoryRange) (x : ℕ) (read write : Bool)
    → IsBounded a
    → IsBounded b
    → intersect a b ≡ some i
    → contains i x ≡ true
    → has_operations i.operations (record { read = read; write = write }) ≡ true
    → (contains b x ≡ true)
      × (has_operations b.operations (record { read = read; write = write }) ≡ true)
intersect_right a b i x read write ha hb e h k =
    let (_, _, right, ops) = intersect_within a b i ha hb e in
    narrower b i x read write right (ground arith) h k

-- The constraint names a range within the address space.
abbrev pub FitsMemory : Constraint → Type 0
FitsMemory (memory_range base size read write) = base + size < usize_mod
FitsMemory _ = Unit

-- The byte and the operations are among those that the constraint leaves.
abbrev pub Admits : Constraint → ℕ → Bool → Bool → Type 0
Admits (memory_range base size read write) x r w =
    (base ≤ x) × (x < base + size) × (implies r read ≡ true) × (implies w write ≡ true)
Admits _ x r w = ⊥

range_constraint-AreBounded :
    (c d : MemoryCapability) (base size : ℕ) (read write : Bool)
    → AreBounded c
    → base + size < usize_mod
    → apply_range_constraint c base size read write ≡ ok d
    → AreBounded d
range_constraint-AreBounded c d base size read write bounded fits h w n =
    let (r, m, e) = range_constraint_ranges c d base size read write h w n in
    (intersect_within r (request_range base size read write) w (bounded r m) fits e).0

request-Admits :
    (base size x : ℕ) (read write r w : Bool)
    → base + size < usize_mod
    → contains (request_range base size read write) x ≡ true
    → has_operations (record { read = read; write = write }) (record { read = r; write = w }) ≡ true
    → Admits (memory_range base size read write) x r w
unfolding contains
request-Admits base size x read write r w fits h k =
    (ground arith, ground arith, ground arith, ground arith)

range_constraint_attenuates :
    (c d : MemoryCapability) (base size : ℕ) (read write : Bool)
    → AreBounded c
    → base + size < usize_mod
    → apply_range_constraint c base size read write ≡ ok d
    → (x : ℕ) (r w : Bool) → Allows d x r w
    → Allows c x r w × Admits (memory_range base size read write) x r w
range_constraint_attenuates c d base size read write bounded fits h x r w (i, n, byte, ops) =
    let q = request_range base size read write in
    let (a, m, e) = range_constraint_ranges c d base size read write h i n in
    let (byte', ops') = intersect_left a q i x r w (bounded a m) fits e byte ops in
    let (within, allowed) = intersect_right a q i x r w (bounded a m) fits e byte ops in
    ((a, m, byte', ops'), request-Admits base size x read write r w fits within allowed)

-- What a constrained memory capability allows, the capability it was made from allowed, and each
-- constraint admits.
pub constrain-Allows :
    (c d : MemoryCapability) (ks : List Constraint)
    → AreBounded c
    → All FitsMemory ks
    → constrain c ks ≡ ok d
    → (x : ℕ) (read write : Bool) → Allows d x read write
    → Allows c x read write × All (λ k. Admits k x read write) ks
unfolding constrain
constrain-Allows c d [] bounded fits h x read write a = (rw (ok_injective h) a, tt)
constrain-Allows c d (memory_range base size r w ∷ ks) bounded fits h x read write a =
    let (e, first, rest) =
      bind-eq-ok (apply_range_constraint c base size r w) (λ y. constrain y ks) h in
    let bounded' = range_constraint-AreBounded c e base size r w bounded fits.0 first in
    let (mid, later) = constrain-Allows e d ks bounded' fits.1 rest x read write a in
    let (old, here) =
      range_constraint_attenuates c e base size r w bounded fits.0 first x read write mid in
    (old, (here, later))
constrain-Allows c d (_ ∷ ks) bounded fits h x read write a = cc
