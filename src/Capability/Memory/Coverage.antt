-- ===== src/Capability/Memory/Coverage.antt =====
-- `permits` on memory: the walk over the sorted ranges decides whether each byte is covered.
use liongate.Base.{
  ℕ, ◌+◌, ◌≤◌, ◌<◌, max, Bool, true, false, ◌&&◌, ◌≡◌, refl, ◌⊎◌, inl, inr, List, [], ◌∷◌, ok,
  arith, ◌∈◌, Memᴰ, Bool-cases, All, All-mem, All-of_mem, is_empty, ltb, ◌==◌, mem-filter_intro,
}
use liongate.Base.OrdMap
use liongate.Base.OrdMap.{OrdMap}
use liongate.Capability.{memory}
use liongate.Capability.Memory.{
  MemoryOperations, MemoryRange, MemoryCapability, usize_mod, end, contains, has_operations,
  find_overlapping_ranges, sort_by_base, cover, permits, wrapping_add,
}
use liongate.Capability.Memory.Attenuation.{Allows, find_overlapping_elim}
use liongate.Capability.Memory.Keys.{IsKeyed, range_below_intro}
use liongate.Capability.Memory.Sorting.{IsSorted, sort_elim, sort_intro, sort-IsSorted}

-- Every byte from `from` up to `stop` lies in a listed range that has the operations.
abbrev pub IsCoveredBy : MemoryOperations → ℕ → ℕ → List MemoryRange → Type 0
IsCoveredBy required from stop rs =
    (x : ℕ)
    → from ≤ x
    → x < stop
    → (r : MemoryRange) × (r ∈ rs)
      × (contains r x ≡ true)
      × (has_operations r.operations required ≡ true)

cover_step :
    (required : MemoryOperations) (stop from : ℕ) (r : MemoryRange) (rs : List MemoryRange)
    → cover required stop from (r ∷ rs) ≡ ok tt
    → (r.base ≤ from)
      × (has_operations r.operations required ≡ true)
      × ((stop ≤ max from (end r)) ⊎ (cover required stop (max from (end r)) rs ≡ ok tt))
unfolding cover
cover_step required stop from r rs h = (ground arith, ground arith, ground arith)

inside : (r : MemoryRange) (x : ℕ) → r.base ≤ x → x < end r → contains r x ≡ true
unfolding contains
inside r x h k = ground arith

cover_sound :
    (required : MemoryOperations) (stop from : ℕ) (rs : List MemoryRange)
    → cover required stop from rs ≡ ok tt
    → IsCoveredBy required from stop rs
unfolding cover
cover_sound required stop from [] h x lo hi = cc
cover_sound required stop from (r ∷ rs) h x lo hi =
    let (base, ops, next) = cover_step required stop from r rs h in
    elim (Bool-cases (ltb x (end r))) [
      | inl e ↦ (r, Memᴰ.head refl, inside r x (omega arith) (ground arith), ops)
      | inr e ↦ elim next [
        | inl done ↦ absurd (ground arith)
        | inr rest ↦
            let (q, m, byte, ops') =
              cover_sound required stop (max from (end r)) rs rest x (ground arith) hi in
            (q, Memᴰ.tail m, byte, ops')
      ]
    ]

outside : (r : MemoryRange) (x : ℕ) → contains r x ≡ true → (r.base ≤ x) × (x < end r)
unfolding contains
outside r x h = (ground arith, ground arith)

module _ (required : MemoryOperations) (stop from : ℕ) (r : MemoryRange)
    (rs : List MemoryRange) where
  -- The first range starts no later than the first byte.
  first_starts :
      (q : MemoryRange) → IsSorted (r ∷ rs) → q ∈ (r ∷ rs) → contains q from ≡ true → r.base ≤ from
  first_starts q sorted (Memᴰ.head e) byte = (outside r from (rw e at byte)).0
  first_starts q sorted (Memᴰ.tail m) byte =
      omega
        (arith, All-mem (λ (s : MemoryRange). r.base ≤ s.base) sorted.0 m, (outside q from byte).0)

  -- What the first range leaves is covered by the others.
  rest_covered :
      IsCoveredBy required from stop (r ∷ rs) → IsCoveredBy required (max from (end r)) stop rs
  rest_covered covered x lo hi =
      let (q, m, byte, ops) = covered x (omega arith) hi in (q, later q m byte, byte, ops)
    where
      later : (q : MemoryRange) → q ∈ (r ∷ rs) → contains q x ≡ true → q ∈ rs
      later q (Memᴰ.head e) byte = absurd (omega (arith, outside r x (rw e at byte)))
      later q (Memᴰ.tail m) byte = m

cover_complete :
    (required : MemoryOperations) (stop from : ℕ) (rs : List MemoryRange)
    → IsSorted rs
    → All (λ (r : MemoryRange). has_operations r.operations required ≡ true) rs
    → from < stop
    → IsCoveredBy required from stop rs
    → cover required stop from rs ≡ ok tt
unfolding cover
cover_complete required stop from [] sorted ops more covered =
    let (r, m, _, _) = covered from (omega arith) more in elim m [ ]
cover_complete required stop from (r ∷ rs) sorted ops more covered =
    let (q, m, byte, _) = covered from (omega arith) more in
    let starts = first_starts required stop from r rs q sorted m byte in
    let rest = rest_covered required stop from r rs covered in
    let later = λ (h : max from (end r) < stop).
      cover_complete required stop (max from (end r)) rs sorted.1 ops.1 h rest in
    ground (arith, ops.0, later)

abbrev required_of : Bool → Bool → MemoryOperations
required_of read write = record { read = read; write = write }

permits-cover :
    (c : MemoryCapability) (address size : ℕ) (read write : Bool)
    → 0 < size
    → permits c (memory address size read write) ≡ ok tt
    → cover
        (required_of read write)
        (wrapping_add address size)
        address
        (sort_by_base (find_overlapping_ranges c address (wrapping_add address size)))
      ≡ ok tt
unfolding permits
permits-cover c address size read write h k = ground arith

-- A granted request that does not wrap touches only bytes that some range of the capability holds
-- with the operations asked for.
pub permits_sound :
    (c : MemoryCapability) (address size : ℕ) (read write : Bool)
    → address + size < usize_mod
    → permits c (memory address size read write) ≡ ok tt
    → (x : ℕ) → address ≤ x
    → x < address + size
    → Allows c x read write
permits_sound c address size read write fits h x lo hi =
    let stop = wrapping_add address size in
    let found = find_overlapping_ranges c address stop in
    let (r, m, byte, ops) =
      cover_sound (required_of read write) stop address (sort_by_base found)
        (permits-cover c address size read write (omega arith) h) x lo (omega arith) in
    (r, find_overlapping_elim c address stop (sort_elim found m), byte, ops)

found_intro :
    (c : MemoryCapability) (from stop x : ℕ) (r : MemoryRange)
    → IsKeyed c
    → r ∈ OrdMap.values c.ranges
    → contains r x ≡ true
    → from ≤ x
    → x < stop
    → r ∈ find_overlapping_ranges c from stop
unfolding find_overlapping_ranges
found_intro c from stop x r keyed m byte lo hi =
    let (base, last) = outside r x byte in
    mem-filter_intro (λ q. ltb q.base stop && ltb from (end q))
      (range_below_intro stop c.ranges keyed m (omega arith)) (ground arith)

permits_empty :
    (c : MemoryCapability) (address size : ℕ) (read write : Bool)
    → size ≡ 0
    → permits c (memory address size read write) ≡ ok tt
unfolding permits
permits_empty c address size read write e = ground arith

not_empty : {r : MemoryRange} {rs : List MemoryRange} → r ∈ rs → is_empty rs ≡ false
not_empty (Memᴰ.head e) = refl
not_empty (Memᴰ.tail m) = refl

permits_of_cover :
    (c : MemoryCapability) (address size : ℕ) (read write : Bool)
    → address + size < usize_mod
    → 0 < size
    → {r : MemoryRange} → r ∈ find_overlapping_ranges c address (address + size)
    → cover
        (required_of read write)
        (address + size)
        address
        (sort_by_base (find_overlapping_ranges c address (address + size)))
      ≡ ok tt
    → permits c (memory address size read write) ≡ ok tt
unfolding permits
permits_of_cover c address size read write fits more m h =
    let e : wrapping_add address size ≡ address + size = omega arith in
    rw e (ground (arith, not_empty m))

held_by_found :
    (c : MemoryCapability) (address size : ℕ) (read write : Bool)
    → IsKeyed c
    → ((x : ℕ) → address ≤ x → x < address + size → Allows c x read write)
    → IsCoveredBy
        (required_of read write)
        address
        (address + size)
        (find_overlapping_ranges c address (address + size))
held_by_found c address size read write keyed all_held x lo hi =
    let (r, m, byte, o) = all_held x lo hi in
    (r, found_intro c address (address + size) x r keyed m byte lo hi, byte, o)

-- Where every range that overlaps with the request has the operations asked for, a request whose
-- bytes are all held is granted.
pub permits_complete :
    (c : MemoryCapability) (address size : ℕ) (read write : Bool)
    → IsKeyed c
    → address + size < usize_mod
    → ((r : MemoryRange)
        → r ∈ find_overlapping_ranges c address (address + size)
        → has_operations r.operations (record { read = read; write = write }) ≡ true)
    → ((x : ℕ) → address ≤ x → x < address + size → Allows c x read write)
    → permits c (memory address size read write) ≡ ok tt
permits_complete c address size read write keyed fits ops all_held = elim (Bool-cases (size == 0)) [
  | inl e ↦ permits_empty c address size read write (ground arith)
  | inr e ↦
      let found = find_overlapping_ranges c address (address + size) in
      let held = held_by_found c address size read write keyed all_held in
      permits_of_cover c address size read write fits (ground arith)
        (held address (omega arith) (ground arith)).1
        (cover_complete (required_of read write) (address + size) address (sort_by_base found)
          (sort-IsSorted found)
          (All-of_mem _ (sort_by_base found) (λ r m. ops r (sort_elim found m))) (ground arith)
          (λ x lo hi. let (r, m, byte, o) = held x lo hi in (r, sort_intro m, byte, o)))
]
