-- ===== src/Capability/Memory.antt =====
-- lion/lion_capability/src/model/memory.rs: the capability to access memory ranges.
-- Addresses are `usize` of 64 bits; a sum wraps, as in a release build. A bit set of operations is a
-- record of its flags. The other capability of a binary operation is given as what
-- `as_any().downcast_ref::<MemoryCapability>()` returns.
pub mod Range
pub mod Keys
pub mod Sorting
pub mod Joining
pub mod Coverage
pub mod Attenuation
pub mod Order
mod Examples
use liongate.Base.{
  ℕ, ◌+◌, ◌-◌, ◌%◌, max, min, Bool, true, false, not, ◌&&◌, ◌||◌, Option, none, some, List, [], ◌∷◌,
  ◌++◌, map, Result, ok, err, ◌>>=◌, all, any, filter, filter_map, is_empty, ltb, leb, ◌==◌,
  if◌then◌else◌, implies,
}
use liongate.Base.OrdMap
use liongate.Base.OrdMap.{OrdMap}
use liongate.Capability.{
  CapabilityError, access_denied, invalid_constraint, incompatible_types, invalid_state, Constraint,
  memory_range, AccessRequest, memory,
}

abbrev pub usize_mod : ℕ
usize_mod = 0x10000000000000000

abbrev pub wrapping_add : ℕ → ℕ → ℕ
wrapping_add a b = (a + b) % usize_mod

abbrev pub wrapping_sub : ℕ → ℕ → ℕ
wrapping_sub a b = (a + usize_mod - b) % usize_mod

pub record MemoryOperations : Type 0 where
  pub read : Bool
  pub write : Bool

abbrev pub union : MemoryOperations → MemoryOperations → MemoryOperations
union a b = record { read = a.read || b.read; write = a.write || b.write }

abbrev pub intersection : MemoryOperations → MemoryOperations → MemoryOperations
intersection a b = record { read = a.read && b.read; write = a.write && b.write }

-- `a.contains(b)`, which is also `(a & b).bits() == b.bits()`.
abbrev pub has_operations : MemoryOperations → MemoryOperations → Bool
has_operations a b = implies b.read a.read && implies b.write a.write

abbrev pub no_flags : MemoryOperations → Bool
no_flags o = not o.read && not o.write

pub record MemoryRange : Type 0 where
  pub base : ℕ
  pub size : ℕ
  pub operations : MemoryOperations

abbrev pub end : MemoryRange → ℕ
end r = wrapping_add r.base r.size

pub contains : MemoryRange → ℕ → Bool
contains r address = leb r.base address && ltb address (end r)

pub contains_range : MemoryRange → MemoryRange → Bool
contains_range r other = leb r.base other.base && leb (end other) (end r)

pub overlaps : MemoryRange → MemoryRange → Bool
overlaps r other = ltb r.base (end other) && ltb other.base (end r)

pub intersect : MemoryRange → MemoryRange → Option MemoryRange
unfolding overlaps
intersect r other =
    if not (overlaps r other)
    then none
    else (let base = max r.base other.base in
        let stop = min (end r) (end other) in
        let operations = intersection r.operations other.operations in
        if no_flags operations
        then none
        else some (record { base = base; size = wrapping_sub stop base; operations = operations }))

pub is_permission_subset_of : MemoryRange → MemoryRange → Bool
is_permission_subset_of r other = has_operations other.operations r.operations

-- `ranges` is keyed by the base of each range.
pub record MemoryCapability : Type 0 where
  pub ranges : OrdMap MemoryRange

insert_all : OrdMap MemoryRange → List MemoryRange → OrdMap MemoryRange
insert_all m [] = m
insert_all m (r ∷ rs) = insert_all (OrdMap.insert r.base r m) rs

pub new : List MemoryRange → MemoryCapability
unfolding insert_all
new ranges = record { ranges = insert_all [] ranges }

pub add_range : MemoryCapability → MemoryRange → MemoryCapability
add_range c r = record { ranges = OrdMap.insert r.base r c.ranges }

pub find_overlapping_ranges : MemoryCapability → ℕ → ℕ → List MemoryRange
find_overlapping_ranges c start stop =
    filter (λ r. ltb r.base stop && ltb start (end r))
      (OrdMap.values (OrdMap.range_below stop c.ranges))

pub apply_range_constraint :
    MemoryCapability → ℕ → ℕ → Bool → Bool → Result CapabilityError MemoryCapability
apply_range_constraint c base size read write =
    let request : MemoryRange = record {
      base = base;
      size = size;
      operations = record { read = read; write = write };
    } in
    let overlapping = find_overlapping_ranges c base (wrapping_add base size) in
    let new_ranges = filter_map (λ r. intersect r request) overlapping in
    if is_empty overlapping
    then err invalid_constraint
    else if is_empty new_ranges
    then err invalid_constraint
    else ok (new new_ranges)

-- `sort_by_key(|r| r.base)`, a stable sort.
pub insert_sorted : MemoryRange → List MemoryRange → List MemoryRange
insert_sorted r [] = r ∷ []
insert_sorted r (x ∷ xs) = if leb r.base x.base then r ∷ x ∷ xs else x ∷ insert_sorted r xs

pub sort_by_base : List MemoryRange → List MemoryRange
unfolding insert_sorted
sort_by_base [] = []
sort_by_base (x ∷ xs) = insert_sorted x (sort_by_base xs)

-- The loop of `permits` over the sorted ranges, with what is covered so far.
pub cover : MemoryOperations → ℕ → ℕ → List MemoryRange → Result CapabilityError (Unit {0})
cover required end_address covered_end [] = err access_denied
cover required end_address covered_end (r ∷ rs) =
    let covered_end' = max covered_end (end r) in
    let rest = cover required end_address covered_end' rs in
    if ltb covered_end r.base
    then err access_denied
    else if not (has_operations r.operations required)
    then err access_denied
    else if leb end_address covered_end'
    then ok tt
    else rest

pub permits : MemoryCapability → AccessRequest → Result CapabilityError (Unit {0})
permits c (memory address size read write) =
    let end_address = wrapping_add address size in
    let overlapping = find_overlapping_ranges c address end_address in
    let required : MemoryOperations = record { read = read; write = write } in
    if size == 0
    then ok tt
    else if is_empty overlapping
    then err access_denied
    else cover required end_address address (sort_by_base overlapping)
permits c _ = err incompatible_types

pub constrain : MemoryCapability → List Constraint → Result CapabilityError MemoryCapability
constrain c [] = ok c
constrain c (memory_range base size read write ∷ ks) =
    apply_range_constraint c base size read write >>= λ d. constrain d ks
constrain c (_ ∷ ks) = err invalid_constraint

pub split : MemoryCapability → List MemoryCapability
unfolding new
split c = map (λ r. new (r ∷ [])) (OrdMap.values c.ranges)

-- The keys of the merged ranges that overlap with `r`.
overlapping_keys : MemoryRange → OrdMap MemoryRange → List ℕ
unfolding overlaps
overlapping_keys r [] = []
overlapping_keys r ((k, existing) ∷ m) =
    if overlaps existing r then k ∷ overlapping_keys r m else overlapping_keys r m

pub hull : MemoryRange → MemoryRange → MemoryRange
hull existing r =
    let new_base = min existing.base r.base in
    let new_end = max (end existing) (end r) in
    record {
      base = new_base;
      size = wrapping_sub new_end new_base;
      operations = union existing.operations r.operations;
    }

-- Each overlapping range is taken out and its hull with `r` put in.
absorb : OrdMap MemoryRange → MemoryRange → List ℕ → OrdMap MemoryRange
unfolding hull
absorb m r [] = m
absorb m r (k ∷ ks) =
    absorb
      (elim (OrdMap.get k m) [
        | some existing ↦ OrdMap.insert (hull existing r).base (hull existing r) (OrdMap.remove k m)
        | none ↦ m
      ])
      r ks

merge_range : OrdMap MemoryRange → MemoryRange → OrdMap MemoryRange
unfolding overlapping_keys absorb
merge_range m r =
    let found = overlapping_keys r m in
    if is_empty found then OrdMap.insert r.base r m else absorb m r found

merge_ranges : OrdMap MemoryRange → List MemoryRange → OrdMap MemoryRange
unfolding merge_range
merge_ranges m [] = m
merge_ranges m (r ∷ rs) = merge_ranges (merge_range m r) rs

pub join : MemoryCapability → Option MemoryCapability → Result CapabilityError MemoryCapability
join c none = err incompatible_types
join c (some d) =
    let merged = merge_ranges (new (OrdMap.values c.ranges)).ranges (OrdMap.values d.ranges) in
    ok (new (OrdMap.values merged))

is_covered : List MemoryRange → MemoryRange → Bool
unfolding contains_range is_permission_subset_of
is_covered others r =
    any (λ other. contains_range other r && is_permission_subset_of r other) others

pub leq : MemoryCapability → Option MemoryCapability → Bool
unfolding is_covered
leq c none = false
leq c (some d) = all (is_covered (OrdMap.values d.ranges)) (OrdMap.values c.ranges)

-- `self_range.intersect(other_range)` for each pair of ranges.
pub all_intersections : List MemoryRange → List MemoryRange → List MemoryRange
all_intersections [] others = []
all_intersections (r ∷ rs) others = filter_map (intersect r) others ++ all_intersections rs others

pub meet : MemoryCapability → Option MemoryCapability → Result CapabilityError MemoryCapability
meet c none = err incompatible_types
meet c (some d) =
    let intersections = all_intersections (OrdMap.values c.ranges) (OrdMap.values d.ranges) in
    if is_empty intersections then err invalid_state else ok (new intersections)
