-- ===== src/Capability/Memory/Examples.antt =====
-- The properties of memory capabilities at concrete capabilities, and tests.
use liongate.Base.{
  OnOk, ℕ, ◌≤◌, ◌<◌, true, false, ◌≡◌, refl, some, List, [], ◌∷◌, ok, err, arith, ◌∈◌, Memᴰ, All,
}
use liongate.Base.OrdMap.{insert, range_below}
use liongate.Capability.{Constraint, memory_range, memory, access_denied}
use liongate.Capability.Memory.{
  MemoryOperations, MemoryRange, MemoryCapability, new, add_range, contains, intersect,
  intersection, contains_range, permits, cover, sort_by_base, find_overlapping_ranges, constrain,
  apply_range_constraint, join, meet, leq, is_covered, all_intersections, has_operations,
}
use liongate.Capability.Memory.Range.{IsBounded, AreBounded, intersect_within}
use liongate.Capability.Memory.Attenuation.{Allows, Admits, constrain-Allows}
use liongate.Capability.Memory.Order.{meet-Allows, leq_sound}
use liongate.Capability.Memory.Keys.{IsKeyed, operations-IsKeyed}
use liongate.Capability.Memory.Coverage.{permits_sound, permits_complete}

abbrev read_only : MemoryOperations
read_only = record { read = true; write = false }

abbrev read_write : MemoryOperations
read_write = record { read = true; write = true }

abbrev low : MemoryRange
low = record { base = 10; size = 20; operations = read_write }

abbrev high : MemoryRange
high = record { base = 30; size = 20; operations = read_only }

abbrev wide : MemoryRange
wide = record { base = 5; size = 40; operations = read_only }

abbrev heap : MemoryCapability
heap = record { ranges = (10, low) ∷ (30, high) ∷ [] }

abbrev window : MemoryCapability
window = record { ranges = (5, wide) ∷ [] }

heap-AreBounded : AreBounded heap
heap-AreBounded r (Memᴰ.head e) = rw e (omega arith)
heap-AreBounded r (Memᴰ.tail (Memᴰ.head e)) = rw e (omega arith)
heap-AreBounded r (Memᴰ.tail (Memᴰ.tail m)) = elim m [ ]

window-AreBounded : AreBounded window
window-AreBounded r (Memᴰ.head e) = rw e (omega arith)
window-AreBounded r (Memᴰ.tail m) = elim m [ ]

abbrev common : MemoryRange
common = record { base = 10; size = 20; operations = read_only }

intersected : intersect low wide ≡ some common
unfolding intersect
intersected = refl

intersect_within_example :
    IsBounded common
    × (contains_range low common ≡ true)
    × (contains_range wide common ≡ true)
    × (common.operations ≡ intersection low.operations wide.operations)
intersect_within_example = intersect_within low wide common (omega arith) (omega arith) intersected

read_across : permits heap (memory 20 20 true false) ≡ ok tt
unfolding permits find_overlapping_ranges range_below sort_by_base cover
read_across = refl

write_across : permits heap (memory 20 20 false true) ≡ err access_denied
unfolding permits find_overlapping_ranges range_below sort_by_base cover
write_across = refl

permits_sound_example : Allows heap 35 true false
permits_sound_example =
    permits_sound heap 20 20 true false (omega arith) read_across 35 (omega arith) (omega arith)

heap-IsKeyed : IsKeyed heap
heap-IsKeyed = (refl, (refl, tt))

window_readable :
    (r : MemoryRange)
    → r ∈ find_overlapping_ranges window 10 30
    → has_operations r.operations read_only ≡ true
unfolding find_overlapping_ranges range_below
window_readable r (Memᴰ.head e) = rw e refl
window_readable r (Memᴰ.tail m) = elim m [ ]

window_holds : (x : ℕ) → 10 ≤ x → x < 30 → Allows window x true false
unfolding contains
window_holds x lo hi = (wide, Memᴰ.head refl, ground arith, refl)

permits_complete_example : permits window (memory 10 20 true false) ≡ ok tt
permits_complete_example =
    permits_complete window 10 20 true false (refl, tt) (omega arith) window_readable window_holds

abbrev to_part : List Constraint
to_part = memory_range 15 10 true false ∷ []

abbrev part : MemoryCapability
part = record { ranges = (15, record { base = 15; size = 10; operations = read_only }) ∷ [] }

constrained : constrain heap to_part ≡ ok part
unfolding constrain apply_range_constraint find_overlapping_ranges range_below intersect new insert
constrained = refl

part-Allows : Allows part 20 true false
unfolding contains
part-Allows = (record { base = 15; size = 10; operations = read_only }, Memᴰ.head refl, refl, refl)

constrain-Allows_example : Allows heap 20 true false × All (λ k. Admits k 20 true false) to_part
constrain-Allows_example =
    constrain-Allows heap part to_part heap-AreBounded (omega arith, tt) constrained 20 true false
      part-Allows

abbrev overlap : MemoryCapability
overlap = record {
  ranges = (10, common) ∷ (30, record { base = 30; size = 15; operations = read_only }) ∷ [];
}

met : meet heap (some window) ≡ ok overlap
unfolding meet all_intersections intersect new insert
met = refl

overlap-Allows : Allows overlap 20 true false
unfolding contains
overlap-Allows = (common, Memᴰ.head refl, refl, refl)

meet-Allows_example : Allows heap 20 true false × Allows window 20 true false
meet-Allows_example =
    meet-Allows heap window overlap heap-AreBounded window-AreBounded met 20 true false
      overlap-Allows

overlap-leq : leq overlap (some window) ≡ true
unfolding leq is_covered
overlap-leq = refl

leq_sound_example : Allows window 20 true false
leq_sound_example = leq_sound overlap window overlap-leq 20 true false overlap-Allows

operations-IsKeyed_example :
    IsKeyed (new (low ∷ []))
    × IsKeyed (add_range heap wide)
    × OnOk IsKeyed (constrain heap to_part)
    × OnOk IsKeyed (join heap (some window))
    × OnOk IsKeyed (meet heap (some window))
operations-IsKeyed_example = operations-IsKeyed (low ∷ []) heap window wide to_part heap-IsKeyed
