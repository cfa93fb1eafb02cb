-- ===== src/Capability/Memory/Order.antt =====
-- `meet`, `leq`, `split` and `join` of memory capabilities, against what is allowed at each byte.
use liongate.Base.{
  ℕ, Bool, true, ◌≡◌, refl, inl, inr, some, List, [], ◌∷◌, ok, arith, ◌∈◌, Memᴰ, any-elim, all-elim,
  mem-append_cases, filter_map, mem-filter_map_elim,
}
use liongate.Base.OrdMap
use liongate.Capability.Memory.{
  MemoryRange, MemoryCapability, intersect, is_permission_subset_of, new, all_intersections, meet,
  is_covered, leq,
}
use liongate.Capability.Memory.Range.{AreBounded}
use liongate.Capability.Memory.Attenuation.{
  Allows, new_elim, narrower, intersect_left, intersect_right,
}

all_intersections_elim :
    (rs others : List MemoryRange) {w : MemoryRange}
    → w ∈ all_intersections rs others
    → (a b : MemoryRange) × (a ∈ rs) × (b ∈ others) × (intersect a b ≡ some w)
unfolding all_intersections
all_intersections_elim [] others n = elim n [ ]
all_intersections_elim (r ∷ rs) others n =
    elim (mem-append_cases (filter_map (intersect r) others) (all_intersections rs others) n) [
      | inl k ↦
          let (b, m, e) = mem-filter_map_elim (intersect r) others k in (r, b, Memᴰ.head refl, m, e)
      | inr k ↦
          let (a, b, m, l, e) = all_intersections_elim rs others k in (a, b, Memᴰ.tail m, l, e)
    ]

pub meet-eq_ok :
    (c d e : MemoryCapability)
    → meet c (some d) ≡ ok e
    → e ≡ new (all_intersections (OrdMap.values c.ranges) (OrdMap.values d.ranges))
unfolding meet
meet-eq_ok c d e h = ground arith

-- The meet of two memory capabilities allows only what both allow.
pub meet-Allows :
    (c d e : MemoryCapability)
    → AreBounded c
    → AreBounded d
    → meet c (some d) ≡ ok e
    → (x : ℕ) (read write : Bool) → Allows e x read write
    → Allows c x read write × Allows d x read write
meet-Allows c d e hc hd h x read write (w, n, byte, ops) =
    let (a, b, m, l, i) =
      all_intersections_elim (OrdMap.values c.ranges) (OrdMap.values d.ranges)
        (new_elim _ (rw (meet-eq_ok c d e h) at n)) in
    let (byte₁, ops₁) = intersect_left a b w x read write (hc a m) (hd b l) i byte ops in
    let (byte₂, ops₂) = intersect_right a b w x read write (hc a m) (hd b l) i byte ops in
    ((a, m, byte₁, ops₁), (b, l, byte₂, ops₂))

-- If one memory capability is `leq` another, the other allows all that it allows.
pub leq_sound :
    (c d : MemoryCapability)
    → leq c (some d) ≡ true
    → (x : ℕ) (read write : Bool) → Allows c x read write
    → Allows d x read write
unfolding leq is_covered is_permission_subset_of
leq_sound c d h x read write (r, m, byte, ops) =
    let (other, l, e) =
      any-elim _ (OrdMap.values d.ranges) (all-elim (is_covered (OrdMap.values d.ranges)) h m) in
    let (byte', ops') = narrower other r x read write (ground arith) (ground arith) byte ops in
    (other, l, byte', ops')
