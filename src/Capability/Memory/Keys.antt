-- ===== src/Capability/Memory/Keys.antt =====
-- Each range of a memory capability is stored under its base.
use liongate.Base.{
  ℕ, ◌<◌, true, ◌≡◌, refl, sym, ap, inl, inr, some, List, [], ◌∷◌, ok, bind-eq-ok, OnOk, OnOk-intro,
  ok_injective, arith, ◌∈◌, Memᴰ, Bool-cases, ltb,
}
use liongate.Base.OrdMap
use liongate.Base.OrdMap.{OrdMap, insert, range_below}
use liongate.Capability.{Constraint, memory_range}
use liongate.Capability.Memory.{
  MemoryRange, MemoryCapability, insert_all, new, add_range, apply_range_constraint, constrain,
  join, meet, merge_ranges,
}
use liongate.Capability.Memory.Attenuation.{range_constraint-eq_ok}
use liongate.Capability.Memory.Order.{meet-eq_ok}

abbrev pub IsKeyedMap : OrdMap MemoryRange → Type 0
IsKeyedMap [] = Unit
IsKeyedMap ((k, r) ∷ m) = (k ≡ r.base) × IsKeyedMap m

abbrev pub IsKeyed : MemoryCapability → Type 0
IsKeyed c = IsKeyedMap c.ranges

insert-IsKeyed :
    (r : MemoryRange) (m : OrdMap MemoryRange) → IsKeyedMap m → IsKeyedMap (insert r.base r m)
unfolding insert
insert-IsKeyed r [] h = (refl, tt)
insert-IsKeyed r ((k, s) ∷ m) h = ground (arith, insert-IsKeyed r m h.1)

insert_all-IsKeyed :
    (m : OrdMap MemoryRange) (rs : List MemoryRange) → IsKeyedMap m → IsKeyedMap (insert_all m rs)
unfolding insert_all
insert_all-IsKeyed m [] h = h
insert_all-IsKeyed m (r ∷ rs) h = insert_all-IsKeyed (insert r.base r m) rs (insert-IsKeyed r m h)

-- A capability made from any list of ranges is keyed by their bases.
pub new-IsKeyed : (rs : List MemoryRange) → IsKeyed (new rs)
unfolding new
new-IsKeyed rs = insert_all-IsKeyed [] rs tt

-- Adding a range to a keyed capability keeps it keyed.
pub add_range-IsKeyed :
    (c : MemoryCapability) (r : MemoryRange) → IsKeyed c → IsKeyed (add_range c r)
unfolding add_range
add_range-IsKeyed c r h = insert-IsKeyed r c.ranges h

ltb_of :
    {w : MemoryRange} (stop k : ℕ) (r : MemoryRange)
    → w ≡ r
    → k ≡ r.base
    → w.base < stop
    → ltb k stop ≡ true
ltb_of {w} stop k r e key h = ground (arith, ap (λ (s : MemoryRange). s.base) e)

-- A range whose base is below the end is among the entries below it.
pub range_below_intro :
    {w : MemoryRange} (stop : ℕ) (m : OrdMap MemoryRange)
    → IsKeyedMap m
    → w ∈ OrdMap.values m
    → w.base < stop
    → w ∈ OrdMap.values (range_below stop m)
unfolding range_below
range_below_intro stop [] keyed n h = elim n [ ]
range_below_intro stop ((k, r) ∷ m) keyed (Memᴰ.head e) h =
    rw (ltb_of stop k r e keyed.0 h) (Memᴰ.head e)
range_below_intro stop ((k, r) ∷ m) keyed (Memᴰ.tail n) h = elim (Bool-cases (ltb k stop)) [
  | inl e ↦ rw e (Memᴰ.tail (range_below_intro stop m keyed.1 n h))
  | inr e ↦ rw e (range_below_intro stop m keyed.1 n h)
]

join-eq_ok :
    (c d e : MemoryCapability)
    → join c (some d) ≡ ok e
    → e
      ≡ new (
          OrdMap.values
            (merge_ranges (new (OrdMap.values c.ranges)).ranges (OrdMap.values d.ranges)))
unfolding join
join-eq_ok c d e h = sym (ok_injective h)

join-IsKeyed : (c d e : MemoryCapability) → join c (some d) ≡ ok e → IsKeyed e
join-IsKeyed c d e h = rw (join-eq_ok c d e h) (new-IsKeyed _)

meet-IsKeyed : (c d e : MemoryCapability) → meet c (some d) ≡ ok e → IsKeyed e
meet-IsKeyed c d e h = rw (meet-eq_ok c d e h) (new-IsKeyed _)

constrain-IsKeyed :
    (c d : MemoryCapability) (ks : List Constraint) → IsKeyed c → constrain c ks ≡ ok d → IsKeyed d
unfolding constrain
constrain-IsKeyed c d [] keyed h = rw (← ok_injective h) keyed
constrain-IsKeyed c d (memory_range base size r w ∷ ks) keyed h =
    let (e, first, rest) =
      bind-eq-ok (apply_range_constraint c base size r w) (λ y. constrain y ks) h in
    constrain-IsKeyed e d ks (rw (range_constraint-eq_ok c e base size r w first) (new-IsKeyed _))
      rest
constrain-IsKeyed c d (_ ∷ ks) keyed h = cc

-- Whatever the operation, each range of the memory capability that it makes is stored under the
-- range's base: building one, adding a range to one, constraining, joining and meeting.
pub operations-IsKeyed :
    (rs : List MemoryRange) (c d : MemoryCapability) (r : MemoryRange) (ks : List Constraint)
    → IsKeyed c
    → IsKeyed (new rs)
      × IsKeyed (add_range c r)
      × OnOk IsKeyed (constrain c ks)
      × OnOk IsKeyed (join c (some d))
      × OnOk IsKeyed (meet c (some d))
operations-IsKeyed rs c d r ks keyed = (
  new-IsKeyed rs,
  add_range-IsKeyed c r keyed,
  OnOk-intro IsKeyed (constrain c ks) (λ e. constrain-IsKeyed c e ks keyed),
  OnOk-intro IsKeyed (join c (some d)) (join-IsKeyed c d),
  OnOk-intro IsKeyed (meet c (some d)) (meet-IsKeyed c d),
)
