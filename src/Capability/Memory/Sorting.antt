-- ===== src/Capability/Memory/Sorting.antt =====
-- `sort_by_key` on the overlapping ranges: the same ranges, by rising base.
use liongate.Base.{
  ◌≤◌, false, ◌≡◌, inl, inr, List, [], ◌∷◌, arith, ◌∈◌, Memᴰ, Bool-cases, All, All-mem, All-of_mem,
  leb,
}
use liongate.Capability.Memory.{MemoryRange, insert_sorted, sort_by_base}

abbrev pub IsSorted : List MemoryRange → Type 0
IsSorted [] = Unit
IsSorted (r ∷ rs) = All (λ (s : MemoryRange). r.base ≤ s.base) rs × IsSorted rs

insert_elim :
    (r : MemoryRange) (xs : List MemoryRange) {w : MemoryRange}
    → w ∈ insert_sorted r xs
    → w ∈ (r ∷ xs)
unfolding insert_sorted
insert_elim r [] n = n
insert_elim r (x ∷ xs) {w} n = elim (Bool-cases (leb r.base x.base)) [
  | inl e ↦ rw e at n
  | inr e ↦ deeper (insert_elim r xs) (rw e at n)
]
  where
    swap : w ∈ (r ∷ xs) → w ∈ (r ∷ x ∷ xs)
    swap (Memᴰ.head e) = Memᴰ.head e
    swap (Memᴰ.tail m) = Memᴰ.tail (Memᴰ.tail m)

    deeper :
        (w ∈ insert_sorted r xs → w ∈ (r ∷ xs)) → w ∈ (x ∷ insert_sorted r xs) → w ∈ (r ∷ x ∷ xs)
    deeper ih (Memᴰ.head e) = Memᴰ.tail (Memᴰ.head e)
    deeper ih (Memᴰ.tail m) = swap (ih m)

insert_intro :
    (r : MemoryRange) (xs : List MemoryRange) {w : MemoryRange}
    → w ∈ (r ∷ xs)
    → w ∈ insert_sorted r xs
unfolding insert_sorted
insert_intro r [] n = n
insert_intro r (x ∷ xs) {w} n = elim (Bool-cases (leb r.base x.base)) [
  | inl e ↦ rw e n
  | inr e ↦ rw e (place (insert_intro r xs) n)
]
  where
    place :
        (w ∈ (r ∷ xs) → w ∈ insert_sorted r xs) → w ∈ (r ∷ x ∷ xs) → w ∈ (x ∷ insert_sorted r xs)
    place ih (Memᴰ.head e) = Memᴰ.tail (ih (Memᴰ.head e))
    place ih (Memᴰ.tail (Memᴰ.head e)) = Memᴰ.head e
    place ih (Memᴰ.tail (Memᴰ.tail m)) = Memᴰ.tail (ih (Memᴰ.tail m))

pub sort_elim : (xs : List MemoryRange) {w : MemoryRange} → w ∈ sort_by_base xs → w ∈ xs
unfolding sort_by_base
sort_elim [] n = n
sort_elim (x ∷ xs) {w} n = back (sort_elim xs) (insert_elim x (sort_by_base xs) n)
  where
    back : (w ∈ sort_by_base xs → w ∈ xs) → w ∈ (x ∷ sort_by_base xs) → w ∈ (x ∷ xs)
    back ih (Memᴰ.head e) = Memᴰ.head e
    back ih (Memᴰ.tail m) = Memᴰ.tail (ih m)

pub sort_intro : {w : MemoryRange} {xs : List MemoryRange} → w ∈ xs → w ∈ sort_by_base xs
unfolding sort_by_base
sort_intro (Memᴰ.head {x = x} {xs = xs} e) = insert_intro x (sort_by_base xs) (Memᴰ.head e)
sort_intro (Memᴰ.tail {x = x} {xs = xs} m) =
    insert_intro x (sort_by_base xs) (Memᴰ.tail (sort_intro m))

below-All :
    (r x : MemoryRange) (xs : List MemoryRange)
    → r.base ≤ x.base
    → All (λ (s : MemoryRange). x.base ≤ s.base) xs
    → All (λ (s : MemoryRange). r.base ≤ s.base) xs
below-All r x [] h k = tt
below-All r x (y ∷ ys) h k = (omega arith, below-All r x ys h k.1)

insert-IsSorted :
    (r : MemoryRange) (xs : List MemoryRange) → IsSorted xs → IsSorted (insert_sorted r xs)
unfolding insert_sorted
insert-IsSorted r [] h = (tt, tt)
insert-IsSorted r (x ∷ xs) h = elim (Bool-cases (leb r.base x.base)) [
  | inl e ↦ rw e ((ground arith, below-All r x xs (ground arith) h.0), h)
  | inr e ↦ rw e (
    All-of_mem _ (insert_sorted r xs) (λ w m. from e w (insert_elim r xs m)),
    insert-IsSorted r xs h.1,
  )
]
  where
    from : leb r.base x.base ≡ false → (w : MemoryRange) → w ∈ (r ∷ xs) → x.base ≤ w.base
    from e w (Memᴰ.head q) = rw q (ground arith)
    from e w (Memᴰ.tail m) = All-mem (λ (s : MemoryRange). x.base ≤ s.base) h.0 m

pub sort-IsSorted : (xs : List MemoryRange) → IsSorted (sort_by_base xs)
unfolding sort_by_base
sort-IsSorted [] = tt
sort-IsSorted (x ∷ xs) = insert-IsSorted x (sort_by_base xs) (sort-IsSorted xs)
