-- ===== src/Policy/Evaluator/Sorting.antt =====
-- The rules by falling priority, and the first of them that decides.
use liongate.Base.{
  true, false, ◌≡◌, refl, ap, ◌⊎◌, inl, inr, Option, none, some, List, [], ◌∷◌, arith, ◌∈◌, Memᴰ,
  Bool-cases, All, All-mem, All-of_mem,
}
use liongate.Base.Int.{◌≤ℤ◌, leb_ℤ}
use liongate.Policy.Rule.{PolicyRule}
use liongate.Policy.Evaluator.{insert_sorted, sort_by_priority, decides, first_decisive}

abbrev AreBelow : PolicyRule → List PolicyRule → Type 0
AreBelow r = All (λ (x : PolicyRule). x.priority ≤ℤ r.priority)

abbrev pub IsFalling : List PolicyRule → Type 0
IsFalling [] = Unit
IsFalling (r ∷ rs) = AreBelow r rs × IsFalling rs

insert_elim :
    (r : PolicyRule) (xs : List PolicyRule) {w : PolicyRule}
    → w ∈ insert_sorted r xs
    → (w ≡ r) ⊎ (w ∈ xs)
unfolding insert_sorted
insert_elim r [] (Memᴰ.head e) = inl e
insert_elim r [] (Memᴰ.tail n) = elim n [ ]
insert_elim r (x ∷ xs) {w} n = elim (Bool-cases (leb_ℤ x.priority r.priority)) [
  | inl e ↦ front (rw e at n)
  | inr e ↦ deeper (insert_elim r xs) (rw e at n)
]
  where
    front : w ∈ (r ∷ x ∷ xs) → (w ≡ r) ⊎ (w ∈ (x ∷ xs))
    front (Memᴰ.head e) = inl e
    front (Memᴰ.tail m) = inr m

    deeper :
        (w ∈ insert_sorted r xs → (w ≡ r) ⊎ (w ∈ xs))
        → w ∈ (x ∷ insert_sorted r xs)
        → (w ≡ r) ⊎ (w ∈ (x ∷ xs))
    deeper ih (Memᴰ.head e) = inr (Memᴰ.head e)
    deeper ih (Memᴰ.tail m) = elim (ih m) [ inl e ↦ inl e | inr k ↦ inr (Memᴰ.tail k) ]

insert_new : (r : PolicyRule) (xs : List PolicyRule) → r ∈ insert_sorted r xs
unfolding insert_sorted
insert_new r [] = Memᴰ.head refl
insert_new r (x ∷ xs) = elim (Bool-cases (leb_ℤ x.priority r.priority)) [
  | inl e ↦ rw e (Memᴰ.head refl)
  | inr e ↦ rw e (Memᴰ.tail (insert_new r xs))
]

insert_old :
    (r : PolicyRule) {w : PolicyRule} {xs : List PolicyRule} → w ∈ xs → w ∈ insert_sorted r xs
unfolding insert_sorted
insert_old r (Memᴰ.head {x = x} e) = elim (Bool-cases (leb_ℤ x.priority r.priority)) [
  | inl f ↦ rw f (Memᴰ.tail (Memᴰ.head e))
  | inr f ↦ rw f (Memᴰ.head e)
]
insert_old r (Memᴰ.tail {x = x} m) = elim (Bool-cases (leb_ℤ x.priority r.priority)) [
  | inl f ↦ rw f (Memᴰ.tail (Memᴰ.tail m))
  | inr f ↦ rw f (Memᴰ.tail (insert_old r m))
]

pub sort_elim : (xs : List PolicyRule) {w : PolicyRule} → w ∈ sort_by_priority xs → w ∈ xs
unfolding sort_by_priority
sort_elim [] n = n
sort_elim (x ∷ xs) n = elim (insert_elim x (sort_by_priority xs) n) [
  | inl e ↦ Memᴰ.head e
  | inr m ↦ Memᴰ.tail (sort_elim xs m)
]

pub sort_intro : {w : PolicyRule} {xs : List PolicyRule} → w ∈ xs → w ∈ sort_by_priority xs
unfolding sort_by_priority
sort_intro (Memᴰ.head {x = x} {xs = xs} e) = rw e (insert_new x (sort_by_priority xs))
sort_intro (Memᴰ.tail {x = x} m) = insert_old x (sort_intro m)

below_trans :
    (r x : PolicyRule) (xs : List PolicyRule)
    → x.priority ≤ℤ r.priority
    → AreBelow x xs
    → AreBelow r xs
below_trans r x [] h k = tt
below_trans r x (y ∷ ys) h k = (omega arith, below_trans r x ys h k.1)

insert-IsFalling :
    (r : PolicyRule) (xs : List PolicyRule) → IsFalling xs → IsFalling (insert_sorted r xs)
unfolding insert_sorted
insert-IsFalling r [] h = (tt, tt)
insert-IsFalling r (x ∷ xs) h = elim (Bool-cases (leb_ℤ x.priority r.priority)) [
  | inl e ↦ rw e ((ground arith, below_trans r x xs (ground arith) h.0), h)
  | inr e ↦ rw e (
    All-of_mem _ (insert_sorted r xs) (λ w m. under e w (insert_elim r xs m)),
    insert-IsFalling r xs h.1,
  )
]
  where
    under :
        leb_ℤ x.priority r.priority ≡ false
        → (w : PolicyRule) → (w ≡ r) ⊎ (w ∈ xs)
        → w.priority ≤ℤ x.priority
    under e w (inl q) = rw q (ground arith)
    under e w (inr m) = All-mem (λ (y : PolicyRule). y.priority ≤ℤ x.priority) h.0 m

pub sort-IsFalling : (xs : List PolicyRule) → IsFalling (sort_by_priority xs)
unfolding sort_by_priority
sort-IsFalling [] = tt
sort-IsFalling (x ∷ xs) = insert-IsFalling x (sort_by_priority xs) (sort-IsFalling xs)

-- Nothing decides, or the first that decides has the greatest priority of those that do.
pub data First (rs : List PolicyRule) : Option PolicyRule → Type 0 where
  nobody : ((q : PolicyRule) → q ∈ rs → decides q ≡ false) → First rs none
  winner :
      (r : PolicyRule)
      → r ∈ rs
      → decides r ≡ true
      → ((q : PolicyRule) → q ∈ rs → decides q ≡ true → q.priority ≤ℤ r.priority)
      → First rs (some r)

pub first_decisive-First : (rs : List PolicyRule) → IsFalling rs → First rs (first_decisive rs)
unfolding first_decisive
first_decisive-First [] h = nobody (λ q m. elim m [ ])
first_decisive-First (r ∷ rs) h = elim (Bool-cases (decides r)) [
  | inl e ↦ rw e (winner r (Memᴰ.head refl) e λ q m d. top q m)
  | inr e ↦ rw e (later e (first_decisive-First rs h.1))
]
  where
    top : (q : PolicyRule) → q ∈ (r ∷ rs) → q.priority ≤ℤ r.priority
    top q (Memᴰ.head e) = rw e (omega arith)
    top q (Memᴰ.tail m) = All-mem (λ (y : PolicyRule). y.priority ≤ℤ r.priority) h.0 m

    later : decides r ≡ false → {o : Option PolicyRule} → First rs o → First (r ∷ rs) o
    later e (nobody none_decides) = nobody (idle e none_decides)
      where
        idle :
            decides r ≡ false
            → ((q : PolicyRule) → q ∈ rs → decides q ≡ false)
            → (q : PolicyRule) → q ∈ (r ∷ rs)
            → decides q ≡ false
        idle e old q (Memᴰ.head p) = rw p e
        idle e old q (Memᴰ.tail m) = old q m
    later e (winner w m d best) = winner w (Memᴰ.tail m) d (most e best)
      where
        most :
            decides r ≡ false
            → ((q : PolicyRule) → q ∈ rs → decides q ≡ true → q.priority ≤ℤ w.priority)
            → (q : PolicyRule) → q ∈ (r ∷ rs)
            → decides q ≡ true
            → q.priority ≤ℤ w.priority
        most e old q (Memᴰ.head p) d' = cc (e, d', ap decides p)
        most e old q (Memᴰ.tail m) d' = old q m d'
