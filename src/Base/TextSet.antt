-- ===== src/Base/TextSet.antt =====
-- `HashSet<String>`: a list without repetition. The order of iteration is not fixed by the program,
-- and no statement depends on it.
use mathlib.Core.Path.{◌≡◌, refl}
use mathlib.Core.Logic.{◌⊎◌, inl, inr}
use mathlib.Core.Bool.{Bool, true}
use mathlib.Core.List.{List, [], ◌∷◌, ◌++◌, Memᴰ}
use liongate.Base.Tests.{if◌then◌else◌, Bool-cases}
use liongate.Base.Lists.{
  any, filter, ◌∈◌, any-intro, any-elim, mem-append_left, mem-append_right, mem-append_cases,
  mem-filter_elim, mem-filter_intro,
}
use liongate.Base.Text.{Text, text_eq, text_eq_sound, text_eq_refl}

abbrev pub contains : List Text → Text → Bool
contains s x = any (text_eq x) s

unfoldable pub insert : List Text → Text → List Text
insert s x = if contains s x then s else s ++ (x ∷ [])

unfoldable pub extend : List Text → List Text → List Text
unfolding insert
extend s [] = s
extend s (x ∷ xs) = extend (insert s x) xs

unfoldable pub intersection : List Text → List Text → List Text
intersection s t = filter (contains t) s

pub contains_sound : (s : List Text) (x : Text) → contains s x ≡ true → x ∈ s
contains_sound s x h = let (y, m, e) = any-elim (text_eq x) s h in rw (text_eq_sound x y e) m

pub contains_complete : (s : List Text) (x : Text) → x ∈ s → contains s x ≡ true
contains_complete s x m = any-intro (text_eq x) m (text_eq_refl x)

pub mem-insert_elim : (s : List Text) (x y : Text) → y ∈ insert s x → (y ∈ s) ⊎ (y ≡ x)
unfolding insert
mem-insert_elim s x y m = elim (Bool-cases (contains s x)) [
  | inl old ↦ inl (rw old at m)
  | inr new ↦ elim (mem-append_cases s (x ∷ []) (rw new at m)) [
    | inl k ↦ inl k
    | inr k ↦ inr (only k)
  ]
]
  where
    only : y ∈ (x ∷ []) → y ≡ x
    only (Memᴰ.head e) = e
    only (Memᴰ.tail k) = elim k [ ]

pub mem-insert_old : (s : List Text) (x y : Text) → y ∈ s → y ∈ insert s x
unfolding insert
mem-insert_old s x y m = elim (Bool-cases (contains s x)) [
  | inl old ↦ rw old m
  | inr new ↦ rw new (mem-append_left (x ∷ []) m)
]

pub mem-insert_new : (s : List Text) (x : Text) → x ∈ insert s x
unfolding insert
mem-insert_new s x = elim (Bool-cases (contains s x)) [
  | inl old ↦ rw old (contains_sound s x old)
  | inr new ↦ rw new (mem-append_right s (Memᴰ.head refl))
]

pub mem-extend_elim : (s xs : List Text) (y : Text) → y ∈ extend s xs → (y ∈ s) ⊎ (y ∈ xs)
unfolding extend
mem-extend_elim s [] y m = inl m
mem-extend_elim s (x ∷ xs) y m = elim (mem-extend_elim (insert s x) xs y m) [
  | inl k ↦ elim (mem-insert_elim s x y k) [ inl l ↦ inl l | inr e ↦ inr (Memᴰ.head e) ]
  | inr k ↦ inr (Memᴰ.tail k)
]

pub mem-extend_left : (s xs : List Text) (y : Text) → y ∈ s → y ∈ extend s xs
unfolding extend
mem-extend_left s [] y m = m
mem-extend_left s (x ∷ xs) y m = mem-extend_left (insert s x) xs y (mem-insert_old s x y m)

pub mem-extend_right : (s xs : List Text) (y : Text) → y ∈ xs → y ∈ extend s xs
unfolding extend
mem-extend_right s [] y m = elim m [ ]
mem-extend_right s (x ∷ xs) y (Memᴰ.head e) =
    rw e (mem-extend_left (insert s x) xs x (mem-insert_new s x))
mem-extend_right s (x ∷ xs) y (Memᴰ.tail m) = mem-extend_right (insert s x) xs y m

pub mem-intersection : (s t : List Text) (y : Text) → y ∈ intersection s t → (y ∈ s) × (y ∈ t)
unfolding intersection
mem-intersection s t y m =
    let (k, h) = mem-filter_elim (contains t) s m in (k, contains_sound t y h)

pub mem-intersection_intro : (s t : List Text) (y : Text) → y ∈ s → y ∈ t → y ∈ intersection s t
unfolding intersection
mem-intersection_intro s t y m n = mem-filter_intro (contains t) m (contains_complete t y n)
