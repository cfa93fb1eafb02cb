-- ===== src/Capability/HostRule/Addresses.antt =====
-- Addresses that agree in their first bits agree in fewer of them, and transitively.
use Prim.Native.Nat.{◌/◌}
use native.Mathlib.Nat.{div-div-eq-div-mul, pow-suc, one-le-pow, mul-div_left}
use liongate.Base.{
  ℕ, zero, suc, ◌+◌, ◌-◌, ◌*◌, ◌%◌, ◌^◌, ◌≤◌, ◌<◌, true, false, List, [], ◌∷◌, ◌≡◌, refl, sym, ap,
  ◌∙◌, inl, inr, arith, Bool-cases, ==_iff, ltb,
}
use liongate.Capability.HostRule.{
  shift_v4, masked, same_v4, full_segments_equal, partial_segment_equal, same_v6,
}

quotient_mono : (a b k d : ℕ) → a / 2 ^ k ≡ b / 2 ^ k → a / 2 ^ (d + k) ≡ b / 2 ^ (d + k)
quotient_mono a b k zero e =
    let n : 0 + k ≡ k = omega arith in ap (λ j. a / 2 ^ j) n ∙ e ∙ ap (λ j. b / 2 ^ j) (sym n)
quotient_mono a b k (suc d) e =
    let n : suc d + k ≡ suc (d + k) = omega arith in
    ap (λ j. a / 2 ^ j) n
    ∙ ap (λ n. a / n) (pow-suc 2 (d + k))
    ∙ sym (div-div-eq-div-mul a (2 ^ (d + k)) 2)
    ∙ ap (λ n. n / 2) (quotient_mono a b k d e)
    ∙ div-div-eq-div-mul b (2 ^ (d + k)) 2
    ∙ ap (λ n. b / n) (sym (pow-suc 2 (d + k)))
    ∙ ap (λ j. b / 2 ^ j) (sym n)

pow_pos : (k : ℕ) → 0 < 2 ^ k
pow_pos k = omega (arith, one-le-pow k 2)

masked-quotient : (a b k : ℕ) → masked a k ≡ masked b k → a / 2 ^ k ≡ b / 2 ^ k
unfolding masked
masked-quotient a b k e =
    sym (mul-div_left (a / 2 ^ k) (pow_pos k))
    ∙ ap (λ n. n / 2 ^ k) e
    ∙ mul-div_left (b / 2 ^ k) (pow_pos k)

-- Words that agree under a mask agree under every shorter one.
masked_mono : (a b k m : ℕ) → k ≤ m → masked a k ≡ masked b k → masked a m ≡ masked b m
unfolding masked
masked_mono a b k m h e =
    let q = quotient_mono a b k (m - k) (masked-quotient a b k e) in
    let n : m - k + k ≡ m = omega arith in
    ap (λ x. x * 2 ^ m) (ap (λ j. a / 2 ^ j) (sym n) ∙ q ∙ ap (λ j. b / 2 ^ j) n)

-- A prefix length that leaves the shift within the word.
abbrev pub IsV4Prefix : ℕ → Type 0
IsV4Prefix p = (1 ≤ p) × (p ≤ 32)

shift_v4_anti : (p q : ℕ) → IsV4Prefix p → IsV4Prefix q → q ≤ p → shift_v4 p ≤ shift_v4 q
unfolding shift_v4
shift_v4_anti p q hp hq h = omega (arith, hp.0, hp.1, hq.0, hq.1)

pub same_v4_mono :
    (a b p q : ℕ)
    → IsV4Prefix p
    → IsV4Prefix q
    → q ≤ p
    → same_v4 a b p ≡ true
    → same_v4 a b q ≡ true
unfolding same_v4
same_v4_mono a b p q hp hq h e =
    (==_iff _ _).1
      (masked_mono a b (shift_v4 p) (shift_v4 q) (shift_v4_anti p q hp hq h) ((==_iff _ _).0 e))

pub same_v4_trans :
    (a b c p : ℕ) → same_v4 a b p ≡ true → same_v4 b c p ≡ true → same_v4 a c p ≡ true
unfolding same_v4
same_v4_trans a b c p h k = (==_iff _ _).1 ((==_iff _ _).0 h ∙ (==_iff _ _).0 k)

pub same_v4_sym : (a b p : ℕ) → same_v4 a b p ≡ true → same_v4 b a p ≡ true
unfolding same_v4
same_v4_sym a b p h = (==_iff _ _).1 (sym ((==_iff _ _).0 h))

full_mono :
    (m n : ℕ) (xs ys : List ℕ)
    → m ≤ n
    → full_segments_equal n xs ys ≡ true
    → full_segments_equal m xs ys ≡ true
unfolding full_segments_equal
full_mono zero n xs ys h e = refl
full_mono (suc m) zero xs ys h e = absurd (omega (arith, h))
full_mono (suc m) (suc n) [] ys h e = cc
full_mono (suc m) (suc n) (x ∷ xs) [] h e = cc
full_mono (suc m) (suc n) (x ∷ xs) (y ∷ ys) h e =
    ground (arith, full_mono m n xs ys (omega (arith, h)))

-- A segment that is compared in full agrees in each of its prefixes.
partial-of_full :
    (m n bits : ℕ) (xs ys : List ℕ)
    → m < n
    → full_segments_equal n xs ys ≡ true
    → partial_segment_equal m bits xs ys ≡ true
unfolding full_segments_equal partial_segment_equal
partial-of_full m zero bits xs ys h e = absurd (omega (arith, h))
partial-of_full m (suc n) bits [] ys h e = cc
partial-of_full m (suc n) bits (x ∷ xs) [] h e = cc
partial-of_full zero (suc n) bits (x ∷ xs) (y ∷ ys) h e =
    (==_iff _ _).1 (ap (λ z. masked z (16 - bits)) ((==_iff x y).0 (ground arith)))
partial-of_full (suc m) (suc n) bits (x ∷ xs) (y ∷ ys) h e =
    ground (arith, partial-of_full m n bits xs ys (omega (arith, h)))

partial_mono :
    (n b c : ℕ) (xs ys : List ℕ)
    → c ≤ b
    → partial_segment_equal n b xs ys ≡ true
    → partial_segment_equal n c xs ys ≡ true
unfolding partial_segment_equal
partial_mono zero b c [] ys h e = cc
partial_mono zero b c (x ∷ xs) [] h e = cc
partial_mono zero b c (x ∷ xs) (y ∷ ys) h e =
    (==_iff _ _).1 (masked_mono x y (16 - b) (16 - c) (omega (arith, h)) ((==_iff _ _).0 e))
partial_mono (suc n) b c [] ys h e = cc
partial_mono (suc n) b c (x ∷ xs) [] h e = cc
partial_mono (suc n) b c (x ∷ xs) (y ∷ ys) h e = partial_mono n b c xs ys h e

ltb_elim : (a b : ℕ) → ltb a b ≡ false → b ≤ a
ltb_elim a b h = ground arith

pub same_v6_mono :
    (xs ys : List ℕ) (p q : ℕ) → q ≤ p → same_v6 xs ys p ≡ true → same_v6 xs ys q ≡ true
unfolding same_v6
same_v6_mono xs ys p q h e =
    let full = full_mono (q / 16) (p / 16) xs ys (omega (arith, h)) (ground arith) in
    elim (Bool-cases (ltb (q / 16) (p / 16))) [
      | inl l ↦ ground (arith, full, l, partial-of_full (q / 16) (p / 16) (q % 16) xs ys)
      | inr l ↦
          let same : q / 16 ≡ p / 16 = omega (arith, h, ltb_elim (q / 16) (p / 16) l) in
          ground (
            arith,
            full,
            partial_mono (q / 16) (p % 16) (q % 16) xs ys (omega (arith, h, same)),
            ap (λ n. partial_segment_equal n (p % 16) xs ys) same,
          )
    ]

full_trans :
    (n : ℕ) (xs ys zs : List ℕ)
    → full_segments_equal n xs ys ≡ true
    → full_segments_equal n ys zs ≡ true
    → full_segments_equal n xs zs ≡ true
unfolding full_segments_equal
full_trans zero xs ys zs h k = refl
full_trans (suc n) [] ys zs h k = cc
full_trans (suc n) (x ∷ xs) [] zs h k = cc
full_trans (suc n) (x ∷ xs) (y ∷ ys) [] h k = cc
full_trans (suc n) (x ∷ xs) (y ∷ ys) (z ∷ zs) h k = ground (arith, full_trans n xs ys zs)

partial_trans :
    (n b : ℕ) (xs ys zs : List ℕ)
    → partial_segment_equal n b xs ys ≡ true
    → partial_segment_equal n b ys zs ≡ true
    → partial_segment_equal n b xs zs ≡ true
unfolding partial_segment_equal
partial_trans zero b [] ys zs h k = cc
partial_trans zero b (x ∷ xs) [] zs h k = cc
partial_trans zero b (x ∷ xs) (y ∷ ys) [] h k = cc
partial_trans zero b (x ∷ xs) (y ∷ ys) (z ∷ zs) h k =
    (==_iff _ _).1 ((==_iff _ _).0 h ∙ (==_iff _ _).0 k)
partial_trans (suc n) b [] ys zs h k = cc
partial_trans (suc n) b (x ∷ xs) [] zs h k = cc
partial_trans (suc n) b (x ∷ xs) (y ∷ ys) [] h k = cc
partial_trans (suc n) b (x ∷ xs) (y ∷ ys) (z ∷ zs) h k = partial_trans n b xs ys zs h k

pub same_v6_trans :
    (xs ys zs : List ℕ) (p : ℕ)
    → same_v6 xs ys p ≡ true
    → same_v6 ys zs p ≡ true
    → same_v6 xs zs p ≡ true
unfolding same_v6
same_v6_trans xs ys zs p h k =
    ground (arith, full_trans (p / 16) xs ys zs, partial_trans (p / 16) (p % 16) xs ys zs)
