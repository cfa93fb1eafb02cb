-- ===== src/Capability/HostRule/Suffix.antt =====
-- `str::ends_with` as composition of texts.
use mathlib.Core.Option.{some-injective}
use liongate.Base.{
  true, [], ◌∷◌, ◌++◌, ◌≡◌, refl, sym, ap, ◌∙◌, inl, inr, arith, Bool-cases, Option-cases, some,
}
use liongate.Base.Text.{Text, text_eq, text_eq_sound, strip_suffix, strip_suffix-append}
use liongate.Capability.HostRule.{ends_with}

-- What comes off with a suffix, put before it again.
strip_suffix-eq_some : (xs suffix r : Text) → strip_suffix suffix xs ≡ some r → xs ≡ r ++ suffix
unfolding strip_suffix
strip_suffix-eq_some [] suffix r h = elim (Bool-cases (text_eq [] suffix)) [
  | inl e ↦ text_eq_sound [] suffix e ∙ ap (λ t. t ++ suffix) (some-injective [] r (rw e at h))
  | inr e ↦ absurd (ground (arith, e, h))
]
strip_suffix-eq_some (x ∷ xs) suffix r h = elim (Bool-cases (text_eq (x ∷ xs) suffix)) [
  | inl e ↦
      text_eq_sound (x ∷ xs) suffix e ∙ ap (λ t. t ++ suffix) (some-injective [] r (rw e at h))
  | inr e ↦ elim (Option-cases (strip_suffix suffix xs)) [
    | inl n ↦ absurd (ground (arith, e, h, n))
    | inr (q, n) ↦
        ap (λ t. x ∷ t) (strip_suffix-eq_some xs suffix q n)
        ∙ ap (λ t. t ++ suffix) (some-injective (x ∷ q) r (rw (e, n) at h))
  ]
]

ends_with_elim :
    (text suffix : Text) → ends_with text suffix ≡ true → (r : Text) × (text ≡ r ++ suffix)
ends_with_elim text suffix h = elim (Option-cases (strip_suffix suffix text)) [
  | inl n ↦ absurd (ground (arith, n, h))
  | inr (r, n) ↦ (r, strip_suffix-eq_some text suffix r n)
]

ends_with-append : (r suffix : Text) → ends_with (r ++ suffix) suffix ≡ true
ends_with-append r suffix = rw (strip_suffix-append r suffix)

append_assoc : (a b c : Text) → (a ++ b) ++ c ≡ a ++ (b ++ c)
append_assoc [] b c = refl
append_assoc (x ∷ a) b c = ap (λ t. x ∷ t) (append_assoc a b c)

pub ends_with_trans :
    (a b c : Text) → ends_with a b ≡ true → ends_with b c ≡ true → ends_with a c ≡ true
ends_with_trans a b c h k =
    let (r, e) = ends_with_elim a b h in
    let (q, f) = ends_with_elim b c k in
    rw (e ∙ ap (λ t. r ++ t) f ∙ sym (append_assoc r q c)) (ends_with-append (r ++ q) c)
