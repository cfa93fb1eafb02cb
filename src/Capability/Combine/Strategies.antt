-- ===== src/Capability/Combine/Strategies.antt =====
-- What combinations permit, and what their joins and meets by the same strategy permit.
use liongate.Base.{
  Bool, true, false, ◌&&◌, ◌||◌, Option, none, some, List, [], ◌∷◌, ◌++◌, any, all, is_ok,
  is_ok_and, ◌≡◌, refl, arith, implies, inl, inr, Result-cases,
}
use liongate.Base.Text.{text_eq}
use liongate.Capability.{CapabilityError, AccessRequest}
use liongate.Capability.Trait.{Trait, same_kind}
use liongate.Capability.Combine.{
  CombineCapability, all_of, any_of, request_type, combine, permits_relevant, permits_any, permits,
  join, meet,
}

module _ {C : Type 0} (t : Trait C) where
  abbrev pub is_relevant : AccessRequest → C → Bool
  is_relevant r c = text_eq (t.capability_type c) (request_type r)

  abbrev pub grants : AccessRequest → C → Bool
  grants r c = is_ok (t.permits c r)

  permits_relevant-is_ok :
      (has : Bool) (r : AccessRequest) (cs : List C)
      → is_ok (permits_relevant t has r cs)
        ≡ ((has || any (is_relevant r) cs) && all (λ c. implies (is_relevant r c) (grants r c)) cs)
  unfolding permits_relevant
  permits_relevant-is_ok has r [] = ground arith
  permits_relevant-is_ok has r (c ∷ cs) =
      ground (arith, permits_relevant-is_ok true r cs, permits_relevant-is_ok has r cs)

  permits_any-is_ok :
      (last : Option CapabilityError) (r : AccessRequest) (cs : List C)
      → is_ok (permits_any t last r cs) ≡ any (grants r) cs
  unfolding permits_any
  permits_any-is_ok none r [] = refl
  permits_any-is_ok (some e) r [] = refl
  permits_any-is_ok last r (c ∷ cs) = elim (Result-cases (t.permits c r)) [
    | inl (u, e) ↦ ground (arith, e)
    | inr (x, e) ↦ ground (arith, e, permits_any-is_ok (some x) r cs)
  ]

  any-append : (p : C → Bool) (cs ds : List C) → any p (cs ++ ds) ≡ (any p cs || any p ds)
  any-append p [] ds = refl
  any-append p (c ∷ cs) ds = ground (arith, any-append p cs ds)

  all-append : (p : C → Bool) (cs ds : List C) → all p (cs ++ ds) ≡ (all p cs && all p ds)
  all-append p [] ds = refl
  all-append p (c ∷ cs) ds = ground (arith, all-append p cs ds)

  -- A combination for all grants a request exactly when one of its capabilities has the request's
  -- type and each that has it grants the request; one for any, when one of its capabilities grants
  -- it.
  pub combine_permits_exact :
      (cs : List C) (r : AccessRequest)
      → (is_ok (permits t (combine cs all_of) r)
          ≡ (any (is_relevant r) cs && all (λ c. implies (is_relevant r c) (grants r c)) cs))
        × (is_ok (permits t (combine cs any_of) r) ≡ any (grants r) cs)
  unfolding permits
  combine_permits_exact cs r = (permits_relevant-is_ok false r cs, permits_any-is_ok none r cs)

  all-irrelevant :
      (r : AccessRequest) (cs : List C)
      → any (is_relevant r) cs ≡ false
      → all (λ c. implies (is_relevant r c) (grants r c)) cs ≡ true
  all-irrelevant r [] h = refl
  all-irrelevant r (c ∷ cs) h = ground (arith, h, all-irrelevant r cs)

  -- The join of two combinations for any grants exactly what one of them grants. The join of two
  -- combinations for all is their meet: it grants a request exactly when one of them has a capability
  -- of the request's type, and each that has one grants the request.
  pub combine_join_exact :
      (of_combine : CombineCapability C → C) (cs ds : List C) (r : AccessRequest)
      → (is_ok_and
            (λ j. is_ok (permits t j r))
            (join t of_combine (combine cs any_of) (same_kind (combine ds any_of)))
          ≡ (is_ok (permits t (combine cs any_of) r) || is_ok (permits t (combine ds any_of) r)))
        × (is_ok_and
              (λ j. is_ok (permits t j r))
              (join t of_combine (combine cs all_of) (same_kind (combine ds all_of)))
            ≡ ((any (is_relevant r) cs || any (is_relevant r) ds)
                && implies (any (is_relevant r) cs) (is_ok (permits t (combine cs all_of) r))
                && implies (any (is_relevant r) ds) (is_ok (permits t (combine ds all_of) r))))
        × (join t of_combine (combine cs all_of) (same_kind (combine ds all_of))
            ≡ meet t of_combine (combine cs all_of) (same_kind (combine ds all_of)))
  unfolding join meet permits
  combine_join_exact of_combine cs ds r =
      let needs : C → Bool = λ c. implies (is_relevant r c) (grants r c) in
      (
        ground (
          arith,
          permits_any-is_ok none r (cs ++ ds),
          permits_any-is_ok none r cs,
          permits_any-is_ok none r ds,
          any-append (grants r) cs ds,
        ),
        ground (
          arith,
          permits_relevant-is_ok false r (cs ++ ds),
          permits_relevant-is_ok false r cs,
          permits_relevant-is_ok false r ds,
          any-append (is_relevant r) cs ds,
          all-append needs cs ds,
          all-irrelevant r cs,
          all-irrelevant r ds,
        ),
        refl,
      )
