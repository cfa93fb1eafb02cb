-- ===== src/Capability/Composite/Groups.antt =====
-- `constrain` on a composite constrains each capability by the constraints of its type.
use liongate.Base.{
  not, Option, none, some, List, [], ◌∷◌, ◌++◌, filter, Result, ok, err, ◌>>=◌, if◌then◌else◌,
  is_some, ◌||◌, ◌≡◌, refl, sym, ap, ◌∙◌, arith, inl, inr, Option-cases, Bool-cases, bind-eq-ok,
  ok_injective, is_empty,
}
use mathlib.Core.List.{append-nil, append_assoc}
use liongate.Base.Eq.{text_Eq}
use liongate.Base.HashMap
use liongate.Base.HashMap.{HashMap, get-insert, IsUnique, insert-IsUnique}
use liongate.Base.Text.{Text, text_eq, text_eq_iff}
use liongate.Capability.{CapabilityError, invalid_constraint, Constraint}
use liongate.Capability.Trait.{Trait}
use liongate.Capability.Composite.{
  CompositeCapability, composite, type_of_constraint, group_of, group_constraints, get_capability,
  constrain_groups, constrain,
}

-- The constraints of a type, in their order.
abbrev pub of_type : Text → List Constraint → List Constraint
of_type type ks = filter (λ k. text_eq (type_of_constraint k) type) ks

group_of-insert :
    (type found : Text) (more : List Constraint) (groups : HashMap Text (List Constraint))
    → group_of type (HashMap.insert found more groups)
      ≡ (if text_eq found type then more else group_of type groups)
unfolding group_of
group_of-insert type found more groups = ground (arith, get-insert type found more groups)

group_step :
    (type found : Text) (groups : HashMap Text (List Constraint)) (k : Constraint)
    (rest : List Constraint)
    → group_of type (HashMap.insert found (group_of found groups ++ (k ∷ [])) groups) ++ rest
      ≡ group_of type groups ++ (if text_eq found type then k ∷ rest else rest)
group_step type found groups k rest =
    let inserted = group_of-insert type found (group_of found groups ++ (k ∷ [])) groups in
    elim (Bool-cases (text_eq found type)) [
      | inl same ↦
          rw (inserted, same, (text_eq_iff found type).0 same)
            (append_assoc (group_of type groups) (k ∷ []) rest)
      | inr other ↦ rw (inserted, other) refl
    ]

group-constraints :
    (type : Text) (groups : HashMap Text (List Constraint)) (ks : List Constraint)
    → group_of type (group_constraints groups ks) ≡ group_of type groups ++ of_type type ks
unfolding group_constraints
group-constraints type groups [] = sym (append-nil (group_of type groups))
group-constraints type groups (k ∷ ks) =
    let found = type_of_constraint k in
    group-constraints type (HashMap.insert found (group_of found groups ++ (k ∷ [])) groups) ks
    ∙ group_step type found groups k (of_type type ks)

group-is_some :
    (type : Text) (groups : HashMap Text (List Constraint)) (ks : List Constraint)
    → is_some (HashMap.get type (group_constraints groups ks))
      ≡ (is_some (HashMap.get type groups) || not (is_empty (of_type type ks)))
unfolding group_constraints
group-is_some type groups [] = ground arith
group-is_some type groups (k ∷ ks) =
    let found = type_of_constraint k in
    let more = group_of found groups ++ (k ∷ []) in
    ground (
      arith,
      group-is_some type (HashMap.insert found more groups) ks,
      get-insert type found more groups,
    )

group-IsUnique :
    (groups : HashMap Text (List Constraint)) (ks : List Constraint)
    → IsUnique groups
    → IsUnique (group_constraints groups ks)
unfolding group_constraints
group-IsUnique groups [] u = u
group-IsUnique groups (k ∷ ks) u =
    let type = type_of_constraint k in
    group-IsUnique (HashMap.insert type (group_of type groups ++ (k ∷ [])) groups) ks
      (insert-IsUnique type (group_of type groups ++ (k ∷ [])) groups u)

-- What a capability of a type becomes under the constraints of its group.
abbrev pub constrained :
    {C : Type 0} → Trait C → Option C → List Constraint → Result CapabilityError (Option C)
constrained t (some capability) ks = t.constrain capability ks >>= λ d. ok (some d)
constrained t none ks = err invalid_constraint

module _ {C : Type 0} (t : Trait C) where
  by_group :
      (type : Text) (ks : List Constraint) (c : CompositeCapability C)
      → (elim (HashMap.get type (group_constraints [] ks)) [
        | some group ↦ constrained t (get_capability type c) group
        | none ↦ ok (get_capability type c)
      ])
        ≡ (if is_empty (of_type type ks)
            then ok (get_capability type c)
            else constrained t (get_capability type c) (of_type type ks))
  unfolding group_of HashMap.get
  by_group type ks c = elim (Option-cases (HashMap.get type (group_constraints [] ks))) [
    | inl e ↦ ground (arith, e, group-is_some type [] ks)
    | inr (group, e) ↦ ground (
      arith,
      e,
      group-is_some type [] ks,
      group-constraints type [] ks,
      ap (constrained t (get_capability type c)) {x = group} {y = of_type type ks},
    )
  ]

  groups-exact :
      (c r d : CompositeCapability C) (groups : HashMap Text (List Constraint))
      → IsUnique groups
      → constrain_groups t c groups r ≡ ok d
      → (type : Text)
      → ◌≡◌ {A = Result CapabilityError (Option C)}
          (ok (get_capability type d))
          (elim (HashMap.get type groups) [
            | some ks ↦ constrained t (get_capability type c) ks
            | none ↦ ok (get_capability type r)
          ])
  unfolding constrain_groups get_capability HashMap.get
  groups-exact c r d [] u h type = ap (λ x. ok (get_capability type x)) (sym (ok_injective h))
  groups-exact c r d ((found, ks) ∷ groups) u h type =
      elim (Option-cases (get_capability found c)) [
        | inl e ↦ absurd (ground (arith, h, e))
        | inr (a, e) ↦
            let (b, first, rest) =
              bind-eq-ok (t.constrain a ks)
                (λ x.
                  constrain_groups t c groups (composite (HashMap.insert found x r.capabilities)))
                (rw (constrain_groups, get_capability, e) at h) in
            ground (
              arith,
              e,
              first,
              u.0,
              text_eq_iff found type,
              ap (λ k. HashMap.get k groups) {x = found} {y = type},
              ap (λ k. get_capability k c) {x = found} {y = type},
              get-insert type found b r.capabilities,
              groups-exact c (composite (HashMap.insert found b r.capabilities)) d groups u.1 rest
                  type,
            )
      ]

  -- If a composite is constrained, each of its capabilities becomes what the constraints of its
  -- type, in their order, make of it, and one without such constraints stays as it is.
  pub composite_constrain_exact :
      (c d : CompositeCapability C) (ks : List Constraint)
      → constrain t c ks ≡ ok d
      → (type : Text)
      → ◌≡◌ {A = Result CapabilityError (Option C)} (ok (get_capability type d)) (
          if is_empty (of_type type ks)
          then ok (get_capability type c)
          else constrained t (get_capability type c) (of_type type ks))
  unfolding constrain
  composite_constrain_exact c d ks h type =
      let groups = group_constraints [] ks in
      groups-exact c c d groups (group-IsUnique [] ks tt) h type ∙ by_group type ks c
