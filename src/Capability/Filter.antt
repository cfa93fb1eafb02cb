-- ===== src/Capability/Filter.antt =====
-- lion/lion_capability/src/attenuation/filter.rs: `FilterCapability`, a capability with a predicate
-- on requests, over the capabilities of a trait. Whether two filters are the same function, which
-- `Arc::ptr_eq` tells, is an argument of `leq`.
pub mod Meet
use liongate.Base.{
  Bool, true, false, not, ◌&&◌, ◌||◌, Option, none, some, List, [], ◌∷◌, map, Result, ok, err,
  ◌>>=◌, if◌then◌else◌,
}
use liongate.Base.Text.{Text, text_eq, codes}
use liongate.Base.TextSet
use liongate.Capability.{CapabilityError, access_denied, Constraint, AccessRequest}
use liongate.Capability.File.{FileCapability, intersection}
use liongate.Capability.Trait.{Trait, Operand, same_kind, other_kind, join_descriptions}

pub record FilterCapability (C : Type 0) : Type 0 where
  pub inner : C
  pub filter : AccessRequest → Bool
  pub description : Option Text

abbrev pub new : {C : Type 0} → C → (AccessRequest → Bool) → FilterCapability C
new inner filter = record { inner = inner; filter = filter; description = none }

-- The same filter around another capability.
abbrev pub around : {C : Type 0} → FilterCapability C → C → FilterCapability C
around f inner = record { inner = inner; filter = f.filter; description = f.description }

abbrev pub file_type : Text
file_type = codes "file"

abbrev pub tmp_file : Text
tmp_file = codes "/tmp/file.txt"

-- The file capability that stands in for a meet that fails.
abbrev pub fallback : FileCapability
fallback = record {
  paths = tmp_file ∷ [];
  operations = record { read = true; write = false; execute = false };
}

-- The meet of two file capabilities, as `meet` of a filter makes it.
pub file_meet : FileCapability → FileCapability → FileCapability
file_meet a b = record {
  paths = TextSet.insert (TextSet.intersection a.paths b.paths) tmp_file;
  operations = intersection a.operations b.operations;
}

module _ {C : Type 0} (t : Trait C) where
  pub permits : FilterCapability C → AccessRequest → Result CapabilityError (Unit {0})
  permits f request =
      if not (f.filter request) then err access_denied else t.permits f.inner request

  pub constrain : FilterCapability C → List Constraint → Result CapabilityError (FilterCapability C)
  constrain f ks = t.constrain f.inner ks >>= λ inner. ok (around f inner)

  pub split : FilterCapability C → List (FilterCapability C)
  split f = map (around f) (t.split f.inner)

  pub join :
      FilterCapability C
      → Operand (FilterCapability C) C
      → Result CapabilityError (FilterCapability C)
  join f (same_kind g) = t.join f.inner g.inner >>= λ inner. ok (record {
    inner = inner;
    filter = λ request. f.filter request || g.filter request;
    description = join_descriptions (codes " OR ") f.description g.description;
  })
  join f (other_kind c) = t.join f.inner c >>= λ inner. ok (around f inner)

  pub leq : FilterCapability C → Bool → Operand (FilterCapability C) C → Bool
  leq f same_filter (same_kind g) = if not (t.leq f.inner g.inner) then false else same_filter
  leq f same_filter (other_kind c) = t.leq f.inner c

  -- The file capability of the other side, by itself or in a filter.
  unfoldable pub other_file : Operand (FilterCapability C) C → Option FileCapability
  other_file (same_kind g) = t.as_file g.inner
  other_file (other_kind c) = t.as_file c

  -- The pair of file capabilities that the first part of `meet` is about.
  unfoldable pub file_pair :
      FilterCapability C → Operand (FilterCapability C) C → Option (FileCapability × FileCapability)
  file_pair f other =
      if text_eq (t.capability_type f.inner) file_type
      then (elim (t.as_file f.inner) [
        | some a ↦ elim (other_file other) [ some b ↦ some (a, b) | none ↦ none ]
        | none ↦ none
      ])
      else none

  -- The rest of `meet`, where there is no such pair.
  pub general_meet :
      FilterCapability C
      → Operand (FilterCapability C) C
      → Result CapabilityError (FilterCapability C)
  general_meet f (same_kind g) =
      let inner : C = elim (t.meet f.inner g.inner) [
        | ok c ↦ c
        | err _ ↦
            if text_eq (t.capability_type f.inner) file_type then t.of_file fallback else f.inner
      ] in
      ok (record {
        inner = inner;
        filter = λ request. f.filter request && g.filter request;
        description = join_descriptions (codes " AND ") f.description g.description;
      })
  general_meet f (other_kind c) = elim (t.meet f.inner c) [
    | ok inner ↦ ok (around f inner)
    | err e ↦
        if text_eq (t.capability_type f.inner) file_type
        then ok (around f (t.of_file fallback))
        else err e
  ]

  pub meet :
      FilterCapability C
      → Operand (FilterCapability C) C
      → Result CapabilityError (FilterCapability C)
  meet f other = elim (file_pair f other) [
    | some (a, b) ↦ ok (around f (t.of_file (file_meet a b)))
    | none ↦ general_meet f other
  ]
