-- ===== src/Capability/Set.antt =====
-- lion/lion_capability/src/check/aggregator.rs: capabilities grouped by type, and their merging, over
-- the capabilities of a trait.
use liongate.Base.{
  ℕ, ◌+◌, Bool, not, ◌||◌, none, some, List, [], ◌∷◌, ◌++◌, all, is_empty, Result, ok, err, ◌>>=◌,
  length, if◌then◌else◌, ◌==◌,
}
use liongate.Base.Eq.{text_Eq}
use liongate.Base.HashMap
use liongate.Base.HashMap.{HashMap}
use liongate.Base.Text.{Text, text_eq}
use liongate.Capability.{CapabilityError, incompatible_types, invalid_state}
use liongate.Capability.Trait.{Trait}

pub record CapabilitySet (C : Type 0) : Type 0 where
  pub capabilities : HashMap Text (List C)

abbrev pub set : {C : Type 0} → HashMap Text (List C) → CapabilitySet C
set capabilities = record { capabilities = capabilities }

pub total_length : {C : Type 0} → List (List C) → ℕ
total_length [] = 0
total_length (cs ∷ css) = length cs + total_length css

pub len : {C : Type 0} → CapabilitySet C → ℕ
len s = total_length (HashMap.values s.capabilities)

pub has_none : {C : Type 0} → CapabilitySet C → Bool
has_none s = is_empty s.capabilities || len s == 0

module _ {C : Type 0} (t : Trait C) where
  pub list_of : Text → HashMap Text (List C) → List C
  list_of type m = elim (HashMap.get type m) [ some cs ↦ cs | none ↦ [] ]

  pub add_capability : C → CapabilitySet C → CapabilitySet C
  add_capability c s =
      let type = t.capability_type c in
      set (HashMap.insert type (list_of type s.capabilities ++ (c ∷ [])) s.capabilities)

  -- The loop of joins.
  pub join_all : C → List C → Result CapabilityError C
  join_all result [] = ok result
  join_all result (c ∷ cs) = t.join result c >>= λ joined. join_all joined cs

  pub merge_capabilities_by_type : List C → Result CapabilityError C
  merge_capabilities_by_type [] = err invalid_state
  merge_capabilities_by_type (c ∷ []) = ok c
  merge_capabilities_by_type (c ∷ d ∷ cs) =
      if not (all (λ x. text_eq (t.capability_type x) (t.capability_type c)) (d ∷ cs))
      then err incompatible_types
      else join_all c (d ∷ cs)

  -- The loop of `merge_by_type`.
  pub merge_lists : List (List C) → CapabilitySet C → Result CapabilityError (CapabilitySet C)
  merge_lists [] result = ok result
  merge_lists ([] ∷ css) result = merge_lists css result
  merge_lists (cs ∷ css) result =
      merge_capabilities_by_type cs >>= λ merged. merge_lists css (add_capability merged result)

  pub merge_by_type : CapabilitySet C → Result CapabilityError (CapabilitySet C)
  merge_by_type s = merge_lists (HashMap.values s.capabilities) (set [])
