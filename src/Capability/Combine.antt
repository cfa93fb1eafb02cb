-- ===== src/Capability/Combine.antt =====
-- lion/lion_capability/src/attenuation/combine.rs: `CombineCapability`, over the capabilities of a
-- trait. `of_combine` boxes a combination, which some operations put inside another.
pub mod Strategies
use liongate.Base.{
  Bool, true, false, not, ◌&&◌, ◌||◌, Option, none, some, List, [], ◌∷◌, ◌++◌, any, all, is_empty,
  map, filter_map, Result, ok, err, ◌>>=◌, is_some, if◌then◌else◌,
}
use liongate.Base.Text.{Text, text_eq, codes}
use liongate.Capability.{
  CapabilityError, access_denied, invalid_constraint, Constraint, AccessRequest, file, network,
  memory, plugin_call_request, message, custom_request,
}
use liongate.Capability.Filter.{fallback, file_type}
use liongate.Capability.Trait.{Trait, Operand, same_kind, other_kind}

pub data CombineStrategy : Type 0 where
  all_of any_of : CombineStrategy

pub record CombineCapability (C : Type 0) : Type 0 where
  pub capabilities : List C
  pub strategy : CombineStrategy

-- The type of capability that a request is for.
unfoldable pub request_type : AccessRequest → Text
request_type (file _ _ _ _) = file_type
request_type (network _ _ _ _ _) = codes "network"
request_type (memory _ _ _ _) = codes "memory"
request_type (plugin_call_request _ _) = codes "plugin_call"
request_type (message _ _) = codes "message"
request_type (custom_request _ _) = codes "custom"

-- The capability that a successful result holds.
abbrev pub to_option : {A : Type 0} → Result CapabilityError A → Option A
to_option (ok a) = some a
to_option (err _) = none

abbrev pub combine : {C : Type 0} → List C → CombineStrategy → CombineCapability C
combine capabilities strategy = record { capabilities = capabilities; strategy = strategy }

module _ {C : Type 0} (t : Trait C) where
  -- The loop of `permits` for all: the capabilities of the request's type permit it. The flag is
  -- whether there was one.
  pub permits_relevant : Bool → AccessRequest → List C → Result CapabilityError (Unit {0})
  permits_relevant has_relevant request [] = if has_relevant then ok tt else err access_denied
  permits_relevant has_relevant request (c ∷ cs) =
      elim (text_eq (t.capability_type c) (request_type request)) [
        | true ↦ t.permits c request >>= λ _. permits_relevant true request cs
        | false ↦ permits_relevant has_relevant request cs
      ]

  -- The loop of `permits` for any, with the last error.
  pub permits_any :
      Option CapabilityError → AccessRequest → List C → Result CapabilityError (Unit {0})
  permits_any (some e) request [] = err e
  permits_any none request [] = err access_denied
  permits_any last_error request (c ∷ cs) = elim (t.permits c request) [
    | ok _ ↦ ok tt
    | err e ↦ permits_any (some e) request cs
  ]

  pub permits : CombineCapability C → AccessRequest → Result CapabilityError (Unit {0})
  permits c request = elim c.strategy [
    | all_of ↦ permits_relevant false request c.capabilities
    | any_of ↦ permits_any none request c.capabilities
  ]

  -- The loop of `constrain`, with the capabilities that could be constrained.
  pub constrain_each : CombineStrategy → List Constraint → List C → Result CapabilityError (List C)
  constrain_each strategy ks [] = ok []
  constrain_each strategy ks (c ∷ cs) = elim (t.constrain c ks) [
    | ok constrained ↦ constrain_each strategy ks cs >>= λ rest. ok (constrained ∷ rest)
    | err e ↦ elim strategy [ any_of ↦ constrain_each strategy ks cs | all_of ↦ err e ]
  ]

  pub constrain :
      CombineCapability C → List Constraint → Result CapabilityError (CombineCapability C)
  constrain c ks = constrain_each c.strategy ks c.capabilities >>= λ constrained.
      if is_empty constrained then err invalid_constraint else ok (combine constrained c.strategy)

  -- Every capability of the first list is below one of the second.
  pub each_below : List C → List C → Bool
  each_below cs ds = all (λ c. any (t.leq c) ds) cs

  pub leq : CombineCapability C → Operand (CombineCapability C) C → Bool
  leq c (same_kind d) = elim c.strategy [
    | all_of ↦ elim d.strategy [
      | all_of ↦ each_below c.capabilities d.capabilities
      | any_of ↦ false
    ]
    | any_of ↦ elim d.strategy [
      | any_of ↦ each_below c.capabilities d.capabilities
      | all_of ↦ any (λ a. all (t.leq a) d.capabilities) c.capabilities
    ]
  ]
  leq c (other_kind d) = elim c.strategy [
    | all_of ↦ all (λ a. t.leq a d) c.capabilities
    | any_of ↦ any (λ a. t.leq a d) c.capabilities
  ]

  -- The meet of two capabilities in a pair of combinations for any: where it fails for two file
  -- capabilities, one that reads "/tmp/file.txt" stands in.
  pub pair_meet : C → C → Option C
  pair_meet c d = elim (t.meet c d) [
    | ok m ↦ some m
    | err _ ↦
        if text_eq (t.capability_type c) file_type
          && text_eq (t.capability_type d) file_type
          && is_some (t.as_file c)
          && is_some (t.as_file d)
        then some (t.of_file fallback)
        else none
  ]

  pub pairwise_meets : List C → List C → List C
  pairwise_meets [] ds = []
  pairwise_meets (c ∷ cs) ds = filter_map (pair_meet c) ds ++ pairwise_meets cs ds

  -- The meets of one capability with each of a list that succeed.
  pub meets_with : C → List C → List C
  meets_with c ds = filter_map (λ d. to_option (t.meet c d)) ds

  module _ (of_combine : CombineCapability C → C) where
    pub split : CombineCapability C → List C
    split c = elim c.strategy [ all_of ↦ of_combine c ∷ [] | any_of ↦ c.capabilities ]

    pub join :
        CombineCapability C
        → Operand (CombineCapability C) C
        → Result CapabilityError (CombineCapability C)
    join c (same_kind d) = elim c.strategy [
      | all_of ↦ elim d.strategy [
        | all_of ↦ ok (combine (c.capabilities ++ d.capabilities) all_of)
        | any_of ↦ ok (combine (of_combine c ∷ of_combine d ∷ []) any_of)
      ]
      | any_of ↦ elim d.strategy [
        | any_of ↦ ok (combine (c.capabilities ++ d.capabilities) any_of)
        | all_of ↦ ok (combine (of_combine c ∷ of_combine d ∷ []) any_of)
      ]
    ]
    join c (other_kind d) = ok (combine (c.capabilities ++ (d ∷ [])) c.strategy)

    -- The meets of each capability for any with those for all, as combinations for all.
    pub mixed_meets : List C → List C → List C
    mixed_meets all_caps [] = []
    mixed_meets all_caps (any_cap ∷ any_caps) =
        let any_meets = meets_with any_cap all_caps in
        let rest = mixed_meets all_caps any_caps in
        if is_empty any_meets then rest else of_combine (combine any_meets all_of) ∷ rest

    pub meet :
        CombineCapability C
        → Operand (CombineCapability C) C
        → Result CapabilityError (CombineCapability C)
    meet c (same_kind d) = elim c.strategy [
      | all_of ↦ elim d.strategy [
        | all_of ↦ ok (combine (c.capabilities ++ d.capabilities) all_of)
        | any_of ↦ ok (combine (mixed_meets c.capabilities d.capabilities) any_of)
      ]
      | any_of ↦ elim d.strategy [
        | any_of ↦ ok (combine (pairwise_meets c.capabilities d.capabilities) any_of)
        | all_of ↦ ok (combine (mixed_meets d.capabilities c.capabilities) any_of)
      ]
    ]
    meet c (other_kind d) =
        ok (combine (filter_map (λ a. to_option (t.meet a d)) c.capabilities) c.strategy)
