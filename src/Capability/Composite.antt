-- ===== src/Capability/Composite.antt =====
-- lion/lion_capability/src/model/composite.rs: `CompositeCapability`, one capability for each type,
-- over the capabilities of a trait.
pub mod Groups
use liongate.Base.{
  ℕ, Bool, true, false, not, Option, none, some, List, [], ◌∷◌, ◌++◌, map, all, Result, ok, err,
  ◌>>=◌, is_empty, if◌then◌else◌, length, ◌==◌,
}
use liongate.Base.Eq.{text_Eq}
use liongate.Base.HashMap
use liongate.Base.HashMap.{HashMap}
use liongate.Base.Text.{Text, codes}
use liongate.Capability.{
  CapabilityError, access_denied, invalid_constraint, incompatible_types, invalid_state, Constraint,
  file_path, file_operation, network_host, network_port, network_operation, memory_range,
  plugin_call, message_topic, custom, AccessRequest, file, network, memory, plugin_call_request,
  message, custom_request,
}
use liongate.Capability.Trait.{Trait, Operand, same_kind, other_kind}

pub record CompositeCapability (C : Type 0) : Type 0 where
  pub capabilities : HashMap Text C

abbrev pub composite : {C : Type 0} → HashMap Text C → CompositeCapability C
composite capabilities = record { capabilities = capabilities }

-- The type under which `find_capability_for_request` looks.
pub type_of_request : AccessRequest → Text
type_of_request (file _ _ _ _) = codes "file"
type_of_request (network _ _ _ _ _) = codes "network"
type_of_request (memory _ _ _ _) = codes "memory"
type_of_request (plugin_call_request _ _) = codes "plugin_call"
type_of_request (message _ _) = codes "message"
type_of_request (custom_request request_type _) = request_type

-- The type that a constraint is for.
unfoldable pub type_of_constraint : Constraint → Text
type_of_constraint (file_path _) = codes "file"
type_of_constraint (file_operation _ _ _) = codes "file"
type_of_constraint (network_host _) = codes "network"
type_of_constraint (network_port _) = codes "network"
type_of_constraint (network_operation _ _ _) = codes "network"
type_of_constraint (memory_range _ _ _ _) = codes "memory"
type_of_constraint (plugin_call _ _) = codes "plugin_call"
type_of_constraint (message_topic _) = codes "message"
type_of_constraint (custom constraint_type _) = constraint_type

-- `entry(...).or_default()`, as the value that is then there.
unfoldable pub group_of : Text → HashMap Text (List Constraint) → List Constraint
group_of type groups = elim (HashMap.get type groups) [ some ks ↦ ks | none ↦ [] ]

-- The first loop of `constrain`.
unfoldable pub group_constraints :
    HashMap Text (List Constraint) → List Constraint → HashMap Text (List Constraint)
group_constraints groups [] = groups
group_constraints groups (k ∷ ks) =
    let type = type_of_constraint k in
    group_constraints (HashMap.insert type (group_of type groups ++ (k ∷ [])) groups) ks

module _ {C : Type 0} where
  unfoldable pub get_capability : Text → CompositeCapability C → Option C
  get_capability type c = HashMap.get type c.capabilities

  pub remove_capability : Text → CompositeCapability C → CompositeCapability C
  remove_capability type c = composite (HashMap.remove type c.capabilities)

module _ {C : Type 0} (t : Trait C) where
  pub add_capability : C → CompositeCapability C → CompositeCapability C
  add_capability capability c =
      composite (HashMap.insert (t.capability_type capability) capability c.capabilities)

  -- The loop of `from_capabilities`.
  pub add_all : List C → CompositeCapability C → CompositeCapability C
  add_all [] c = c
  add_all (capability ∷ capabilities) c = add_all capabilities (add_capability capability c)

  pub from_capabilities : List C → CompositeCapability C
  from_capabilities capabilities = add_all capabilities (composite [])

  pub permits : CompositeCapability C → AccessRequest → Result CapabilityError (Unit {0})
  permits c request = elim (get_capability (type_of_request request) c) [
    | some capability ↦ t.permits capability request
    | none ↦ err access_denied
  ]

  -- The second loop of `constrain`: each group constrains the capability of its type.
  unfoldable pub constrain_groups :
      CompositeCapability C
      → HashMap Text (List Constraint)
      → CompositeCapability C
      → Result CapabilityError (CompositeCapability C)
  constrain_groups c [] result = ok result
  constrain_groups c ((type, ks) ∷ groups) result = elim (get_capability type c) [
    | some capability ↦ t.constrain capability ks >>= λ constrained.
        constrain_groups c groups (composite (HashMap.insert type constrained result.capabilities))
    | none ↦ err invalid_constraint
  ]

  unfoldable pub constrain :
      CompositeCapability C → List Constraint → Result CapabilityError (CompositeCapability C)
  constrain c ks = constrain_groups c (group_constraints [] ks) c

  pub split_values : List C → List (CompositeCapability C)
  split_values [] = []
  split_values (capability ∷ capabilities) =
      map (λ part. add_capability part (composite [])) (t.split capability)
      ++ split_values capabilities

  pub split : CompositeCapability C → List (CompositeCapability C)
  split c = split_values (HashMap.values c.capabilities)

  -- The join of the capability of a type with another, or the other alone.
  pub join_type : CompositeCapability C → Text → C → Result CapabilityError C
  join_type c type other = elim (get_capability type c) [
    | some capability ↦ t.join capability other
    | none ↦ ok other
  ]

  -- The loop of `join` over the capabilities of the other composite.
  pub join_each :
      CompositeCapability C
      → HashMap Text C
      → CompositeCapability C
      → Result CapabilityError (CompositeCapability C)
  join_each c [] result = ok result
  join_each c ((type, other) ∷ others) result = join_type c type other >>= λ joined.
      join_each c others (composite (HashMap.insert type joined result.capabilities))

  pub join :
      CompositeCapability C
      → Operand (CompositeCapability C) C
      → Result CapabilityError (CompositeCapability C)
  join c (same_kind d) = join_each c d.capabilities c
  join c (other_kind other) = join_each c ((t.capability_type other, other) ∷ []) c

  -- The loop of `leq`.
  pub each_leq : CompositeCapability C → HashMap Text C → Bool
  each_leq d [] = true
  each_leq d ((type, capability) ∷ capabilities) = elim (get_capability type d) [
    | some other ↦ if not (t.leq capability other) then false else each_leq d capabilities
    | none ↦ false
  ]

  pub leq : CompositeCapability C → Operand (CompositeCapability C) C → Bool
  leq c (same_kind d) = each_leq d c.capabilities
  leq c (other_kind other) =
      if not (length c.capabilities == 1)
      then false
      else (elim (get_capability (t.capability_type other) c) [
        | some capability ↦ t.leq capability other
        | none ↦ false
      ])

  -- The meet of the capabilities of a type, where both have one and it succeeds.
  pub meet_type : CompositeCapability C → CompositeCapability C → Text → Option C
  meet_type c d type = elim (get_capability type d) [
    | none ↦ none
    | some other ↦ elim (get_capability type c) [
      | none ↦ none
      | some capability ↦ elim (t.meet capability other) [ ok m ↦ some m | err _ ↦ none ]
    ]
  ]

  -- The loop of `meet`, with whether a capability was added.
  pub meet_each :
      CompositeCapability C
      → CompositeCapability C
      → List Text
      → CompositeCapability C
      → Bool
      → CompositeCapability C × Bool
  meet_each c d [] result has_capabilities = (result, has_capabilities)
  meet_each c d (type ∷ types) result has_capabilities = elim (meet_type c d type) [
    | some m ↦ meet_each c d types (add_capability m result) true
    | none ↦ meet_each c d types result has_capabilities
  ]

  pub meet :
      CompositeCapability C
      → Operand (CompositeCapability C) C
      → Result CapabilityError (CompositeCapability C)
  meet c (same_kind d) =
      let (result, has_capabilities) =
        meet_each c d (HashMap.keys c.capabilities) (composite []) false in
      if not has_capabilities then err invalid_state else ok result
  meet c (other_kind other) = elim (get_capability (t.capability_type other) c) [
    | some capability ↦ t.meet capability other >>= λ m. ok (add_capability m (composite []))
    | none ↦ err incompatible_types
  ]
