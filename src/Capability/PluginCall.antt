-- ===== src/Capability/PluginCall.antt =====
-- lion/lion_capability/src/model/plugin_call.rs: the capability to call functions of plugins.
-- A plugin id is a number; reading one from a text is `str::parse::<PluginId>`, the parameter
-- `parse_id`. The other capability of a binary operation is given as what
-- `as_any().downcast_ref::<PluginCallCapability>()` returns.
pub mod Calls
pub mod Meet
pub mod Join
mod Examples
use liongate.Base.{
  ℕ, Bool, true, false, not, ◌&&◌, ◌||◌, Option, none, some, List, [], ◌∷◌, ◌++◌, map, Result, ok,
  err, ◌>>=◌, all, is_empty, if◌then◌else◌, ◌==◌,
}
use liongate.Base.Eq.{nat_Eq, text_Eq}
use liongate.Base.HashMap
use liongate.Base.HashMap.{HashMap}
use liongate.Base.HashSet
use liongate.Base.Text.{Text}
use liongate.Capability.{
  CapabilityError, access_denied, invalid_constraint, incompatible_types, invalid_state, Constraint,
  plugin_call, AccessRequest, plugin_call_request,
}

pub record PluginCallCapability : Type 0 where
  pub plugin_functions : HashMap ℕ (List Text)
  pub allow_all_functions : HashMap ℕ Bool

abbrev pub new : PluginCallCapability
new = record { plugin_functions = []; allow_all_functions = [] }

pub with_plugin : ℕ → List Text → PluginCallCapability
with_plugin plugin_id functions = record {
  plugin_functions = (plugin_id, functions) ∷ [];
  allow_all_functions = (plugin_id, false) ∷ [];
}

pub all_functions : ℕ → PluginCallCapability
all_functions plugin_id = record {
  plugin_functions = (plugin_id, []) ∷ [];
  allow_all_functions = (plugin_id, true) ∷ [];
}

-- `entry(...).or_default()` and `entry(...).or_insert(false)`, as the value that is then there.
pub functions_of : ℕ → HashMap ℕ (List Text) → List Text
functions_of plugin_id m = elim (HashMap.get plugin_id m) [ some functions ↦ functions | none ↦ [] ]

-- `get(...).unwrap_or(&false)`.
pub allows_all : ℕ → HashMap ℕ Bool → Bool
allows_all plugin_id m = elim (HashMap.get plugin_id m) [ some allow ↦ allow | none ↦ false ]

pub add_function : ℕ → Text → PluginCallCapability → PluginCallCapability
add_function plugin_id function c = record {
  plugin_functions =
      HashMap.insert plugin_id (HashSet.insert function (functions_of plugin_id c.plugin_functions))
        c.plugin_functions;
  allow_all_functions =
      HashMap.insert plugin_id (allows_all plugin_id c.allow_all_functions) c.allow_all_functions;
}

pub set_allow_all_functions : ℕ → Bool → PluginCallCapability → PluginCallCapability
set_allow_all_functions plugin_id allow c = record {
  plugin_functions =
      HashMap.insert plugin_id (functions_of plugin_id c.plugin_functions) c.plugin_functions;
  allow_all_functions = HashMap.insert plugin_id allow c.allow_all_functions;
}

pub is_call_allowed : PluginCallCapability → ℕ → Text → Bool
is_call_allowed c plugin_id function = elim (HashMap.get plugin_id c.plugin_functions) [
  | some allowed_functions ↦
      if allows_all plugin_id c.allow_all_functions
      then true
      else HashSet.contains function allowed_functions
  | none ↦ false
]

pub split_functions : ℕ → List Text → List PluginCallCapability
split_functions plugin_id functions =
    map (λ function. add_function plugin_id function new) functions

-- The loop of `split` over the plugins.
pub split_plugins : HashMap ℕ Bool → HashMap ℕ (List Text) → List PluginCallCapability
split_plugins allow_all [] = []
split_plugins allow_all ((plugin_id, functions) ∷ m) =
    (if allows_all plugin_id allow_all
      then all_functions plugin_id ∷ []
      else split_functions plugin_id functions)
    ++ split_plugins allow_all m

pub split : PluginCallCapability → List PluginCallCapability
split c = split_plugins c.allow_all_functions c.plugin_functions

-- `entry.extend(...)`.
pub extend : List Text → List Text → List Text
extend s [] = s
extend s (function ∷ functions) = extend (HashSet.insert function s) functions

-- The loop of `join` over the functions of the other capability.
pub merge_functions : HashMap ℕ (List Text) → HashMap ℕ (List Text) → HashMap ℕ (List Text)
merge_functions m [] = m
merge_functions m ((plugin_id, functions) ∷ others) =
    merge_functions (HashMap.insert plugin_id (extend (functions_of plugin_id m) functions) m)
      others

-- The loop of `join` over the flags of the other capability.
pub merge_flags : HashMap ℕ Bool → HashMap ℕ Bool → HashMap ℕ Bool
merge_flags m [] = m
merge_flags m ((plugin_id, allow) ∷ others) =
    merge_flags (HashMap.insert plugin_id (allows_all plugin_id m || allow) m) others

pub join :
    PluginCallCapability → Option PluginCallCapability → Result CapabilityError PluginCallCapability
join c none = err incompatible_types
join c (some d) = ok (record {
  plugin_functions = merge_functions c.plugin_functions d.plugin_functions;
  allow_all_functions = merge_flags c.allow_all_functions d.allow_all_functions;
})

-- The loop body of `leq`.
pub plugin_leq : PluginCallCapability → PluginCallCapability → ℕ → Bool
plugin_leq c d plugin_id =
    if not (HashMap.contains_key plugin_id d.plugin_functions)
    then false
    else if allows_all plugin_id c.allow_all_functions
    then allows_all plugin_id d.allow_all_functions
    else if allows_all plugin_id d.allow_all_functions
    then true
    else all (λ function. HashSet.contains function (functions_of plugin_id d.plugin_functions))
        (functions_of plugin_id c.plugin_functions)

pub leq : PluginCallCapability → Option PluginCallCapability → Bool
leq c none = false
leq c (some d) = all (plugin_leq c d) (HashMap.keys c.plugin_functions)

-- The loops of `meet` that add functions to the result: those that pass the test.
pub add_functions : ℕ → (Text → Bool) → List Text → PluginCallCapability → PluginCallCapability
add_functions plugin_id keep [] result = result
add_functions plugin_id keep (function ∷ functions) result =
    add_functions plugin_id keep functions
      (if keep function then add_function plugin_id function result else result)

-- The loop body of `meet`.
pub meet_plugin :
    PluginCallCapability → PluginCallCapability → ℕ → PluginCallCapability → PluginCallCapability
meet_plugin c d plugin_id result =
    let self_functions = functions_of plugin_id c.plugin_functions in
    let other_functions = functions_of plugin_id d.plugin_functions in
    if not (HashMap.contains_key plugin_id d.plugin_functions)
    then result
    else if allows_all plugin_id c.allow_all_functions && allows_all plugin_id d.allow_all_functions
    then set_allow_all_functions plugin_id true result
    else if allows_all plugin_id c.allow_all_functions
    then add_functions plugin_id (λ _. true) other_functions result
    else if allows_all plugin_id d.allow_all_functions
    then add_functions plugin_id (λ _. true) self_functions result
    else add_functions plugin_id (λ function. HashSet.contains function other_functions)
        self_functions result

pub meet_plugins :
    PluginCallCapability
    → PluginCallCapability
    → List ℕ
    → PluginCallCapability
    → PluginCallCapability
meet_plugins c d [] result = result
meet_plugins c d (plugin_id ∷ ids) result = meet_plugins c d ids (meet_plugin c d plugin_id result)

pub meet :
    PluginCallCapability → Option PluginCallCapability → Result CapabilityError PluginCallCapability
meet c none = err incompatible_types
meet c (some d) =
    let result = meet_plugins c d (HashMap.keys c.plugin_functions) new in
    if is_empty result.plugin_functions then err invalid_state else ok result

module _ (parse_id : Text → Option ℕ) where
  pub apply_plugin_call_constraint :
      PluginCallCapability → Text → Text → Result CapabilityError PluginCallCapability
  apply_plugin_call_constraint c plugin_id function = elim (parse_id plugin_id) [
    | none ↦ err invalid_constraint
    | some id ↦
        if not (is_call_allowed c id function)
        then err invalid_constraint
        else ok (with_plugin id (function ∷ []))
  ]

  pub permits : PluginCallCapability → AccessRequest → Result CapabilityError (Unit {0})
  permits c (plugin_call_request plugin_id function) = elim (parse_id plugin_id) [
    | none ↦ err access_denied
    | some id ↦ if is_call_allowed c id function then ok tt else err access_denied
  ]
  permits c _ = err incompatible_types

  pub apply_constraint :
      PluginCallCapability → Constraint → Result CapabilityError PluginCallCapability
  apply_constraint c (plugin_call plugin_id function) =
      apply_plugin_call_constraint c plugin_id function
  apply_constraint c _ = err invalid_constraint

  pub constrain :
      PluginCallCapability → List Constraint → Result CapabilityError PluginCallCapability
  constrain c [] = ok c
  constrain c (k ∷ ks) = apply_constraint c k >>= λ d. constrain d ks
