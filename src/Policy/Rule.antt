-- ===== src/Policy/Rule.antt =====
-- lion/lion_policy/src/model/{rule,constraint,evaluation}.rs: rules, constraints and results.
-- A plugin id is a number, a time a number of ticks, and an `f64` its bit pattern, which is only
-- carried along. The time of a call is an argument, `now`.
use liongate.Base.{ℕ, Bool, false, Option, none, some, List, [], map, ltb}
use liongate.Base.Int.{ℤ}
use liongate.Base.Text.{Text, codes}
use liongate.Policy.Request.{AccessRequest}
use liongate.Capability

pub data PolicySubject : Type 0 where
  any : PolicySubject
  plugin : ℕ → PolicySubject
  plugins : List ℕ → PolicySubject
  plugin_name plugin_tag plugin_role : Text → PolicySubject

pub record FileObject : Type 0 where
  pub path : Text
  pub is_directory : Bool

pub record NetworkObject : Type 0 where
  pub host : Text
  pub port : Option ℕ
  pub protocol : Option Text

pub record PluginCallObject : Type 0 where
  pub plugin_id : Text
  pub function : Option Text

pub record MemoryObject : Type 0 where
  pub region_id : Text

pub record MessageObject : Type 0 where
  pub recipient : Text
  pub topic : Option Text

pub data PolicyObject : Type 0 where
  any : PolicyObject
  file : FileObject → PolicyObject
  network : NetworkObject → PolicyObject
  plugin_call : PluginCallObject → PolicyObject
  memory : MemoryObject → PolicyObject
  message : MessageObject → PolicyObject
  custom : (object_type value : Text) → PolicyObject

pub data PolicyAction : Type 0 where
  allow deny audit : PolicyAction
  allow_with_constraints transform_to_constraints : List Text → PolicyAction

pub record TimeCondition : Type 0 where
  pub start : Option ℕ
  pub end : Option ℕ
  pub days_of_week : Option (List ℕ)
  pub hours : Option (List ℕ)

pub record ResourceCondition : Type 0 where
  pub max_cpu : Option ℕ
  pub max_memory : Option ℕ
  pub max_disk : Option ℕ
  pub max_network : Option ℕ

pub record ContextCondition : Type 0 where
  pub context : List (Text × Text)

mutual
  pub data PolicyCondition : Type 0 where
    time : TimeCondition → PolicyCondition
    resource : ResourceCondition → PolicyCondition
    context : ContextCondition → PolicyCondition
    all_of any_of : Conditions → PolicyCondition
    not_of : PolicyCondition → PolicyCondition

  -- A vector of conditions.
  pub data Conditions : Type 0 where
    nil : Conditions
    cons : PolicyCondition → Conditions → Conditions

pub record PolicyRule : Type 0 where
  pub id : Text
  pub name : Text
  pub description : Text
  pub subject : PolicySubject
  pub object : PolicyObject
  pub action : PolicyAction
  pub condition : Option PolicyCondition
  pub priority : ℤ
  pub created_at : ℕ
  pub updated_at : ℕ
  pub expires_at : Option ℕ

unfoldable pub is_expired : ℕ → PolicyRule → Bool
is_expired now rule = elim rule.expires_at [ some expires_at ↦ ltb expires_at now | none ↦ false ]

pub with_expiration : ℕ → PolicyRule → ℕ → PolicyRule
with_expiration now rule expires_at = record rule { updated_at = now; expires_at = some expires_at }

pub data Constraint : Type 0 where
  file_path : Text → Constraint
  file_operation : (read write execute : Bool) → Constraint
  network_host : Text → Constraint
  network_port : ℕ → Constraint
  network_operation : (connect listen bind : Bool) → Constraint
  plugin_call : (plugin_id function : Text) → Constraint
  memory_region : (region_id : Text) (read write : Bool) → Constraint
  message : (recipient topic : Text) → Constraint
  resource_usage : (max_cpu max_memory max_network max_disk : Option ℕ) → Constraint
  custom : (constraint_type value : Text) → Constraint

pub to_capability_constraint : Constraint → Capability.Constraint
to_capability_constraint (file_path path) = Capability.file_path path
to_capability_constraint (file_operation read write execute) =
    Capability.file_operation read write execute
to_capability_constraint (network_host host) = Capability.network_host host
to_capability_constraint (network_port port) = Capability.network_port port
to_capability_constraint (network_operation connect listen bind) =
    Capability.network_operation connect listen bind
to_capability_constraint (plugin_call plugin_id function) =
    Capability.plugin_call plugin_id function
to_capability_constraint (memory_region _ read write) = Capability.memory_range 0 0 read write
to_capability_constraint (message _ topic) = Capability.message_topic topic
to_capability_constraint (resource_usage _ _ _ _) = Capability.custom (codes "resource_usage") []
to_capability_constraint (custom constraint_type value) = Capability.custom constraint_type value

pub data EvaluationResult : Type 0 where
  allow deny no_policy audit : EvaluationResult
  allow_with_constraints : List Constraint → EvaluationResult

abbrev from_string : Text → Constraint
from_string s = custom (codes "from_string") s

-- `EvaluationResult::from(&action)`.
unfoldable pub result_of : PolicyAction → EvaluationResult
result_of PolicyAction.allow = allow
result_of PolicyAction.deny = deny
result_of (PolicyAction.allow_with_constraints cs) = allow_with_constraints (map from_string cs)
result_of (transform_to_constraints cs) = allow_with_constraints (map from_string cs)
result_of PolicyAction.audit = audit

pub record Evaluation (J : Type 0) : Type 0 where
  pub plugin_id : ℕ
  pub request : AccessRequest J
  pub result : EvaluationResult
  pub matched_rule : Option PolicyRule
  pub timestamp : ℕ
