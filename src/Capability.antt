-- ===== src/Capability.antt =====
-- lion/lion_capability/src/model/capability.rs: errors, constraints, access requests and the
-- matching of path patterns. An error's message text is left out: the constructors carry none.
-- Texts are lists of character codes, `usize` and `u16` values are numbers.
pub mod File
pub mod HostRule
pub mod Memory
pub mod Message
pub mod Network
pub mod PluginCall
pub mod Trait
pub mod Filter
pub mod Proxy
pub mod Combine
pub mod Composite
pub mod Revocation
pub mod Store
pub mod Audit
pub mod Boxed
pub mod Set
use liongate.Base.{ℕ, Bool, Option, none, some, [], ◌∷◌}
use liongate.Base.Text.{Text, text_eq, has_prefix, strip_suffix}

pub data CapabilityError : Type 0 where
  access_denied invalid_constraint incompatible_types unsupported_operation : CapabilityError
  not_found internal_error invalid_state core_error : CapabilityError

pub data Constraint : Type 0 where
  file_path : (path : Text) → Constraint
  file_operation : (read write execute : Bool) → Constraint
  network_host : (host : Text) → Constraint
  network_port : (port : ℕ) → Constraint
  network_operation : (connect listen bind : Bool) → Constraint
  memory_range : (base size : ℕ) (read write : Bool) → Constraint
  plugin_call : (plugin_id function : Text) → Constraint
  message_topic : (topic : Text) → Constraint
  custom : (constraint_type value : Text) → Constraint

pub data AccessRequest : Type 0 where
  file : (path : Text) (read write execute : Bool) → AccessRequest
  network : (host : Option Text) (port : Option ℕ) (connect listen bind : Bool) → AccessRequest
  memory : (address size : ℕ) (read write : Bool) → AccessRequest
  plugin_call_request : (plugin_id function : Text) → AccessRequest
  message : (topic : Text) (recipient : Option Text) → AccessRequest
  custom_request : (request_type details : Text) → AccessRequest

-- The suffix "/*" of a pattern.
abbrev pub wildcard : Text
wildcard = b'/' ∷ b'*' ∷ []

-- A pattern that ends in "/*" matches by prefix, any other only itself.
pub path_matches : Text → Text → Bool
path_matches pattern path = elim (strip_suffix wildcard pattern) [
  | some prefix ↦ has_prefix prefix path
  | none ↦ text_eq pattern path
]
