-- ===== src/Capability/File.antt =====
-- lion/lion_capability/src/model/file.rs: the capability to access files.
-- A bit set of operations is a record of its flags; `bits` is its byte. A `HashSet` of patterns is a
-- list without repetition. The other capability of a binary operation is given as what
-- `as_any().downcast_ref::<FileCapability>()` returns.
pub mod Attenuation
pub mod Order
pub mod Patterns
mod Examples
use liongate.Base.{
  ℕ, ◌+◌, ◌-◌, Bool, true, false, not, ◌&&◌, ◌||◌, Option, none, some, List, [], ◌∷◌, ◌++◌, map,
  Result, ok, err, ◌>>=◌, any, all, filter, is_empty, ◌==◌, if◌then◌else◌, implies,
}
use liongate.Base.Text.{Text}
use liongate.Base.TextSet
use liongate.Capability.{
  CapabilityError, access_denied, invalid_constraint, incompatible_types, invalid_state, Constraint,
  file_path, file_operation, AccessRequest, file, path_matches,
}

pub record FileOperations : Type 0 where
  pub read : Bool
  pub write : Bool
  pub execute : Bool

abbrev pub no_operations : FileOperations
no_operations = record { read = false; write = false; execute = false }

abbrev bit : Bool → ℕ → ℕ
bit b n = if b then n else 0

-- `FileOperations::bits`, a `u8`.
pub bits : FileOperations → ℕ
bits o = bit o.read 1 + bit o.write 2 + bit o.execute 4

abbrev pub union : FileOperations → FileOperations → FileOperations
union a b = record {
  read = a.read || b.read;
  write = a.write || b.write;
  execute = a.execute || b.execute;
}

abbrev pub intersection : FileOperations → FileOperations → FileOperations
intersection a b = record {
  read = a.read && b.read;
  write = a.write && b.write;
  execute = a.execute && b.execute;
}

-- `a.contains(b)`: every flag of `b` is one of `a`.
abbrev pub contains : FileOperations → FileOperations → Bool
contains a b = implies b.read a.read && implies b.write a.write && implies b.execute a.execute

abbrev no_flags : FileOperations → Bool
no_flags o = not o.read && not o.write && not o.execute

pub record FileCapability : Type 0 where
  pub paths : List Text
  pub operations : FileOperations

pub path_allowed : FileCapability → Text → Bool
path_allowed c path = any (λ pattern. path_matches pattern path) c.paths

pub apply_path_constraint : FileCapability → Text → Result CapabilityError FileCapability
apply_path_constraint c path =
    if not (path_allowed c path)
    then err invalid_constraint
    else ok (record { paths = path ∷ []; operations = c.operations })

unfoldable pub apply_operation_constraint :
    FileCapability → Bool → Bool → Bool → Result CapabilityError FileCapability
apply_operation_constraint c read write execute =
    let new_ops : FileOperations = record {
      read = read && c.operations.read;
      write = write && c.operations.write;
      execute = execute && c.operations.execute;
    } in
    if no_flags new_ops
    then err invalid_constraint
    else ok (record { paths = c.paths; operations = new_ops })

pub permits : FileCapability → AccessRequest → Result CapabilityError (Unit {0})
permits c (file path read write execute) =
    if not (path_allowed c path)
    then err access_denied
    else if not (contains c.operations (record { read = read; write = write; execute = execute }))
    then err access_denied
    else ok tt
permits c _ = err incompatible_types

-- One round of the loop of `constrain`.
unfoldable pub apply_constraint :
    FileCapability → Constraint → Result CapabilityError FileCapability
apply_constraint c (file_path path) = apply_path_constraint c path
apply_constraint c (file_operation read write execute) =
    apply_operation_constraint c read write execute
apply_constraint c _ = err invalid_constraint

unfoldable pub constrain : FileCapability → List Constraint → Result CapabilityError FileCapability
constrain c [] = ok c
constrain c (k ∷ ks) = apply_constraint c k >>= λ d. constrain d ks

pub split : FileCapability → List FileCapability
split c = map (λ path. record { paths = path ∷ []; operations = c.operations }) c.paths

pub join : FileCapability → Option FileCapability → Result CapabilityError FileCapability
join c none = err incompatible_types
join c (some d) = ok (record {
  paths = TextSet.extend c.paths d.paths;
  operations = union c.operations d.operations;
})

-- `!(a & b).bits() == a.bits()`: a method call binds tighter than `!`, which on a `u8` is the
-- complement of all eight bits.
pub leq : FileCapability → Option FileCapability → Bool
unfolding bits
leq c none = false
leq c (some d) =
    if 255 - bits (intersection c.operations d.operations) == bits c.operations
    then false
    else all (path_allowed d) c.paths

pub meet : FileCapability → Option FileCapability → Result CapabilityError FileCapability
meet c none = err incompatible_types
meet c (some d) =
    let paths = TextSet.intersection c.paths d.paths in
    let operations = intersection c.operations d.operations in
    if is_empty paths
    then err invalid_state
    else if no_flags operations
    then err invalid_state
    else ok (record { paths = paths; operations = operations })
