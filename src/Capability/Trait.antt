-- ===== src/Capability/Trait.antt =====
-- lion/lion_capability/src/model/capability.rs: the trait `Capability`, as a record of its methods
-- on the values that a `Box<dyn Capability>` holds. `as_file` is
-- `as_any().downcast_ref::<FileCapability>()`, and `of_file` boxes a file capability.
use liongate.Base.{Bool, Option, none, some, List, ◌++◌, Result, ◌≡◌}
use liongate.Base.Text.{Text}
use liongate.Capability.{CapabilityError, Constraint, AccessRequest}
use liongate.Capability.File
use liongate.Capability.File.{FileCapability}

pub record Trait (C : Type 0) : Type 0 where
  pub capability_type : C → Text
  pub permits : C → AccessRequest → Result CapabilityError (Unit {0})
  pub constrain : C → List Constraint → Result CapabilityError C
  pub split : C → List C
  pub join : C → C → Result CapabilityError C
  pub leq : C → C → Bool
  pub meet : C → C → Result CapabilityError C
  pub as_file : C → Option FileCapability
  pub of_file : FileCapability → C

-- The argument `&dyn Capability` of a wrapper's binary operation, as `downcast_ref` tells its kinds
-- apart: a wrapper of the same kind, or another capability.
pub data Operand (W C : Type 0) : Type 0 where
  same_kind : (wrapper : W) → Operand W C
  other_kind : (capability : C) → Operand W C

-- The description of a wrapper made from two.
pub join_descriptions : Text → Option Text → Option Text → Option Text
join_descriptions separator (some a) (some b) = some (a ++ separator ++ b)
join_descriptions separator (some a) none = some a
join_descriptions separator none other = other

-- A boxed file capability permits what the file capability permits.
pub record FileLaws {C : Type 0} (t : Trait C) : Type 0 where
  pub permits-of_file :
      (c : FileCapability) (r : AccessRequest) → t.permits (t.of_file c) r ≡ File.permits c r
