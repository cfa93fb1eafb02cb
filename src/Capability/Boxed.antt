-- ===== src/Capability/Boxed.antt =====
-- Implementations of the interfaces: `impl Capability for FileCapability` of
-- lion/lion_capability/src/model/file.rs as a trait record, and boxes of the capabilities of a trait
-- that partial revocations put filters around, as lion/lion_capability/src/attenuation/filter.rs
-- does.
mod Examples
use liongate.Base.{
  Bool, true, false, not, some, List, Result, ok, err, if◌then◌else◌, ◌≡◌, refl, inl, inr,
  Bool-cases,
}
use liongate.Base.Text.{codes}
use liongate.Capability.{CapabilityError, access_denied, AccessRequest}
use liongate.Capability.File
use liongate.Capability.File.{FileCapability}
use liongate.Capability.Filter.{file_type}
use liongate.Capability.Revocation.{Filterable}
use liongate.Capability.Trait.{Trait, FileLaws}

abbrev pub file_Trait : Trait FileCapability
file_Trait = record {
  capability_type = λ _. file_type;
  permits = File.permits;
  constrain = File.constrain;
  split = File.split;
  join = λ c d. File.join c (some d);
  leq = λ c d. File.leq c (some d);
  meet = λ c d. File.meet c (some d);
  as_file = some;
  of_file = λ c. c;
}

pub file_Trait-FileLaws : FileLaws file_Trait
file_Trait-FileLaws = record { permits-of_file = λ c r. refl }

pub data Boxed (C : Type 0) : Type 0 where
  boxed : (capability : C) → Boxed C
  filtered : (filter : AccessRequest → Bool) (inner : Boxed C) → Boxed C

module _ {C : Type 0} (t : Trait C) where
  pub permits : Boxed C → AccessRequest → Result CapabilityError (Unit {0})
  permits (boxed c) request = t.permits c request
  permits (filtered filter inner) request =
      if not (filter request) then err access_denied else permits inner request

  pub permits-filtered :
      (filter : AccessRequest → Bool) (b : Boxed C) (r : AccessRequest)
      → permits (filtered filter b) r ≡ (if filter r then permits b r else err access_denied)
  unfolding permits
  permits-filtered filter b r = elim (Bool-cases (filter r)) [
    | inl e ↦ rw e refl
    | inr e ↦ rw e refl
  ]

  abbrev pub boxed_Filterable : Filterable (Boxed C)
  boxed_Filterable = record {
    permits = permits;
    with_filter = filtered;
    permits-with_filter = permits-filtered;
  }
