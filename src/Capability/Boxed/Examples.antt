-- ===== src/Capability/Boxed/Examples.antt =====
-- Filters, combinations, composites, the store and its log over file capabilities.
use liongate.Base.{
  ℕ, ◌+◌, ◌<◌, Bool, true, false, not, ◌&&◌, ◌||◌, Option, none, [], ◌∷◌, Result, ok, is_ok,
  is_ok_and, any, implies, OnOk, ◌>>=◌, ◌≡◌, ◌↔◌, refl, arith, ◌==◌, if◌then◌else◌, is_empty,
}
use liongate.Base.Eq.{nat_Eq, text_Eq}
use liongate.Base.HashMap
use liongate.Base.HashSet
use liongate.Base.Text.{codes, text_eq}
use liongate.Capability.{CapabilityError, AccessRequest, file, file_operation}
use liongate.Capability.File
use liongate.Capability.File.{FileCapability}
use liongate.Capability.Trait.{same_kind}
use liongate.Capability.Filter.{FilterCapability}
use liongate.Capability.Combine
use liongate.Capability.Combine.{CombineCapability, all_of, any_of, combine, request_type}
use liongate.Capability.Combine.Strategies.{is_relevant, combine_join_exact}
use liongate.Capability.Composite
use liongate.Capability.Composite.{CompositeCapability, composite, get_capability}
use liongate.Capability.Composite.Groups.{composite_constrain_exact, of_type, constrained}
use liongate.Capability.Revocation.{apply_partial_revocation, request_eq, Filterable}
use liongate.Capability.Store
use liongate.Capability.Store.{InMemoryCapabilityStore, key_Eq}
use liongate.Capability.Store.Index.{IsIndexed, new-IsIndexed, store_operations-IsIndexed}
use liongate.Capability.Store.Checks.{check_permission_exact, get_capability-partial_revoke}
use liongate.Capability.Audit
use liongate.Capability.Audit.{
  AuditLog, IsWithinBound, audit_operations-IsWithinBound, check_logs, drain,
}
use liongate.Capability.Boxed.{Boxed, boxed, file_Trait, boxed_Filterable}

abbrev read_a : FileCapability
read_a = record {
  paths = codes "/a" ∷ [];
  operations = record { read = true; write = false; execute = false };
}

abbrev read_b : FileCapability
read_b = record {
  paths = codes "/b" ∷ [];
  operations = record { read = true; write = true; execute = false };
}

abbrev pass_all : FilterCapability FileCapability
pass_all = record { inner = read_a; filter = λ _. true; description = none }

abbrev request_a : AccessRequest
request_a = file (codes "/a") true false false

-- The combination of the examples boxes by its first capability.
abbrev of_combine : CombineCapability FileCapability → FileCapability
of_combine c = read_a

combine_join_exact_example :
    (is_ok_and
        (λ j. is_ok (Combine.permits file_Trait j request_a))
        (Combine.join file_Trait of_combine
          (combine (read_a ∷ []) any_of)
          (same_kind (combine (read_b ∷ []) any_of)))
      ≡ (is_ok (Combine.permits file_Trait (combine (read_a ∷ []) any_of) request_a)
          || is_ok (Combine.permits file_Trait (combine (read_b ∷ []) any_of) request_a)))
    × (is_ok_and
          (λ j. is_ok (Combine.permits file_Trait j request_a))
          (Combine.join file_Trait of_combine
            (combine (read_a ∷ []) all_of)
            (same_kind (combine (read_b ∷ []) all_of)))
        ≡ ((any (is_relevant file_Trait request_a) (read_a ∷ [])
              || any (is_relevant file_Trait request_a) (read_b ∷ []))
            && implies
                (any (is_relevant file_Trait request_a) (read_a ∷ []))
                (is_ok (Combine.permits file_Trait (combine (read_a ∷ []) all_of) request_a))
            && implies
                (any (is_relevant file_Trait request_a) (read_b ∷ []))
                (is_ok (Combine.permits file_Trait (combine (read_b ∷ []) all_of) request_a))))
    × (Combine.join file_Trait of_combine
          (combine (read_a ∷ []) all_of)
          (same_kind (combine (read_b ∷ []) all_of))
        ≡ Combine.meet file_Trait of_combine
            (combine (read_a ∷ []) all_of)
            (same_kind (combine (read_b ∷ []) all_of)))
combine_join_exact_example =
    combine_join_exact file_Trait of_combine (read_a ∷ []) (read_b ∷ []) request_a

abbrev files : CompositeCapability FileCapability
files = composite ((codes "file", read_b) ∷ [])

abbrev read_only : CompositeCapability FileCapability
read_only = composite (
    (
      codes "file",
      record {
        paths = codes "/b" ∷ [];
        operations = record { read = true; write = false; execute = false };
      },
    )
    ∷ [])

composite_constrain_exact_example :
    ◌≡◌ {A = Result CapabilityError (Option FileCapability)}
      (ok (get_capability (codes "file") read_only))
      (if is_empty (of_type (codes "file") (file_operation true false false ∷ []))
        then ok (get_capability (codes "file") files)
        else constrained file_Trait
            (get_capability (codes "file") files)
            (of_type (codes "file") (file_operation true false false ∷ [])))
unfolding Composite.constrain Composite.constrain_groups Composite.group_constraints
    Composite.group_of Composite.type_of_constraint get_capability File.constrain
    File.apply_constraint File.apply_operation_constraint HashMap.get HashMap.insert text_eq
composite_constrain_exact_example =
    composite_constrain_exact file_Trait files read_only (file_operation true false false ∷ []) refl
      (codes "file")

abbrev Box : Type 0
Box = Boxed FileCapability

abbrev file_box : Filterable Box
file_box = boxed_Filterable file_Trait

abbrev empty_store : InMemoryCapabilityStore Box
empty_store = Store.new

empty_room : empty_store.next_capability_id + 1 < Store.u64_mod
empty_room = omega arith

-- A store in which plugin 5 has one capability.
abbrev store : InMemoryCapabilityStore Box
store = (Store.add_capability 5 (boxed read_a) empty_store).1

store-IsIndexed : IsIndexed store
store-IsIndexed =
    (store_operations-IsIndexed ⦃t = file_box⦄ empty_store empty_room new-IsIndexed).1 5
      (boxed read_a)

store_room : store.next_capability_id + 1 < Store.u64_mod
unfolding Store.add_capability
store_room = omega arith

store_operations-IsIndexed_example :
    IsIndexed empty_store
    × ((p : ℕ) (c : Box) → IsIndexed (Store.add_capability p c store).1)
    × ((p i : ℕ) → OnOk IsIndexed (Store.remove_capability p i store))
    × ((p i : ℕ) (c : Box) → OnOk IsIndexed (Store.replace_capability p i c store))
    × ((p : ℕ) → IsIndexed (Store.clear_plugin_capabilities p store))
    × ((p i : ℕ) (r : AccessRequest)
        → OnOk IsIndexed (Store.partial_revoke ⦃t = file_box⦄ p i r store))
store_operations-IsIndexed_example =
    store_operations-IsIndexed ⦃t = file_box⦄ store store_room store-IsIndexed

check_permission_exact_example :
    (Store.check_permission ⦃t = file_box⦄ 5 request_a store ≡ ok tt) ↔ (
      (i : ℕ) × (c : Box) × (Store.get_capability 5 i store ≡ ok c)
      × (is_ok (file_box.permits c request_a) ≡ true))
check_permission_exact_example =
    check_permission_exact ⦃t = file_box⦄ 5 request_a store store-IsIndexed

abbrev revoked : InMemoryCapabilityStore Box
revoked = record {
  capabilities =
      (
        (5, 1),
        record {
          capability = apply_partial_revocation ⦃t = file_box⦄ (boxed read_a) request_a;
          generation = 2;
        },
      )
      ∷ [];
  plugin_capabilities = (5, 1 ∷ []) ∷ [];
  next_capability_id = 2;
}

get_capability-partial_revoke_example :
    is_ok (Store.get_capability 5 1 revoked >>= λ c. file_box.permits c request_a) ≡ (
      is_ok (Store.get_capability 5 1 store >>= λ c. file_box.permits c request_a)
      && not (5 == 5 && 1 == 1 && request_eq request_a request_a))
unfolding Store.add_capability Store.partial_revoke Store.replace_capability Store.get_capability
    Store.capability_set HashMap.get HashMap.insert HashMap.modify HashSet.insert
get_capability-partial_revoke_example =
    get_capability-partial_revoke ⦃t = file_box⦄ 5 1 request_a store revoked refl 5 1 request_a

abbrev short_log : AuditLog
short_log = record { entries = []; max_entries_per_plugin = 1 }

short_log-IsWithinBound : IsWithinBound short_log
unfolding Audit.get_entries HashMap.get
short_log-IsWithinBound p = omega arith

audit_operations-IsWithinBound_example :
    IsWithinBound (Audit.new 3)
    × ((now p : ℕ) (r : AccessRequest) (permitted : Bool)
        → IsWithinBound (Audit.log_access now p r permitted short_log))
    × ((p : ℕ) → IsWithinBound (Audit.clear_entries p short_log))
    × IsWithinBound (Audit.clear_all_entries short_log)
audit_operations-IsWithinBound_example =
    audit_operations-IsWithinBound 3 short_log short_log-IsWithinBound
