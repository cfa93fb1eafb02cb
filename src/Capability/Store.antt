-- ===== src/Capability/Store.antt =====
-- lion/lion_capability/src/store/in_memory.rs, and `check_permission` of store/mod.rs: the
-- capabilities of each plugin, each with a generation. An id is the value of the counter that it is
-- made from, a `u64` that wraps. The capabilities are those of the interface `Filterable`.
pub mod Index
pub mod Checks
use liongate.Base.{
  ℕ, ◌+◌, ◌%◌, ◌^◌, Bool, true, false, not, ◌&&◌, Option, none, some, List, [], ◌∷◌, any,
  filter_map, Result, ok, err, is_ok, ◌>>=◌, if◌then◌else◌, ◌≡◌, ◌↔◌, ◌==◌, ==_iff, arith,
}
use liongate.Base.Eq.{Eq, nat_Eq}
use liongate.Base.HashMap
use liongate.Base.HashMap.{HashMap}
use liongate.Base.HashSet
use liongate.Capability.{CapabilityError, access_denied, not_found, AccessRequest}
use liongate.Capability.Revocation.{Filterable, apply_partial_revocation}

abbrev pub Key : Type 0
Key = ℕ × ℕ

abbrev key_eq : Key → Key → Bool
key_eq (a, b) (c, d) = a == c && b == d

pub key_eq_iff : (a b : Key) → (key_eq a b ≡ true) ↔ (a ≡ b)
key_eq_iff (a, b) (c, d) = ground (arith, ==_iff a c, ==_iff b d)

instance abbrev pub key_Eq : Eq Key
key_Eq = record { beq = key_eq; beq_iff = key_eq_iff }

pub record CapabilityEntry (C : Type 0) : Type 0 where
  pub capability : C
  pub generation : ℕ

pub record InMemoryCapabilityStore (C : Type 0) : Type 0 where
  pub capabilities : HashMap Key (CapabilityEntry C)
  pub plugin_capabilities : HashMap ℕ (List ℕ)
  pub next_capability_id : ℕ

abbrev pub u64_mod : ℕ
u64_mod = 2 ^ 64

-- `get_or_create_capability_set`, as the set that is then there.
unfoldable pub capability_set : ℕ → HashMap ℕ (List ℕ) → List ℕ
capability_set plugin_id m = elim (HashMap.get plugin_id m) [ some ids ↦ ids | none ↦ [] ]

module _ {C : Type 0} where
  abbrev pub new : InMemoryCapabilityStore C
  new = record { capabilities = []; plugin_capabilities = []; next_capability_id = 1 }

  -- The id is made from the counter, which is then one further.
  unfoldable pub add_capability : ℕ → C → InMemoryCapabilityStore C → ℕ × InMemoryCapabilityStore C
  add_capability plugin_id capability s =
      let id = s.next_capability_id in
      let set = HashSet.insert id (capability_set plugin_id s.plugin_capabilities) in
      (
        id,
        record {
          capabilities =
              HashMap.insert (plugin_id, id) (record { capability = capability; generation = 1 })
                s.capabilities;
          plugin_capabilities = HashMap.insert plugin_id set s.plugin_capabilities;
          next_capability_id = (id + 1) % u64_mod;
        },
      )

  unfoldable pub get_capability : ℕ → ℕ → InMemoryCapabilityStore C → Result CapabilityError C
  get_capability plugin_id id s = elim (HashMap.get (plugin_id, id) s.capabilities) [
    | some entry ↦ ok entry.capability
    | none ↦ err not_found
  ]

  pub remove_capability :
      ℕ → ℕ → InMemoryCapabilityStore C → Result CapabilityError (InMemoryCapabilityStore C)
  remove_capability plugin_id id s =
      if not (HashMap.contains_key (plugin_id, id) s.capabilities)
      then err not_found
      else ok (record {
        capabilities = HashMap.remove (plugin_id, id) s.capabilities;
        plugin_capabilities =
            HashMap.modify plugin_id (λ set. HashSet.remove id set) s.plugin_capabilities;
        next_capability_id = s.next_capability_id;
      })

  unfoldable pub replace_capability :
      ℕ → ℕ → C → InMemoryCapabilityStore C → Result CapabilityError (InMemoryCapabilityStore C)
  replace_capability plugin_id id new_cap s =
      if not (HashMap.contains_key (plugin_id, id) s.capabilities)
      then err not_found
      else ok (record {
        capabilities =
            HashMap.modify (plugin_id, id)
              (λ entry. record {
                capability = new_cap;
                generation = (entry.generation + 1) % u64_mod;
              })
              s.capabilities;
        plugin_capabilities = s.plugin_capabilities;
        next_capability_id = s.next_capability_id;
      })

  -- One round of the loop of `list_capabilities`.
  pub listed : ℕ → InMemoryCapabilityStore C → ℕ → Option (ℕ × C)
  listed plugin_id s id = elim (HashMap.get (plugin_id, id) s.capabilities) [
    | some entry ↦ some (id, entry.capability)
    | none ↦ none
  ]

  pub list_capabilities : ℕ → InMemoryCapabilityStore C → List (ℕ × C)
  list_capabilities plugin_id s = elim (HashMap.get plugin_id s.plugin_capabilities) [
    | some set ↦ filter_map (listed plugin_id s) set
    | none ↦ []
  ]

  -- The loop of `clear_plugin_capabilities`.
  pub remove_all : ℕ → List ℕ → HashMap Key (CapabilityEntry C) → HashMap Key (CapabilityEntry C)
  remove_all plugin_id [] m = m
  remove_all plugin_id (id ∷ ids) m = remove_all plugin_id ids (HashMap.remove (plugin_id, id) m)

  pub clear_plugin_capabilities : ℕ → InMemoryCapabilityStore C → InMemoryCapabilityStore C
  clear_plugin_capabilities plugin_id s = record {
    capabilities =
        remove_all plugin_id (capability_set plugin_id s.plugin_capabilities) s.capabilities;
    plugin_capabilities = HashMap.remove plugin_id s.plugin_capabilities;
    next_capability_id = s.next_capability_id;
  }

module _ {C : Type 0} ⦃t : Filterable C⦄ where
  pub check_permission :
      ℕ → AccessRequest → InMemoryCapabilityStore C → Result CapabilityError (Unit {0})
  check_permission plugin_id request s =
      if any (λ listing. is_ok (t.permits (listing.1) request)) (list_capabilities plugin_id s)
      then ok tt
      else err access_denied

  unfoldable pub partial_revoke :
      ℕ
      → ℕ
      → AccessRequest
      → InMemoryCapabilityStore C
      → Result CapabilityError (InMemoryCapabilityStore C)
  partial_revoke plugin_id id request s = get_capability plugin_id id s >>= λ capability.
      replace_capability plugin_id id (apply_partial_revocation capability request) s
