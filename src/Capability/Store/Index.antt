-- ===== src/Capability/Store/Index.antt =====
-- The index of the store: a plugin's set names the capabilities that the store holds for it, and
-- the next id is new.
use liongate.Base.{
  ℕ, ◌+◌, ◌%◌, ◌<◌, true, not, ◌&&◌, none, List, [], ◌∷◌, if◌then◌else◌, ◌≡◌, refl, ◌==◌, ==_iff,
  arith, OnOk, OnOk-intro, bind-eq-ok, if_both, subst,
}
use liongate.Base.Eq.{nat_Eq}
use liongate.Base.HashMap
use liongate.Base.HashMap.{HashMap, get-insert, get-remove, get-modify}
use liongate.Base.HashSet
use liongate.Base.HashSet.{contains-insert, contains-remove}
use liongate.Capability.{AccessRequest}
use liongate.Capability.Revocation.{Filterable, apply_partial_revocation}
use liongate.Capability.Store.{
  Key, key_Eq, CapabilityEntry, InMemoryCapabilityStore, u64_mod, capability_set, new,
  add_capability, get_capability, remove_capability, replace_capability, remove_all,
  clear_plugin_capabilities, partial_revoke,
}

module _ {C : Type 0} where
  pub record IsIndexed (s : InMemoryCapabilityStore C) : Type 0 where
    pub indexed :
        (p i : ℕ)
        → HashMap.contains_key (p, i) s.capabilities
          ≡ HashSet.contains i (capability_set p s.plugin_capabilities)
    pub fresh :
        (p i : ℕ) → HashMap.contains_key (p, i) s.capabilities ≡ true → i < s.next_capability_id

  pub new-IsIndexed : IsIndexed (new {C = C})
  unfolding HashMap.get capability_set
  new-IsIndexed = record { indexed = λ p i. refl; fresh = λ p i h. cc h }

  -- The counter has not reached its last value.
  add_capability-IsIndexed :
      (p : ℕ) (c : C) (s : InMemoryCapabilityStore C)
      → s.next_capability_id + 1 < u64_mod
      → IsIndexed s
      → IsIndexed (add_capability p c s).1
  unfolding add_capability capability_set
  add_capability-IsIndexed p c s room w =
      let id = s.next_capability_id in
      let set = capability_set p s.plugin_capabilities in
      record {
        indexed = λ q i. ground (
          arith,
          w.indexed q i,
          ==_iff p q,
          ==_iff id i,
          get-insert (q, i) (p, id) (record { capability = c; generation = 1 }) s.capabilities,
          get-insert q p (HashSet.insert id set) s.plugin_capabilities,
          contains-insert i id set,
        );
        fresh = λ q i h. ground (
          arith,
          w.fresh q i,
          get-insert (q, i) (p, id) (record { capability = c; generation = 1 }) s.capabilities,
        );
      }

  remove_capability-IsIndexed :
      (p i : ℕ) (s : InMemoryCapabilityStore C)
      → IsIndexed s
      → OnOk IsIndexed (remove_capability p i s)
  unfolding remove_capability capability_set HashSet.remove
  remove_capability-IsIndexed p i s w =
      if_both (OnOk IsIndexed) (not (HashMap.contains_key (p, i) s.capabilities)) tt (record {
        indexed = λ q j. ground (
          arith,
          w.indexed q j,
          ==_iff p q,
          ==_iff i j,
          get-remove (q, j) (p, i) s.capabilities,
          get-modify q p (λ set. HashSet.remove i set) s.plugin_capabilities,
          contains-remove j i (capability_set q s.plugin_capabilities),
        );
        fresh = λ q j h. ground (arith, w.fresh q j, get-remove (q, j) (p, i) s.capabilities);
      })

  replace_capability-IsIndexed :
      (p i : ℕ) (c : C) (s : InMemoryCapabilityStore C)
      → IsIndexed s
      → OnOk IsIndexed (replace_capability p i c s)
  unfolding replace_capability
  replace_capability-IsIndexed p i c s w =
      let next : CapabilityEntry C → CapabilityEntry C =
        λ entry. record { capability = c; generation = (entry.generation + 1) % u64_mod } in
      if_both (OnOk IsIndexed) (not (HashMap.contains_key (p, i) s.capabilities)) tt (record {
        indexed =
            λ q j. ground (arith, w.indexed q j, get-modify (q, j) (p, i) next s.capabilities);
        fresh = λ q j h. ground (arith, w.fresh q j, get-modify (q, j) (p, i) next s.capabilities);
      })

  pub get-remove_all :
      (p : ℕ) (ids : List ℕ) (m : HashMap Key (CapabilityEntry C)) (q j : ℕ)
      → HashMap.get (q, j) (remove_all p ids m)
        ≡ (if p == q && HashSet.contains j ids then none else HashMap.get (q, j) m)
  unfolding remove_all
  get-remove_all p [] m q j = ground arith
  get-remove_all p (i ∷ ids) m q j =
      ground (arith, get-remove_all p ids (HashMap.remove (p, i) m) q j, get-remove (q, j) (p, i) m)

  clear-IsIndexed :
      (p : ℕ) (s : InMemoryCapabilityStore C)
      → IsIndexed s
      → IsIndexed (clear_plugin_capabilities p s)
  unfolding clear_plugin_capabilities capability_set
  clear-IsIndexed p s w =
      let ids = capability_set p s.plugin_capabilities in
      record {
        indexed = λ q j. ground (
          arith,
          w.indexed q j,
          ==_iff p q,
          get-remove_all p ids s.capabilities q j,
          get-remove q p s.plugin_capabilities,
        );
        fresh = λ q j h. ground (arith, w.fresh q j, get-remove_all p ids s.capabilities q j);
      }

module _ {C : Type 0} ⦃t : Filterable C⦄ where
  partial_revoke-IsIndexed :
      (p i : ℕ) (r : AccessRequest) (s : InMemoryCapabilityStore C)
      → IsIndexed s
      → OnOk IsIndexed (partial_revoke p i r s)
  unfolding partial_revoke
  partial_revoke-IsIndexed p i r s w = OnOk-intro IsIndexed (partial_revoke p i r s) (λ u e.
      let (c, found, replaced) =
        bind-eq-ok (get_capability p i s)
          (λ c. replace_capability p i (apply_partial_revocation c r) s) e in
      subst (OnOk IsIndexed) replaced
        (replace_capability-IsIndexed p i (apply_partial_revocation c r) s w))

  -- A new store is indexed: the sets of the plugins name exactly the capabilities that it holds, and
  -- their ids are below the counter. While the counter has not reached its last value, adding,
  -- removing, replacing, clearing and revoking keep a store indexed.
  pub store_operations-IsIndexed :
      (s : InMemoryCapabilityStore C)
      → s.next_capability_id + 1 < u64_mod
      → IsIndexed s
      → IsIndexed (new {C = C})
        × ((p : ℕ) (c : C) → IsIndexed (add_capability p c s).1)
        × ((p i : ℕ) → OnOk IsIndexed (remove_capability p i s))
        × ((p i : ℕ) (c : C) → OnOk IsIndexed (replace_capability p i c s))
        × ((p : ℕ) → IsIndexed (clear_plugin_capabilities p s))
        × ((p i : ℕ) (r : AccessRequest) → OnOk IsIndexed (partial_revoke p i r s))
  store_operations-IsIndexed s room w = (
    new-IsIndexed,
    λ p c. add_capability-IsIndexed p c s room w,
    λ p i. remove_capability-IsIndexed p i s w,
    λ p i c. replace_capability-IsIndexed p i c s w,
    λ p. clear-IsIndexed p s w,
    λ p i r. partial_revoke-IsIndexed p i r s w,
  )
