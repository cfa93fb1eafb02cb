-- ===== src/Capability/Store/Checks.antt =====
-- What the checks of a store grant: any of the plugin's capabilities, and after a partial revocation
-- the reduced one.
use liongate.Base.{
  ℕ, ◌+◌, ◌%◌, Bool, true, false, not, ◌&&◌, some, ◌∈◌, any-intro, any-elim, mem-filter_map_intro,
  mem-filter_map_elim, ok, is_ok, ◌>>=◌, if◌then◌else◌, ◌≡◌, ◌↔◌, ap, ◌==◌, ==_iff, arith, inl, inr,
  Option-cases, bind-eq-ok,
}
use liongate.Base.Eq.{nat_Eq}
use liongate.Base.HashMap
use liongate.Base.HashMap.{HashMap, get-insert, get-modify}
use liongate.Base.HashSet.{contains-mem}
use liongate.Capability.{AccessRequest}
use liongate.Capability.Revocation.{
  Filterable, apply_partial_revocation, request_eq, revocation_exact,
}
use liongate.Capability.Store.{
  key_Eq, CapabilityEntry, InMemoryCapabilityStore, u64_mod, capability_set, add_capability,
  get_capability, replace_capability, listed, list_capabilities, check_permission, partial_revoke,
}
use liongate.Capability.Store.Index.{IsIndexed}

module _ {C : Type 0} where
  listed-get :
      (p i j : ℕ) (c : C) (s : InMemoryCapabilityStore C)
      → listed p s i ≡ some (j, c)
      → get_capability p i s ≡ ok c
  unfolding listed get_capability
  listed-get p i j c s h = ground (arith, h)

  get-listed :
      (p i : ℕ) (c : C) (s : InMemoryCapabilityStore C)
      → get_capability p i s ≡ ok c
      → (listed p s i ≡ some (i, c)) × (HashMap.contains_key (p, i) s.capabilities ≡ true)
  unfolding listed get_capability
  get-listed p i c s h = (ground (arith, h), ground (arith, h))

  list-mem :
      (p i : ℕ) (c : C) (s : InMemoryCapabilityStore C)
      → IsIndexed s
      → get_capability p i s ≡ ok c
      → (i, c) ∈ list_capabilities p s
  unfolding list_capabilities capability_set
  list-mem p i c s w h =
      let (found, key) = get-listed p i c s h in
      elim (Option-cases (HashMap.get p s.plugin_capabilities)) [
        | inl e ↦ absurd (ground (arith, e, key, w.indexed p i))
        | inr (set, e) ↦
            rw (list_capabilities, e)
              (mem-filter_map_intro (listed p s)
                (contains-mem i set (ground (arith, e, key, w.indexed p i))) found)
      ]

  list-elim :
      (p j : ℕ) (c : C) (s : InMemoryCapabilityStore C)
      → (j, c) ∈ list_capabilities p s
      → (i : ℕ) × (get_capability p i s ≡ ok c)
  unfolding list_capabilities
  list-elim p j c s m = elim (Option-cases (HashMap.get p s.plugin_capabilities)) [
    | inl e ↦ elim (rw (list_capabilities, e) at m) [ ]
    | inr (set, e) ↦
        let (i, k, f) = mem-filter_map_elim (listed p s) set (rw (list_capabilities, e) at m) in
        (i, listed-get p i j c s f)
  ]

module _ {C : Type 0} ⦃t : Filterable C⦄ where
  -- In an indexed store a plugin is granted a request exactly when one of the capabilities that
  -- look-ups find for it permits the request.
  pub check_permission_exact :
      (p : ℕ) (r : AccessRequest) (s : InMemoryCapabilityStore C)
      → IsIndexed s
      → (check_permission p r s ≡ ok tt)
        ↔ ((i : ℕ) × (c : C) × (get_capability p i s ≡ ok c) × (is_ok (t.permits c r) ≡ true))
  unfolding check_permission
  check_permission_exact p r s w =
      let test : ℕ × C → Bool = λ l. is_ok (t.permits l.1 r) in
      (
        λ h.
            let (l, m, k) = any-elim test (list_capabilities p s) (ground (arith, h)) in
            let (i, e) = list-elim p l.0 l.1 s m in (i, l.1, e, k),
        λ (i, c, e, k). ground (arith, any-intro test (list-mem p i c s w e) k),
      )

  -- After a partial revocation the look-up of the capability's id finds one that permits what it
  -- permitted but for the revoked request, and every other look-up finds what permits the same.
  pub get_capability-partial_revoke :
      (p i : ℕ) (request : AccessRequest) (s u : InMemoryCapabilityStore C)
      → partial_revoke p i request s ≡ ok u
      → (q j : ℕ) (r : AccessRequest)
      → is_ok (get_capability q j u >>= λ c. t.permits c r) ≡ (
          is_ok (get_capability q j s >>= λ c. t.permits c r)
          && not (p == q && i == j && request_eq r request))
  unfolding partial_revoke replace_capability get_capability
  get_capability-partial_revoke p i request s u h q j r =
      let (c, found, replaced) =
        bind-eq-ok (get_capability p i s)
          (λ c. replace_capability p i (apply_partial_revocation c request) s) h in
      let next : CapabilityEntry C → CapabilityEntry C = λ entry. record {
        capability = apply_partial_revocation c request;
        generation = (entry.generation + 1) % u64_mod;
      } in
      ground (
        arith,
        found,
        replaced,
        get-modify (q, j) (p, i) next s.capabilities,
        revocation_exact c request r,
        ap (λ k. HashMap.get k s.capabilities) {x = (p, i)} {y = (q, j)},
        ==_iff p q,
        ==_iff i j,
      )

module _ {C : Type 0} where
  -- A capability that is added to an indexed store is found under the id that is returned, which
  -- was free, and every other look-up finds what it found.
  pub get_capability-add_capability :
      (p : ℕ) (c : C) (s : InMemoryCapabilityStore C)
      → IsIndexed s
      → (q j : ℕ)
      → (get_capability q j (add_capability p c s).1
          ≡ (if p == q && (add_capability p c s).0 == j then ok c else get_capability q j s))
        × (HashMap.contains_key (p, (add_capability p c s).0) s.capabilities ≡ false)
  unfolding add_capability get_capability
  get_capability-add_capability p c s w q j =
      let id = s.next_capability_id in
      let entry : CapabilityEntry C = record { capability = c; generation = 1 } in
      (ground (arith, get-insert (q, j) (p, id) entry s.capabilities), ground (arith, w.fresh p id))
