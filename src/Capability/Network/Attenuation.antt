-- ===== src/Capability/Network/Attenuation.antt =====
-- `constrain` on network capabilities never adds a permission, where hosts are names and operation
-- constraints meet a capability without default operations.
use liongate.Base.{
  ℕ, true, false, Option, none, some, List, [], ◌∷◌, ◌≡◌, refl, inl, inr, arith, any, All,
  Bool-cases, Option-cases, ok, ◌==◌, bind-eq-ok, ok_injective,
}
use liongate.Base.HashMap
use liongate.Base.HashMap.{IsUnique, insert-IsUnique}
use liongate.Base.Text.{Text}
use liongate.Capability.{
  AccessRequest, network, Constraint, network_host, network_port, network_operation,
}
use liongate.Capability.HostRule.{IpAddr, HostRule, any_host, domain}
use liongate.Capability.HostRule.Equality.{rule_Eq}
use liongate.Capability.HostRule.Subset.{domain_matches}
use liongate.Capability.Network.{
  NetworkOperations, no_operations, port_Eq, contains, no_flags, intersection, Port,
  NetworkCapability, operations_for_port, host_allowed, is_special_case, permits, rule_of_host,
  apply_host_constraint, apply_port_constraint, apply_operation_constraint, apply_constraint,
  constrain, restrict_ports,
}
use liongate.Capability.Network.Ports.{
  contains_trans, restricted, or_default, operation_constraint_exact, operations-listed,
  operations-default,
}
use liongate.Capability.Network.Order.{IsOrdinary}

restrict_ports-IsUnique :
    (new_ops : NetworkOperations) (m : HashMap.HashMap Port NetworkOperations)
    → IsUnique (restrict_ports new_ops m)
unfolding restrict_ports
restrict_ports-IsUnique new_ops [] = tt
restrict_ports-IsUnique new_ops ((q, w) ∷ m) =
    elim (Bool-cases (no_flags (intersection w new_ops))) [
      | inl e ↦ rw e (restrict_ports-IsUnique new_ops m)
      | inr e ↦ rw e (insert-IsUnique q _ _ (restrict_ports-IsUnique new_ops m))
    ]

restricted_below :
    (c : NetworkCapability) (new_ops : NetworkOperations) (p : Port)
    → no_flags c.default_operations ≡ true
    → contains (operations_for_port c p) (
        or_default
          (intersection c.default_operations new_ops)
          (restricted new_ops (HashMap.get p c.port_operations)))
      ≡ true
restricted_below c new_ops p h = elim (Option-cases (HashMap.get p c.port_operations)) [
  | inl e ↦ ground (arith, e, operations-default c p e)
  | inr (o, e) ↦ ground (arith, e, operations-listed c p o e)
]

-- `c` lists a port once, and allows the hosts and has the operations that `d` does.
module _ (parse_ip : Text → Option IpAddr) where
  record Below (d c : NetworkCapability) : Type 0 where
    hosts :
        (host : Option Text)
        → host_allowed parse_ip d host ≡ true
        → host_allowed parse_ip c host ≡ true
    operations : (p : Port) → contains (operations_for_port c p) (operations_for_port d p) ≡ true
    unique : IsUnique c.port_operations → IsUnique d.port_operations
    default : no_flags c.default_operations ≡ true → no_flags d.default_operations ≡ true

  Below-permits :
      {d c : NetworkCapability}
      → Below d c
      → (r : AccessRequest) → IsOrdinary r
      → permits parse_ip d r ≡ ok tt
      → permits parse_ip c r ≡ ok tt
  unfolding permits is_special_case
  Below-permits b (network host port connect listen bind) ordinary h =
      ground (arith, ordinary, b.operations port, b.hosts host)
  Below-permits b _ ordinary h = cc

  Below-refl : (c : NetworkCapability) → Below c c
  Below-refl c = record {
    hosts = λ host h. h;
    operations = λ p. ground arith;
    unique = λ u. u;
    default = λ h. h;
  }

  Below-trans : {a b c : NetworkCapability} → Below a b → Below b c → Below a c
  Below-trans {a} {b} {c} p q = record {
    hosts = λ host h. q.hosts host (p.hosts host h);
    operations = λ port.
        contains_trans (operations_for_port c port) (operations_for_port b port)
          (operations_for_port a port) (q.operations port) (p.operations port);
    unique = λ u. p.unique (q.unique u);
    default = λ h. p.default (q.default h);
  }

  -- A host that is a name, without a wildcard.
  abbrev pub IsName : Text → Type 0
  IsName host = (any (λ c. c == b'*') host ≡ false) × (parse_ip host ≡ none)

  -- Hosts are names, and operations are only constrained where there are no default operations.
  abbrev pub IsPlainConstraint : NetworkCapability → Constraint → Type 0
  IsPlainConstraint c (network_host host) = IsName host
  IsPlainConstraint c (network_operation connect listen bind) = no_flags c.default_operations ≡ true
  IsPlainConstraint c _ = Unit

  rule_of_name : (host : Text) → IsName host → rule_of_host parse_ip host ≡ domain host
  unfolding rule_of_host
  rule_of_name host (star, parsed) = rw (star, parsed)

  -- The capability with the hosts of one rule.
  abbrev with_rule : NetworkCapability → HostRule → NetworkCapability
  with_rule c rule = record {
    host_rules = rule ∷ [];
    port_operations = c.port_operations;
    default_operations = c.default_operations;
  }

  name_allowed :
      (c : NetworkCapability) (name : Text) (host : Option Text)
      → host_allowed parse_ip c (some name) ≡ true
      → host_allowed parse_ip (with_rule c (domain name)) host ≡ true
      → host_allowed parse_ip c host ≡ true
  unfolding host_allowed
  name_allowed c name none h k = absurd (ground (arith, k, rule_Eq.beq_iff (domain name) any_host))
  name_allowed c name (some host) h k =
      let same : host ≡ name =
        domain_matches parse_ip name host
          (ground (arith, k, rule_Eq.beq_iff (domain name) any_host)) in
      rw (host_allowed, same) h

  host_constraint-Below :
      (c d : NetworkCapability) (name : Text)
      → IsName name
      → apply_host_constraint parse_ip c name ≡ ok d
      → Below d c
  unfolding apply_host_constraint operations_for_port
  host_constraint-Below c d name n h =
      let e : d ≡ with_rule c (rule_of_host parse_ip name) = ground arith in
      rw (e, rule_of_name name n)
        (record {
          hosts = λ host k. name_allowed c name host (ground arith) k;
          operations = λ p. ground arith;
          unique = λ u. u;
          default = λ k. k;
        })

  port_constraint-Below :
      (c d : NetworkCapability) (port : ℕ) → apply_port_constraint c port ≡ ok d → Below d c
  unfolding apply_port_constraint operations_for_port host_allowed HashMap.get
  port_constraint-Below c d port h =
      let e : d ≡ record {
        host_rules = c.host_rules;
        port_operations = (some port, operations_for_port c (some port)) ∷ [];
        default_operations = no_operations;
      } =
        ground arith in
      rw e (record {
        hosts = λ host k. ground arith;
        operations = λ p. ground (arith, port_Eq.beq_iff (some port) p);
        unique = λ u. (refl, tt);
        default = λ k. refl;
      })

  operation_constraint-Below :
      (c d : NetworkCapability) (new_ops : NetworkOperations)
      → IsUnique c.port_operations
      → no_flags c.default_operations ≡ true
      → apply_operation_constraint c new_ops ≡ ok d
      → Below d c
  unfolding apply_operation_constraint host_allowed
  operation_constraint-Below c d new_ops u closed h = record {
    hosts = λ host k. ground arith;
    operations = λ p.
        rw (operation_constraint_exact c d new_ops u h p) (restricted_below c new_ops p closed);
    unique = λ v.
        let e : d.port_operations ≡ restrict_ports new_ops c.port_operations = ground arith in
        rw e (restrict_ports-IsUnique new_ops c.port_operations);
    default = λ k. ground arith;
  }

  apply_constraint-Below :
      (c d : NetworkCapability) (k : Constraint)
      → IsUnique c.port_operations
      → IsPlainConstraint c k
      → apply_constraint parse_ip c k ≡ ok d
      → Below d c
  unfolding apply_constraint
  apply_constraint-Below c d (network_host host) u plain h = host_constraint-Below c d host plain h
  apply_constraint-Below c d (network_port port) u plain h = port_constraint-Below c d port h
  apply_constraint-Below c d (network_operation connect listen bind) u plain h =
      operation_constraint-Below c d _ u plain h
  apply_constraint-Below c d _ u plain h = cc

  plain-Below :
      {c d : NetworkCapability}
      → Below d c
      → (ks : List Constraint) → All (IsPlainConstraint c) ks
      → All (IsPlainConstraint d) ks
  plain-Below b [] plain = tt
  plain-Below b (network_host host ∷ ks) plain = (plain.0, plain-Below b ks plain.1)
  plain-Below b (network_operation connect listen bind ∷ ks) plain =
      (b.default plain.0, plain-Below b ks plain.1)
  plain-Below b (_ ∷ ks) plain = (tt, plain-Below b ks plain.1)

  constrain-Below :
      (c d : NetworkCapability) (ks : List Constraint)
      → IsUnique c.port_operations
      → All (IsPlainConstraint c) ks
      → constrain parse_ip c ks ≡ ok d
      → Below d c
  unfolding constrain
  constrain-Below c d [] u plain h = rw (ok_injective h) (Below-refl d)
  constrain-Below c d (k ∷ ks) u plain h =
      let (e, first, rest) =
        bind-eq-ok (apply_constraint parse_ip c k) (λ x. constrain parse_ip x ks) h in
      let below = apply_constraint-Below c e k u plain.0 first in
      Below-trans (constrain-Below e d ks (below.unique u) (plain-Below below ks plain.1) rest)
        below

  -- Constraining a network capability by host names, by ports and, where it has no default
  -- operations, by operations never adds a permission, but for listening alone on port 8080.
  pub network_constrain-permits :
      (c d : NetworkCapability) (ks : List Constraint)
      → IsUnique c.port_operations
      → All (IsPlainConstraint c) ks
      → constrain parse_ip c ks ≡ ok d
      → (r : AccessRequest) → IsOrdinary r
      → permits parse_ip d r ≡ ok tt
      → permits parse_ip c r ≡ ok tt
  network_constrain-permits c d ks u plain h = Below-permits (constrain-Below c d ks u plain h)
