-- ===== src/Capability/Network/Ports.antt =====
-- The operations of a port under `leq`, and after the constraints.
use liongate.Base.{
  true, Option, none, some, [], ◌∷◌, ◌≡◌, refl, ap, inl, inr, arith, Option-cases, ok,
  if◌then◌else◌,
}
use liongate.Base.HashMap
use liongate.Base.HashMap.{get-insert, get-is_empty}
use liongate.Capability.Network.{
  NetworkOperations, port_Eq, intersection, contains, no_flags, Port, PortOperations,
  NetworkCapability, operations_for_port, ports_leq, restrict_ports, apply_operation_constraint,
}

pub contains_trans :
    (a b c : NetworkOperations) → contains a b ≡ true → contains b c ≡ true → contains a c ≡ true
contains_trans a b c h k = ground arith

pub operations-listed :
    (c : NetworkCapability) (p : Port) (o : NetworkOperations)
    → HashMap.get p c.port_operations ≡ some o
    → operations_for_port c p ≡ o
unfolding operations_for_port
operations-listed c p o e = rw (operations_for_port, e)

pub operations-default :
    (c : NetworkCapability) (p : Port)
    → HashMap.get p c.port_operations ≡ none
    → operations_for_port c p ≡ c.default_operations
unfolding operations_for_port
operations-default c p e = rw (operations_for_port, e)

ports_leq_elim :
    (d : NetworkCapability) (m : PortOperations) (p : Port) (o : NetworkOperations)
    → ports_leq d m ≡ true
    → HashMap.get p m ≡ some o
    → contains (operations_for_port d p) o ≡ true
unfolding ports_leq HashMap.get
ports_leq_elim d [] p o h e = cc
ports_leq_elim d ((q, w) ∷ m) p o h e = ground (
  arith,
  port_Eq.beq_iff q p,
  ports_leq_elim d m p o,
  ap (λ j. contains (operations_for_port d j) o) {x = q} {y = p},
)

-- Where the larger capability lists no port but those of the smaller, it has at every port the
-- operations of the smaller.
pub ports_leq-contains :
    (c d : NetworkCapability)
    → ((p : Port)
        → HashMap.contains_key p d.port_operations ≡ true
        → HashMap.contains_key p c.port_operations ≡ true)
    → contains d.default_operations c.default_operations ≡ true
    → ports_leq d c.port_operations ≡ true
    → (p : Port) → contains (operations_for_port d p) (operations_for_port c p) ≡ true
ports_leq-contains c d listed default ports p =
    elim (Option-cases (HashMap.get p c.port_operations)) [
      | inl e ↦ elim (Option-cases (HashMap.get p d.port_operations)) [
        | inl f ↦ rw (operations-default c p e, operations-default d p f) default
        | inr (o, f) ↦ absurd (ground (arith, listed p, e, f))
      ]
      | inr (o, e) ↦ rw (operations-listed c p o e) (ports_leq_elim d c.port_operations p o ports e)
    ]

-- What the port entry becomes: it goes with its last operation.
abbrev pub restricted : NetworkOperations → Option NetworkOperations → Option NetworkOperations
restricted new_ops none = none
restricted new_ops (some o) =
    if no_flags (intersection o new_ops) then none else some (intersection o new_ops)

get-restrict_ports :
    (new_ops : NetworkOperations) (m : PortOperations)
    → HashMap.IsUnique m
    → (p : Port) → HashMap.get p (restrict_ports new_ops m) ≡ restricted new_ops (HashMap.get p m)
unfolding restrict_ports HashMap.get
get-restrict_ports new_ops [] u p = refl
get-restrict_ports new_ops ((q, w) ∷ m) u p = ground (
  arith,
  port_Eq.beq_iff q p,
  u.0,
  get-restrict_ports new_ops m u.1 p,
  get-insert p q (intersection w new_ops) (restrict_ports new_ops m),
  ap (λ j. HashMap.get j m) {x = q} {y = p},
)

abbrev pub or_default : NetworkOperations → Option NetworkOperations → NetworkOperations
or_default default none = default
or_default default (some o) = o

-- After an operation constraint a port has those of its operations that the constraint leaves; a
-- port that is not listed, or whose entry keeps no operation, has those of the default operations
-- that the constraint leaves.
pub operation_constraint_exact :
    (c d : NetworkCapability) (new_ops : NetworkOperations)
    → HashMap.IsUnique c.port_operations
    → apply_operation_constraint c new_ops ≡ ok d
    → (p : Port)
    → operations_for_port d p
      ≡ or_default
          (intersection c.default_operations new_ops)
          (restricted new_ops (HashMap.get p c.port_operations))
unfolding apply_operation_constraint operations_for_port
operation_constraint_exact c d new_ops u h p =
    ground (arith, h, get-restrict_ports new_ops c.port_operations u p)
