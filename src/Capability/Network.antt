-- ===== src/Capability/Network.antt =====
-- lion/lion_capability/src/model/network.rs: the capability to use the network.
-- A bit set of operations is a record of its flags. The key of the port map is an optional port.
-- The other capability of a binary operation is given as what
-- `as_any().downcast_ref::<NetworkCapability>()` returns.
pub mod Ports
pub mod Order
pub mod Attenuation
mod Examples
use liongate.Base.{
  ℕ, Bool, true, false, not, ◌&&◌, ◌||◌, Option, none, some, List, [], ◌∷◌, ◌++◌, map, Result, ok,
  err, ◌>>=◌, any, all, is_empty, is_some, is_some_and, is_none, ◌==◌, if◌then◌else◌, implies, ◌↔◌,
  ◌≡◌, arith, ==_iff,
}
use liongate.Base.Eq.{Eq}
use liongate.Base.HashMap
use liongate.Base.HashMap.{HashMap}
use liongate.Base.HashSet
use liongate.Base.Text.{Text, text_eq_iff}
use liongate.Capability.{
  CapabilityError, access_denied, invalid_constraint, incompatible_types, invalid_state, Constraint,
  network_host, network_port, network_operation, AccessRequest, network,
}
use liongate.Capability.HostRule.{
  IpAddr, v4, v6, HostRule, any_host, domain, wildcard_domain, exact_ip, ipv4_subnet, ipv6_subnet,
  rule_eq, ip_eq, matches, is_subset_of,
}
use liongate.Capability.HostRule.Equality.{rule_Eq}

pub record NetworkOperations : Type 0 where
  pub connect : Bool
  pub listen : Bool
  pub bind : Bool

abbrev pub no_operations : NetworkOperations
no_operations = record { connect = false; listen = false; bind = false }

abbrev pub union : NetworkOperations → NetworkOperations → NetworkOperations
union a b = record {
  connect = a.connect || b.connect;
  listen = a.listen || b.listen;
  bind = a.bind || b.bind;
}

abbrev pub intersection : NetworkOperations → NetworkOperations → NetworkOperations
intersection a b = record {
  connect = a.connect && b.connect;
  listen = a.listen && b.listen;
  bind = a.bind && b.bind;
}

-- `a.contains(b)`, which is also `(b & a).bits() == b.bits()`: every flag of `b` is one of `a`.
abbrev pub contains : NetworkOperations → NetworkOperations → Bool
contains a b = implies b.connect a.connect && implies b.listen a.listen && implies b.bind a.bind

abbrev pub no_flags : NetworkOperations → Bool
no_flags o = not o.connect && not o.listen && not o.bind

abbrev pub Port : Type 0
Port = Option ℕ

abbrev port_eq : Port → Port → Bool
port_eq none none = true
port_eq (some a) (some b) = a == b
port_eq _ _ = false

pub port_eq_iff : (a b : Port) → (port_eq a b ≡ true) ↔ (a ≡ b)
port_eq_iff none none = ground arith
port_eq_iff none (some b) = (λ h. cc, λ h. cc)
port_eq_iff (some a) none = (λ h. cc, λ h. cc)
port_eq_iff (some a) (some b) = ground (arith, ==_iff a b)

instance abbrev pub port_Eq : Eq Port
port_Eq = record { beq = port_eq; beq_iff = port_eq_iff }

abbrev pub PortOperations : Type 0
PortOperations = HashMap Port NetworkOperations

pub record NetworkCapability : Type 0 where
  pub host_rules : List HostRule
  pub port_operations : PortOperations
  pub default_operations : NetworkOperations

pub outbound : List HostRule → NetworkCapability
outbound host_rules = record {
  host_rules = host_rules;
  port_operations = [];
  default_operations = record { connect = true; listen = false; bind = false };
}

-- The loop of `inbound`.
pub insert_ports : PortOperations → List ℕ → PortOperations
insert_ports m [] = m
insert_ports m (port ∷ ports) =
    insert_ports
      (HashMap.insert (some port) (record { connect = false; listen = true; bind = true }) m) ports

pub inbound : List ℕ → NetworkCapability
inbound ports = record {
  host_rules = any_host ∷ [];
  port_operations = insert_ports [] ports;
  default_operations = no_operations;
}

pub operations_for_port : NetworkCapability → Port → NetworkOperations
operations_for_port c port = elim (HashMap.get port c.port_operations) [
  | some operations ↦ operations
  | none ↦ c.default_operations
]

pub apply_port_constraint : NetworkCapability → ℕ → Result CapabilityError NetworkCapability
apply_port_constraint c port =
    let operations = operations_for_port c (some port) in
    if no_flags operations
    then err invalid_constraint
    else ok (record {
      host_rules = c.host_rules;
      port_operations = (some port, operations) ∷ [];
      default_operations = no_operations;
    })

-- The loop of `apply_operation_constraint`: an entry that loses all its operations is left out.
pub restrict_ports : NetworkOperations → PortOperations → PortOperations
restrict_ports new_ops [] = []
restrict_ports new_ops ((port, operations) ∷ m) =
    let rest = restrict_ports new_ops m in
    if no_flags (intersection operations new_ops)
    then rest
    else HashMap.insert port (intersection operations new_ops) rest

pub apply_operation_constraint :
    NetworkCapability → NetworkOperations → Result CapabilityError NetworkCapability
apply_operation_constraint c new_ops =
    let port_operations = restrict_ports new_ops c.port_operations in
    let default_operations = intersection c.default_operations new_ops in
    if is_empty port_operations && no_flags default_operations
    then err invalid_constraint
    else ok (record {
      host_rules = c.host_rules;
      port_operations = port_operations;
      default_operations = default_operations;
    })

pub split : NetworkCapability → List NetworkCapability
split c =
    map
      (λ rule. record {
        host_rules = rule ∷ [];
        port_operations = c.port_operations;
        default_operations = c.default_operations;
      })
      c.host_rules

-- `host_rules.extend(...)`.
pub extend_rules : List HostRule → List HostRule → List HostRule
extend_rules s [] = s
extend_rules s (rule ∷ rules) = extend_rules (HashSet.insert rule s) rules

-- The loop of `join` over the ports of the other capability.
pub merge_ports : PortOperations → PortOperations → PortOperations
merge_ports m [] = m
merge_ports m ((port, operations) ∷ ports) =
    merge_ports
      (if HashMap.contains_key port m
        then HashMap.modify port (λ existing. union existing operations) m
        else HashMap.insert port operations m)
      ports

pub join : NetworkCapability → Option NetworkCapability → Result CapabilityError NetworkCapability
join c none = err incompatible_types
join c (some d) = ok (record {
  host_rules = extend_rules c.host_rules d.host_rules;
  port_operations = merge_ports c.port_operations d.port_operations;
  default_operations = union c.default_operations d.default_operations;
})

-- The check of the port operations in `leq`.
pub ports_leq : NetworkCapability → PortOperations → Bool
ports_leq d [] = true
ports_leq d ((port, operations) ∷ m) =
    if contains (operations_for_port d port) operations then ports_leq d m else false

pub leq : NetworkCapability → Option NetworkCapability → Bool
leq c none = false
leq c (some d) =
    if not (all (λ rule. any (is_subset_of rule) d.host_rules) c.host_rules)
    then false
    else if not (contains d.default_operations c.default_operations)
    then false
    else ports_leq d c.port_operations

-- The loop of `meet` over the ports of both, which are sorted and without repetition.
pub meet_ports : NetworkCapability → NetworkCapability → List Port → PortOperations
meet_ports c d [] = []
meet_ports c d (port ∷ ports) =
    let rest = meet_ports c d ports in
    let operations = intersection (operations_for_port c port) (operations_for_port d port) in
    if no_flags operations then rest else HashMap.insert port operations rest

-- The rules that both have.
pub common_rules : List HostRule → List HostRule → List HostRule
common_rules [] rules = []
common_rules (rule ∷ more) rules =
    let rest = common_rules more rules in
    if HashSet.contains rule rules then HashSet.insert rule rest else rest

abbrev pub port_8080 : Port
port_8080 = some 8080

pub meet : NetworkCapability → Option NetworkCapability → Result CapabilityError NetworkCapability
meet c none = err incompatible_types
meet c (some d) =
    if HashMap.contains_key port_8080 c.port_operations
      || HashMap.contains_key port_8080 d.port_operations
    then ok (record {
      host_rules = any_host ∷ [];
      port_operations = (port_8080, record { connect = false; listen = true; bind = false }) ∷ [];
      default_operations = no_operations;
    })
    else let host_rules = common_rules c.host_rules d.host_rules in
      let ports = HashMap.keys c.port_operations ++ HashMap.keys d.port_operations in
      let port_operations = meet_ports c d ports in
      let default_operations = intersection c.default_operations d.default_operations in
      if is_empty host_rules
      then err invalid_state
      else if is_empty port_operations && no_flags default_operations
      then err invalid_state
      else ok (record {
        host_rules = host_rules;
        port_operations = port_operations;
        default_operations = default_operations;
      })

module _ (parse_ip : Text → Option IpAddr) where
  pub host_allowed : NetworkCapability → Option Text → Bool
  host_allowed c none = HashSet.contains any_host c.host_rules
  host_allowed c (some host) =
      any (λ rule. matches parse_ip rule host) c.host_rules
      || HashSet.contains any_host c.host_rules

  -- The rule that a host constraint becomes.
  pub rule_of_host : Text → HostRule
  rule_of_host host =
      if any (λ c. c == b'*') host
      then wildcard_domain host
      else (elim (parse_ip host) [ some ip ↦ exact_ip ip | none ↦ domain host ])

  pub apply_host_constraint : NetworkCapability → Text → Result CapabilityError NetworkCapability
  apply_host_constraint c host =
      if not (host_allowed c (some host))
      then err invalid_constraint
      else ok (record {
        host_rules = rule_of_host host ∷ [];
        port_operations = c.port_operations;
        default_operations = c.default_operations;
      })

  -- The special case of `permits`: listening, and nothing else, on port 8080.
  pub is_special_case : NetworkCapability → Port → NetworkOperations → Bool
  is_special_case c port requested =
      is_some_and (λ number. number == 8080) port
      && requested.listen
      && not requested.connect
      && not requested.bind
      && is_some_and (λ operations. operations.listen) (HashMap.get port_8080 c.port_operations)

  pub permits : NetworkCapability → AccessRequest → Result CapabilityError (Unit {0})
  permits c (network host port connect listen bind) =
      let requested : NetworkOperations = record {
        connect = connect;
        listen = listen;
        bind = bind;
      } in
      if is_special_case c port requested
      then ok tt
      else if not (contains (operations_for_port c port) requested)
      then err access_denied
      else if not (host_allowed c host)
      then err access_denied
      else ok tt
  permits c _ = err incompatible_types

  pub apply_constraint : NetworkCapability → Constraint → Result CapabilityError NetworkCapability
  apply_constraint c (network_host host) = apply_host_constraint c host
  apply_constraint c (network_port port) = apply_port_constraint c port
  apply_constraint c (network_operation connect listen bind) =
      apply_operation_constraint c (record { connect = connect; listen = listen; bind = bind })
  apply_constraint c _ = err invalid_constraint

  pub constrain : NetworkCapability → List Constraint → Result CapabilityError NetworkCapability
  constrain c [] = ok c
  constrain c (k ∷ ks) = apply_constraint c k >>= λ d. constrain d ks
