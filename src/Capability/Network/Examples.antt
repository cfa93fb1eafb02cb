-- ===== src/Capability/Network/Examples.antt =====
-- Network capabilities at concrete inputs.
use liongate.Base.{true, false, Option, none, some, [], ◌∷◌, ok, ◌≡◌, refl, if◌then◌else◌}
use liongate.Base.HashMap
use liongate.Base.Text.{Text, codes, text_eq, strip_suffix, has_prefix}
use liongate.Capability.{network, network_host, network_port, network_operation}
use liongate.Capability.HostRule.{
  IpAddr, v4, domain, wildcard_domain, matches, is_subset_of, wildcard_matches,
}
use liongate.Capability.Network.{
  NetworkCapability, NetworkOperations, no_operations, constrain, apply_constraint,
  apply_host_constraint, apply_port_constraint, apply_operation_constraint, host_allowed,
  operations_for_port, rule_of_host, restrict_ports, permits, is_special_case, leq, ports_leq,
}
use liongate.Capability.Network.Attenuation.{network_constrain-permits}
use liongate.Capability.Network.Order.{network_leq-permits}
use liongate.Capability.Network.Ports.{operation_constraint_exact}

-- The parser of the examples reads one IPv4 address.
abbrev parse_ip : Text → Option IpAddr
parse_ip text = if text_eq text (codes "10.0.0.7") then some (v4 167772167) else none

abbrev connect_only : NetworkOperations
connect_only = record { connect = true; listen = false; bind = false }

abbrev web : NetworkCapability
web = record {
  host_rules = wildcard_domain (codes ".example.com") ∷ [];
  port_operations = (some 22, record { connect = false; listen = true; bind = false }) ∷ [];
  default_operations = connect_only;
}

abbrev host : Text
host = codes "www.example.com"

abbrev narrow : NetworkCapability
narrow = record {
  host_rules = domain host ∷ [];
  port_operations = (some 22, record { connect = false; listen = true; bind = false }) ∷ [];
  default_operations = no_operations;
}

abbrev escalated : NetworkCapability
escalated = record {
  host_rules = wildcard_domain (codes ".example.com") ∷ [];
  port_operations = [];
  default_operations = connect_only;
}

abbrev closed : NetworkCapability
closed = record {
  host_rules = wildcard_domain (codes ".example.com") ∷ [];
  port_operations = (some 443, connect_only) ∷ [];
  default_operations = no_operations;
}

abbrev constrained : NetworkCapability
constrained = record {
  host_rules = domain host ∷ [];
  port_operations = (some 443, connect_only) ∷ [];
  default_operations = no_operations;
}

network_constrain-permits_example :
    permits parse_ip closed (network (some host) (some 443) true false false) ≡ ok tt
unfolding constrain apply_constraint apply_host_constraint apply_port_constraint
    apply_operation_constraint host_allowed operations_for_port rule_of_host restrict_ports permits
    is_special_case HashMap.get HashMap.insert matches wildcard_matches text_eq strip_suffix
    has_prefix
network_constrain-permits_example =
    network_constrain-permits parse_ip closed constrained
      (network_host host ∷ network_operation true false false ∷ network_port 443 ∷ []) (refl, tt)
      ((refl, refl), (refl, (tt, tt))) refl (network (some host) (some 443) true false false) refl
      refl

network_leq-permits_example :
    permits parse_ip web (network (some host) (some 22) false true false) ≡ ok tt
unfolding leq ports_leq permits is_special_case operations_for_port host_allowed HashMap.get
    is_subset_of matches wildcard_matches text_eq strip_suffix has_prefix
network_leq-permits_example =
    network_leq-permits parse_ip narrow web (tt, tt) (refl, tt) (λ p h. h) refl
      (network (some host) (some 22) false true false) refl refl

-- The port that may only be listened on loses its entry and gets the default operations.
operation_constraint_exact_example : operations_for_port escalated (some 22) ≡ connect_only
unfolding apply_operation_constraint restrict_ports HashMap.get HashMap.insert
operation_constraint_exact_example =
    operation_constraint_exact web escalated connect_only (refl, tt) refl (some 22)
