-- ===== src/Capability/Network/Order.antt =====
-- `permits` in the order of network capabilities: `leq` is sound on proper rules, and `meet` is not
-- below its arguments where one lists port 8080.
use liongate.Base.{
  Bool, true, false, Option, none, some, List, [], ◌∷◌, ◌≡◌, refl, arith, any, all, any-intro,
  any-elim, all-elim, All, All-mem, ok, ◌||◌, ◌==◌, is_some_and, ◌&&◌, not,
}
use liongate.Base.HashMap
use liongate.Base.HashSet
use liongate.Base.Text.{Text}
use liongate.Capability.{AccessRequest, network}
use liongate.Capability.HostRule.{IpAddr, HostRule, any_host, matches, is_subset_of}
use liongate.Capability.HostRule.Equality.{rule_Eq}
use liongate.Capability.HostRule.Subset.{IsProperRule, subset_any, is_subset_of-matches}
use liongate.Capability.Network.{
  port_Eq, Port, port_8080, NetworkCapability, host_allowed, is_special_case, no_operations,
  permits, leq, meet,
}
use liongate.Capability.Network.Ports.{ports_leq-contains}

-- A request that the special case of `permits` is not about.
abbrev pub IsOrdinary : AccessRequest → Type 0
IsOrdinary (network host port connect listen bind) =
    is_some_and (λ number. number == 8080) port && listen && not connect && not bind ≡ false
IsOrdinary _ = Unit

-- Every port that the second lists is one that the first lists.
abbrev pub ListsPortsOf : NetworkCapability → NetworkCapability → Type 0
ListsPortsOf c d =
    (p : Port)
    → HashMap.contains_key p d.port_operations ≡ true
    → HashMap.contains_key p c.port_operations ≡ true

abbrev rules_leq : List HostRule → List HostRule → Bool
rules_leq rules others = all (λ rule. any (is_subset_of rule) others) rules

rules_leq_any :
    (rules others : List HostRule)
    → rules_leq rules others ≡ true
    → HashSet.contains any_host rules ≡ true
    → HashSet.contains any_host others ≡ true
rules_leq_any rules others h k =
    let below =
      all-elim (λ rule. any (is_subset_of rule) others) h (HashSet.contains-mem any_host rules k) in
    let (rule, m, s) = any-elim (is_subset_of any_host) others below in
    rw (← subset_any rule s) (HashSet.contains-of_mem m)

module _ (parse_ip : Text → Option IpAddr) where
  rules_leq-matches :
      (rules others : List HostRule) (host : Text)
      → All IsProperRule rules
      → All IsProperRule others
      → rules_leq rules others ≡ true
      → any (λ rule. matches parse_ip rule host) rules ≡ true
      → any (λ rule. matches parse_ip rule host) others ≡ true
  rules_leq-matches rules others host p q h k =
      let (a, m, e) = any-elim (λ rule. matches parse_ip rule host) rules k in
      let (b, n, s) =
        any-elim (is_subset_of a) others (all-elim (λ rule. any (is_subset_of rule) others) h m) in
      any-intro (λ rule. matches parse_ip rule host) n
        (is_subset_of-matches parse_ip a b (All-mem IsProperRule p m) (All-mem IsProperRule q n) s
          host e)

  host_allowed_mono :
      (c d : NetworkCapability) (host : Option Text)
      → All IsProperRule c.host_rules
      → All IsProperRule d.host_rules
      → rules_leq c.host_rules d.host_rules ≡ true
      → host_allowed parse_ip c host ≡ true
      → host_allowed parse_ip d host ≡ true
  unfolding host_allowed
  host_allowed_mono c d none p q h k = rules_leq_any c.host_rules d.host_rules h k
  host_allowed_mono c d (some host) p q h k = ground (
    arith,
    rules_leq_any c.host_rules d.host_rules h,
    rules_leq-matches c.host_rules d.host_rules host p q h,
  )

  -- If one network capability is leq another whose listed ports it lists too, and all their host
  -- rules are proper, then every request but listening alone on port 8080 that it grants is granted
  -- by the other.
  pub network_leq-permits :
      (c d : NetworkCapability)
      → All IsProperRule c.host_rules
      → All IsProperRule d.host_rules
      → ListsPortsOf c d
      → leq c (some d) ≡ true
      → (r : AccessRequest) → IsOrdinary r
      → permits parse_ip c r ≡ ok tt
      → permits parse_ip d r ≡ ok tt
  unfolding permits leq is_special_case
  network_leq-permits c d p q listed h (network host port connect listen bind) ordinary k = ground (
    arith,
    ordinary,
    host_allowed_mono c d host p q,
    ports_leq-contains c d listed (ground arith) (ground arith) port,
  )
  network_leq-permits c d p q listed h _ ordinary k = cc

  -- The meet of two network capabilities of which one lists port 8080 grants listening on that port
  -- whatever the host, and whether or not they grant it.
  pub meet_grants_8080 :
      (c d : NetworkCapability)
      → HashMap.contains_key port_8080 c.port_operations
          || HashMap.contains_key port_8080 d.port_operations
        ≡ true
      → (m : NetworkCapability) × (meet c (some d) ≡ ok m)
        × ((host : Option Text)
            → permits parse_ip m (network host port_8080 false true false) ≡ ok tt)
  unfolding meet permits is_special_case HashMap.get
  meet_grants_8080 c d h =
      let m : NetworkCapability = record {
        host_rules = any_host ∷ [];
        port_operations = (port_8080, record { connect = false; listen = true; bind = false }) ∷ [];
        default_operations = no_operations;
      } in
      (m, rw h refl, λ host. refl)
