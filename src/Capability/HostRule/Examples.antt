-- ===== src/Capability/HostRule/Examples.antt =====
-- Host rules at concrete inputs.
use liongate.Base.{true, false, Option, none, some, ◌≡◌, refl, arith, if◌then◌else◌}
use liongate.Base.Text.{Text, codes, text_eq, strip_suffix, has_prefix}
use liongate.Capability.HostRule.{
  IpAddr, v4, domain, wildcard_domain, ipv4_subnet, matches, is_subset_of, same_v4, shift_v4,
  masked, wildcard_matches,
}
use liongate.Capability.HostRule.Subset.{is_subset_of-matches}

-- The parser of the examples reads one IPv4 address.
abbrev parse_ip : Text → Option IpAddr
parse_ip text = if text_eq text (codes "10.0.0.7") then some (v4 167772167) else none

is_subset_of-matches_example : matches parse_ip (ipv4_subnet 167772160 16) (codes "10.0.0.7") ≡ true
unfolding is_subset_of same_v4 shift_v4 masked matches text_eq
is_subset_of-matches_example =
    is_subset_of-matches parse_ip (ipv4_subnet 167772160 24) (ipv4_subnet 167772160 16)
      (omega arith, omega arith) (omega arith, omega arith) refl (codes "10.0.0.7") refl

-- A bare suffix: the domain passes as a subset, but the wildcard does not match it.
bare_suffix :
    (is_subset_of (domain (codes "badexample.com")) (wildcard_domain (codes "example.com")) ≡ true)
    × (matches parse_ip (wildcard_domain (codes "example.com")) (codes "badexample.com") ≡ false)
unfolding is_subset_of matches wildcard_matches strip_suffix has_prefix text_eq
bare_suffix = (refl, refl)

-- A prefix of length zero matches one address only.
zero_prefix : matches parse_ip (ipv4_subnet 167772168 0) (codes "10.0.0.7") ≡ false
unfolding matches same_v4 shift_v4 masked text_eq
zero_prefix = refl
