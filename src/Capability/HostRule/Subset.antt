-- ===== src/Capability/HostRule/Subset.antt =====
-- `is_subset_of` against `matches`: what a rule that is a subset matches, the other matches too.
use liongate.Base.{
  ℕ, true, List, Option, none, some, [], ◌∷◌, ◌≡◌, refl, ap, ◌∙◌, ◌⊎◌, inl, inr, arith,
  Option-cases,
}
use liongate.Base.Text.{Text, text_eq_sound, has_prefix}
use liongate.Capability.HostRule.{
  IpAddr, v4, v6, HostRule, any_host, domain, wildcard_domain, exact_ip, ipv4_subnet, ipv6_subnet,
  ends_with, same_v4, same_v6, wildcard_matches, matches, is_subset_of,
}
use liongate.Capability.HostRule.Equality.{ip_eq_sound}
use liongate.Capability.HostRule.Suffix.{ends_with_trans}
use liongate.Capability.HostRule.Addresses.{
  IsV4Prefix, same_v4_mono, same_v4_trans, same_v4_sym, same_v6_mono, same_v6_trans,
}

-- A wildcard is written with its dot, and the prefix of an IPv4 subnet leaves a shift within the
-- word.
abbrev pub IsProperRule : HostRule → Type 0
IsProperRule (wildcard_domain suffix) = has_prefix (b'.' ∷ []) suffix ≡ true
IsProperRule (ipv4_subnet address prefix_len) = IsV4Prefix prefix_len
IsProperRule _ = Unit

pub subset_any : (rule : HostRule) → is_subset_of any_host rule ≡ true → rule ≡ any_host
unfolding is_subset_of
subset_any any_host h = refl
subset_any _ h = cc

ip_cases :
    (o : Option IpAddr)
    → (o ≡ none) ⊎ (((n : ℕ) × (o ≡ some (v4 n))) ⊎ ((xs : List ℕ) × (o ≡ some (v6 xs))))
ip_cases none = inl refl
ip_cases (some (v4 n)) = inr (inl (n, refl))
ip_cases (some (v6 xs)) = inr (inr (xs, refl))

wildcard_dotted :
    (suffix host : Text)
    → has_prefix (b'.' ∷ []) suffix ≡ true
    → wildcard_matches suffix host ≡ ends_with host suffix
unfolding wildcard_matches
wildcard_dotted suffix host h = rw h

module _ (parse_ip : Text → Option IpAddr) where
  v4_subnet_elim :
      (a p : ℕ) (host : Text)
      → matches parse_ip (ipv4_subnet a p) host ≡ true
      → (ip : ℕ) × (parse_ip host ≡ some (v4 ip)) × (same_v4 a ip p ≡ true)
  unfolding matches
  v4_subnet_elim a p host m = elim (ip_cases (parse_ip host)) [
    | inl e ↦ absurd (ground (arith, e, m))
    | inr (inl (ip, e)) ↦ (ip, e, rw (matches, e) at m)
    | inr (inr (xs, e)) ↦ absurd (ground (arith, e, m))
  ]

  v6_subnet_elim :
      (xs : List ℕ) (p : ℕ) (host : Text)
      → matches parse_ip (ipv6_subnet xs p) host ≡ true
      → (ip : List ℕ) × (parse_ip host ≡ some (v6 ip)) × (same_v6 ip xs p ≡ true)
  unfolding matches
  v6_subnet_elim xs p host m = elim (ip_cases (parse_ip host)) [
    | inl e ↦ absurd (ground (arith, e, m))
    | inr (inl (ip, e)) ↦ absurd (ground (arith, e, m))
    | inr (inr (ip, e)) ↦ (ip, e, rw (matches, e) at m)
  ]

  exact_elim :
      (a : IpAddr) (host : Text)
      → matches parse_ip (exact_ip a) host ≡ true
      → parse_ip host ≡ some a
  unfolding matches
  exact_elim a host m = elim (Option-cases (parse_ip host)) [
    | inl e ↦ absurd (ground (arith, e, m))
    | inr (ip, e) ↦ e ∙ ap some (ip_eq_sound ip a (rw (matches, e) at m))
  ]

  -- Where both rules are proper, a host that the smaller rule matches is matched by the larger.
  pub is_subset_of-matches :
      (a b : HostRule)
      → IsProperRule a
      → IsProperRule b
      → is_subset_of a b ≡ true
      → (host : Text) → matches parse_ip a host ≡ true
      → matches parse_ip b host ≡ true
  unfolding is_subset_of matches
  is_subset_of-matches a any_host p q h host m = refl
  is_subset_of-matches (domain a) (domain b) p q h host m = rw (text_eq_sound host a m) h
  is_subset_of-matches (domain a) (wildcard_domain b) p q h host m =
      let ends : ends_with a b ≡ true = ground arith in
      rw (wildcard_dotted b host q, text_eq_sound host a m) ends
  is_subset_of-matches (wildcard_domain a) (wildcard_domain b) p q h host m = ground (
    arith,
    wildcard_dotted a host p,
    wildcard_dotted b host q,
    text_eq_sound a b,
    ends_with_trans host a b,
    ap (λ t. ends_with host t) {x = a} {y = b},
  )
  is_subset_of-matches (exact_ip a) (exact_ip b) p q h host m = rw (← ip_eq_sound a b h) m
  is_subset_of-matches (exact_ip (v4 a)) (ipv4_subnet b n) p q h host m =
      rw (matches, exact_elim (v4 a) host m) h
  is_subset_of-matches (exact_ip (v6 a)) (ipv6_subnet b n) p q h host m =
      rw (matches, exact_elim (v6 a) host m) h
  is_subset_of-matches (ipv4_subnet a l) (ipv4_subnet b n) p q h host m =
      let (ip, e, same) = v4_subnet_elim a l host m in
      rw (matches, e)
        (same_v4_trans b a ip n (same_v4_sym a b n (ground arith))
          (same_v4_mono a ip l n p q (ground arith) same))
  is_subset_of-matches (ipv6_subnet a l) (ipv6_subnet b n) p q h host m =
      let (ip, e, same) = v6_subnet_elim a l host m in
      rw (matches, e)
        (same_v6_trans ip a b n (same_v6_mono ip a l n (ground arith) same) (ground arith))
  is_subset_of-matches _ _ p q h host m = cc

  pub domain_matches : (name host : Text) → matches parse_ip (domain name) host ≡ true → host ≡ name
  unfolding matches
  domain_matches name host m = text_eq_sound host name m
