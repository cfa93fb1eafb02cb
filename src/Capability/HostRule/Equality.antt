-- ===== src/Capability/HostRule/Equality.antt =====
-- The derived equality of host rules decides equality.
use liongate.Base.{true, ◌↔◌, ◌≡◌, refl, ap, arith, ==_iff}
use liongate.Base.Eq.{Eq}
use liongate.Base.Text.{text_eq_iff, text_eq_sound}
use liongate.Capability.HostRule.{
  IpAddr, v4, v6, HostRule, any_host, domain, wildcard_domain, exact_ip, ipv4_subnet, ipv6_subnet,
  ip_eq, rule_eq,
}

ip_eq_refl : (a : IpAddr) → ip_eq a a ≡ true
unfolding ip_eq
ip_eq_refl (v4 a) = ground (arith, ==_iff a a)
ip_eq_refl (v6 xs) = (text_eq_iff xs xs).1 refl

pub ip_eq_sound : (a b : IpAddr) → ip_eq a b ≡ true → a ≡ b
unfolding ip_eq
ip_eq_sound (v4 a) (v4 b) h = ground arith
ip_eq_sound (v6 xs) (v6 ys) h = ap v6 (text_eq_sound xs ys h)
ip_eq_sound (v4 a) (v6 ys) h = cc
ip_eq_sound (v6 xs) (v4 b) h = cc

rule_eq_refl : (a : HostRule) → rule_eq a a ≡ true
unfolding rule_eq
rule_eq_refl any_host = refl
rule_eq_refl (domain a) = (text_eq_iff a a).1 refl
rule_eq_refl (wildcard_domain a) = (text_eq_iff a a).1 refl
rule_eq_refl (exact_ip a) = ip_eq_refl a
rule_eq_refl (ipv4_subnet a p) = ground (arith, ==_iff a a, ==_iff p p)
rule_eq_refl (ipv6_subnet a p) = ground (arith, text_eq_iff a a, ==_iff p p)

rule_eq_sound : (a b : HostRule) → rule_eq a b ≡ true → a ≡ b
unfolding rule_eq
rule_eq_sound any_host any_host h = refl
rule_eq_sound (domain a) (domain b) h = ap domain (text_eq_sound a b h)
rule_eq_sound (wildcard_domain a) (wildcard_domain b) h = ap wildcard_domain (text_eq_sound a b h)
rule_eq_sound (exact_ip a) (exact_ip b) h = ap exact_ip (ip_eq_sound a b h)
rule_eq_sound (ipv4_subnet a p) (ipv4_subnet b q) h = ground (arith, ==_iff a b, ==_iff p q)
rule_eq_sound (ipv6_subnet a p) (ipv6_subnet b q) h = ground (arith, text_eq_sound a b, ==_iff p q)
rule_eq_sound _ _ h = cc

pub rule_eq_iff : (a b : HostRule) → (rule_eq a b ≡ true) ↔ (a ≡ b)
rule_eq_iff a b = (rule_eq_sound a b, λ e. rw e (rule_eq_refl b))

instance abbrev pub rule_Eq : Eq HostRule
rule_Eq = record { beq = rule_eq; beq_iff = rule_eq_iff }
