-- ===== src/Capability/HostRule.antt =====
-- lion/lion_capability/src/model/network.rs: `HostRule`, its equality, `matches` and `is_subset_of`.
-- Reading an address from a text is `str::parse::<IpAddr>`, the parameter `parse_ip`. An IPv4
-- address is its number, an IPv6 address the list of its eight segments. Shifts are as in a release
-- build: the amount, a `u8`, wraps and is then taken modulo the width of the word.
-- Segments beyond the last, where the source panics, are only asked for at prefixes from 144.
pub mod Equality
mod Suffix
mod Addresses
pub mod Subset
mod Examples
use Prim.Native.Nat.{◌/◌}
use liongate.Base.{
  ℕ, zero, suc, ◌+◌, ◌-◌, ◌*◌, ◌%◌, ◌^◌, Bool, true, false, ◌&&◌, ◌||◌, Option, none, some, List,
  [], ◌∷◌, ◌==◌, ltb, leb, if◌then◌else◌, is_some, is_some_and, length,
}
use liongate.Base.Text.{Text, text_eq, has_prefix, strip_suffix}

pub data IpAddr : Type 0 where
  v4 : (address : ℕ) → IpAddr
  v6 : (segments : List ℕ) → IpAddr

pub data HostRule : Type 0 where
  any_host : HostRule
  domain : (name : Text) → HostRule
  wildcard_domain : (suffix : Text) → HostRule
  exact_ip : (ip : IpAddr) → HostRule
  ipv4_subnet : (address prefix_len : ℕ) → HostRule
  ipv6_subnet : (segments : List ℕ) (prefix_len : ℕ) → HostRule

-- `text.ends_with(suffix)`.
abbrev pub ends_with : Text → Text → Bool
ends_with text suffix = is_some (strip_suffix suffix text)

pub ip_eq : IpAddr → IpAddr → Bool
ip_eq (v4 a) (v4 b) = a == b
ip_eq (v6 xs) (v6 ys) = text_eq xs ys
ip_eq _ _ = false

-- The derived `PartialEq`.
pub rule_eq : HostRule → HostRule → Bool
rule_eq any_host any_host = true
rule_eq (domain a) (domain b) = text_eq a b
rule_eq (wildcard_domain a) (wildcard_domain b) = text_eq a b
rule_eq (exact_ip a) (exact_ip b) = ip_eq a b
rule_eq (ipv4_subnet a p) (ipv4_subnet b q) = a == b && p == q
rule_eq (ipv6_subnet a p) (ipv6_subnet b q) = text_eq a b && p == q
rule_eq _ _ = false

-- The amount of the shift in `!0u32 << (32 - prefix_len)`.
pub shift_v4 : ℕ → ℕ
shift_v4 prefix_len = (32 + 256 - prefix_len) % 256 % 32

-- `x & (!0 << k)`, for an `x` that has no more bits than the mask.
pub masked : ℕ → ℕ → ℕ
masked x k = x / 2 ^ k * 2 ^ k

-- `subnet & mask == ip & mask` on IPv4 addresses.
pub same_v4 : ℕ → ℕ → ℕ → Bool
same_v4 subnet ip prefix_len =
    masked subnet (shift_v4 prefix_len) == masked ip (shift_v4 prefix_len)

-- The loop over the full segments.
pub full_segments_equal : ℕ → List ℕ → List ℕ → Bool
full_segments_equal zero xs ys = true
full_segments_equal (suc n) (x ∷ xs) (y ∷ ys) = x == y && full_segments_equal n xs ys
full_segments_equal (suc n) _ _ = false

-- The segment after `n` full ones, compared in its first `bits` bits.
pub partial_segment_equal : ℕ → ℕ → List ℕ → List ℕ → Bool
partial_segment_equal zero bits (x ∷ xs) (y ∷ ys) = masked x (16 - bits) == masked y (16 - bits)
partial_segment_equal (suc n) bits (x ∷ xs) (y ∷ ys) = partial_segment_equal n bits xs ys
partial_segment_equal _ bits _ _ = false

-- The comparison of two IPv6 addresses in their first `prefix_len` bits.
pub same_v6 : List ℕ → List ℕ → ℕ → Bool
same_v6 xs ys prefix_len =
    let full_segments : ℕ = prefix_len / 16 in
    let remaining_bits : ℕ = prefix_len % 16 in
    if full_segments_equal full_segments xs ys
    then (if ltb 0 remaining_bits && ltb full_segments 8
        then partial_segment_equal full_segments remaining_bits xs ys
        else true)
    else false

-- `suffix[1..]`.
abbrev pub tail : Text → Text
tail [] = []
tail (x ∷ xs) = xs

abbrev pub star_dot : Text
star_dot = b'*' ∷ b'.' ∷ []

-- `matches` on a wildcard: ".example.com", "*.example.com" or a bare "example.com".
unfoldable pub wildcard_matches : Text → Text → Bool
wildcard_matches suffix host =
    if has_prefix (b'.' ∷ []) suffix
    then ends_with host suffix
    else if has_prefix star_dot suffix
    then ends_with host suffix || ends_with host (tail suffix)
    else ends_with host (b'.' ∷ suffix) || text_eq host suffix

module _ (parse_ip : Text → Option IpAddr) where
  unfoldable pub matches : HostRule → Text → Bool
  matches any_host host = true
  matches (domain name) host = text_eq host name
  matches (wildcard_domain suffix) host = wildcard_matches suffix host
  matches (exact_ip ip) host = is_some_and (λ host_ip. ip_eq host_ip ip) (parse_ip host)
  matches (ipv4_subnet address prefix_len) host = elim (parse_ip host) [
    | some (v4 ip) ↦ same_v4 address ip prefix_len
    | _ ↦ false
  ]
  matches (ipv6_subnet segments prefix_len) host = elim (parse_ip host) [
    | some (v6 ip) ↦ same_v6 ip segments prefix_len
    | _ ↦ false
  ]

unfoldable pub is_subset_of : HostRule → HostRule → Bool
is_subset_of rule any_host = true
is_subset_of any_host other = false
is_subset_of (domain a) (domain b) = text_eq a b
is_subset_of (domain a) (wildcard_domain suffix) =
    ends_with a suffix && ltb (length suffix) (length a)
is_subset_of (wildcard_domain a) (wildcard_domain b) = text_eq a b || ends_with a b
is_subset_of (exact_ip a) (exact_ip b) = ip_eq a b
is_subset_of (exact_ip (v4 ip)) (ipv4_subnet subnet prefix_len) = same_v4 subnet ip prefix_len
is_subset_of (exact_ip (v6 ip)) (ipv6_subnet subnet prefix_len) = same_v6 ip subnet prefix_len
is_subset_of (ipv4_subnet a p) (ipv4_subnet b q) = if leb q p then same_v4 a b q else false
is_subset_of (ipv6_subnet a p) (ipv6_subnet b q) = if leb q p then same_v6 a b q else false
is_subset_of _ _ = false
