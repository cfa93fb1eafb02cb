-- ===== src/Capability/Revocation.antt =====
-- lion/lion_capability/src/store/partial_revocation.rs: a capability that refuses one request.
-- What the store needs of the capabilities in it is an interface: `permits`, and the boxed
-- `FilterCapability` of lion/lion_capability/src/attenuation/filter.rs with what it permits.
use liongate.Base.{
  Bool, true, false, not, ◌&&◌, Option, none, some, ◌==◌, ==_iff, Result, ok, err, is_ok, ◌≡◌, ◌↔◌,
  refl, ap, if◌then◌else◌, arith,
}
use liongate.Base.Text.{text_eq, text_eq_iff}
use liongate.Capability.{
  CapabilityError, access_denied, AccessRequest, file, network, memory, plugin_call_request,
  message, custom_request,
}

abbrev bool_eq : Bool → Bool → Bool
bool_eq true b = b
bool_eq false b = not b

abbrev option_eq {ℓ} : {A : Type ℓ} → (A → A → Bool) → Option A → Option A → Bool
option_eq eq none none = true
option_eq eq (some a) (some b) = eq a b
option_eq eq _ _ = false

-- The derived `PartialEq` of `AccessRequest`.
pub request_eq : AccessRequest → AccessRequest → Bool
request_eq (file p r w x) (file p' r' w' x') =
    text_eq p p' && bool_eq r r' && bool_eq w w' && bool_eq x x'
request_eq (network h p c l b) (network h' p' c' l' b') =
    option_eq text_eq h h' && option_eq ◌==◌ p p' && bool_eq c c' && bool_eq l l' && bool_eq b b'
request_eq (memory a s r w) (memory a' s' r' w') =
    a == a' && s == s' && bool_eq r r' && bool_eq w w'
request_eq (plugin_call_request i f) (plugin_call_request i' f') = text_eq i i' && text_eq f f'
request_eq (message t r) (message t' r') = text_eq t t' && option_eq text_eq r r'
request_eq (custom_request t d) (custom_request t' d') = text_eq t t' && text_eq d d'
request_eq _ _ = false

option_eq_iff :
    {A : Type 0} (eq : A → A → Bool)
    → ((a b : A) → (eq a b ≡ true) ↔ (a ≡ b))
    → (o p : Option A) → (option_eq eq o p ≡ true) ↔ (o ≡ p)
option_eq_iff eq law none none = (λ h. refl, λ h. refl)
option_eq_iff eq law none (some b) = (λ h. cc, λ h. cc)
option_eq_iff eq law (some a) none = (λ h. cc, λ h. cc)
option_eq_iff eq law (some a) (some b) = (λ h. ap some ((law a b).0 h), λ h. (law a b).1 (cc h))

bool_eq_iff : (a b : Bool) → (bool_eq a b ≡ true) ↔ (a ≡ b)
bool_eq_iff true b = ground arith
bool_eq_iff false b = ground arith

pub request_eq_iff : (a b : AccessRequest) → (request_eq a b ≡ true) ↔ (a ≡ b)
unfolding request_eq
request_eq_iff (file p r w x) (file p' r' w' x') =
    ground (arith, text_eq_iff p p', bool_eq_iff r r', bool_eq_iff w w', bool_eq_iff x x')
request_eq_iff (network h p c l b) (network h' p' c' l' b') = ground (
  arith,
  option_eq_iff text_eq text_eq_iff h h',
  option_eq_iff ◌==◌ ==_iff p p',
  bool_eq_iff c c',
  bool_eq_iff l l',
  bool_eq_iff b b',
)
request_eq_iff (memory a s r w) (memory a' s' r' w') =
    ground (arith, ==_iff a a', ==_iff s s', bool_eq_iff r r', bool_eq_iff w w')
request_eq_iff (plugin_call_request i f) (plugin_call_request i' f') =
    ground (arith, text_eq_iff i i', text_eq_iff f f')
request_eq_iff (message t r) (message t' r') =
    ground (arith, text_eq_iff t t', option_eq_iff text_eq text_eq_iff r r')
request_eq_iff (custom_request t d) (custom_request t' d') =
    ground (arith, text_eq_iff t t', text_eq_iff d d')
request_eq_iff _ _ = (λ h. cc, λ h. cc)

-- Capabilities that can be filtered.
pub record Filterable (C : Type 0) : Type 0 where
  pub permits : C → AccessRequest → Result CapabilityError (Unit {0})
  pub with_filter : (AccessRequest → Bool) → C → C
  pub permits-with_filter :
      (filter : AccessRequest → Bool) (c : C) (r : AccessRequest)
      → permits (with_filter filter c) r ≡ (if filter r then permits c r else err access_denied)

-- The filter passes every request but the one that is revoked.
pub apply_partial_revocation : {C : Type 0} ⦃t : Filterable C⦄ → C → AccessRequest → C
apply_partial_revocation ⦃t⦄ c request = elim (t.permits c request) [
  | err _ ↦ c
  | ok _ ↦ t.with_filter (λ r. not (request_eq r request)) c
]

-- After a partial revocation exactly the requests that were granted are granted, but for the one
-- that is revoked.
pub revocation_exact :
    {C : Type 0} ⦃t : Filterable C⦄ (c : C) (request r : AccessRequest)
    → is_ok (t.permits (apply_partial_revocation c request) r)
      ≡ (is_ok (t.permits c r) && not (request_eq r request))
unfolding apply_partial_revocation
revocation_exact ⦃t⦄ c request r = ground (
  arith,
  t.permits-with_filter (λ q. not (request_eq q request)) c r,
  request_eq_iff r request,
  ap (λ q. is_ok (t.permits c q)) {x = r} {y = request},
)
