-- ===== src/Capability/Proxy.antt =====
-- lion/lion_capability/src/attenuation/proxy.rs: `ProxyCapability`, a capability with a
-- transformation of requests, over the capabilities of a trait. Whether two transformations are the
-- same function, which `Arc::ptr_eq` tells, is an argument of `leq`.
use liongate.Base.{Bool, false, not, Option, List, map, Result, ok, ◌>>=◌, if◌then◌else◌}
use liongate.Base.Text.{Text, codes}
use liongate.Capability.{CapabilityError, Constraint, AccessRequest}
use liongate.Capability.Trait.{Trait, Operand, same_kind, other_kind, join_descriptions}

pub record ProxyCapability (C : Type 0) : Type 0 where
  pub inner : C
  pub transform : AccessRequest → AccessRequest
  pub description : Option Text

-- The same transformation around another capability.
abbrev pub around : {C : Type 0} → ProxyCapability C → C → ProxyCapability C
around p inner = record { inner = inner; transform = p.transform; description = p.description }

module _ {C : Type 0} (t : Trait C) where
  pub permits : ProxyCapability C → AccessRequest → Result CapabilityError (Unit {0})
  permits p request = t.permits p.inner (p.transform request)

  pub constrain : ProxyCapability C → List Constraint → Result CapabilityError (ProxyCapability C)
  constrain p ks = t.constrain p.inner ks >>= λ inner. ok (around p inner)

  pub split : ProxyCapability C → List (ProxyCapability C)
  split p = map (around p) (t.split p.inner)

  pub join :
      ProxyCapability C → Operand (ProxyCapability C) C → Result CapabilityError (ProxyCapability C)
  join p (same_kind q) = t.join p.inner q.inner >>= λ inner. ok (record {
    inner = inner;
    transform = p.transform;
    description = join_descriptions (codes " + ") p.description q.description;
  })
  join p (other_kind c) = t.join p.inner c >>= λ inner. ok (around p inner)

  pub leq : ProxyCapability C → Bool → Operand (ProxyCapability C) C → Bool
  leq p same_transform (same_kind q) = if not (t.leq p.inner q.inner) then false else same_transform
  leq p same_transform (other_kind c) = false

  pub meet :
      ProxyCapability C → Operand (ProxyCapability C) C → Result CapabilityError (ProxyCapability C)
  meet p (same_kind q) = t.meet p.inner q.inner >>= λ inner. ok (record {
    inner = inner;
    transform = p.transform;
    description = join_descriptions (codes " ∩ ") p.description q.description;
  })
  meet p (other_kind c) = t.meet p.inner c >>= λ inner. ok (around p inner)
