-- ===== src/Capability/Message/Topics.antt =====
-- What message capabilities allow where topics are written without wildcards.
use liongate.Base.{
  Bool, none, some, [], ◌∷◌, ◌≡◌, refl, ap, inl, inr, arith, Bool-cases, Option-cases, ◌&&◌, ◌||◌,
  if◌then◌else◌, is_ok_and,
}
use liongate.Base.Eq.{text_Eq}
use liongate.Base.HashMap
use liongate.Base.HashMap.{get-insert, get-keys}
use liongate.Base.Text.{Text, text_eq, text_eq_iff, strip_suffix}
use liongate.Capability.Message.{
  MessagePermission, publish, subscribe, both, can_publish, can_subscribe, Topics,
  MessageCapability, with_topic, hash_sign, topic_matches, matching_permission, permission_of,
  is_topic_allowed, apply_topic_constraint, defaults_leq, topics_leq, leq, listed_permission,
}

-- A topic pattern that matches itself alone.
abbrev pub IsPlainTopic : Text → Type 0
IsPlainTopic topic = strip_suffix hash_sign topic ≡ none

abbrev pub ArePlain : Topics → Type 0
ArePlain [] = Unit
ArePlain ((topic, permission) ∷ m) = IsPlainTopic topic × ArePlain m

plain_matches :
    (pattern topic : Text)
    → IsPlainTopic pattern
    → topic_matches pattern topic ≡ text_eq pattern topic
unfolding topic_matches
plain_matches pattern topic plain = rw (topic_matches, plain) refl

with_topic-permission :
    (topic : Text)
    → IsPlainTopic topic
    → (other : Text) (p : MessagePermission)
    → permission_of (with_topic topic p) other ≡ (if text_eq topic other then some p else none)
unfolding permission_of matching_permission
with_topic-permission topic plain other p = ground (arith, plain_matches topic other plain)

-- After a constraint by a plain topic exactly the operations on that topic that were allowed are
-- allowed, and no other topic; where there is no permission for it, there is no capability.
pub topic_constraint_exact :
    (c : MessageCapability) (topic : Text)
    → IsPlainTopic topic
    → (other : Text) (to_publish : Bool)
    → is_ok_and (λ d. is_topic_allowed d other to_publish) (apply_topic_constraint c topic)
      ≡ (text_eq topic other && is_topic_allowed c other to_publish)
unfolding apply_topic_constraint is_topic_allowed
topic_constraint_exact c topic plain other to_publish =
    elim (Option-cases (permission_of c topic)) [
      | inl e ↦
          ground (arith, e, text_eq_iff topic other, ap (permission_of c) {x = topic} {y = other})
      | inr (p, e) ↦ ground (
        arith,
        e,
        text_eq_iff topic other,
        with_topic-permission topic plain other p,
        ap (permission_of c) {x = topic} {y = other},
      )
    ]

pub matching-plain :
    (m : Topics) (topic : Text) → ArePlain m → matching_permission topic m ≡ HashMap.get topic m
unfolding matching_permission HashMap.get
matching-plain [] topic plain = refl
matching-plain ((pattern, p) ∷ m) topic plain =
    ground (arith, plain_matches pattern topic plain.0, matching-plain m topic plain.1)

pub insert-ArePlain :
    (topic : Text) (p : MessagePermission) (m : Topics)
    → IsPlainTopic topic
    → ArePlain m
    → ArePlain (HashMap.insert topic p m)
unfolding HashMap.insert
insert-ArePlain topic p [] plain rest = (plain, tt)
insert-ArePlain topic p ((other, q) ∷ m) plain rest = elim (Bool-cases (text_eq other topic)) [
  | inl e ↦ rw e rest
  | inr e ↦ rw e (rest.0, insert-ArePlain topic p m plain rest.1)
]

pub permission-plain :
    (c : MessageCapability) (topic : Text)
    → ArePlain c.topic_permissions
    → permission_of c topic ≡ listed_permission c topic
unfolding permission_of listed_permission
permission-plain c topic plain = ground (arith, matching-plain c.topic_permissions topic plain)

-- `leq` on two capabilities that list no topics passes exactly where their default permissions
-- have an operation in common, though the first may have one that the second has not.
pub leq-defaults :
    (p q : MessagePermission)
    → leq
        (record { topic_permissions = []; default_permission = some p })
        (some (record { topic_permissions = []; default_permission = some q }))
      ≡ ((can_publish p && can_publish q) || (can_subscribe p && can_subscribe q))
unfolding leq defaults_leq topics_leq
leq-defaults publish publish = refl
leq-defaults publish subscribe = refl
leq-defaults publish both = refl
leq-defaults subscribe publish = refl
leq-defaults subscribe subscribe = refl
leq-defaults subscribe both = refl
leq-defaults both publish = refl
leq-defaults both subscribe = refl
leq-defaults both both = refl
