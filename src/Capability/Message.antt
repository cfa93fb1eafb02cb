-- ===== src/Capability/Message.antt =====
-- lion/lion_capability/src/model/message.rs: the capability to send and receive messages.
-- The other capability of a binary operation is given as what
-- `as_any().downcast_ref::<MessageCapability>()` returns.
pub mod Topics
pub mod Meet
mod Examples
use liongate.Base.{
  ℕ, Bool, true, false, not, ◌&&◌, ◌||◌, Option, none, some, List, [], ◌∷◌, ◌++◌, map, Result, ok,
  err, ◌>>=◌, all, any, is_empty, is_none, is_some_and, if◌then◌else◌,
}
use liongate.Base.Eq.{text_Eq}
use liongate.Base.HashMap
use liongate.Base.HashMap.{HashMap}
use liongate.Base.Text.{Text, text_eq, has_prefix, strip_suffix}
use liongate.Base.TextSet
use liongate.Capability.{
  CapabilityError, access_denied, invalid_constraint, incompatible_types, Constraint, message_topic,
  AccessRequest, message,
}

pub data MessagePermission : Type 0 where
  publish subscribe both : MessagePermission

abbrev pub can_publish : MessagePermission → Bool
can_publish subscribe = false
can_publish _ = true

abbrev pub can_subscribe : MessagePermission → Bool
can_subscribe publish = false
can_subscribe _ = true

pub intersect : MessagePermission → MessagePermission → Option MessagePermission
intersect both other = some other
intersect publish publish = some publish
intersect publish both = some publish
intersect publish subscribe = none
intersect subscribe subscribe = some subscribe
intersect subscribe both = some subscribe
intersect subscribe publish = none

pub union : MessagePermission → MessagePermission → MessagePermission
union a b =
    if can_publish a || can_publish b
    then (if can_subscribe a || can_subscribe b then both else publish)
    else subscribe

abbrev pub Topics : Type 0
Topics = HashMap Text MessagePermission

pub record MessageCapability : Type 0 where
  pub topic_permissions : Topics
  pub default_permission : Option MessagePermission

abbrev pub with_topic : Text → MessagePermission → MessageCapability
with_topic topic permission = record {
  topic_permissions = (topic, permission) ∷ [];
  default_permission = none;
}

-- The loops of `publisher` and `subscriber`.
pub insert_topics : MessagePermission → Topics → List Text → Topics
insert_topics permission m [] = m
insert_topics permission m (topic ∷ topics) =
    insert_topics permission (HashMap.insert topic permission m) topics

pub publisher : List Text → MessageCapability
publisher topics = record {
  topic_permissions = insert_topics publish [] topics;
  default_permission = none;
}

pub subscriber : List Text → MessageCapability
subscriber topics = record {
  topic_permissions = insert_topics subscribe [] topics;
  default_permission = none;
}

pub add_topic_permission : Text → MessagePermission → MessageCapability → MessageCapability
add_topic_permission topic permission c = record {
  topic_permissions = HashMap.insert topic permission c.topic_permissions;
  default_permission = c.default_permission;
}

pub set_default_permission : Option MessagePermission → MessageCapability → MessageCapability
set_default_permission permission c = record {
  topic_permissions = c.topic_permissions;
  default_permission = permission;
}

-- The suffix "#" of a pattern.
abbrev pub hash_sign : Text
hash_sign = b'#' ∷ []

pub topic_matches : Text → Text → Bool
topic_matches pattern topic = elim (strip_suffix hash_sign pattern) [
  | some prefix ↦ has_prefix prefix topic
  | none ↦ text_eq pattern topic
]

-- The first entry, in the order of iteration, whose pattern matches the topic.
pub matching_permission : Text → Topics → Option MessagePermission
matching_permission topic [] = none
matching_permission topic ((pattern, permission) ∷ m) =
    if topic_matches pattern topic then some permission else matching_permission topic m

-- The permission that a topic has: that of the first pattern, or the default.
pub permission_of : MessageCapability → Text → Option MessagePermission
permission_of c topic = elim (matching_permission topic c.topic_permissions) [
  | some permission ↦ some permission
  | none ↦ c.default_permission
]

-- `is_topic_allowed`; the second flag is whether to publish or to subscribe.
pub is_topic_allowed : MessageCapability → Text → Bool → Bool
is_topic_allowed c topic to_publish =
    is_some_and (if to_publish then can_publish else can_subscribe) (permission_of c topic)

pub apply_topic_constraint : MessageCapability → Text → Result CapabilityError MessageCapability
apply_topic_constraint c topic = elim (permission_of c topic) [
  | none ↦ err invalid_constraint
  | some permission ↦ ok (with_topic topic permission)
]

pub permits : MessageCapability → AccessRequest → Result CapabilityError (Unit {0})
permits c (message topic recipient) =
    if is_topic_allowed c topic true then ok tt else err access_denied
permits c _ = err incompatible_types

pub apply_constraint : MessageCapability → Constraint → Result CapabilityError MessageCapability
apply_constraint c (message_topic topic) = apply_topic_constraint c topic
apply_constraint c _ = err invalid_constraint

pub constrain : MessageCapability → List Constraint → Result CapabilityError MessageCapability
constrain c [] = ok c
constrain c (k ∷ ks) = apply_constraint c k >>= λ d. constrain d ks

pub split_topics : Topics → List MessageCapability
split_topics [] = []
split_topics ((topic, permission) ∷ m) = with_topic topic permission ∷ split_topics m

pub split : MessageCapability → List MessageCapability
split c = split_topics c.topic_permissions

-- The loop of `join`.
pub merge_topics : Topics → Topics → Topics
merge_topics m [] = m
merge_topics m ((topic, permission) ∷ others) =
    merge_topics
      (if HashMap.contains_key topic m
        then HashMap.modify topic (λ existing. union existing permission) m
        else HashMap.insert topic permission m)
      others

pub join_defaults : Option MessagePermission → Option MessagePermission → Option MessagePermission
join_defaults (some p) (some q) = some (union p q)
join_defaults (some p) none = some p
join_defaults none other = other

pub join : MessageCapability → Option MessageCapability → Result CapabilityError MessageCapability
join c none = err incompatible_types
join c (some d) = ok (record {
  topic_permissions = merge_topics c.topic_permissions d.topic_permissions;
  default_permission = join_defaults c.default_permission d.default_permission;
})

-- The check of the default permissions in `leq`.
pub defaults_leq : Option MessagePermission → Option MessagePermission → Bool
defaults_leq none other = true
defaults_leq (some p) none = false
defaults_leq (some p) (some q) = not (
    (not (can_publish p) || (can_publish p && not (can_publish q)))
    && (not (can_subscribe p) || (can_subscribe p && not (can_subscribe q))))

-- The inner loop of `leq`: a pattern of the other capability matches and has the permission.
pub covered_by : Text → MessagePermission → Topics → Bool
covered_by topic p [] = false
covered_by topic p ((other_topic, q) ∷ m) =
    if topic_matches other_topic topic
    then (if (can_publish p && not (can_publish q)) || (can_subscribe p && not (can_subscribe q))
        then covered_by topic p m
        else true)
    else covered_by topic p m

-- The outer loop of `leq`.
pub topics_leq : MessageCapability → Topics → Bool
topics_leq d [] = true
topics_leq d ((topic, p) ∷ m) =
    if covered_by topic p d.topic_permissions
      || is_some_and (λ q. (can_publish p && can_publish q) || (can_subscribe p && can_subscribe q))
          d.default_permission
    then topics_leq d m
    else false

pub leq : MessageCapability → Option MessageCapability → Bool
leq c none = false
leq c (some d) =
    if defaults_leq c.default_permission d.default_permission
    then topics_leq d c.topic_permissions
    else false

-- `get(&topic).copied().or(default)`.
pub listed_permission : MessageCapability → Text → Option MessagePermission
listed_permission c topic = elim (HashMap.get topic c.topic_permissions) [
  | some permission ↦ some permission
  | none ↦ c.default_permission
]

-- The intersection of two permissions where both are there.
pub intersect_some : Option MessagePermission → Option MessagePermission → Option MessagePermission
intersect_some (some p) (some q) = intersect p q
intersect_some _ _ = none

-- An insertion into the result of `meet`, where there is a permission.
pub insert_some : Text → Option MessagePermission → Topics → Topics
insert_some topic none m = m
insert_some topic (some permission) m = HashMap.insert topic permission m

-- The loop of `meet` over the topics of both.
pub meet_topics : MessageCapability → MessageCapability → List Text → Topics
meet_topics c d [] = []
meet_topics c d (topic ∷ topics) =
    insert_some topic (intersect_some (listed_permission c topic) (listed_permission d topic))
      (meet_topics c d topics)

pub meet : MessageCapability → Option MessageCapability → Result CapabilityError MessageCapability
meet c none = err incompatible_types
meet c (some d) =
    let all_topics =
      TextSet.extend [] (HashMap.keys c.topic_permissions ++ HashMap.keys d.topic_permissions) in
    let topic_permissions = meet_topics c d all_topics in
    let default_permission = intersect_some c.default_permission d.default_permission in
    ok (record { topic_permissions = topic_permissions; default_permission = default_permission })
