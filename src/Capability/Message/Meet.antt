-- ===== src/Capability/Message/Meet.antt =====
-- The meet of two message capabilities whose topics are plain, one without a default permission.
use liongate.Base.{
  Bool, true, false, Option, none, some, List, [], ◌∷◌, ◌++◌, ◌≡◌, refl, sym, ap, ◌∙◌, inl, inr,
  arith, ◌∈◌, Memᴰ, is_some, is_none, ◌&&◌, ◌||◌, if◌then◌else◌, is_some_and, is_ok_and,
  mem-append_left, mem-append_right, mem-append_cases,
}
use liongate.Base.Eq.{text_Eq}
use liongate.Base.HashMap
use liongate.Base.HashMap.{get-insert, get-keys}
use liongate.Base.Text.{Text, text_eq, text_eq_iff}
use liongate.Base.TextSet
use liongate.Base.TextSet.{mem-extend_right, mem-extend_elim, contains_complete, contains_sound}
use liongate.Capability.Message.{
  MessagePermission, can_publish, can_subscribe, intersect, Topics, MessageCapability,
  permission_of, is_topic_allowed, listed_permission, intersect_some, insert_some, meet_topics,
  meet,
}
use liongate.Capability.Message.Topics.{IsPlainTopic, ArePlain, insert-ArePlain, permission-plain}

abbrev shared : MessageCapability → MessageCapability → Text → Option MessagePermission
shared c d t = intersect_some (listed_permission c t) (listed_permission d t)

get-insert_some :
    (t topic : Text) (p : Option MessagePermission) (m : Topics)
    → HashMap.get t (insert_some topic p m)
      ≡ (if text_eq topic t then (if is_none p then HashMap.get t m else p) else HashMap.get t m)
unfolding insert_some
get-insert_some t topic none m = ground arith
get-insert_some t topic (some p) m = get-insert t topic p m

get-meet_topics :
    (c d : MessageCapability) (topics : List Text) (t : Text)
    → HashMap.get t (meet_topics c d topics)
      ≡ (if TextSet.contains topics t then shared c d t else none)
unfolding meet_topics HashMap.get
get-meet_topics c d [] t = refl
get-meet_topics c d (x ∷ topics) t = ground (
  arith,
  get-insert_some t x (shared c d x) (meet_topics c d topics),
  get-meet_topics c d topics t,
  text_eq_iff t x,
  text_eq_iff x t,
  ap (shared c d) {x = t} {y = x},
)

insert_some-ArePlain :
    (topic : Text) (p : Option MessagePermission) (m : Topics)
    → IsPlainTopic topic
    → ArePlain m
    → ArePlain (insert_some topic p m)
unfolding insert_some
insert_some-ArePlain topic none m plain rest = rest
insert_some-ArePlain topic (some p) m plain rest = insert-ArePlain topic p m plain rest

meet_topics-ArePlain :
    (c d : MessageCapability) (topics : List Text)
    → ((t : Text) → t ∈ topics → IsPlainTopic t)
    → ArePlain (meet_topics c d topics)
unfolding meet_topics
meet_topics-ArePlain c d [] plain = tt
meet_topics-ArePlain c d (x ∷ topics) plain =
    insert_some-ArePlain x (shared c d x) (meet_topics c d topics) (plain x (Memᴰ.head refl))
      (meet_topics-ArePlain c d topics (λ t m. plain t (Memᴰ.tail m)))

keys-ArePlain : (m : Topics) {t : Text} → ArePlain m → t ∈ HashMap.keys m → IsPlainTopic t
keys-ArePlain [] plain k = elim k [ ]
keys-ArePlain ((topic, p) ∷ m) plain (Memᴰ.head e) = rw e plain.0
keys-ArePlain ((topic, p) ∷ m) plain (Memᴰ.tail k) = keys-ArePlain m plain.1 k

abbrev all_topics : MessageCapability → MessageCapability → List Text
all_topics c d =
    TextSet.extend [] (HashMap.keys c.topic_permissions ++ HashMap.keys d.topic_permissions)

all_topics-plain :
    (c d : MessageCapability)
    → ArePlain c.topic_permissions
    → ArePlain d.topic_permissions
    → (t : Text) → t ∈ all_topics c d
    → IsPlainTopic t
all_topics-plain c d p q t m =
    elim (mem-extend_elim [] (HashMap.keys c.topic_permissions ++ HashMap.keys d.topic_permissions)
      t m) [
        | inl n ↦ elim n [ ]
        | inr n ↦
            elim (mem-append_cases (HashMap.keys c.topic_permissions)
              (HashMap.keys d.topic_permissions) n) [
                | inl k ↦ keys-ArePlain c.topic_permissions p k
                | inr k ↦ keys-ArePlain d.topic_permissions q k
              ]
      ]

-- A topic that neither lists has the default permissions.
unlisted :
    (c d : MessageCapability) (t : Text)
    → TextSet.contains (all_topics c d) t ≡ false
    → (listed_permission c t ≡ c.default_permission)
      × (listed_permission d t ≡ d.default_permission)
unfolding listed_permission
unlisted c d t h =
    let ks = HashMap.keys c.topic_permissions in
    let ls = HashMap.keys d.topic_permissions in
    let found : t ∈ (ks ++ ls) → TextSet.contains (all_topics c d) t ≡ true =
      λ m. contains_complete (all_topics c d) t (mem-extend_right [] (ks ++ ls) t m) in
    let inside : is_some (HashMap.get t c.topic_permissions) ≡ true
        → TextSet.contains (all_topics c d) t ≡ true =
      λ k. found (mem-append_left ls (get-keys t c.topic_permissions k)) in
    let outside : is_some (HashMap.get t d.topic_permissions) ≡ true
        → TextSet.contains (all_topics c d) t ≡ true =
      λ k. found (mem-append_right ks (get-keys t d.topic_permissions k)) in
    (ground (arith, h, inside), ground (arith, h, outside))

abbrev met : MessageCapability → MessageCapability → MessageCapability
met c d = record {
  topic_permissions = meet_topics c d (all_topics c d);
  default_permission = intersect_some c.default_permission d.default_permission;
}

-- The permission of a topic in the meet is what the two share.
meet-permission :
    (c d : MessageCapability)
    → ArePlain c.topic_permissions
    → ArePlain d.topic_permissions
    → is_none c.default_permission || is_none d.default_permission ≡ true
    → (t : Text) → permission_of (met c d) t ≡ shared c d t
unfolding intersect_some listed_permission
meet-permission c d p q closed t =
    let topics = meet_topics c d (all_topics c d) in
    permission-plain (met c d) t
      (meet_topics-ArePlain c d (all_topics c d) (all_topics-plain c d p q))
    ∙ ground (arith, closed, get-meet_topics c d (all_topics c d) t, unlisted c d t)

can : Bool → MessagePermission → Bool
can to_publish = if to_publish then can_publish else can_subscribe

can-intersect :
    (p q : Option MessagePermission) (b : Bool)
    → is_some_and (can b) (intersect_some p q) ≡ (is_some_and (can b) p && is_some_and (can b) q)
unfolding intersect_some intersect can
can-intersect none q b = refl
can-intersect (some p) none b = ground arith
can-intersect (some p) (some q) true = ground arith
can-intersect (some p) (some q) false = ground arith

-- Where all topics are plain and one of two message capabilities has no default permission, their
-- meet allows exactly the operations on a topic that both allow.
pub message_meet_exact :
    (c d : MessageCapability)
    → ArePlain c.topic_permissions
    → ArePlain d.topic_permissions
    → is_none c.default_permission || is_none d.default_permission ≡ true
    → (t : Text) (to_publish : Bool)
    → is_ok_and (λ m. is_topic_allowed m t to_publish) (meet c (some d))
      ≡ (is_topic_allowed c t to_publish && is_topic_allowed d t to_publish)
unfolding meet is_topic_allowed can
message_meet_exact c d p q closed t to_publish =
    ap (is_some_and (can to_publish)) (meet-permission c d p q closed t)
    ∙ can-intersect (listed_permission c t) (listed_permission d t) to_publish
    ∙ sym (
        ap (λ x. x && is_topic_allowed d t to_publish)
          (ap (is_some_and (can to_publish)) (permission-plain c t p))
        ∙ ap (λ x. is_some_and (can to_publish) (listed_permission c t) && x)
            (ap (is_some_and (can to_publish)) (permission-plain d t q)))
