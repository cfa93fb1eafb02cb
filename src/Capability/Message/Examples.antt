-- ===== src/Capability/Message/Examples.antt =====
-- Message capabilities at concrete inputs.
use liongate.Base.{true, none, some, [], ◌∷◌, ◌≡◌, refl, ◌&&◌, is_ok_and}
use liongate.Base.Text.{codes, text_eq, strip_suffix}
use liongate.Capability.Message.{
  MessageCapability, publish, subscribe, both, is_topic_allowed, meet,
}
use liongate.Capability.Message.Meet.{message_meet_exact}

abbrev reader : MessageCapability
reader = record {
  topic_permissions = (codes "news", subscribe) ∷ (codes "log", both) ∷ [];
  default_permission = none;
}

abbrev writer : MessageCapability
writer = record { topic_permissions = (codes "log", publish) ∷ []; default_permission = some both }

message_meet_exact_example :
    is_ok_and (λ m. is_topic_allowed m (codes "log") true) (meet reader (some writer))
    ≡ (is_topic_allowed reader (codes "log") true && is_topic_allowed writer (codes "log") true)
unfolding strip_suffix text_eq
message_meet_exact_example =
    message_meet_exact reader writer (refl, (refl, tt)) (refl, tt) refl (codes "log") true
