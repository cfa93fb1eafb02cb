-- ===== src/Workflow/Event.antt =====
-- lion/lion_workflow/src/patterns/event/types.rs: events and acknowledgements. An event that expires
-- is compared with the time `now`; the new identifier of an event is an argument.
pub mod Retry
mod Examples
use liongate.Base.{ℕ, ◌+◌, ◌%◌, ◌^◌, Bool, true, false, Option, none, some, ltb}
use liongate.Base.Text.{Text, codes}

pub data EventPriority : Type 0 where
  low normal high critical : EventPriority

pub data EventStatus : Type 0 where
  created sent acknowledged failed rejected processed : EventStatus

pub data EventError : Type 0 where
  timeout delivery_failed already_processed not_found handler_error : EventError
  capability_error channel_closed serialization_error other : EventError

pub record Event (J : Type 0) : Type 0 where
  pub id : Text
  pub event_type : Text
  pub payload : J
  pub source : Text
  pub created_at : ℕ
  pub expires_at : Option ℕ
  pub priority : EventPriority
  pub correlation_id : Option Text
  pub causation_id : Option Text
  pub retry_count : ℕ
  pub required_capability : Option ℕ
  pub metadata : J
  pub requires_ack : Bool

pub record EventAck : Type 0 where
  pub event_id : Text
  pub status : EventStatus
  pub time : ℕ
  pub error : Option Text
  pub consumer : Text

module _ {J : Type 0} where
  abbrev pub new : J → ℕ → Text → Text → J → Event J
  new null now id event_type payload = record {
    id = id;
    event_type = event_type;
    payload = payload;
    source = codes "system";
    created_at = now;
    expires_at = none;
    priority = normal;
    correlation_id = none;
    causation_id = none;
    retry_count = 0;
    required_capability = none;
    metadata = null;
    requires_ack = true;
  }

  abbrev with_source : Event J → Text → Event J
  with_source e source = record e { source = source }

  abbrev with_expiration : Event J → ℕ → Event J
  with_expiration e expires_at = record e { expires_at = some expires_at }

  abbrev with_priority : Event J → EventPriority → Event J
  with_priority e priority = record e { priority = priority }

  abbrev with_correlation_id : Event J → Text → Event J
  with_correlation_id e correlation_id = record e { correlation_id = some correlation_id }

  abbrev with_causation_id : Event J → Text → Event J
  with_causation_id e causation_id = record e { causation_id = some causation_id }

  abbrev with_capability : Event J → ℕ → Event J
  with_capability e required_capability = record e {
    required_capability = some required_capability;
  }

  abbrev with_metadata : Event J → J → Event J
  with_metadata e metadata = record e { metadata = metadata }

  abbrev is_expired : ℕ → Event J → Bool
  is_expired now e = elim e.expires_at [ none ↦ false | some expires_at ↦ ltb expires_at now ]

  abbrev create_response : J → ℕ → Text → Event J → Text → J → Event J
  create_response null now id e event_type payload = record {
    id = id;
    event_type = event_type;
    payload = payload;
    source = e.source;
    created_at = now;
    expires_at = none;
    priority = e.priority;
    correlation_id = e.correlation_id;
    causation_id = some e.id;
    retry_count = 0;
    required_capability = none;
    metadata = null;
    requires_ack = true;
  }

  -- The counter is a `u32`, which wraps.
  unfoldable pub increment_retry : Event J → Event J
  increment_retry e = record e { retry_count = (e.retry_count + 1) % 2 ^ 32 }

abbrev success : ℕ → Text → Text → EventAck
success now event_id consumer = record {
  event_id = event_id;
  status = acknowledged;
  time = now;
  error = none;
  consumer = consumer;
}

abbrev failure : ℕ → Text → Text → Text → EventAck
failure now event_id consumer error = record {
  event_id = event_id;
  status = failed;
  time = now;
  error = some error;
  consumer = consumer;
}

abbrev rejection : ℕ → Text → Text → Text → EventAck
rejection now event_id consumer reason = record {
  event_id = event_id;
  status = rejected;
  time = now;
  error = some reason;
  consumer = consumer;
}
