-- ===== src/Schema.antt =====
-- The data that the components exchange: crates/core/src/schema.rs. Identifiers (UUIDs, BIGSERIALs)
-- are natural numbers; times and durations are natural numbers of nanoseconds.
use outbox_dispatcher.Base.{ℕ, ◌*◌, Bool, true, false, Option, List}
use outbox_dispatcher.Text.{Text, chars}
use outbox_dispatcher.Json.{Value}

-- `Duration` and `DateTime<Utc>`.
abbrev pub Duration : Type 0
Duration = ℕ

abbrev pub Time : Type 0
Time = ℕ

abbrev pub from_secs : ℕ → Duration
from_secs n = n * 1_000_000_000

abbrev pub from_millis : ℕ → Duration
from_millis n = n * 1_000_000

pub data CompletionMode : Type 0 where
  managed external : CompletionMode

unfoldable pub as_str : CompletionMode → Text
as_str managed = chars "managed"
as_str external = chars "external"

abbrev pub is_external : CompletionMode → Bool
is_external managed = false
is_external external = true

pub record CallbackTarget : Type 0 where
  pub name : Text
  pub url : Text
  pub mode : CompletionMode
  pub signing_key_id : Option Text
  pub headers : List (Text × Text)
  pub max_attempts : ℕ
  pub backoff : List Duration
  pub timeout : Duration
  pub external_completion_timeout : Option Duration
  pub max_completion_cycles : ℕ

-- A row of `outbox_events`, with the size that the query computes.
pub record RawEvent : Type 0 where
  pub id : ℕ
  pub event_id : ℕ
  pub kind : Text
  pub aggregate_type : Text
  pub aggregate_id : ℕ
  pub payload : Value
  pub metadata : Value
  pub callbacks : Value
  pub actor_id : Option ℕ
  pub correlation_id : Option ℕ
  pub causation_id : Option ℕ
  pub created_at : Time
  pub payload_size_bytes : ℕ

pub record DueDelivery : Type 0 where
  pub delivery_id : ℕ
  pub event_id : ℕ
  pub attempts : ℕ
  pub target : CallbackTarget
  pub kind : Text
  pub aggregate_type : Text
  pub aggregate_id : ℕ
  pub payload : Value
  pub metadata : Value
  pub actor_id : Option ℕ
  pub correlation_id : Option ℕ
  pub causation_id : Option ℕ
  pub created_at : Time

pub record EventForDelivery : Type 0 where
  pub delivery_id : ℕ
  pub event_id : ℕ
  pub kind : Text
  pub callback_name : Text
  pub mode : CompletionMode
  pub aggregate_type : Text
  pub aggregate_id : ℕ
  pub payload : Value
  pub metadata : Value
  pub actor_id : Option ℕ
  pub correlation_id : Option ℕ
  pub causation_id : Option ℕ
  pub created_at : Time
  pub attempt : ℕ

-- A row of `outbox_deliveries`; the CHECK on `completion_mode` leaves the two modes.
pub record DeliveryRow : Type 0 where
  pub id : ℕ
  pub event_id : ℕ
  pub callback_name : Text
  pub completion_mode : CompletionMode
  pub attempts : ℕ
  pub last_error : Option Text
  pub last_attempt_at : Option Time
  pub available_at : Time
  pub locked_until : Option Time
  pub dispatched_at : Option Time
  pub processed_at : Option Time
  pub completion_cycles : ℕ
  pub dead_letter : Bool
  pub created_at : Time

pub data RetryOutcome : Type 0 where
  reset not_found locked : RetryOutcome

pub record SweepReport : Type 0 where
  pub reset : ℕ
  pub exhausted : ℕ

pub record RetentionDeleted : Type 0 where
  pub processed : ℕ
  pub dead_letter : ℕ

pub record PageParams : Type 0 where
  pub limit : ℕ
  pub cursor : Option ℕ
  pub callback_name : Option Text

pub record DeadLetterRow : Type 0 where
  pub delivery_id : ℕ
  pub event_id : ℕ
  pub event_kind : Text
  pub callback_name : Text
  pub completion_mode : CompletionMode
  pub attempts : ℕ
  pub last_error : Option Text
  pub last_attempt_at : Option Time
  pub created_at : Time

pub record ExternalPendingRow : Type 0 where
  pub delivery_id : ℕ
  pub event_id : ℕ
  pub event_kind : Text
  pub callback_name : Text
  pub attempts : ℕ
  pub dispatched_at : Time
  pub created_at : Time

-- An event as the admin API shows it.
pub record RawEventSerializable : Type 0 where
  pub id : ℕ
  pub event_id : ℕ
  pub kind : Text
  pub aggregate_type : Text
  pub aggregate_id : ℕ
  pub payload : Value
  pub metadata : Value
  pub callbacks : Value
  pub actor_id : Option ℕ
  pub correlation_id : Option ℕ
  pub causation_id : Option ℕ
  pub created_at : Time

pub record EventWithDeliveries : Type 0 where
  pub event : RawEventSerializable
  pub deliveries : List DeliveryRow

pub record CallbackStats : Type 0 where
  pub pending_managed : ℕ
  pub pending_external : ℕ
  pub external_pending : ℕ
  pub dead_lettered : ℕ

pub record Stats : Type 0 where
  pub events_total : ℕ
  pub deliveries_pending : ℕ
  pub deliveries_external_pending : ℕ
  pub deliveries_dead_lettered : ℕ
  pub oldest_pending_age : Option Duration
  pub callbacks : List (Text × CallbackStats)

-- What a delivery implementation returns besides success.
pub data CallbackError : Type 0 where
  transient : Text → Option Duration → CallbackError
