-- ===== src/Config.antt =====
-- `DispatchConfig`: crates/core/src/config.rs.
pub mod Tables
pub mod Settings
pub mod Validate
use outbox_dispatcher.Base.{ℕ, Bool, List}
use outbox_dispatcher.Text.{Text}
use outbox_dispatcher.Schema.{Duration}

pub record DispatchConfig : Type 0 where
  pub poll_interval : Duration
  pub batch_size : ℕ
  pub dispatch_concurrency : ℕ
  pub schedule_batch_size : ℕ
  pub max_attempts : ℕ
  pub backoff : List Duration
  pub handler_timeout : Duration
  pub lock_buffer : Duration
  pub external_timeout_sweep_interval : Duration
  pub max_completion_cycles : ℕ
  pub payload_size_limit_bytes : ℕ
  pub notify_channel : Text
  pub allow_insecure_urls : Bool
  pub allow_unsigned_callbacks : Bool
  pub allow_private_ip_targets : Bool
  pub max_callbacks_per_event : ℕ
