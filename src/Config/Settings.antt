-- ===== src/Config/Settings.antt =====
-- `AppConfig` as it is read from its files, as far as `validate` looks at it. The i64 fields are
-- natural numbers: a negative one fails the same checks as 0 does.
use outbox_dispatcher.Base.{ℕ, Bool, List, map}
use outbox_dispatcher.Text.{Text}
use outbox_dispatcher.Schema.{from_secs}
use outbox_dispatcher.Config.{DispatchConfig}

pub record DatabaseConfig : Type 0 where
  pub url : Text
  pub max_connections : ℕ
  pub acquire_timeout_secs : ℕ

pub record DispatchSettings : Type 0 where
  pub poll_interval_secs : ℕ
  pub batch_size : ℕ
  pub dispatch_concurrency : ℕ
  pub schedule_batch_size : ℕ
  pub max_attempts : ℕ
  pub backoff_secs : List ℕ
  pub handler_timeout_secs : ℕ
  pub lock_buffer_secs : ℕ
  pub external_timeout_sweep_interval_secs : ℕ
  pub max_completion_cycles : ℕ
  pub payload_size_limit_bytes : ℕ
  pub notify_channel : Text
  pub allow_insecure_urls : Bool
  pub allow_unsigned_callbacks : Bool
  pub allow_private_ip_targets : Bool
  pub max_callbacks_per_event : ℕ

-- `impl From<DispatchSettings> for DispatchConfig`.
unfoldable pub from_settings : DispatchSettings → DispatchConfig
from_settings s = record {
  poll_interval = from_secs s.poll_interval_secs;
  batch_size = s.batch_size;
  dispatch_concurrency = s.dispatch_concurrency;
  schedule_batch_size = s.schedule_batch_size;
  max_attempts = s.max_attempts;
  backoff = map from_secs s.backoff_secs;
  handler_timeout = from_secs s.handler_timeout_secs;
  lock_buffer = from_secs s.lock_buffer_secs;
  external_timeout_sweep_interval = from_secs s.external_timeout_sweep_interval_secs;
  max_completion_cycles = s.max_completion_cycles;
  payload_size_limit_bytes = s.payload_size_limit_bytes;
  notify_channel = s.notify_channel;
  allow_insecure_urls = s.allow_insecure_urls;
  allow_unsigned_callbacks = s.allow_unsigned_callbacks;
  allow_private_ip_targets = s.allow_private_ip_targets;
  max_callbacks_per_event = s.max_callbacks_per_event;
}

pub record LogConfig : Type 0 where
  pub filter : Text

pub record AdminConfig : Type 0 where
  pub bind : Text
  pub auth_token : Text

pub record HttpClientConfig : Type 0 where
  pub connect_timeout_secs : ℕ
  pub user_agent : Text

pub record RetentionConfig : Type 0 where
  pub enabled : Bool
  pub processed_retention_days : ℕ
  pub dead_letter_retention_days : ℕ
  pub cleanup_interval_secs : ℕ
  pub batch_limit : ℕ

pub record ObservabilityConfig : Type 0 where
  pub metrics_bind : Text
  pub stats_sample_interval_secs : ℕ

pub record SigningKeyConfig : Type 0 where
  pub secret_env : Text

pub record AppConfig : Type 0 where
  pub database : DatabaseConfig
  pub dispatch : DispatchSettings
  pub log : LogConfig
  pub signing_keys : List (Text × SigningKeyConfig)
  pub admin : AdminConfig
  pub http_client : HttpClientConfig
  pub retention : RetentionConfig
  pub observability : ObservabilityConfig
