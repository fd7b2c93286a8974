-- ===== src/Config/Tables.antt =====
-- The tables of the configuration's files, where serde's `default` attributes let fields be absent.
pub mod Minimal
use outbox_dispatcher.Base.{ℕ, Bool, false, Option, none, some, List, [], ◌∷◌}
use outbox_dispatcher.Text.{Text, chars}
use outbox_dispatcher.Schema.{from_secs}
use outbox_dispatcher.Config.{DispatchConfig}
use outbox_dispatcher.Config.Settings.{
  DatabaseConfig, DispatchSettings, LogConfig, AdminConfig, HttpClientConfig, RetentionConfig,
  ObservabilityConfig, SigningKeyConfig, AppConfig,
}

-- `#[serde(default = …)]`.
abbrev pub or_default : {A : Type 0} → Option A → A → A
or_default none default = default
or_default (some a) default = a

abbrev pub default_acquire_timeout_secs : ℕ
default_acquire_timeout_secs = 10

abbrev pub default_max_callbacks_per_event : ℕ
default_max_callbacks_per_event = 32

abbrev pub default_schedule_batch_size : ℕ
default_schedule_batch_size = 500

abbrev pub default_dispatch_concurrency : ℕ
default_dispatch_concurrency = 16

-- `impl Default for DispatchConfig`.
abbrev pub default_dispatch : DispatchConfig
default_dispatch = record {
  poll_interval = from_secs 5;
  batch_size = 50;
  dispatch_concurrency = default_dispatch_concurrency;
  schedule_batch_size = default_schedule_batch_size;
  max_attempts = 6;
  backoff =
      from_secs 30
      ∷ from_secs 120
      ∷ from_secs 600
      ∷ from_secs 3600
      ∷ from_secs 21600
      ∷ from_secs 86400
      ∷ [];
  handler_timeout = from_secs 30;
  lock_buffer = from_secs 10;
  external_timeout_sweep_interval = from_secs 60;
  max_completion_cycles = 20;
  payload_size_limit_bytes = 1048576;
  notify_channel = chars "outbox_events_new";
  allow_insecure_urls = false;
  allow_unsigned_callbacks = false;
  allow_private_ip_targets = false;
  max_callbacks_per_event = default_max_callbacks_per_event;
}

abbrev pub default_admin_bind : Text
default_admin_bind = chars "0.0.0.0:9090"

abbrev pub default_admin : AdminConfig
default_admin = record { bind = default_admin_bind; auth_token = [] }

abbrev pub default_connect_timeout_secs : ℕ
default_connect_timeout_secs = 5

abbrev pub default_user_agent : Text
default_user_agent = chars "outbox-dispatcher/1.0"

abbrev pub default_http_client : HttpClientConfig
default_http_client = record {
  connect_timeout_secs = default_connect_timeout_secs;
  user_agent = default_user_agent;
}

abbrev pub default_retention : RetentionConfig
default_retention = record {
  enabled = false;
  processed_retention_days = 7;
  dead_letter_retention_days = 30;
  cleanup_interval_secs = 3600;
  batch_limit = 1000;
}

abbrev pub default_metrics_bind : Text
default_metrics_bind = chars "0.0.0.0:9091"

abbrev pub default_observability : ObservabilityConfig
default_observability = record {
  metrics_bind = default_metrics_bind;
  stats_sample_interval_secs = 30;
}

pub record DatabaseTable : Type 0 where
  pub url : Text
  pub max_connections : ℕ
  pub acquire_timeout_secs : Option ℕ

-- The fields of `DispatchSettings` that may be absent.
pub record DispatchOptions : Type 0 where
  pub dispatch_concurrency : Option ℕ
  pub schedule_batch_size : Option ℕ
  pub allow_insecure_urls : Option Bool
  pub allow_unsigned_callbacks : Option Bool
  pub allow_private_ip_targets : Option Bool
  pub max_callbacks_per_event : Option ℕ

pub record AdminTable : Type 0 where
  pub bind : Option Text
  pub auth_token : Option Text

pub record HttpClientTable : Type 0 where
  pub connect_timeout_secs : Option ℕ
  pub user_agent : Option Text

pub record RetentionTable : Type 0 where
  pub enabled : Option Bool
  pub processed_retention_days : Option ℕ
  pub dead_letter_retention_days : Option ℕ
  pub cleanup_interval_secs : Option ℕ
  pub batch_limit : Option ℕ

pub record ObservabilityTable : Type 0 where
  pub metrics_bind : Option Text
  pub stats_sample_interval_secs : Option ℕ

-- `required` holds the fields of `DispatchSettings` that a file must give; its others are not read.
pub record AppTable : Type 0 where
  pub database : DatabaseTable
  pub required : DispatchSettings
  pub options : DispatchOptions
  pub log : LogConfig
  pub signing_keys : Option (List (Text × SigningKeyConfig))
  pub admin : Option AdminTable
  pub http_client : Option HttpClientTable
  pub retention : Option RetentionTable
  pub observability : Option ObservabilityTable

abbrev pub read_database : DatabaseTable → DatabaseConfig
read_database t = record {
  url = t.url;
  max_connections = t.max_connections;
  acquire_timeout_secs = or_default t.acquire_timeout_secs default_acquire_timeout_secs;
}

abbrev pub read_dispatch : DispatchSettings → DispatchOptions → DispatchSettings
read_dispatch required o = record required {
  dispatch_concurrency = or_default o.dispatch_concurrency default_dispatch_concurrency;
  schedule_batch_size = or_default o.schedule_batch_size default_schedule_batch_size;
  allow_insecure_urls = or_default o.allow_insecure_urls false;
  allow_unsigned_callbacks = or_default o.allow_unsigned_callbacks false;
  allow_private_ip_targets = or_default o.allow_private_ip_targets false;
  max_callbacks_per_event = or_default o.max_callbacks_per_event default_max_callbacks_per_event;
}

abbrev pub read_admin : Option AdminTable → AdminConfig
read_admin none = default_admin
read_admin (some t) = record {
  bind = or_default t.bind default_admin_bind;
  auth_token = or_default t.auth_token [];
}

abbrev pub read_http_client : Option HttpClientTable → HttpClientConfig
read_http_client none = default_http_client
read_http_client (some t) = record {
  connect_timeout_secs = or_default t.connect_timeout_secs default_connect_timeout_secs;
  user_agent = or_default t.user_agent default_user_agent;
}

abbrev pub read_retention : Option RetentionTable → RetentionConfig
read_retention none = default_retention
read_retention (some t) = record {
  enabled = or_default t.enabled false;
  processed_retention_days = or_default t.processed_retention_days 7;
  dead_letter_retention_days = or_default t.dead_letter_retention_days 30;
  cleanup_interval_secs = or_default t.cleanup_interval_secs 3600;
  batch_limit = or_default t.batch_limit 1000;
}

abbrev pub read_observability : Option ObservabilityTable → ObservabilityConfig
read_observability none = default_observability
read_observability (some t) = record {
  metrics_bind = or_default t.metrics_bind default_metrics_bind;
  stats_sample_interval_secs = or_default t.stats_sample_interval_secs 30;
}

-- Any other member of a table is refused by `deny_unknown_fields`.
unfoldable pub read_config : AppTable → AppConfig
read_config t = record {
  database = read_database t.database;
  dispatch = read_dispatch t.required t.options;
  log = t.log;
  signing_keys = or_default t.signing_keys [];
  admin = read_admin t.admin;
  http_client = read_http_client t.http_client;
  retention = read_retention t.retention;
  observability = read_observability t.observability;
}
