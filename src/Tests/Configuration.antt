-- ===== src/Tests/Configuration.antt =====
-- A configuration is validated.
use outbox_dispatcher.Base.{
  ◌≡◌, refl, Bool, true, false, [], ◌∷◌, none, some, ◌||◌, arith, Ensures, ok,
}
use outbox_dispatcher.Text.{Text, chars, text_eq, bytes}
use outbox_dispatcher.Text.Parsing.{is_whitespace}
use outbox_dispatcher.Callbacks.Headers.{illegal_byte}
use outbox_dispatcher.Config.Settings.{AppConfig, DispatchSettings, from_settings}
use outbox_dispatcher.Config.Validate.{
  validate, checks, reported, database_checks, batch_checks, default_checks, limit_checks,
  concurrency_checks, service_checks, user_agent_checks, retention_checks, observability_checks,
  is_blank,
}
use outbox_dispatcher.Config.Tables.{
  AppTable, default_admin_bind, default_metrics_bind, default_dispatch, read_config, read_retention,
  read_admin,
}
use outbox_dispatcher.Config.Tables.Minimal.{AcceptsDefaults, minimal, validate-minimal}
use outbox_dispatcher.Startup.{prepare}
use outbox_dispatcher.Startup.Ready.{IsReady, prepare-Ensures}
use outbox_dispatcher.Tests.Operations.{engines, environment}

abbrev address : Text
address = chars "[::]:9090"

-- A parser that reads one address.
abbrev is_socket_addr : Text → Bool
is_socket_addr s = text_eq s address

abbrev settings : DispatchSettings
settings = record {
  poll_interval_secs = 5;
  batch_size = 50;
  dispatch_concurrency = 16;
  schedule_batch_size = 500;
  max_attempts = 6;
  backoff_secs = 30 ∷ 120 ∷ [];
  handler_timeout_secs = 30;
  lock_buffer_secs = 10;
  external_timeout_sweep_interval_secs = 60;
  max_completion_cycles = 20;
  payload_size_limit_bytes = 1048576;
  notify_channel = chars "outbox";
  allow_insecure_urls = false;
  allow_unsigned_callbacks = false;
  allow_private_ip_targets = false;
  max_callbacks_per_event = 32;
}

abbrev app : AppConfig
app = record {
  database = record { url = chars "postgres:"; max_connections = 20; acquire_timeout_secs = 10 };
  dispatch = settings;
  log = record { filter = chars "info" };
  signing_keys = [];
  admin = record { bind = address; auth_token = chars "secret" };
  http_client = record { connect_timeout_secs = 5; user_agent = chars "outbox" };
  retention = record {
    enabled = true;
    processed_retention_days = 7;
    dead_letter_retention_days = 30;
    cleanup_interval_secs = 3600;
    batch_limit = 1000;
  };
  observability = record { metrics_bind = address; stats_sample_interval_secs = 30 };
}

abbrev app_with_key : AppConfig
app_with_key = record app { signing_keys = (chars "k1", record { secret_env = chars "A" }) ∷ [] }

prepare-Ensures_example :
    Ensures
      (IsReady is_socket_addr engines environment (1 ∷ 2 ∷ []) (ok (some 2)) app_with_key)
      (prepare is_socket_addr engines environment (1 ∷ 2 ∷ []) (ok (some 2)) app_with_key)
prepare-Ensures_example =
    prepare-Ensures is_socket_addr engines environment (1 ∷ 2 ∷ []) (ok (some 2)) app_with_key

-- A parser that reads the two addresses of the defaults.
abbrev reads_defaults : Text → Bool
reads_defaults s = text_eq s default_admin_bind || text_eq s default_metrics_bind

abbrev table : AppTable
table = record {
  database = record {
    url = chars "postgres:";
    max_connections = 20;
    acquire_timeout_secs = some 3;
  };
  required = settings;
  options = record {
    dispatch_concurrency = some 8;
    schedule_batch_size = some 100;
    allow_insecure_urls = some true;
    allow_unsigned_callbacks = none;
    allow_private_ip_targets = none;
    max_callbacks_per_event = some 4;
  };
  log = record { filter = chars "info" };
  signing_keys = none;
  admin = some (record { bind = none; auth_token = some (chars "secret") });
  http_client = some (record { connect_timeout_secs = some 9; user_agent = none });
  retention = none;
  observability =
      some (record { metrics_bind = some default_admin_bind; stats_sample_interval_secs = none });
}

table_passes : validate reads_defaults (read_config table) ≡ ok tt
unfolding read_config validate checks reported database_checks batch_checks default_checks
    limit_checks concurrency_checks service_checks user_agent_checks retention_checks
    observability_checks is_blank is_whitespace illegal_byte bytes text_eq
table_passes = refl

reads_both : AcceptsDefaults reads_defaults
unfolding text_eq
reads_both = (refl, refl)

validate-minimal_example : validate reads_defaults (read_config (minimal table)) ≡ ok tt
validate-minimal_example =
    validate-minimal reads_defaults table reads_both (omega arith) table_passes

-- A section that is absent is one whose table is empty.
no_retention :
    read_retention none
    ≡ read_retention (
        some (record {
          enabled = none;
          processed_retention_days = none;
          dead_letter_retention_days = none;
          cleanup_interval_secs = none;
          batch_limit = none;
        }))
no_retention = refl

no_admin : read_admin none ≡ read_admin (some (record { bind = none; auth_token = none }))
no_admin = refl

-- The default of the library is what the settings of the defaults give.
abbrev default_settings : DispatchSettings
default_settings = record settings {
  backoff_secs = 30 ∷ 120 ∷ 600 ∷ 3600 ∷ 21600 ∷ 86400 ∷ [];
  notify_channel = chars "outbox_events_new";
}

same_defaults : from_settings default_settings ≡ default_dispatch
unfolding from_settings
same_defaults = refl
