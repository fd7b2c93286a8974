-- ===== src/Config/Validate.antt =====
-- `AppConfig::validate`. `str::parse::<SocketAddr>` is a parameter, of which nothing is assumed.
pub mod Defaults
use outbox_dispatcher.Base.{
  ℕ, ◌*◌, ◌^◌, ◌%◌, Bool, not, ◌&&◌, ◌||◌, List, [], ◌∷◌, ◌++◌, ltb, leb, ◌==◌, if◌then◌else◌, all,
  any, is_empty, Result, ok, err,
}
use outbox_dispatcher.Text.{Text, chars, bytes, show}
use outbox_dispatcher.Text.Parsing.{is_whitespace}
use outbox_dispatcher.Callbacks.Fields.{
  max_per_callback_attempts, max_handler_timeout_secs, max_completion_cycles_limit,
  max_backoff_element_secs, max_callbacks_per_event_limit,
}
use outbox_dispatcher.Callbacks.Headers.{illegal_byte}
use outbox_dispatcher.Config.Settings.{
  DatabaseConfig, DispatchSettings, LogConfig, AdminConfig, HttpClientConfig, RetentionConfig,
  ObservabilityConfig, AppConfig,
}

-- `s.trim().is_empty()`.
unfoldable pub is_blank : Text → Bool
is_blank s = all is_whitespace s

-- A condition that is an error, and its text.
abbrev pub Check : Type 0
Check = Bool × Text

-- `if condition { errors.push(text) }`, in turn.
unfoldable pub reported : List Check → List Text
reported [] = []
reported ((failed, text) ∷ checks) =
    let rest = reported checks in if failed then text ∷ rest else rest

unfoldable pub database_checks : DatabaseConfig → List Check
database_checks d =
    (
      is_blank d.url,
      chars
          "database.url is not set — provide it via the DATABASE_URL env var or APP__DATABASE__URL",
    )
    ∷ (d.max_connections == 0, chars "database.max_connections must be > 0")
    ∷ (d.acquire_timeout_secs == 0, chars "database.acquire_timeout_secs must be > 0")
    ∷ []

-- The checks of what a callback may override.
unfoldable pub default_checks : DispatchSettings → List Check
default_checks s =
    (s.max_attempts == 0, chars "dispatch.max_attempts must be > 0")
    ∷ (
      ltb max_per_callback_attempts s.max_attempts,
      chars "dispatch.max_attempts must be <= 50 (per-callback cap)",
    )
    ∷ (s.handler_timeout_secs == 0, chars "dispatch.handler_timeout_secs must be > 0")
    ∷ (
      ltb max_handler_timeout_secs s.handler_timeout_secs,
      chars "dispatch.handler_timeout_secs must be <= 300",
    )
    ∷ (s.lock_buffer_secs == 0, chars "dispatch.lock_buffer_secs must be > 0")
    ∷ (s.max_completion_cycles == 0, chars "dispatch.max_completion_cycles must be > 0")
    ∷ (
      ltb max_completion_cycles_limit s.max_completion_cycles,
      chars "dispatch.max_completion_cycles must be <= 1000",
    )
    ∷ (is_empty s.backoff_secs, chars "dispatch.backoff_secs must contain at least one value")
    ∷ (any (λ n. n == 0) s.backoff_secs, chars "dispatch.backoff_secs entries must all be > 0")
    ∷ (
      any (λ n. ltb max_backoff_element_secs n) s.backoff_secs,
      chars "dispatch.backoff_secs entries must all be <= 604800",
    )
    ∷ []

unfoldable pub batch_checks : DispatchSettings → List Check
batch_checks s =
    (s.poll_interval_secs == 0, chars "dispatch.poll_interval_secs must be > 0")
    ∷ (s.batch_size == 0, chars "dispatch.batch_size must be > 0")
    ∷ (s.schedule_batch_size == 0, chars "dispatch.schedule_batch_size must be > 0")
    ∷ []

unfoldable pub limit_checks : DispatchSettings → List Check
limit_checks s =
    (
      ltb s.external_timeout_sweep_interval_secs 10,
      chars "dispatch.external_timeout_sweep_interval_secs must be >= 10",
    )
    ∷ (
      ltb s.payload_size_limit_bytes 1024,
      chars "dispatch.payload_size_limit_bytes must be >= 1024 (1 KB)",
    )
    ∷ (
      ltb 104857600 s.payload_size_limit_bytes,
      chars "dispatch.payload_size_limit_bytes must be <= 104857600 (100 MB)",
    )
    ∷ (is_blank s.notify_channel, chars "dispatch.notify_channel must not be empty")
    ∷ (s.max_callbacks_per_event == 0, chars "dispatch.max_callbacks_per_event must be > 0")
    ∷ (
      ltb max_callbacks_per_event_limit s.max_callbacks_per_event,
      chars "dispatch.max_callbacks_per_event must be <= 1000",
    )
    ∷ (s.dispatch_concurrency == 0, chars "dispatch.dispatch_concurrency must be > 0")
    ∷ []

-- `dispatch_concurrency as u32 > max_connections`.
unfoldable pub concurrency_checks : DispatchSettings → DatabaseConfig → List Check
concurrency_checks s d =
    (
      ltb 0 d.max_connections && ltb d.max_connections (s.dispatch_concurrency % 2 ^ 32),
      chars "dispatch.dispatch_concurrency ("
          ++ (show s.dispatch_concurrency
              ++ (chars ") must be <= database.max_connections ("
                  ++ (show d.max_connections
                      ++ chars
                          "); a slow callback can otherwise hold the last connection while concurrent dispatchers stall on lock_delivery"))),
    )
    ∷ []

unfoldable pub user_agent_checks : Text → List Check
user_agent_checks user_agent =
    if is_blank user_agent
    then (is_blank user_agent, chars "http_client.user_agent must not be empty") ∷ []
    else (
      any illegal_byte (bytes user_agent),
      chars
          "http_client.user_agent contains invalid characters (control characters and non-ASCII bytes are not allowed)",
    )
      ∷ []

unfoldable pub retention_checks : RetentionConfig → List Check
retention_checks r =
    (
      r.enabled && r.processed_retention_days == 0,
      chars "retention.processed_retention_days must be >= 1",
    )
    ∷ (
      r.enabled && r.dead_letter_retention_days == 0,
      chars "retention.dead_letter_retention_days must be >= 1",
    )
    ∷ (
      r.enabled && ltb r.cleanup_interval_secs 60,
      chars "retention.cleanup_interval_secs must be >= 60 (1 minute)",
    )
    ∷ (
      r.enabled && (r.batch_limit == 0 || ltb 10000 r.batch_limit),
      chars "retention.batch_limit must be between 1 and 10000",
    )
    ∷ []

-- A bind address that does not parse.
abbrev address_text : Text → Text → Text → Text
address_text field bind port =
    field
    ++ (chars " '"
        ++ (bind
            ++ (chars "' is not a valid socket address (expected IP:port, e.g. 0.0.0.0:"
                ++ (port ++ (chars " or [::]:" ++ (port ++ chars ")"))))))

module _ (is_socket_addr : Text → Bool) where
  unfoldable pub service_checks : AppConfig → List Check
  service_checks a =
      (is_blank a.log.filter, chars "log.filter must not be empty")
      ∷ (
        is_blank a.admin.auth_token,
        chars
            "admin.auth_token is empty — set ADMIN_TOKEN env var or APP__ADMIN__AUTH_TOKEN; the admin API must not run without a bearer token",
      )
      ∷ (
        not (is_socket_addr a.admin.bind),
        address_text (chars "admin.bind") a.admin.bind (chars "9090"),
      )
      ∷ (
        a.http_client.connect_timeout_secs == 0,
        chars "http_client.connect_timeout_secs must be > 0",
      )
      ∷ []

  unfoldable pub observability_checks : ObservabilityConfig → List Check
  observability_checks o =
      (
        not (is_socket_addr o.metrics_bind),
        address_text (chars "observability.metrics_bind") o.metrics_bind (chars "9091"),
      )
      ∷ (
        ltb o.stats_sample_interval_secs 10,
        chars
            "observability.stats_sample_interval_secs must be >= 10 (sub-10s sampling re-introduces sustained DB load — see review F20)",
      )
      ∷ []

  -- The checks in the order of the source.
  unfoldable pub checks : AppConfig → List Check
  checks a =
      database_checks a.database
      ++ (batch_checks a.dispatch
          ++ (default_checks a.dispatch
              ++ (limit_checks a.dispatch
                  ++ (concurrency_checks a.dispatch a.database
                      ++ (service_checks a
                          ++ (user_agent_checks a.http_client.user_agent
                              ++ (retention_checks a.retention
                                  ++ observability_checks a.observability)))))))

  unfoldable pub validate : AppConfig → Result (List Text) (Unit {0})
  validate a = let errors = reported (checks a) in if is_empty errors then ok tt else err errors
