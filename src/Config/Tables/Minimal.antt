-- ===== src/Config/Tables/Minimal.antt =====
-- What may be left out of a configuration.
use outbox_dispatcher.Base.{
  ◌≤◌, ◌≡◌, refl, Bool, true, none, some, List, [], ◌∷◌, ◌++◌, All, All-append, ok, arith,
}
use outbox_dispatcher.Text.{Text, bytes}
use outbox_dispatcher.Text.Parsing.{is_whitespace}
use outbox_dispatcher.Callbacks.Headers.{illegal_byte}
use outbox_dispatcher.Config.Settings.{AppConfig, DatabaseConfig, DispatchSettings}
use outbox_dispatcher.Config.Validate.{
  Check, reported, database_checks, batch_checks, default_checks, limit_checks, concurrency_checks,
  service_checks, user_agent_checks, retention_checks, observability_checks, checks, validate,
  is_blank,
}
use outbox_dispatcher.Config.Validate.Defaults.{Passed, All-left, All-right, validate-Passed}
use outbox_dispatcher.Config.Tables.{
  AppTable, DispatchOptions, read_admin, read_dispatch, default_admin_bind, default_metrics_bind,
  read_config,
}

-- The table without any field that may be absent, but for the token.
abbrev pub minimal : AppTable → AppTable
minimal t = record t {
  database = record t.database { acquire_timeout_secs = none };
  options = record {
    dispatch_concurrency = none;
    schedule_batch_size = none;
    allow_insecure_urls = none;
    allow_unsigned_callbacks = none;
    allow_private_ip_targets = none;
    max_callbacks_per_event = none;
  };
  signing_keys = none;
  admin = some (record { bind = none; auth_token = some (read_admin t.admin).auth_token });
  http_client = none;
  retention = none;
  observability = none;
}

Passed-reported : (cs : List Check) → All Passed cs → reported cs ≡ []
unfolding reported
Passed-reported [] h = refl
Passed-reported ((failed, text) ∷ cs) h = rw h.0 (Passed-reported cs h.1)

database-kept :
    (d : DatabaseConfig)
    → All Passed (database_checks d)
    → All Passed (database_checks (record d { acquire_timeout_secs = 10 }))
unfolding database_checks
database-kept d (url, (size, more)) = (url, (size, (refl, tt)))

batch-kept :
    (s s' : DispatchSettings)
    → s'.poll_interval_secs ≡ s.poll_interval_secs
    → s'.batch_size ≡ s.batch_size
    → s'.schedule_batch_size ≡ 500
    → All Passed (batch_checks s)
    → All Passed (batch_checks s')
unfolding batch_checks
batch-kept s s' poll batch schedule (p, (b, more)) =
    (rw poll p, (rw batch b, (rw schedule refl, tt)))

module _ (required : DispatchSettings) (o o' : DispatchOptions)
    (without : (o'.dispatch_concurrency ≡ none) × (o'.max_callbacks_per_event ≡ none)) where
  limit-kept :
      All Passed (limit_checks (read_dispatch required o))
      → All Passed (limit_checks (read_dispatch required o'))
  unfolding limit_checks
  limit-kept (sweep, (low, (high, (channel, more)))) =
      rw (without.0, without.1) (sweep, (low, (high, (channel, (refl, (refl, (refl, tt)))))))

  concurrency-fits :
      (d : DatabaseConfig)
      → 16 ≤ d.max_connections
      → All Passed (concurrency_checks (read_dispatch required o') d)
  unfolding concurrency_checks
  concurrency-fits d enough = rw without.0 (ground arith, tt)

module _ (is_socket_addr : Text → Bool) where
  Passed-validate :
      (a : AppConfig) → All Passed (checks is_socket_addr a) → validate is_socket_addr a ≡ ok tt
  unfolding validate
  Passed-validate a h = rw (Passed-reported (checks is_socket_addr a) h) refl

  -- The parser of socket addresses accepts the two addresses of the defaults.
  abbrev pub AcceptsDefaults : Type 0
  AcceptsDefaults =
      (is_socket_addr default_admin_bind ≡ true) × (is_socket_addr default_metrics_bind ≡ true)

  -- From a configuration that passes, every field that may be absent can be left out but for the
  -- token, if the database allows as many connections as the default concurrency and the parser of
  -- socket addresses accepts the default ones.
  pub validate-minimal :
      (t : AppTable)
      → AcceptsDefaults
      → 16 ≤ t.database.max_connections
      → validate is_socket_addr (read_config t) ≡ ok tt
      → validate is_socket_addr (read_config (minimal t)) ≡ ok tt
  unfolding checks read_config default_checks service_checks user_agent_checks retention_checks
      observability_checks is_blank is_whitespace illegal_byte bytes
  validate-minimal t accepts enough valid =
      let a = read_config t in
      let b = read_config (minimal t) in
      let options = (minimal t).options in
      let all = All-right (database_checks a.database) _ (validate-Passed is_socket_addr a valid) in
      let defaults = All-right (batch_checks a.dispatch) _ all in
      let limits = All-right (default_checks a.dispatch) _ defaults in
      let services =
        All-right (concurrency_checks a.dispatch a.database) _
          (All-right (limit_checks a.dispatch) _ limits) in
      let tail : List Check =
        user_agent_checks b.http_client.user_agent
        ++ (retention_checks b.retention ++ observability_checks is_socket_addr b.observability) in
      let rest : All Passed (service_checks is_socket_addr b ++ tail) =
        All-append Passed (service_checks is_socket_addr b) tail
          (services.0, (services.1.0, (rw accepts.0 refl, (refl, tt))))
          (refl, (refl, (refl, (refl, (refl, (rw accepts.1 refl, (refl, tt))))))) in
      Passed-validate b (
        All-append Passed (database_checks b.database) _
          (database-kept a.database
            (All-left (database_checks a.database) _ (validate-Passed is_socket_addr a valid)))
          (All-append Passed (batch_checks b.dispatch) _
            (batch-kept a.dispatch b.dispatch refl refl refl
              (All-left (batch_checks a.dispatch) _ all))
            (All-append Passed (default_checks b.dispatch) _
              (All-left (default_checks a.dispatch) _ defaults)
              (All-append Passed (limit_checks b.dispatch) _
                (limit-kept t.required t.options options (refl, refl)
                  (All-left (limit_checks a.dispatch) _ limits))
                (All-append Passed (concurrency_checks b.dispatch b.database) _
                  (concurrency-fits t.required t.options options (refl, refl) b.database enough)
                  rest)))))
