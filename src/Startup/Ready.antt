-- ===== src/Startup/Ready.antt =====
-- What a service that starts can rely on.
use mathlib.Core.Path.{subst}
use outbox_dispatcher.Base.{
  ℕ, ◌≤◌, ◌<◌, ◌≡◌, refl, Bool, Option, none, some, List, ltb, Result, ok, err, map_err-Ensures,
  Ensures, returns, fails, bind-Ensures, Bool-cases, inl, inr, arith,
}
use outbox_dispatcher.Text.{Text}
use outbox_dispatcher.Config.{DispatchConfig}
use outbox_dispatcher.Config.Settings.{AppConfig, from_settings}
use outbox_dispatcher.Config.Validate.{validate}
use outbox_dispatcher.Config.Validate.Defaults.{validate-HasDefaults, validate-IsBounded}
use outbox_dispatcher.Callbacks.Parse.Target.{HasDefaults}
use outbox_dispatcher.Keyring.{Base64, KeyRing, load_internal}
use outbox_dispatcher.Keyring.Loads.{Loads, load_internal-Loads}
use outbox_dispatcher.Startup.{
  QueryError, undefined_table, other_error, max_version, applied_version, check_version,
  validate_schema, prepare,
}

-- Of any result: a success is that very one.
self-Ensures : {E A : Type 0} (r : Result E A) → Ensures (λ a. r ≡ ok a) r
self-Ensures (ok a) = returns refl
self-Ensures (err e) = fails

-- No migration of the database is newer than those of the binary; without the table there are none.
abbrev pub IsKnown : List ℕ → Result QueryError (Option ℕ) → Type 0
IsKnown versions (ok none) = Unit
IsKnown versions (ok (some v)) = v ≤ max_version versions
IsKnown versions (err undefined_table) = Unit
IsKnown versions (err (other_error e)) = ⊥

check-Ensures :
    (versions : List ℕ) (v : ℕ)
    → Ensures (λ _. v ≤ max_version versions) (check_version versions (some v))
unfolding check_version
check-Ensures versions v = elim (Bool-cases (ltb (max_version versions) v)) [
  | inl newer ↦ rw newer fails
  | inr known ↦ rw known (returns (ground arith))
]

schema-Ensures :
    (versions : List ℕ) (answer : Result QueryError (Option ℕ))
    → Ensures (λ _. IsKnown versions answer) (validate_schema versions answer)
unfolding validate_schema applied_version check_version
schema-Ensures versions (ok none) = returns tt
schema-Ensures versions (ok (some v)) = check-Ensures versions v
schema-Ensures versions (err undefined_table) = returns tt
schema-Ensures versions (err (other_error e)) = fails

module _ (is_socket_addr : Text → Bool) (engines : Base64) (env_resolver : Text → Result Text Text)
    (versions : List ℕ) (answer : Result QueryError (Option ℕ)) where
  -- The defaults are in range and no batch is empty; every configured key has its secret; and the
  -- database has no newer schema than the binary knows.
  abbrev pub IsReady : AppConfig → DispatchConfig × KeyRing → Type 0
  IsReady config (dispatch, keyring) =
      (dispatch ≡ from_settings config.dispatch)
      × HasDefaults dispatch
      × (0 < dispatch.batch_size)
      × (0 < dispatch.schedule_batch_size)
      × Loads config.signing_keys (ok keyring)
      × IsKnown versions answer

  -- A service that passes the checks before its start has defaults in range, batches that are not
  -- empty, a secret of 32 to 256 bytes for each configured key, and a database whose schema is no
  -- newer than the binary knows.
  pub prepare-Ensures :
      (config : AppConfig)
      → Ensures
          (IsReady config)
          (prepare is_socket_addr engines env_resolver versions answer config)
  unfolding prepare from_settings
  prepare-Ensures config =
      bind-Ensures (map_err-Ensures _ (self-Ensures (validate is_socket_addr config))) λ _ valid.
        bind-Ensures
          (map_err-Ensures _
            (self-Ensures (load_internal engines env_resolver config.signing_keys)))
          λ keyring loaded. bind-Ensures (schema-Ensures versions answer) λ _ known.
            let bounded = validate-IsBounded is_socket_addr config valid in
            returns (
              refl,
              validate-HasDefaults is_socket_addr config valid,
              omega (arith, bounded.batch.0),
              omega (arith, bounded.batch.1),
              subst (Loads config.signing_keys) loaded
                  (load_internal-Loads engines env_resolver config.signing_keys),
              known,
            )
