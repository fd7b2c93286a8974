-- ===== src/Startup.antt =====
-- What the service does before its workers start: `run` and `validate_schema` of
-- crates/bin/src/main.rs. The connection and the migrations are I/O.
pub mod Ready
use outbox_dispatcher.Base.{
  ℕ, zero, max, Bool, Option, none, some, List, [], ◌∷◌, ltb, if◌then◌else◌, Result, ok, err, ◌>>=◌,
  map_err,
}
use outbox_dispatcher.Text.{Text}
use outbox_dispatcher.Config.{DispatchConfig}
use outbox_dispatcher.Config.Settings.{AppConfig, from_settings}
use outbox_dispatcher.Config.Validate.{validate}
use outbox_dispatcher.Keyring.{Base64, KeyRing, load_internal}

-- The answer of the query for the newest migration: SQLSTATE 42P01, or any other error.
pub data QueryError : Type 0 where
  undefined_table : QueryError
  other_error : Text → QueryError

pub data StartError : Type 0 where
  invalid_configuration : List Text → StartError
  invalid_signing_keys : List Text → StartError
  query_failed : Text → StartError
  version_mismatch : ℕ → ℕ → StartError

-- `.max().unwrap_or(0)`.
abbrev pub max_version : List ℕ → ℕ
max_version [] = 0
max_version (v ∷ vs) = max v (max_version vs)

unfoldable pub applied_version : Result QueryError (Option ℕ) → Result StartError (Option ℕ)
applied_version (ok v) = ok v
applied_version (err undefined_table) = ok none
applied_version (err (other_error e)) = err (query_failed e)

unfoldable pub check_version : List ℕ → Option ℕ → Result StartError (Unit {0})
check_version versions none = ok tt
check_version versions (some db_version) =
    if ltb (max_version versions) db_version
    then err (version_mismatch db_version (max_version versions))
    else ok tt

-- `versions` are those of the migrations in the binary.
unfoldable pub validate_schema :
    List ℕ → Result QueryError (Option ℕ) → Result StartError (Unit {0})
validate_schema versions answer = applied_version answer >>= check_version versions

module _ (is_socket_addr : Text → Bool) (engines : Base64) (env_resolver : Text → Result Text Text)
    (versions : List ℕ) (answer : Result QueryError (Option ℕ)) where
  -- The checks in their order; what goes on has the dispatch configuration and the keys.
  unfoldable pub prepare : AppConfig → Result StartError (DispatchConfig × KeyRing)
  prepare config = map_err invalid_configuration (validate is_socket_addr config) >>= λ _.
      map_err invalid_signing_keys (load_internal engines env_resolver config.signing_keys)
      >>= λ keyring.
          validate_schema versions answer >>= λ _. ok (from_settings config.dispatch, keyring)
