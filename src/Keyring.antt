-- ===== src/Keyring.antt =====
-- The signing keys: crates/core/src/keyring.rs. The environment and the crate `base64` are parameters.
pub mod Loads
use outbox_dispatcher.Base.{
  ℕ, Bool, true, false, not, Option, none, some, List, [], ◌∷◌, ◌++◌, ltb, if◌then◌else◌, length,
  select, is_some, is_empty, Result, ok, err,
}
use outbox_dispatcher.Text.{Text, chars, text_eq, show}
use outbox_dispatcher.Text.Parsing.{is_whitespace, trim}
use outbox_dispatcher.Config.Settings.{SigningKeyConfig}
use outbox_dispatcher.Repo.Db.{order_by}

abbrev pub min_secret_bytes : ℕ
min_secret_bytes = 32

abbrev pub max_secret_bytes : ℕ
max_secret_bytes = 256

-- `HashMap::get` on an association list, the latest insertion first.
unfoldable pub get_text : {A : Type 0} → Text → List (Text × A) → Option A
get_text k [] = none
get_text k ((j, a) ∷ rest) = if text_eq j k then some a else get_text k rest

-- The four engines of the crate `base64` that the code tries.
pub record Base64 : Type 0 where
  pub standard : Text → Result Text (List ℕ)
  pub standard_no_pad : Text → Result Text (List ℕ)
  pub url_safe : Text → Result Text (List ℕ)
  pub url_safe_no_pad : Text → Result Text (List ℕ)

pub record KeyRing : Type 0 where
  pub keys : List (Text × List ℕ)

unfoldable pub get : KeyRing → Text → Option (List ℕ)
get ring id = get_text id ring.keys

unfoldable pub contains : KeyRing → Text → Bool
unfolding get
contains ring id = is_some (get ring id)

unfoldable pub with_key : Text → List ℕ → KeyRing
with_key key_id secret = record { keys = (key_id, secret) ∷ [] }

abbrev or_else : {E A : Type 0} → Result E A → (E → Result E A) → Result E A
or_else (ok a) f = ok a
or_else (err e) f = f e

-- The error of the second engine is the one that is reported.
decode : Base64 → Text → Result Text (List ℕ)
decode engines cleaned =
    or_else (or_else (engines.standard cleaned) (λ _. engines.standard_no_pad cleaned))
      (λ first_err.
        or_else (engines.url_safe cleaned)
          (λ _. or_else (engines.url_safe_no_pad cleaned) (λ _. err first_err)))

abbrev at_key : Text → Text → Text
at_key id message = chars "signing_keys[" ++ (id ++ (chars "]: " ++ message))

abbrev size_error : Text → Text → ℕ → Text → Text
size_error id env size bound = at_key id (
    chars "secret from '"
    ++ (env ++ (chars "' is " ++ (show size ++ (chars " bytes after decoding; " ++ bound)))))

-- The secret that an environment variable's value gives, or the error.
check_secret : Base64 → Text → Text → Result Text Text → Result Text (List ℕ)
unfolding decode
check_secret engines id env (err reason) =
    err (at_key id (chars "env var '" ++ (env ++ (chars "' " ++ reason))))
check_secret engines id env (ok val) =
    elim (decode engines (select (λ c. not (is_whitespace c)) val)) [
      | err e ↦
          err (
            at_key id
              (chars "failed to base64-decode secret from '" ++ (env ++ (chars "': " ++ e))))
      | ok bytes ↦
          if ltb (length bytes) min_secret_bytes
          then err (size_error id env (length bytes) (chars "minimum is 32"))
          else if ltb max_secret_bytes (length bytes)
          then err (size_error id env (length bytes) (chars "maximum is 256"))
          else ok bytes
    ]

-- The variables of the loop.
record Loading : Type 0 where
  errors : List Text
  keys : List (Text × List ℕ)
  seen_envs : List (Text × Text)

abbrev add_error : Text → Loading → Loading
add_error message l = record l { errors = l.errors ++ message ∷ [] }

abbrev add_secret : Text → Result Text (List ℕ) → Loading → Loading
add_secret id (ok bytes) l = record l { keys = (id, bytes) ∷ l.keys }
add_secret id (err message) l = add_error message l

-- `str` is ordered by its bytes, which is the order of its chars.
text_le : Text → Text → Bool
text_le [] t = true
text_le (c ∷ s) [] = false
text_le (c ∷ s) (d ∷ t) =
    let rest = text_le s t in if ltb c d then true else if ltb d c then false else rest

abbrev entry_le : Text × SigningKeyConfig → Text × SigningKeyConfig → Bool
entry_le (id, _) (id', _) = text_le id id'

module _ (engines : Base64) (env_resolver : Text → Result Text Text) where
  load_entry : Text → Text → Loading → Loading
  load_entry id env l =
      if is_empty (trim env)
      then add_error (at_key id (chars "secret_env must not be empty")) l
      else elim (get_text env l.seen_envs) [
        | some prior_id ↦
            add_error
              (at_key id (
                chars "secret_env '"
                ++ (env ++ (chars "' is already used by key '" ++ (prior_id ++ chars "'")))))
              l
        | none ↦
            add_secret id (check_secret engines id env (env_resolver env))
              (record l { seen_envs = (env, id) ∷ l.seen_envs })
      ]

  load_loop : List (Text × SigningKeyConfig) → Loading → Loading
  load_loop [] l = l
  load_loop ((id, cfg) ∷ rest) l = load_loop rest (load_entry id cfg.secret_env l)

  unfoldable pub load_internal : List (Text × SigningKeyConfig) → Result (List Text) KeyRing
  unfolding load_loop load_entry check_secret text_le
  load_internal signing_keys =
      let l =
        load_loop (order_by entry_le signing_keys)
          (record { errors = []; keys = []; seen_envs = [] }) in
      if is_empty l.errors then ok (record { keys = l.keys }) else err l.errors
