-- ===== src/Callbacks/Parse.antt =====
-- `parse_one_callback`, `parse_callbacks` and `validate_named_callback`.
pub mod Target
pub mod Lists
pub mod Agreement
use outbox_dispatcher.Base.{
  ℕ, ◌+◌, Bool, true, false, not, ◌&&◌, Option, none, some, List, [], ◌∷◌, ◌++◌, ltb, if◌then◌else◌,
  is_none, length, Result, ok, err, ok_or, fail_if, map_err, ◌>>=◌, ◌>>◌,
}
use outbox_dispatcher.Text.{Text, chars, text_eq, contains}
use outbox_dispatcher.Json.{Value, as_array, as_object, as_str, lookup, get}
use outbox_dispatcher.Schema.{CallbackTarget, CompletionMode, is_external}
use outbox_dispatcher.Config.{DispatchConfig}
use outbox_dispatcher.Callbacks.Reason.{
  InvalidReason, not_array, too_many_callbacks, not_an_object, missing_name, name_not_string,
  name_invalid, missing_url, url_not_string, missing_signing_key_id, external_missing_timeout,
  duplicate_name,
}
use outbox_dispatcher.Callbacks.Messages.{
  root, positional, not_array_text, too_many_text, duplicate_name_text, not_an_object_text,
  missing_name_text, name_not_string_text, name_invalid_text, missing_url_text, url_not_string_text,
  missing_signing_key_text, external_missing_timeout_text,
}
use outbox_dispatcher.Callbacks.Name.{is_valid_callback_name}
use outbox_dispatcher.Callbacks.Url.{Url, validate_url}
use outbox_dispatcher.Callbacks.Headers.{parse_headers}
use outbox_dispatcher.Callbacks.Fields.{
  parse_mode, parse_max_attempts, parse_backoff, parse_timeout, parse_external_timeout,
  parse_max_completion_cycles,
}

-- `(name_or_index, reason_code, error_message)`.
abbrev pub Invalid : Type 0
Invalid = Text × InvalidReason × Text

pub record ParsedCallbacks : Type 0 where
  pub valid : List CallbackTarget
  pub invalid : List Invalid

pub data NamedCallbackError : Type 0 where
  invalid_spec : Text → NamedCallbackError
  not_found : NamedCallbackError

-- `obj.get(key).and_then(|v| v.as_str())`.
abbrev get_str : List (Text × Value) → Text → Option Text
get_str obj key = elim (lookup key obj) [ none ↦ none | some v ↦ as_str v ]

-- The callback's name, or the error of a missing or non-string one.
unfoldable pub parse_name : List (Text × Value) → ℕ → Result Invalid Text
parse_name obj index = do
  v ← ok_or (lookup (chars "name") obj) (positional index, missing_name, missing_name_text)
  ok_or (as_str v) (positional index, name_not_string, name_not_string_text)

-- `(name, code, reason)` from `(code, reason)`.
abbrev tag : Text → InvalidReason × Text → Invalid
tag name e = (name, e.0, e.1)

-- One element's result, put into the lists; `seen_names` are the names of `valid`.
classify : Result Invalid CallbackTarget → List Text → ParsedCallbacks → List Text × ParsedCallbacks
classify (err e) seen_names out = (seen_names, record out { invalid = out.invalid ++ e ∷ [] })
classify (ok target) seen_names out =
    if contains seen_names target.name
    then (
      seen_names,
      record out {
        invalid = out.invalid ++ (target.name, duplicate_name, duplicate_name_text) ∷ [];
      },
    )
    else (target.name ∷ seen_names, record out { valid = out.valid ++ target ∷ [] })

-- `v.get("name").and_then(|n| n.as_str()) == Some(callback_name)`.
unfoldable pub is_named : Text → Value → Bool
is_named callback_name v = elim (get v (chars "name")) [
  | none ↦ false
  | some n ↦ elim (as_str n) [ none ↦ false | some s ↦ text_eq s callback_name ]
]

-- `.iter().enumerate().find(…)`.
unfoldable pub find_named : Text → List Value → ℕ → Option (ℕ × Value)
find_named callback_name [] i = none
find_named callback_name (v ∷ vs) i =
    if is_named callback_name v then some (i, v) else find_named callback_name vs (i + 1)

module _ (parse_url : Text → Option Url) where
  -- The closure `body`.
  unfoldable pub parse_body :
      List (Text × Value) → Text → DispatchConfig → Result (InvalidReason × Text) CallbackTarget
  parse_body obj name config = do
    url_value ← ok_or (lookup (chars "url") obj) (missing_url, missing_url_text)
    url ← ok_or (as_str url_value) (url_not_string, url_not_string_text)
    validate_url parse_url url config.allow_insecure_urls config.allow_private_ip_targets
    mode ← parse_mode (get_str obj (chars "mode"))
    let signing_key_id = get_str obj (chars "signing_key_id")
    fail_if (not config.allow_unsigned_callbacks && is_none signing_key_id)
        (missing_signing_key_id, missing_signing_key_text)
    headers ← parse_headers (lookup (chars "headers") obj)
    max_attempts ← parse_max_attempts (lookup (chars "max_attempts") obj) config.max_attempts
    backoff ← parse_backoff (lookup (chars "backoff_seconds") obj) config.backoff
    timeout ← parse_timeout (lookup (chars "timeout_seconds") obj) config.handler_timeout
    external_completion_timeout ←
        parse_external_timeout (lookup (chars "external_completion_timeout_seconds") obj)
    max_completion_cycles ←
        parse_max_completion_cycles (lookup (chars "max_completion_cycles") obj)
          config.max_completion_cycles
    fail_if (is_external mode && is_none external_completion_timeout)
        (external_missing_timeout, external_missing_timeout_text)
    ok (record {
      name = name;
      url = url;
      mode = mode;
      signing_key_id = signing_key_id;
      headers = headers;
      max_attempts = max_attempts;
      backoff = backoff;
      timeout = timeout;
      external_completion_timeout = external_completion_timeout;
      max_completion_cycles = max_completion_cycles;
    })

  unfoldable pub parse_one_callback : Value → ℕ → DispatchConfig → Result Invalid CallbackTarget
  parse_one_callback element index config = do
    obj ← ok_or (as_object element) (positional index, not_an_object, not_an_object_text)
    name ← parse_name obj index
    fail_if (not (is_valid_callback_name name)) (name, name_invalid, name_invalid_text)
    map_err (tag name) (parse_body obj name config)

  -- The loop over the array from index `i` on.
  callback_loop : List Value → ℕ → DispatchConfig → List Text → ParsedCallbacks → ParsedCallbacks
  callback_loop [] i config seen_names out = out
  callback_loop (element ∷ rest) i config seen_names out =
      let next = classify (parse_one_callback element i config) seen_names out in
      callback_loop rest (i + 1) config next.0 next.1

  -- The array-level size check, then the loop.
  unfoldable parse_array : List Value → DispatchConfig → ParsedCallbacks
  parse_array elements config =
      if ltb config.max_callbacks_per_event (length elements)
      then record {
        valid = [];
        invalid =
            (
              root,
              too_many_callbacks,
              too_many_text (length elements) config.max_callbacks_per_event,
            )
            ∷ [];
      }
      else callback_loop elements 0 config [] (record { valid = []; invalid = [] })

  pub parse_callbacks : Value → DispatchConfig → ParsedCallbacks
  unfolding parse_array
  parse_callbacks callbacks_json config = elim (as_array callbacks_json) [
    | none ↦ record { valid = []; invalid = (root, not_array, not_array_text) ∷ [] }
    | some elements ↦ parse_array elements config
  ]

  unfoldable pub validate_named_callback :
      Value → Text → DispatchConfig → Result NamedCallbackError CallbackTarget
  validate_named_callback callbacks_json callback_name config = do
    elements ← ok_or (as_array callbacks_json) (invalid_spec not_array_text)
    fail_if (ltb config.max_callbacks_per_event (length elements))
        (invalid_spec (too_many_text (length elements) config.max_callbacks_per_event))
    found ← ok_or (find_named callback_name elements 0) not_found
    map_err (λ e. invalid_spec e.2) (parse_one_callback found.1 found.0 config)
