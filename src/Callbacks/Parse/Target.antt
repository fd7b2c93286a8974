-- ===== src/Callbacks/Parse/Target.antt =====
-- What a callback target that passes satisfies.
use outbox_dispatcher.Base.{
  ℕ, ◌≡◌, refl, ◌⊎◌, inl, inr, Bool, true, false, not, ◌&&◌, Option, none, some, List, All, arith,
  is_none, is_some, Ensures, returns, bind-Ensures, ok_or-Ensures, fail_if-Ensures, map_err-Ensures,
  weaken, any-Ensures,
}
use outbox_dispatcher.Text.{Text, chars}
use outbox_dispatcher.Json.{Value, as_str, as_object, lookup}
use outbox_dispatcher.Schema.{CallbackTarget, CompletionMode, external, is_external}
use outbox_dispatcher.Config.{DispatchConfig}
use outbox_dispatcher.Callbacks.Name.{is_valid_callback_name}
use outbox_dispatcher.Callbacks.Url.{Url}
use outbox_dispatcher.Callbacks.Url.Guard.{IsAllowedUrl, validate_url-Ensures}
use outbox_dispatcher.Callbacks.Headers.Safety.{IsSafe, DistinctNames, headers-Ensures}
use outbox_dispatcher.Callbacks.Fields.{parse_mode}
use outbox_dispatcher.Callbacks.Fields.Ranges.{
  AttemptsOk, TimeoutOk, CyclesOk, BackoffOk, ExternalOk, max_attempts-Ensures, timeout-Ensures,
  external_timeout-Ensures, max_completion_cycles-Ensures, backoff-Ensures,
}
use outbox_dispatcher.Callbacks.Parse.{get_str, parse_name, parse_body, parse_one_callback}

-- The defaults are themselves in range, as `AppConfig::validate` demands.
pub record HasDefaults (config : DispatchConfig) : Type 0 where
  pub attempts : AttemptsOk config.max_attempts
  pub timeout : TimeoutOk config.handler_timeout
  pub cycles : CyclesOk config.max_completion_cycles
  pub backoff : BackoffOk config.backoff

pub record IsWellFormed (parse_url : Text → Option Url) (config : DispatchConfig)
    (t : CallbackTarget) : Type 0 where
  pub url : Url
  pub parsed : parse_url t.url ≡ some url
  pub allowed : IsAllowedUrl url config.allow_insecure_urls config.allow_private_ip_targets
  pub signed : (config.allow_unsigned_callbacks ≡ true) ⊎ (is_some t.signing_key_id ≡ true)
  pub headers : All IsSafe t.headers × DistinctNames t.headers
  pub attempts : AttemptsOk t.max_attempts
  pub backoff : BackoffOk t.backoff
  pub timeout : TimeoutOk t.timeout
  pub external_timeout : ExternalOk t.external_completion_timeout
  pub cycles : CyclesOk t.max_completion_cycles
  pub external_has_timeout : t.mode ≡ external → is_some t.external_completion_timeout ≡ true

key_cases :
    (unsigned : Bool) (key : Option Text)
    → (not unsigned && is_none key) ≡ false
    → (unsigned ≡ true) ⊎ (is_some key ≡ true)
key_cases true key h = inl refl
key_cases false none h = cc
key_cases false (some k) h = inr refl

external_cases :
    (mode : CompletionMode) (timeout : Option ℕ)
    → (is_external mode && is_none timeout) ≡ false
    → mode ≡ external
    → is_some timeout ≡ true
external_cases mode none h e = ground arith
external_cases mode (some t) h e = refl

module _ (parse_url : Text → Option Url) where
  body-Ensures :
      (obj : List (Text × Value)) (name : Text) (config : DispatchConfig)
      → HasDefaults config
      → Ensures
          (λ t. IsWellFormed parse_url config t × (t.name ≡ name))
          (parse_body parse_url obj name config)
  unfolding parse_body
  body-Ensures obj name config d =
      bind-Ensures (ok_or-Ensures (lookup (chars "url") obj) _) λ url_value _.
        bind-Ensures (ok_or-Ensures (as_str url_value) _) λ url _.
          bind-Ensures
            (validate_url-Ensures parse_url url config.allow_insecure_urls
              config.allow_private_ip_targets)
            λ _ allowed.
              bind-Ensures (any-Ensures (parse_mode (get_str obj (chars "mode")))) λ mode _.
                bind-Ensures
                  (fail_if-Ensures
                    (not config.allow_unsigned_callbacks
                      && is_none (get_str obj (chars "signing_key_id")))
                    _)
                  λ _ signed.
                    bind-Ensures (headers-Ensures (lookup (chars "headers") obj)) λ hs headers.
                      bind-Ensures (max_attempts-Ensures _ config.max_attempts d.attempts)
                        λ n attempts.
                          bind-Ensures (backoff-Ensures _ config.backoff d.backoff) λ ds backoff.
                            bind-Ensures (timeout-Ensures _ config.handler_timeout d.timeout)
                              λ s timeout.
                                bind-Ensures (external_timeout-Ensures _) λ x external_timeout.
                                  bind-Ensures
                                    (max_completion_cycles-Ensures _ config.max_completion_cycles
                                      d.cycles)
                                    λ c cycles.
                                      bind-Ensures
                                        (fail_if-Ensures (is_external mode && is_none x) _)
                                        λ _ has. returns (
                                          record {
                                            url = allowed.0;
                                            parsed = allowed.1;
                                            allowed = allowed.2;
                                            signed = key_cases _ _ signed;
                                            headers = headers;
                                            attempts = attempts;
                                            backoff = backoff;
                                            timeout = timeout;
                                            external_timeout = external_timeout;
                                            cycles = cycles;
                                            external_has_timeout = external_cases mode x has;
                                          },
                                          refl,
                                        )

  -- Under a configuration whose defaults are in range, a callback that passes has a valid name, an
  -- allowed URL, a signing key unless unsigned ones are allowed, safe headers, all its limits in
  -- range, and in external mode a completion timeout.
  pub one_callback-Ensures :
      (element : Value) (index : ℕ) (config : DispatchConfig)
      → HasDefaults config
      → Ensures
          (λ t. IsWellFormed parse_url config t × (is_valid_callback_name t.name ≡ true))
          (parse_one_callback parse_url element index config)
  unfolding parse_one_callback
  one_callback-Ensures element index config d =
      bind-Ensures (ok_or-Ensures (as_object element) _) λ obj _.
        bind-Ensures (any-Ensures (parse_name obj index)) λ name _.
          bind-Ensures (fail_if-Ensures (not (is_valid_callback_name name)) _) λ _ valid.
            map_err-Ensures _
              (weaken (body-Ensures obj name config d) (λ t p. (p.0, rw p.1 (ground arith))))
