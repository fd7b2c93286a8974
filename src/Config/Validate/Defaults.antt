-- ===== src/Config/Validate/Defaults.antt =====
-- What a configuration that passes guarantees of the dispatcher's defaults.
use outbox_dispatcher.Base.{
  ℕ, ◌≤◌, ◌≡◌, refl, ◌≢◌, Bool, true, false, List, [], ◌∷◌, ◌++◌, map, ltb, ◌==◌, any, is_empty,
  All, arith, ok, err, if◌then◌else◌,
}
use outbox_dispatcher.Text.{Text}
use outbox_dispatcher.Schema.{from_secs}
use outbox_dispatcher.Callbacks.Fields.{max_backoff_element_secs}
use outbox_dispatcher.Callbacks.Fields.Ranges.{Between}
use outbox_dispatcher.Callbacks.Parse.Target.{HasDefaults}
use outbox_dispatcher.Config.Settings.{DispatchSettings, AppConfig, from_settings}
use outbox_dispatcher.Config.Validate.{
  Check, reported, database_checks, batch_checks, default_checks, limit_checks, checks, validate,
}

-- A check that found nothing.
abbrev pub Passed : Check → Type 0
Passed c = c.0 ≡ false

reported-Passed : (cs : List Check) → is_empty (reported cs) ≡ true → All Passed cs
unfolding reported
reported-Passed [] h = tt
reported-Passed ((true, text) ∷ cs) h = cc
reported-Passed ((false, text) ∷ cs) h = (refl, reported-Passed cs h)

pub All-left : (xs ys : List Check) → All Passed (xs ++ ys) → All Passed xs
All-left [] ys h = tt
All-left (x ∷ xs) ys h = (h.0, All-left xs ys h.1)

pub All-right : (xs ys : List Check) → All Passed (xs ++ ys) → All Passed ys
All-right [] ys h = h
All-right (x ∷ xs) ys h = All-right xs ys h.1

entries-Between :
    (ns : List ℕ)
    → any (λ n. n == 0) ns ≡ false
    → any (λ n. ltb max_backoff_element_secs n) ns ≡ false
    → All (Between (from_secs 1) (from_secs max_backoff_element_secs)) (map from_secs ns)
entries-Between [] low high = tt
entries-Between (n ∷ ns) low high =
    ((ground arith, ground arith), entries-Between ns (ground arith) (ground arith))

not_empty : (ns : List ℕ) → is_empty ns ≡ false → map from_secs ns ≢ []
not_empty [] h e = cc
not_empty (n ∷ ns) h e = cc

defaults-HasDefaults :
    (s : DispatchSettings) → All Passed (default_checks s) → HasDefaults (from_settings s)
unfolding default_checks from_settings
defaults-HasDefaults s (a0, (a1, (t0, (t1, (lock, (c0, (c1, (b0, (b1, (b2, rest)))))))))) = record {
  attempts = (ground arith, ground arith);
  timeout = (ground arith, ground arith);
  cycles = (ground arith, ground arith);
  backoff = (not_empty s.backoff_secs b0, entries-Between s.backoff_secs b1 b2);
}

-- Batches are not empty, locks outlast their calls, and the payload limit is one that is documented.
pub record IsBounded (s : DispatchSettings) : Type 0 where
  pub poll : 1 ≤ s.poll_interval_secs
  pub batch : (1 ≤ s.batch_size) × (1 ≤ s.schedule_batch_size)
  pub concurrency : 1 ≤ s.dispatch_concurrency
  pub buffer : 1 ≤ s.lock_buffer_secs
  pub callbacks : (1 ≤ s.max_callbacks_per_event) × (s.max_callbacks_per_event ≤ 1000)
  pub payload : (1024 ≤ s.payload_size_limit_bytes) × (s.payload_size_limit_bytes ≤ 104857600)

settings-IsBounded :
    (s : DispatchSettings)
    → All Passed (batch_checks s)
    → All Passed (default_checks s)
    → All Passed (limit_checks s)
    → IsBounded s
unfolding batch_checks default_checks limit_checks
settings-IsBounded s (p0, (p1, (p2, more))) (a0, (a1, (t0, (t1, (lock, others)))))
      (l0, (l1, (l2, (l3, (l4, (l5, (l6, rest))))))) =
    record {
      poll = ground arith;
      batch = (ground arith, ground arith);
      concurrency = ground arith;
      buffer = ground arith;
      callbacks = (ground arith, ground arith);
      payload = (ground arith, ground arith);
    }

no_errors :
    (errors : List Text)
    → (if is_empty errors then ok tt else err errors) ≡ ok tt
    → is_empty errors ≡ true
no_errors [] h = refl
no_errors (e ∷ es) h = cc

module _ (is_socket_addr : Text → Bool) where
  pub validate-Passed :
      (a : AppConfig) → validate is_socket_addr a ≡ ok tt → All Passed (checks is_socket_addr a)
  unfolding validate
  validate-Passed a h =
      reported-Passed (checks is_socket_addr a) (no_errors (reported (checks is_socket_addr a)) h)

  -- The defaults of a configuration that passes `validate` are in the ranges that the validation of
  -- callbacks asks of what a callback gives itself.
  pub validate-HasDefaults :
      (a : AppConfig) → validate is_socket_addr a ≡ ok tt → HasDefaults (from_settings a.dispatch)
  unfolding checks
  validate-HasDefaults a h = defaults-HasDefaults a.dispatch (
      All-left (default_checks a.dispatch) _ (
        All-right (batch_checks a.dispatch) _
          (All-right (database_checks a.database) _ (validate-Passed a h))))

  pub validate-IsBounded :
      (a : AppConfig) → validate is_socket_addr a ≡ ok tt → IsBounded a.dispatch
  unfolding checks
  validate-IsBounded a h =
      let after_database = All-right (database_checks a.database) _ (validate-Passed a h) in
      let after_batch = All-right (batch_checks a.dispatch) _ after_database in
      settings-IsBounded a.dispatch (All-left (batch_checks a.dispatch) _ after_database)
        (All-left (default_checks a.dispatch) _ after_batch)
        (All-left (limit_checks a.dispatch) _ (All-right (default_checks a.dispatch) _ after_batch))
