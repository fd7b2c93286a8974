-- ===== src/HttpCallback.antt =====
-- The webhook client: crates/http-callback/src/client.rs. The HTTP client, the serialisers and the
-- parser of HTTP dates are parameters.
pub mod Signing
pub mod Requests
pub mod Rounds
use outbox_dispatcher.Base.{
  ℕ, ◌-◌, ◌/◌, Bool, ◌&&◌, Option, none, some, List, [], ◌∷◌, ◌++◌, leb, if◌then◌else◌, Result, ok,
  err, ◌>>=◌, map_err,
}
use outbox_dispatcher.Text.{Text, chars, show}
use outbox_dispatcher.Text.Parsing.{trim, parse_u64}
use outbox_dispatcher.Json.{Value, null, number, pos_int, string, object, Members, end, member}
use outbox_dispatcher.Schema.{
  Time, Duration, from_secs, as_str, CallbackTarget, EventForDelivery, CallbackError, transient,
}
use outbox_dispatcher.Keyring.{KeyRing, get}
use outbox_dispatcher.HttpCallback.Signing.{Crypto, sign}

pub record Request : Type 0 where
  pub url : Text
  pub timeout : Duration
  pub headers : List (Text × Text)
  pub body : List ℕ

-- The status, and the value of the header Retry-After where there is one that is visible ASCII.
pub record Response : Type 0 where
  pub status : ℕ
  pub retry_after : Option Text

-- What the client uses of other crates: serde_json's printer, the texts of UUIDs and of times,
-- httpdate's parser, and reqwest.
pub record Web : Type 0 where
  pub to_vec : Value → Result Text (List ℕ)
  pub show_uuid : ℕ → Text
  pub show_time : Time → Text
  pub parse_http_date : Text → Option Time
  pub send : Request → Result Text Response

abbrev fail : {A : Type 0} → Text → Option Duration → Result CallbackError A
fail reason retry_after = err (transient reason retry_after)

-- `StatusCode::is_success`.
abbrev is_success : ℕ → Bool
is_success status = leb 200 status && leb status 299

module _ (web : Web) where
  abbrev uuid : ℕ → Value
  uuid id = string (web.show_uuid id)

  abbrev optional_uuid : Option ℕ → Value
  optional_uuid none = null
  optional_uuid (some id) = uuid id

  unfoldable pub build_body : EventForDelivery → Value
  build_body event = object (
      member (chars "delivery_id") (number (pos_int event.delivery_id)) (
        member (chars "event_id") (uuid event.event_id) (
          member (chars "kind") (string event.kind) (
            member (chars "callback_name") (string event.callback_name) (
              member (chars "mode") (string (as_str event.mode)) (
                member (chars "aggregate_type") (string event.aggregate_type) (
                  member (chars "aggregate_id") (uuid event.aggregate_id) (
                    member (chars "payload") event.payload (
                      member (chars "metadata") event.metadata (
                        member (chars "actor_id") (optional_uuid event.actor_id) (
                          member (chars "correlation_id") (optional_uuid event.correlation_id) (
                            member (chars "causation_id") (optional_uuid event.causation_id) (
                              member (chars "created_at") (string (web.show_time event.created_at))
                                (member (chars "attempt") (number (pos_int event.attempt))
                                  end))))))))))))))

  unfoldable pub parse_retry_after : Time → Text → Option Duration
  parse_retry_after now value = elim (parse_u64 (trim value)) [
    | some secs ↦ some (from_secs secs)
    | none ↦ elim (web.parse_http_date (trim value)) [
      | none ↦ none
      | some target ↦ some (target - now)
    ]
  ]

  abbrev extract_retry_after : Time → Response → Option Duration
  extract_retry_after now response = elim response.retry_after [
    | none ↦ none
    | some value ↦ parse_retry_after now value
  ]

  unfoldable pub event_headers : EventForDelivery → List (Text × Text)
  event_headers event =
      (chars "Content-Type", chars "application/json")
      ∷ (chars "X-Outbox-Event-Id", web.show_uuid event.event_id)
      ∷ (chars "X-Outbox-Delivery-Id", show event.delivery_id)
      ∷ (chars "X-Outbox-Callback-Name", event.callback_name)
      ∷ (chars "X-Outbox-Kind", event.kind)
      ∷ (chars "X-Outbox-Mode", as_str event.mode)
      ∷ (chars "X-Outbox-Attempt", show event.attempt)
      ∷ []

  unfoldable pub interpret : Text → Time → Response → Result CallbackError (Unit {0})
  interpret url now response =
      if is_success response.status
      then ok tt
      else fail (chars "POST " ++ (url ++ (chars " returned " ++ show response.status)))
          (extract_retry_after now response)

  module _ (crypto : Crypto) (keyring : KeyRing) where
    -- The headers that name the signing key and give the signature.
    unfoldable pub signature_headers :
        Option Text → ℕ → List ℕ → Result CallbackError (List (Text × Text))
    signature_headers none now_ts body = ok []
    signature_headers (some key_id) now_ts body = elim (get keyring key_id) [
      | some secret ↦ ok (
          (chars "X-Outbox-Signing-Key-Id", key_id)
          ∷ (chars "X-Outbox-Signature", sign crypto secret now_ts body)
          ∷ [])
      | none ↦ fail (chars "signing_key_id '" ++ (key_id ++ chars "' not registered")) none
    ]

    -- The request; `now` is the clock.
    unfoldable pub build_request :
        CallbackTarget → EventForDelivery → Time → Result CallbackError Request
    build_request target event now = do
      body_bytes ←
          map_err (λ e. transient (chars "failed to serialize webhook body: " ++ e) none)
            (web.to_vec (build_body event))
      signature ← signature_headers target.signing_key_id (now / 1_000_000_000) body_bytes
      ok (record {
        url = target.url;
        timeout = target.timeout;
        headers = event_headers event ++ (signature ++ target.headers);
        body = body_bytes;
      })

    -- `later` is the clock when the response is there.
    unfoldable pub deliver :
        CallbackTarget → EventForDelivery → Time → Time → Result CallbackError (Unit {0})
    deliver target event now later = do
      request ← build_request target event now
      response ← map_err (λ e. transient (chars "connection error: " ++ e) none) (web.send request)
      interpret target.url later response
