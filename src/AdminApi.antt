-- ===== src/AdminApi.antt =====
-- The admin API: crates/admin-api/src/routes.rs. What axum does, the matching of paths and the
-- reading of their parameters, gives the routes.
pub mod Auth
pub mod Guard
pub mod Pages
pub mod Listing
pub mod Paging
use outbox_dispatcher.Base.{
  ℕ, ◌-◌, ◌/◌, ◌%◌, max, min, Bool, true, false, not, ◌&&◌, Option, none, some, List, [], ◌∷◌, ltb,
  leb, ◌==◌, if◌then◌else◌, length, Result, ok, err,
}
use outbox_dispatcher.Text.{Text, chars, text_eq}
use outbox_dispatcher.Schema.{
  Time, Duration, PageParams, DeadLetterRow, ExternalPendingRow, RetryOutcome, reset, not_found,
  locked, EventWithDeliveries, Stats,
}
use outbox_dispatcher.Repo.Error.{
  Error, database, serialization, callback_target_missing, invalid_data,
}
use outbox_dispatcher.Repo.Db.{Db}
use outbox_dispatcher.Repo.Admin.{
  list_dead_letters, list_external_pending, retry_delivery, complete_delivery, abandon_delivery,
}
use outbox_dispatcher.Repo.Stats.{row_not_found, fetch_event_with_deliveries, fetch_stats, ping}
use outbox_dispatcher.AdminApi.Auth.{is_authorised}

-- The shared state beside the repository: `last_cycle_at` is 0 before the first cycle, and else
-- milliseconds since the epoch.
pub record AdminState : Type 0 where
  pub listener_status : Bool
  pub last_cycle_at : ℕ
  pub ready_deadline : Duration

pub record ReadyResponse : Type 0 where
  pub status : Text
  pub db_reachable : Bool
  pub listener_up : Bool
  pub last_cycle_ok : Bool

pub record DeadLettersResponse : Type 0 where
  pub items : List DeadLetterRow
  pub next_cursor : Option ℕ

pub record ExternalPendingResponse : Type 0 where
  pub items : List ExternalPendingRow
  pub next_cursor : Option ℕ

pub data Body : Type 0 where
  plain : Text → Body
  readiness : ReadyResponse → Body
  dead_letters : DeadLettersResponse → Body
  external_pending : ExternalPendingResponse → Body
  event_detail : EventWithDeliveries → Body
  mutation : Bool → Body
  statistics : Stats → Body

-- A handler answers, or it panics and the connection is closed.
pub data Reply : Type 0 where
  answered : ℕ → Body → Reply
  panicked : Reply

-- A parameter of type f64, as the nanoseconds of the duration that it converts to. Other values,
-- negative ones, NaN and those too large, make `Duration::from_secs_f64` panic.
pub data Seconds : Type 0 where
  duration : Duration → Seconds
  not_a_duration : Seconds

-- A negative limit or cursor is read as 0, with the same effect.
pub record DeadLettersQuery : Type 0 where
  pub callback_name : Option Text
  pub before : Option ℕ
  pub limit : ℕ

pub record ExternalPendingQuery : Type 0 where
  pub callback_name : Option Text
  pub older_than_secs : Option Seconds
  pub before : Option ℕ
  pub limit : ℕ

abbrev default_limit : ℕ
default_limit = 50

abbrev pub Handler : Type 0
Handler = Db → Reply × Db

abbrev internal_error : Reply
internal_error = answered 500 (plain (chars "internal server error"))

-- `n as i64` of a u128, and `elapsed <= n as i64` where `elapsed` is `now - stored`: above 2^63 the
-- cast gives a negative number.
abbrev within_deadline : ℕ → ℕ → ℕ → Bool
within_deadline now stored deadline =
    let low = deadline % 18446744073709551616 in
    if ltb low 9223372036854775808
    then leb (now - stored) low
    else leb (18446744073709551616 - low) (stored - now)

is_ok : {A : Type 0} → Result Error A → Bool
is_ok (ok a) = true
is_ok (err e) = false

unfoldable pub ready : AdminState → Handler
unfolding is_ok
ready state db =
    let (pinged, db') = ping db in
    let db_reachable = is_ok pinged in
    let listener_up = state.listener_status in
    let last_cycle_ok =
      not (state.last_cycle_at == 0)
      && within_deadline (db'.now / 1_000_000) state.last_cycle_at
          (state.ready_deadline / 1_000_000) in
    let all_ok = db_reachable && (listener_up && last_cycle_ok) in
    (
      answered (if all_ok then 200 else 503) (
          readiness (record {
            status = if all_ok then chars "ready" else chars "not_ready";
            db_reachable = db_reachable;
            listener_up = listener_up;
            last_cycle_ok = last_cycle_ok;
          })),
      db',
    )

-- `limit.clamp(1, 200)`.
abbrev pub clamp_limit : ℕ → ℕ
clamp_limit limit = min 200 (max 1 limit)

-- `items.last()` of a full page.
abbrev pub last_id : {A : Type 0} → (A → ℕ) → List A → Option ℕ
last_id id [] = none
last_id id (x ∷ []) = some (id x)
last_id id (x ∷ y ∷ xs) = last_id id (y ∷ xs)

abbrev pub next_cursor : {A : Type 0} → (A → ℕ) → ℕ → List A → Option ℕ
next_cursor id limit items = if length items == limit then last_id id items else none

dead_letters_reply : ℕ → Result Error (List DeadLetterRow) → Reply
dead_letters_reply limit (ok items) = answered 200 (
    dead_letters
      (record { items = items; next_cursor = next_cursor (λ r. r.delivery_id) limit items }))
dead_letters_reply limit (err e) = internal_error

unfoldable pub list_dead_letters_handler : DeadLettersQuery → Handler
unfolding dead_letters_reply
list_dead_letters_handler q db =
    let limit = clamp_limit q.limit in
    let (result, db') =
      list_dead_letters
        (record { limit = limit; cursor = q.before; callback_name = q.callback_name }) db in
    (dead_letters_reply limit result, db')

external_pending_reply : ℕ → Result Error (List ExternalPendingRow) → Reply
external_pending_reply limit (ok items) = answered 200 (
    external_pending
      (record { items = items; next_cursor = next_cursor (λ r. r.delivery_id) limit items }))
external_pending_reply limit (err e) = internal_error

external_pending_page : ExternalPendingQuery → Option Duration → Handler
external_pending_page q older_than db =
    let limit = clamp_limit q.limit in
    let (result, db') =
      list_external_pending
        (record { limit = limit; cursor = q.before; callback_name = q.callback_name }) older_than
        db in
    (external_pending_reply limit result, db')

-- `q.older_than_secs.map(Duration::from_secs_f64)`.
unfoldable pub list_external_pending_handler : ExternalPendingQuery → Handler
unfolding external_pending_reply external_pending_page
list_external_pending_handler q db = elim q.older_than_secs [
  | none ↦ external_pending_page q none db
  | some s ↦ elim s [
    | duration d ↦ external_pending_page q (some d) db
    | not_a_duration ↦ (panicked, db)
  ]
]

event_reply : Result Error EventWithDeliveries → Reply
event_reply (ok detail) = answered 200 (event_detail detail)
event_reply (err (database e)) =
    if text_eq e row_not_found
    then answered 404 (plain (chars "event not found"))
    else internal_error
event_reply (err (serialization e)) = internal_error
event_reply (err (callback_target_missing e)) = internal_error
event_reply (err (invalid_data e)) = internal_error

unfoldable pub get_event : ℕ → Handler
unfolding event_reply
get_event event_id db =
    let (result, db') = fetch_event_with_deliveries event_id db in (event_reply result, db')

abbrev missing : Reply
missing = answered 404 (plain (chars "delivery not found"))

retry_reply : Result Error RetryOutcome → Reply
retry_reply (ok reset) = answered 200 (mutation true)
retry_reply (ok not_found) = missing
retry_reply (ok locked) =
    answered 409 (plain (chars "delivery is currently locked by a dispatcher; retry again shortly"))
retry_reply (err e) = internal_error

unfoldable pub retry_delivery_handler : ℕ → Handler
unfolding retry_reply
retry_delivery_handler id db = let (result, db') = retry_delivery id db in (retry_reply result, db')

found_reply : Result Error Bool → Reply
found_reply (ok true) = answered 200 (mutation true)
found_reply (ok false) = missing
found_reply (err e) = internal_error

unfoldable pub complete_delivery_handler : ℕ → Handler
unfolding found_reply
complete_delivery_handler id db =
    let (result, db') = complete_delivery id db in (found_reply result, db')

unfoldable pub abandon_delivery_handler : ℕ → Handler
unfolding found_reply
abandon_delivery_handler id db =
    let (result, db') = abandon_delivery id db in (found_reply result, db')

stats_reply : Result Error Stats → Reply
stats_reply (ok stats) = answered 200 (statistics stats)
stats_reply (err e) = internal_error

unfoldable pub get_stats : Handler
unfolding stats_reply
get_stats db = let (result, db') = fetch_stats db in (stats_reply result, db')

-- The routes of the router.
pub data Public : Type 0 where
  health_route ready_route : Public

pub data Protected : Type 0 where
  dead_letters_route : DeadLettersQuery → Protected
  external_pending_route : ExternalPendingQuery → Protected
  event_route retry_route complete_route abandon_route : ℕ → Protected
  stats_route : Protected

pub data Route : Type 0 where
  open_route : Public → Route
  protected_route : Protected → Route

run_public : AdminState → Public → Handler
run_public state health_route db = (answered 200 (plain (chars "ok")), db)
run_public state ready_route db = ready state db

unfoldable pub run_protected : Protected → Handler
run_protected (dead_letters_route q) = list_dead_letters_handler q
run_protected (external_pending_route q) = list_external_pending_handler q
run_protected (event_route event_id) = get_event event_id
run_protected (retry_route id) = retry_delivery_handler id
run_protected (complete_route id) = complete_delivery_handler id
run_protected (abandon_route id) = abandon_delivery_handler id
run_protected stats_route = get_stats

abbrev pub unauthorized : Reply
unauthorized = answered 401 (plain (chars "Unauthorized"))

-- `build_router`: the layer of `require_bearer_token` stands before the protected routes.
unfoldable pub serve : AdminState → Text → Option Text → Route → Handler
unfolding run_public run_protected
serve state auth_token authorization (open_route r) db = run_public state r db
serve state auth_token authorization (protected_route r) db =
    if is_authorised auth_token authorization then run_protected r db else (unauthorized, db)
