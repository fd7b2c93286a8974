-- ===== src/Dispatch.antt =====
-- The dispatch of due deliveries: crates/core/src/dispatch.rs. The delivery mechanism is a
-- parameter, and so is what the rest of the system does to the database during the call.
pub mod Replicas
pub mod Attempt
pub mod Round
pub mod Exhaustion
pub mod Revival
pub mod Keys
use outbox_dispatcher.Base.{
  ℕ, ◌+◌, Bool, true, false, Option, none, some, List, [], ◌∷◌, leb, Result, ok, err,
}
use outbox_dispatcher.Text.{Text, chars}
use outbox_dispatcher.Schema.{
  CallbackTarget, CompletionMode, managed, external, DueDelivery, EventForDelivery, CallbackError,
  transient, Duration,
}
use outbox_dispatcher.Config.{DispatchConfig}
use outbox_dispatcher.Callbacks.Url.{Url}
use outbox_dispatcher.Retry.{compute_next_available_at}
use outbox_dispatcher.Repo.Error.{Error}
use outbox_dispatcher.Repo.Db.{Db, Action}
use outbox_dispatcher.Repo.Dispatching.{
  lock_delivery, mark_dispatched_managed, mark_dispatched_external, mark_failure,
  fetch_due_deliveries,
}

-- `timeout(…, callback.deliver(…)).await`: `Ok(Ok(()))`, `Ok(Err(e))`, `Err(_timeout)`.
pub data Outcome : Type 0 where
  delivered : Outcome
  failed : CallbackError → Outcome
  timed_out : Outcome

-- One call of `Callback::deliver` under its timeout: its outcome, the database when it is over,
-- and the random number that the write-back draws.
pub record Call : Type 0 where
  pub outcome : Outcome
  pub database : Db
  pub random : ℕ

abbrev pub Callback : Type 0
Callback = CallbackTarget → EventForDelivery → Db → Call

unfoldable pub build_event_for_delivery : DueDelivery → EventForDelivery
build_event_for_delivery due = record {
  delivery_id = due.delivery_id;
  event_id = due.event_id;
  kind = due.kind;
  callback_name = due.target.name;
  mode = due.target.mode;
  aggregate_type = due.aggregate_type;
  aggregate_id = due.aggregate_id;
  payload = due.payload;
  metadata = due.metadata;
  actor_id = due.actor_id;
  correlation_id = due.correlation_id;
  causation_id = due.causation_id;
  created_at = due.created_at;
  attempt = due.attempts + 1;
}

-- `next_attempt >= max_attempts`.
pub is_last_attempt : DueDelivery → Bool
is_last_attempt due = leb due.target.max_attempts (due.attempts + 1)

-- The failure branches: `mark_failure` with the next time, its error only logged.
pub record_failure : DueDelivery → Text → Option Duration → ℕ → Db → Db
record_failure due reason retry_after random db =
    let next_available =
      compute_next_available_at (due.attempts + 1) retry_after due.target.backoff random db.now in
    (mark_failure due.delivery_id reason next_available (is_last_attempt due) db).1

record_success : CompletionMode → ℕ → Db → Db
record_success managed id db = (mark_dispatched_managed id db).1
record_success external id db = (mark_dispatched_external id db).1

pub write_result : DueDelivery → Outcome → ℕ → Db → Db
write_result due delivered random db = record_success due.target.mode due.delivery_id db
write_result due (failed (transient reason retry_after)) random db =
    record_failure due reason retry_after random db
write_result due timed_out random db = record_failure due (chars "callback timeout") none random db

-- The call and the write-back, by the answer to the lock.
after_lock : Callback → DueDelivery → Result Error Bool → Db → Db
after_lock callback due (err e) db = db
after_lock callback due (ok false) db = db
after_lock callback due (ok true) db =
    let call = callback due.target (build_event_for_delivery due) db in
    write_result due call.outcome call.random call.database

pub dispatch_one : Callback → DispatchConfig → DueDelivery → Db → Db
dispatch_one callback config due db =
    let (locked, db') =
      lock_delivery due.delivery_id (db.now + due.target.timeout + config.lock_buffer) db in
    after_lock callback due locked db'

-- The stream, taken in order; what runs beside a call is in the call's `database`.
unfoldable pub dispatch_all : Callback → DispatchConfig → List DueDelivery → Db → Db
dispatch_all callback config [] db = db
dispatch_all callback config (due ∷ rest) db =
    dispatch_all callback config rest (dispatch_one callback config due db)

after_fetch :
    Callback → DispatchConfig → Result Error (List DueDelivery) → Db → Result Error (Unit {0}) × Db
after_fetch callback config (err e) db = (err e, db)
after_fetch callback config (ok due) db = (ok tt, dispatch_all callback config due db)

unfoldable pub dispatch_due : (Text → Option Url) → Callback → DispatchConfig → Action (Unit {0})
unfolding after_fetch
dispatch_due parse_url callback config db =
    let (due, db') = fetch_due_deliveries parse_url config config.batch_size db in
    after_fetch callback config due db'
