-- ===== src/Repo/Dispatching.antt =====
-- Statements of the dispatcher: `fetch_due_deliveries`, `lock_delivery`, `mark_dispatched_managed`,
-- `mark_dispatched_external`, `mark_failure`. A row's guard and its SET clauses are functions.
pub mod Fetching
use outbox_dispatcher.Base.{
  ℕ, ◌+◌, Bool, true, not, ◌&&◌, ◌||◌, Option, none, some, List, [], ◌∷◌, ◌++◌, ltb, leb, ◌==◌,
  is_none, select, take, Result, ok, err,
}
use outbox_dispatcher.Text.{Text, chars}
use outbox_dispatcher.Json.{Value}
use outbox_dispatcher.Schema.{Time, CallbackTarget, RawEvent, DeliveryRow, DueDelivery}
use outbox_dispatcher.Config.{DispatchConfig}
use outbox_dispatcher.Callbacks.Url.{Url}
use outbox_dispatcher.Callbacks.Parse.{
  NamedCallbackError, invalid_spec, not_found, validate_named_callback,
}
use outbox_dispatcher.Repo.Error.{Error, callback_target_missing, invalid_data, display}
use outbox_dispatcher.Repo.Db.{
  Db, Action, ◌>>=◌, pure, query, update, order_by, event_of, is_unlocked,
}
use outbox_dispatcher.Repo.Truncate.{truncate_at_char_boundary}

-- The WHERE of `fetch_due_deliveries`.
unfoldable pub is_due : Time → DeliveryRow → Bool
is_due now r =
    is_none r.dispatched_at
    && (is_none r.processed_at
        && (not r.dead_letter && (leb r.available_at now && is_unlocked r.locked_until now)))

-- `ORDER BY d.available_at, d.id`.
abbrev by_available : DeliveryRow → DeliveryRow → Bool
by_available a b =
    ltb a.available_at b.available_at || (a.available_at == b.available_at && leb a.id b.id)

-- `JOIN outbox_events e USING (event_id)`.
unfoldable pub join_events : List RawEvent → List DeliveryRow → List (DeliveryRow × RawEvent)
join_events events [] = []
join_events events (d ∷ ds) =
    let rest = join_events events ds in
    elim (event_of events d.event_id) [ none ↦ rest | some e ↦ (d, e) ∷ rest ]

-- The join drops no row that has a parent, so it may follow the filter; the LIMIT is last.
unfoldable pub select_due : ℕ → Db → List (DeliveryRow × RawEvent)
select_due batch_size db =
    take batch_size
      (join_events db.events (order_by by_available (select (is_due db.now) db.deliveries)))

unfoldable pub due_delivery : DeliveryRow → RawEvent → CallbackTarget → DueDelivery
due_delivery d e target = record {
  delivery_id = d.id;
  event_id = d.event_id;
  attempts = d.attempts;
  target = target;
  kind = e.kind;
  aggregate_type = e.aggregate_type;
  aggregate_id = e.aggregate_id;
  payload = e.payload;
  metadata = e.metadata;
  actor_id = e.actor_id;
  correlation_id = e.correlation_id;
  causation_id = e.causation_id;
  created_at = e.created_at;
}

abbrev pub has_id : ℕ → DeliveryRow → Bool
has_id id r = r.id == id

-- The poison-pill guard's UPDATE.
unfoldable pub bury : Text → DeliveryRow → DeliveryRow
bury reason r = record r { dead_letter = true; last_error = some reason; locked_until = none }

unfoldable pub lock_guard : ℕ → Time → DeliveryRow → Bool
lock_guard id now r =
    has_id id r
    && (is_unlocked r.locked_until now && (is_none r.dispatched_at && not r.dead_letter))

unfoldable pub lock_row : Time → Time → DeliveryRow → DeliveryRow
lock_row now until r = record r {
  locked_until = some until;
  attempts = r.attempts + 1;
  last_attempt_at = some now;
}

-- True where one row was updated.
unfoldable pub lock_delivery : ℕ → Time → Action Bool
lock_delivery id until = do
  affected ← query (λ db. update (lock_guard id db.now) (lock_row db.now until) db)
  pure (affected == 1)

unfoldable pub finish_managed : Time → DeliveryRow → DeliveryRow
finish_managed now r = record r {
  dispatched_at = some now;
  processed_at = some now;
  locked_until = none;
}

unfoldable pub mark_dispatched_managed : ℕ → Action (Unit {0})
mark_dispatched_managed id =
    query (λ db. update (has_id id) (finish_managed db.now) db) >>= λ _. pure tt

unfoldable pub finish_external : Time → DeliveryRow → DeliveryRow
finish_external now r = record r { dispatched_at = some now; locked_until = none }

unfoldable pub mark_dispatched_external : ℕ → Action (Unit {0})
mark_dispatched_external id =
    query (λ db. update (has_id id) (finish_external db.now) db) >>= λ _. pure tt

unfoldable pub fail_row : Text → Time → Bool → DeliveryRow → DeliveryRow
fail_row error available_at dead_letter r = record r {
  last_error = some error;
  available_at = available_at;
  dead_letter = dead_letter;
  locked_until = none;
}

unfoldable pub mark_failure : ℕ → Text → Time → Bool → Action (Unit {0})
mark_failure id error available_at dead_letter =
    query (
      update (has_id id) (fail_row (truncate_at_char_boundary error 4096) available_at dead_letter))
    >>= λ _. pure tt

-- The error of `extract_callback_target`.
unfoldable pub extract_error : Text → NamedCallbackError → Error
extract_error name (invalid_spec reason) = invalid_data (
    chars "callback '"
    ++ (name ++ (chars "' failed structural revalidation at dispatch time: " ++ reason)))
extract_error name not_found =
    callback_target_missing
      (chars "callback '" ++ (name ++ chars "' not found in event callbacks array"))

module _ (parse_url : Text → Option Url) (config : DispatchConfig) where
  unfoldable pub extract_callback_target : Value → Text → Result Error CallbackTarget
  extract_callback_target callbacks name =
      elim (validate_named_callback parse_url callbacks name config) [
        | ok target ↦ ok target
        | err e ↦ err (extract_error name e)
      ]

  -- The loop over the fetched rows; an UPDATE that fails is logged only.
  unfoldable pub keep_valid : List (DeliveryRow × RawEvent) → Db → List DueDelivery × Db
  keep_valid [] db = ([], db)
  keep_valid ((d, e) ∷ rest) db = elim (extract_callback_target e.callbacks d.callback_name) [
    | ok target ↦ let (due, db') = keep_valid rest db in (due_delivery d e target ∷ due, db')
    | err e ↦
        let reason =
          truncate_at_char_boundary (chars "invalid callback spec: " ++ display e) 4096 in
        keep_valid rest (query (update (has_id d.id) (bury reason)) db).1
  ]

  unfoldable pub fetch_due_deliveries : ℕ → Action (List DueDelivery)
  fetch_due_deliveries batch_size = query (λ db. ok (select_due batch_size db, db)) >>= λ rows db.
      let (due, db') = keep_valid rows db in (ok due, db')
