-- ===== src/Repo/Admin.antt =====
-- Statements of the admin API: `list_dead_letters`, `list_external_pending`, `retry_delivery`,
-- `complete_delivery`, `abandon_delivery`.
pub mod Retry
use outbox_dispatcher.Base.{
  ℕ, suc, ◌+◌, ◌-◌, Bool, true, false, not, ◌&&◌, Option, none, some, List, [], ◌∷◌, map, ltb, leb,
  ◌==◌, if◌then◌else◌, is_some, is_none, select, take, any, filter_map, Result, ok, err,
}
use outbox_dispatcher.Text.{Text, chars, text_eq}
use outbox_dispatcher.Schema.{
  Time, Duration, RawEvent, DeliveryRow, DeadLetterRow, ExternalPendingRow, PageParams,
  RetryOutcome, reset, not_found, locked,
}
use outbox_dispatcher.Repo.Db.{
  Db, Action, ◌>>=◌, pure, query, update, order_by, event_of, is_unlocked,
}
use outbox_dispatcher.Repo.Dispatching.{has_id, join_events}
use outbox_dispatcher.Repo.Sweep.{awaits_completion}

unfoldable pub retry_guard : ℕ → Time → DeliveryRow → Bool
retry_guard id now r = has_id id r && is_unlocked r.locked_until now

unfoldable pub retry_row : Time → DeliveryRow → DeliveryRow
retry_row now r = record r {
  attempts = 0;
  last_error = none;
  available_at = now;
  dispatched_at = none;
  processed_at = none;
  completion_cycles = 0;
  dead_letter = false;
  locked_until = none;
}

-- The follow-up SELECT tells a locked row from a missing one.
unfoldable pub retry_answer : ℕ → ℕ → Action RetryOutcome
retry_answer id affected =
    if affected == 1
    then pure reset
    else query (λ db. ok (any (has_id id) db.deliveries, db)) >>= λ exists.
        pure (if exists then locked else not_found)

unfoldable pub retry_delivery : ℕ → Action RetryOutcome
retry_delivery id = do
  affected ← query (λ db. update (retry_guard id db.now) (retry_row db.now) db)
  retry_answer id affected

-- `COALESCE(processed_at, now())`.
unfoldable pub complete_row : Time → DeliveryRow → DeliveryRow
complete_row now r = elim r.processed_at [
  | none ↦ record r { processed_at = some now }
  | some t ↦ r
]

unfoldable pub complete_delivery : ℕ → Action Bool
complete_delivery id = do
  affected ← query (λ db. update (has_id id) (complete_row db.now) db)
  pure (affected == 1)

unfoldable pub abandon_row : DeliveryRow → DeliveryRow
abandon_row r = record r { dead_letter = true; last_error = some (chars "abandoned by operator") }

unfoldable pub abandon_delivery : ℕ → Action Bool
abandon_delivery id = do affected ← query (update (has_id id) abandon_row); pure (affected == 1)

-- `($1 IS NULL OR d.id < $1) AND ($2 IS NULL OR d.callback_name = $2)`.
abbrev pub before_cursor : Option ℕ → DeliveryRow → Bool
before_cursor none d = true
before_cursor (some c) d = ltb d.id c

abbrev pub has_name : Option Text → DeliveryRow → Bool
has_name none d = true
has_name (some n) d = text_eq d.callback_name n

unfoldable pub on_page : PageParams → DeliveryRow → Bool
on_page page d = before_cursor page.cursor d && has_name page.callback_name d

-- `ORDER BY d.id DESC`.
abbrev pub newest_first : DeliveryRow → DeliveryRow → Bool
newest_first a b = leb b.id a.id

unfoldable pub dead_letter_row : DeliveryRow × RawEvent → DeadLetterRow
dead_letter_row (d, e) = record {
  delivery_id = d.id;
  event_id = d.event_id;
  event_kind = e.kind;
  callback_name = d.callback_name;
  completion_mode = d.completion_mode;
  attempts = d.attempts;
  last_error = d.last_error;
  last_attempt_at = d.last_attempt_at;
  created_at = d.created_at;
}

unfoldable pub list_dead_letters : PageParams → Action (List DeadLetterRow)
list_dead_letters page = query λ db. ok (
  map dead_letter_row (
      take page.limit (
        join_events db.events
          (order_by newest_first (select (λ d. d.dead_letter && on_page page d) db.deliveries)))),
  db,
)

-- `EXTRACT(EPOCH FROM (now() - d.dispatched_at)) > older_than`, and `None` for any age.
abbrev pub is_older : Option Duration → Time → Option Time → Bool
is_older none now dispatched_at = true
is_older (some d) now none = false
is_older (some d) now (some t) = ltb (t + d) now

-- `dispatched_at!`: the filter leaves no row without it.
unfoldable pub external_pending_row : DeliveryRow × RawEvent → Option ExternalPendingRow
external_pending_row (d, e) = elim d.dispatched_at [
  | none ↦ none
  | some t ↦ some (record {
    delivery_id = d.id;
    event_id = d.event_id;
    event_kind = e.kind;
    callback_name = d.callback_name;
    attempts = d.attempts;
    dispatched_at = t;
    created_at = d.created_at;
  })
]

unfoldable pub list_external_pending :
    PageParams → Option Duration → Action (List ExternalPendingRow)
list_external_pending page older_than = query λ db. ok (
  filter_map external_pending_row (
      take page.limit (
        join_events db.events (
          order_by newest_first (
            select
              (λ d.
                awaits_completion d
                && (on_page page d && is_older older_than db.now d.dispatched_at))
              db.deliveries)))),
  db,
)
