-- ===== src/Repo/Retention.antt =====
-- `delete_terminal_events` and `oldest_terminal_event_age_seconds`.
pub mod Deletes
use outbox_dispatcher.Base.{
  ℕ, suc, ◌+◌, ◌-◌, Bool, true, false, not, ◌&&◌, ◌||◌, Option, none, some, List, [], ◌∷◌, map, ltb,
  leb, ◌==◌, if◌then◌else◌, is_none, select, take, any, count, Result, ok, err,
}
use outbox_dispatcher.Schema.{Time, Duration, RawEvent, DeliveryRow, RetentionDeleted}
use outbox_dispatcher.Repo.Db.{Db, Action, Statement, query, order_by}

-- `EXISTS (… d.event_id = e.event_id AND d.dead_letter = TRUE)`.
unfoldable pub has_dead_letter : List DeliveryRow → RawEvent → Bool
has_dead_letter ds e = any (λ d. d.event_id == e.event_id && d.dead_letter) ds

-- A delivery that is still under way.
unfoldable pub in_progress : RawEvent → DeliveryRow → Bool
in_progress e d = d.event_id == e.event_id && (is_none d.processed_at && not d.dead_letter)

unfoldable pub is_candidate : List DeliveryRow → Time → Time → RawEvent → Bool
is_candidate ds dead_letter_cutoff processed_cutoff e =
    not (any (in_progress e) ds)
    && ltb e.created_at (if has_dead_letter ds e then dead_letter_cutoff else processed_cutoff)

abbrev by_id : RawEvent → RawEvent → Bool
by_id a b = leb a.id b.id

unfoldable pub candidates : List DeliveryRow → List RawEvent → Time → Time → ℕ → List RawEvent
candidates ds events dead_letter_cutoff processed_cutoff batch_limit =
    take batch_limit
      (order_by by_id (select (is_candidate ds dead_letter_cutoff processed_cutoff) events))

-- `id IN (SELECT id FROM candidates)`, and `ON DELETE CASCADE`.
unfoldable pub is_chosen : List RawEvent → RawEvent → Bool
is_chosen chosen e = any (λ c. c.id == e.id) chosen

pub is_orphan : List RawEvent → DeliveryRow → Bool
is_orphan chosen d = any (λ c. c.event_id == d.event_id) chosen

unfoldable pub count_reasons : List DeliveryRow → List RawEvent → RetentionDeleted
count_reasons ds chosen = record {
  processed = count (λ e. not (has_dead_letter ds e)) chosen;
  dead_letter = count (has_dead_letter ds) chosen;
}

unfoldable pub delete_statement : Time → Time → ℕ → Statement RetentionDeleted
delete_statement dead_letter_cutoff processed_cutoff batch_limit db =
    let chosen =
      candidates db.deliveries db.events dead_letter_cutoff processed_cutoff batch_limit in
    ok (
      count_reasons db.deliveries chosen,
      record db {
        events = select (λ e. not (is_chosen chosen e)) db.events;
        deliveries = select (λ d. not (is_orphan chosen d)) db.deliveries;
      },
    )

unfoldable pub delete_terminal_events : Time → Time → ℕ → Action RetentionDeleted
delete_terminal_events dead_letter_cutoff processed_cutoff batch_limit =
    query (delete_statement dead_letter_cutoff processed_cutoff batch_limit)

-- `MIN(e.created_at)`.
unfoldable pub oldest : List RawEvent → Option Time
oldest [] = none
oldest (e ∷ es) = elim (oldest es) [
  | none ↦ some e.created_at
  | some t ↦ if ltb e.created_at t then some e.created_at else some t
]

abbrev age : Time → Option Time → Option Duration
age now none = none
age now (some t) = some (now - t)

unfoldable pub oldest_terminal_event_age : Time → Time → Action (Option Duration)
oldest_terminal_event_age dead_letter_cutoff processed_cutoff = query λ db. ok (
  age db.now
      (oldest (select (is_candidate db.deliveries dead_letter_cutoff processed_cutoff) db.events)),
  db,
)
