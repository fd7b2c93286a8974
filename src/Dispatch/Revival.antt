-- ===== src/Dispatch/Revival.antt =====
-- A delivery that an operator abandons while a call of it is under way.
use outbox_dispatcher.Base.{
  ℕ, ◌+◌, ◌<◌, ◌≡◌, refl, ap, ◌∙◌, true, false, Option, some, leb, ◌==◌, arith,
}
use outbox_dispatcher.Text.{Text}
use outbox_dispatcher.Schema.{DeliveryRow, DueDelivery, Duration, Time}
use outbox_dispatcher.Repo.Db.{Db, query, update}
use outbox_dispatcher.Repo.Query.{IsHealthy, query_healthy, bind_pure-db}
use outbox_dispatcher.Repo.Rows.{find_row, map_row, find_row-update_id}
use outbox_dispatcher.Repo.Locking.{updated}
use outbox_dispatcher.Repo.Truncate.{truncate_at_char_boundary}
use outbox_dispatcher.Repo.Dispatching.{has_id, is_due, fail_row}
use outbox_dispatcher.Repo.Admin.{abandon_row, abandon_delivery}
use outbox_dispatcher.Retry.{compute_next_available_at}
use outbox_dispatcher.Dispatch.{record_failure, is_last_attempt}
use outbox_dispatcher.Dispatch.Attempt.{IsUnderWay, At, record_failure_healthy}

abandon_healthy :
    (id : ℕ) (db : Db)
    → IsHealthy db
    → (abandon_delivery id db).1 ≡ updated db (has_id id) abandon_row
unfolding abandon_delivery
abandon_healthy id db h =
    bind_pure-db (query (update (has_id id) abandon_row)) (λ n. n == 1) db
    ∙ ap (λ p. p.1) (query_healthy (update (has_id id) abandon_row) db h)

-- The delivery is alive, and due again from its next time on.
abbrev pub IsRevived : DeliveryRow → Type 0
IsRevived r = (r.dead_letter ≡ false) × ((t : Time) → is_due t r ≡ leb r.available_at t)

-- Abandoning a delivery in mid-call is undone: when the call fails and was not the last attempt, the
-- write-back clears `dead_letter`, and the delivery is due again.
pub abandon_undone :
    (due : DueDelivery) (reason : Text) (retry_after : Option Duration) (random : ℕ) (db : Db)
    (r : DeliveryRow)
    → IsHealthy db
    → find_row due.delivery_id db.deliveries ≡ some r
    → IsUnderWay r
    → due.attempts + 1 < due.target.max_attempts
    → let db' = (abandon_delivery due.delivery_id db).1 in
      At (λ a. a.dead_letter ≡ true) (find_row due.delivery_id db'.deliveries)
      × At IsRevived
          (find_row due.delivery_id (record_failure due reason retry_after random db').deliveries)
unfolding abandon_row fail_row is_due is_last_attempt
abandon_undone due reason retry_after random db r h e way more =
    let id = due.delivery_id in
    let db' = updated db (has_id id) abandon_row in
    let next =
      compute_next_available_at (due.attempts + 1) retry_after due.target.backoff random db.now in
    let set = fail_row (truncate_at_char_boundary reason 4096) next (is_last_attempt due) in
    let abandoned : find_row id db'.deliveries ≡ some (abandon_row r) =
      find_row-update_id id abandon_row db.deliveries (λ x. refl) ∙ ap (map_row abandon_row) e in
    rw (abandon_healthy id db h) (
      rw abandoned refl,
      rw (record_failure_healthy due reason retry_after random db' h) (
          rw (find_row-update_id id set db'.deliveries (λ x. refl))
            (rw abandoned (ground arith, λ t. ground arith))),
    )
