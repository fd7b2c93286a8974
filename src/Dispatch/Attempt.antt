-- ===== src/Dispatch/Attempt.antt =====
-- What one attempt leaves in the delivery's row.
use outbox_dispatcher.Base.{
  ℕ, ◌+◌, ◌-◌, ◌*◌, ◌≤◌, ◌<◌, ◌≡◌, refl, ap, ◌∙◌, ◌^◌, false, Option, none, some, leb, arith,
}
use outbox_dispatcher.Text.{Text}
use outbox_dispatcher.Schema.{
  CompletionMode, managed, external, DeliveryRow, DueDelivery, transient, Time, Duration,
}
use outbox_dispatcher.Repo.Db.{Db, query, ◌>>=◌, update, pure}
use outbox_dispatcher.Repo.Query.{IsHealthy, query_healthy, bind_pure-db}
use outbox_dispatcher.Repo.Rows.{find_row, find_row-update_id}
use outbox_dispatcher.Repo.Locking.{is_lockable, updated}
use outbox_dispatcher.Repo.Dispatching.{
  has_id, is_due, finish_managed, finish_external, fail_row, mark_dispatched_managed,
  mark_dispatched_external, mark_failure,
}
use outbox_dispatcher.Repo.Truncate.{truncate_at_char_boundary}
use outbox_dispatcher.Retry.{base_delay, floor_delay, compute_next_available_at}
use outbox_dispatcher.Retry.Bounds.{compute_next_available_at_bounds}
use outbox_dispatcher.Dispatch.{
  Outcome, delivered, failed, timed_out, write_result, record_success, record_failure,
  is_last_attempt,
}

-- A healthy UPDATE by id, its answer shaped.
update_id_healthy :
    (id : ℕ) (F : Db → DeliveryRow → DeliveryRow) (db : Db)
    → IsHealthy db
    → ((query (λ d. update (has_id id) (F d) d) >>= λ _. pure {A = Unit {0}} tt) db).1
      ≡ updated db (has_id id) (F db)
update_id_healthy id F db h =
    bind_pure-db (query (λ d. update (has_id id) (F d) d)) (λ _. tt) db
    ∙ ap (λ p. p.1) (query_healthy (λ d. update (has_id id) (F d) d) db h)

pub record_failure_healthy :
    (due : DueDelivery) (reason : Text) (retry_after : Option Duration) (random : ℕ) (db : Db)
    → IsHealthy db
    → record_failure due reason retry_after random db
      ≡ updated db (has_id due.delivery_id) (
          fail_row
            (truncate_at_char_boundary reason 4096)
            (compute_next_available_at
              (due.attempts + 1)
              retry_after
              due.target.backoff
              random
              db.now)
            (is_last_attempt due))
unfolding record_failure mark_failure
record_failure_healthy due reason retry_after random db h =
    update_id_healthy due.delivery_id (λ d. fail_row _ _ _) db h

-- The row of the delivery under way: locked, neither dispatched nor processed nor dead.
pub record IsUnderWay (r : DeliveryRow) : Type 0 where
  pub undispatched : r.dispatched_at ≡ none
  pub unprocessed : r.processed_at ≡ none
  pub alive : r.dead_letter ≡ false

-- The row is never fetched again.
abbrev NeverDue : DeliveryRow → Type 0
NeverDue r = (t : Time) → (is_due t r ≡ false) × (is_lockable t r ≡ false)

-- After a failure the last attempt's row is dead; any other is due again from some time on, which is
-- three to five quarters of the delay away.
abbrev pub Fails : DueDelivery → Option Duration → Time → DeliveryRow → Type 0
Fails due retry_after now r =
    (r.dead_letter ≡ leb due.target.max_attempts (due.attempts + 1))
    × (due.target.max_attempts ≤ due.attempts + 1 → NeverDue r)
    × (due.attempts + 1 < due.target.max_attempts → (t : Time) → is_due t r ≡ leb r.available_at t)
    × (let delay = floor_delay retry_after (base_delay (due.attempts + 1) due.target.backoff) in
        (3 * delay < 4 * (r.available_at - now + 1)) × (4 * (r.available_at - now) ≤ 5 * delay))
    × (now ≤ r.available_at)

-- By outcome and mode: a managed delivery is done, an external one waits for its completion.
abbrev pub Settles : DueDelivery → Outcome → CompletionMode → Time → DeliveryRow → Type 0
Settles due delivered managed now r =
    (r.dispatched_at ≡ some now) × (r.processed_at ≡ some now) × NeverDue r
Settles due delivered external now r =
    (r.dispatched_at ≡ some now) × (r.processed_at ≡ none) × NeverDue r
Settles due (failed (transient reason retry_after)) mode now r = Fails due retry_after now r
Settles due timed_out mode now r = Fails due none now r

abbrev pub At : (DeliveryRow → Type 0) → Option DeliveryRow → Type 0
At P none = ⊥
At P (some r) = P r

failure-Fails :
    (due : DueDelivery) (reason : Text) (retry_after : Option Duration) (random : ℕ) (db : Db)
    (r : DeliveryRow)
    → IsHealthy db
    → random < 2 ^ 53
    → find_row due.delivery_id db.deliveries ≡ some r
    → IsUnderWay r
    → At
        (Fails due retry_after db.now)
        (find_row due.delivery_id (record_failure due reason retry_after random db).deliveries)
unfolding fail_row is_due is_last_attempt
failure-Fails due reason retry_after random db r h small e way =
    let next =
      compute_next_available_at (due.attempts + 1) retry_after due.target.backoff random db.now in
    let set = fail_row (truncate_at_char_boundary reason 4096) next (is_last_attempt due) in
    let bounds =
      compute_next_available_at_bounds (due.attempts + 1) retry_after due.target.backoff random
        db.now small in
    rw (record_failure_healthy due reason retry_after random db h) (
      rw (find_row-update_id due.delivery_id set db.deliveries (λ x. refl)) (
        rw e (
          refl,
          (λ last t. (ground arith, ground arith)),
          (λ more t. ground arith),
          (bounds.0, bounds.1),
          bounds.2,
        )))

success-Settles :
    (mode : CompletionMode) (due : DueDelivery) (db : Db) (r : DeliveryRow)
    → IsHealthy db
    → find_row due.delivery_id db.deliveries ≡ some r
    → IsUnderWay r
    → At
        (Settles due delivered mode db.now)
        (find_row due.delivery_id (record_success mode due.delivery_id db).deliveries)
unfolding record_success mark_dispatched_managed mark_dispatched_external finish_managed
    finish_external is_due
success-Settles managed due db r h e way =
    rw (update_id_healthy due.delivery_id (λ d. finish_managed d.now) db h) (
      rw (find_row-update_id due.delivery_id (finish_managed db.now) db.deliveries (λ x. refl))
        (rw e (refl, refl, λ t. (ground arith, ground arith))))
success-Settles external due db r h e way =
    rw (update_id_healthy due.delivery_id (λ d. finish_external d.now) db h) (
      rw (find_row-update_id due.delivery_id (finish_external db.now) db.deliveries (λ x. refl))
        (rw e (refl, way.unprocessed, λ t. (ground arith, ground arith))))

pub write_result-Settles :
    (due : DueDelivery) (outcome : Outcome) (random : ℕ) (db : Db) (r : DeliveryRow)
    → IsHealthy db
    → random < 2 ^ 53
    → find_row due.delivery_id db.deliveries ≡ some r
    → IsUnderWay r
    → At
        (Settles due outcome due.target.mode db.now)
        (find_row due.delivery_id (write_result due outcome random db).deliveries)
unfolding write_result
write_result-Settles due delivered random db r h small e way =
    success-Settles due.target.mode due db r h e way
write_result-Settles due (failed (transient reason retry_after)) random db r h small e way =
    failure-Fails due reason retry_after random db r h small e way
write_result-Settles due timed_out random db r h small e way =
    failure-Fails due _ none random db r h small e way
