-- ===== src/Dispatch/Exhaustion.antt =====
-- A receiver that always fails is called exactly `max_attempts` times.
use outbox_dispatcher.Base.{
  ℕ, zero, suc, ◌+◌, ◌≤◌, ◌<◌, ◌≡◌, refl, true, Option, none, some, leb, ◌==◌, arith, count, inl,
  inr, Option-cases,
}
use outbox_dispatcher.Text.{Text}
use outbox_dispatcher.Schema.{DeliveryRow, DueDelivery, transient}
use outbox_dispatcher.Config.{DispatchConfig}
use outbox_dispatcher.Repo.Db.{Db}
use outbox_dispatcher.Repo.Query.{IsHealthy}
use outbox_dispatcher.Repo.Rows.{
  find_row, IdsRise, count-affected, find_row-update_guarded, find_row-update_id,
  IdsRise-update_where,
}
use outbox_dispatcher.Repo.Locking.{is_lockable, updated, lock_delivery_healthy}
use outbox_dispatcher.Repo.Truncate.{truncate_at_char_boundary}
use outbox_dispatcher.Repo.Dispatching.{has_id, lock_guard, lock_row, fail_row}
use outbox_dispatcher.Retry.{compute_next_available_at}
use outbox_dispatcher.Dispatch.{
  Callback, failed, after_lock, write_result, is_last_attempt, dispatch_one,
}
use outbox_dispatcher.Dispatch.Attempt.{record_failure_healthy}

-- The receiver's answer to every call, with nothing else going on.
abbrev pub always_fails : Text → ℕ → Callback
always_fails reason random target event db = record {
  outcome = failed (transient reason none);
  database = db;
  random = random;
}

-- The row waits for its next attempt after `n` of them, or is dead.
abbrev pub Counts : ℕ → ℕ → Option DeliveryRow → Type 0
Counts n max_attempts none = ⊥
Counts n max_attempts (some r) =
    (r.attempts ≡ n)
    × (r.dead_letter ≡ leb max_attempts n)
    × (r.dispatched_at ≡ none)
    × (r.locked_until ≡ none)

-- One failed round of a delivery whose row is known.
failing_row :
    (config : DispatchConfig) (reason : Text) (random : ℕ) (due : DueDelivery) (hi : ℕ) (db : Db)
    (r : DeliveryRow)
    → IsHealthy db
    → IdsRise 0 db.deliveries hi
    → find_row due.delivery_id db.deliveries ≡ some r
    → due.attempts < due.target.max_attempts
    → Counts due.attempts due.target.max_attempts (some r)
    → let db' = dispatch_one (always_fails reason random) config due db in
      IsHealthy db'
      × IdsRise 0 db'.deliveries hi
      × Counts (due.attempts + 1) due.target.max_attempts (find_row due.delivery_id db'.deliveries)
unfolding dispatch_one after_lock write_result lock_row fail_row lock_guard is_last_attempt
failing_row config reason random due hi db r h rise e more counts =
    let id = due.delivery_id in
    let until = db.now + due.target.timeout + config.lock_buffer in
    let db' = updated db (lock_guard id db.now) (lock_row db.now until) in
    let next = compute_next_available_at (due.attempts + 1) none due.target.backoff random db.now in
    let set = fail_row (truncate_at_char_boundary reason 4096) next (is_last_attempt due) in
    let free : is_lockable db.now r ≡ true = ground arith in
    let granted : (count (lock_guard id db.now) db.deliveries == 1) ≡ true =
      ground (arith, count-affected 0 hi id (is_lockable db.now) db.deliveries rise) in
    let locked : find_row id db'.deliveries ≡ some (lock_row db.now until r) = ground (
      arith,
      find_row-update_guarded id (is_lockable db.now) (lock_row db.now until) db.deliveries
          (λ x. refl),
    ) in
    rw (lock_delivery_healthy id until db h) (
      rw granted (
        rw (record_failure_healthy due reason none random db' h) (
          h,
          IdsRise-update_where 0 hi (has_id id) set db'.deliveries (λ x. refl)
              (IdsRise-update_where 0 hi (lock_guard id db.now) (lock_row db.now until)
                db.deliveries (λ x. refl) rise),
          rw (find_row-update_id id set db'.deliveries (λ x. refl))
              (rw locked (ground arith, refl, ground arith, refl)),
        )))

failing_round :
    (config : DispatchConfig) (reason : Text) (random : ℕ) (due : DueDelivery) (hi : ℕ) (db : Db)
    → IsHealthy db
    → IdsRise 0 db.deliveries hi
    → due.attempts < due.target.max_attempts
    → Counts due.attempts due.target.max_attempts (find_row due.delivery_id db.deliveries)
    → let db' = dispatch_one (always_fails reason random) config due db in
      IsHealthy db'
      × IdsRise 0 db'.deliveries hi
      × Counts (due.attempts + 1) due.target.max_attempts (find_row due.delivery_id db'.deliveries)
failing_round config reason random due hi db h rise more counts =
    elim (Option-cases (find_row due.delivery_id db.deliveries)) [
      | inl e ↦ absurd (rw e at counts)
      | inr (r, e) ↦ failing_row config reason random due hi db r h rise e more (rw e at counts)
    ]

-- `n` rounds, each with the row's attempts as `fetch_due_deliveries` would return them.
pub redeliver : Callback → DispatchConfig → DueDelivery → ℕ → Db → Db
redeliver callback config due zero db = db
redeliver callback config due (suc n) db =
    redeliver callback config (record due { attempts = due.attempts + 1 }) n
      (dispatch_one callback config due db)

-- After n failed rounds of a fresh delivery its row counts n attempts, and it is dead exactly when
-- these are all that the callback allows.
pub redeliver-Counts :
    (config : DispatchConfig) (reason : Text) (random n : ℕ) (due : DueDelivery) (hi : ℕ) (db : Db)
    → IsHealthy db
    → IdsRise 0 db.deliveries hi
    → due.attempts + n ≤ due.target.max_attempts
    → Counts due.attempts due.target.max_attempts (find_row due.delivery_id db.deliveries)
    → Counts (due.attempts + n) due.target.max_attempts (
        find_row due.delivery_id
          (redeliver (always_fails reason random) config due n db).deliveries)
unfolding redeliver
redeliver-Counts config reason random zero due hi db h rise le counts =
    let e : due.attempts + 0 ≡ due.attempts = omega arith in rw e counts
redeliver-Counts config reason random (suc n) due hi db h rise le counts =
    let e : due.attempts + suc n ≡ due.attempts + 1 + n = omega arith in
    let next = failing_round config reason random due hi db h rise (omega arith) counts in
    rw e (
      redeliver-Counts config reason random n (record due { attempts = due.attempts + 1 }) hi
        (dispatch_one (always_fails reason random) config due db) next.0 next.1 (omega arith)
        next.2)
