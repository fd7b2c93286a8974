-- ===== src/Dispatch/Round.antt =====
-- One round of a delivery: the lock, the call and the write-back.
use outbox_dispatcher.Base.{
  ℕ, ◌+◌, ◌<◌, ◌^◌, ◌≡◌, refl, ◌∙◌, ap, true, none, some, ◌==◌, count, arith,
}
use outbox_dispatcher.Schema.{DeliveryRow, DueDelivery, CallbackTarget, EventForDelivery}
use outbox_dispatcher.Config.{DispatchConfig}
use outbox_dispatcher.Repo.Db.{Db}
use outbox_dispatcher.Repo.Query.{IsHealthy}
use outbox_dispatcher.Repo.Rows.{find_row, IdsRise, count-affected, find_row-update_guarded}
use outbox_dispatcher.Repo.Locking.{is_lockable, updated, lock_delivery_healthy}
use outbox_dispatcher.Repo.Dispatching.{lock_guard, lock_row}
use outbox_dispatcher.Dispatch.{Callback, after_lock, dispatch_one, build_event_for_delivery}
use outbox_dispatcher.Dispatch.Attempt.{At, Settles, write_result-Settles}

-- The deliveries and the connection are, after a call, what they were before it.
abbrev pub IsQuiet : Callback → Type 0
IsQuiet callback =
    (target : CallbackTarget) (event : EventForDelivery) (db : Db)
    → ((callback target event db).database.deliveries ≡ db.deliveries)
      × ((callback target event db).database.faults ≡ db.faults)

-- The database when the lock is taken.
abbrev pub locked_db : DispatchConfig → DueDelivery → Db → Db
locked_db config due db =
    updated db (lock_guard due.delivery_id db.now)
      (lock_row db.now (db.now + due.target.timeout + config.lock_buffer))

-- A round of a row that can be locked settles it by the outcome of its call.
pub dispatch_one-Settles :
    (callback : Callback) (config : DispatchConfig) (due : DueDelivery) (hi : ℕ) (db : Db)
    (r : DeliveryRow)
    → IsQuiet callback
    → IsHealthy db
    → IdsRise 0 db.deliveries hi
    → find_row due.delivery_id db.deliveries ≡ some r
    → is_lockable db.now r ≡ true
    → r.processed_at ≡ none
    → let call = callback due.target (build_event_for_delivery due) (locked_db config due db) in
      call.random < 2 ^ 53
      → At
          (Settles due call.outcome due.target.mode call.database.now)
          (find_row due.delivery_id (dispatch_one callback config due db).deliveries)
unfolding dispatch_one after_lock lock_guard lock_row
dispatch_one-Settles callback config due hi db r quiet h rise e free unprocessed small =
    let id = due.delivery_id in
    let until = db.now + due.target.timeout + config.lock_buffer in
    let db' = locked_db config due db in
    let calls = quiet due.target (build_event_for_delivery due) db' in
    let call = callback due.target (build_event_for_delivery due) db' in
    let granted : (count (lock_guard id db.now) db.deliveries == 1) ≡ true =
      ground (arith, count-affected 0 hi id (is_lockable db.now) db.deliveries rise) in
    let locked : find_row id db'.deliveries ≡ some (lock_row db.now until r) = ground (
      arith,
      find_row-update_guarded id (is_lockable db.now) (lock_row db.now until) db.deliveries
          (λ x. refl),
    ) in
    rw (lock_delivery_healthy id until db h) (
      rw granted (
        write_result-Settles due call.outcome call.random call.database (lock_row db.now until r)
          (calls.1 ∙ h) small (ap (find_row id) calls.0 ∙ locked)
          (record {
            undispatched = ground arith;
            unprocessed = unprocessed;
            alive = ground arith;
          })))
