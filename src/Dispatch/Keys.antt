-- ===== src/Dispatch/Keys.antt =====
-- What a dispatch leaves alone: the events, and each delivery's event and callback.
use outbox_dispatcher.Base.{
  ℕ, refl, Bool, Option, none, List, [], ◌∷◌, ◌==◌, true, false, inl, inr, Result, ok, err,
  Result-cases,
}
use outbox_dispatcher.Text.{Text}
use outbox_dispatcher.Schema.{
  Duration, RawEvent, DeliveryRow, DueDelivery, CompletionMode, managed, external, CallbackTarget,
  EventForDelivery, transient,
}
use outbox_dispatcher.Config.{DispatchConfig}
use outbox_dispatcher.Callbacks.Url.{Url}
use outbox_dispatcher.Repo.Error.{Error}
use outbox_dispatcher.Repo.Db.{Db, query}
use outbox_dispatcher.Repo.Query.{query-Keeps, bind-Keeps}
use outbox_dispatcher.Repo.Keys.{Kept, base-Kept, update-Kept, shaped-Kept}
use outbox_dispatcher.Repo.Dispatching.{
  select_due, bury, lock_guard, lock_row, lock_delivery, has_id, finish_managed,
  mark_dispatched_managed, finish_external, mark_dispatched_external, fail_row, mark_failure,
  extract_callback_target, keep_valid, fetch_due_deliveries,
}
use outbox_dispatcher.Dispatch.{
  Outcome, delivered, failed, timed_out, Callback, record_failure, record_success, write_result,
  after_lock, dispatch_one, dispatch_all, after_fetch, dispatch_due,
}

module _ (es : List RawEvent) (ks : List (ℕ × Text)) where
  lock-Kept : (id until : ℕ) (db : Db) → Kept es ks db → Kept es ks (lock_delivery id until db).1
  unfolding lock_delivery lock_row
  lock-Kept id until db h =
      shaped-Kept es ks (λ n. n == 1) (λ d. lock_guard id d.now) (λ d. lock_row d.now until) db
        (λ d r. refl) h

  success-Kept :
      (mode : CompletionMode) (id : ℕ) (db : Db)
      → Kept es ks db
      → Kept es ks (record_success mode id db)
  unfolding record_success mark_dispatched_managed mark_dispatched_external finish_managed
      finish_external
  success-Kept managed id db h =
      shaped-Kept es ks (λ _. tt) (λ d. has_id id) (λ d. finish_managed d.now) db (λ d r. refl) h
  success-Kept external id db h =
      shaped-Kept es ks (λ _. tt) (λ d. has_id id) (λ d. finish_external d.now) db (λ d r. refl) h

  failure-Kept :
      (due : DueDelivery) (reason : Text) (retry_after : Option Duration) (random : ℕ) (db : Db)
      → Kept es ks db
      → Kept es ks (record_failure due reason retry_after random db)
  unfolding record_failure mark_failure fail_row
  failure-Kept due reason retry_after random db h =
      shaped-Kept es ks (λ _. tt) (λ d. has_id due.delivery_id) (λ d. fail_row _ _ _) db
        (λ d r. refl) h

  write_result-Kept :
      (due : DueDelivery) (outcome : Outcome) (random : ℕ) (db : Db)
      → Kept es ks db
      → Kept es ks (write_result due outcome random db)
  unfolding write_result
  write_result-Kept due delivered random db h = success-Kept due.target.mode due.delivery_id db h
  write_result-Kept due (failed (transient reason retry_after)) random db h =
      failure-Kept due reason retry_after random db h
  write_result-Kept due timed_out random db h = failure-Kept due _ none random db h

  module _ (parse_url : Text → Option Url) (config : DispatchConfig) where
    keep_valid-Kept :
        (rows : List (DeliveryRow × RawEvent)) (db : Db)
        → Kept es ks db
        → Kept es ks (keep_valid parse_url config rows db).1
    unfolding keep_valid bury
    keep_valid-Kept [] db h = h
    keep_valid-Kept ((d, e) ∷ rest) db h =
        elim (Result-cases (extract_callback_target parse_url config e.callbacks d.callback_name)) [
          | inl (target, found) ↦ rw (keep_valid, found) (keep_valid-Kept rest db h)
          | inr (error, bad) ↦
              rw (keep_valid, bad)
                (keep_valid-Kept rest _
                  (update-Kept es ks (λ _. has_id d.id) (λ _. bury _) db (λ _ r. refl) h))
        ]

    fetch-Kept :
        (batch_size : ℕ) (db : Db)
        → Kept es ks db
        → Kept es ks (fetch_due_deliveries parse_url config batch_size db).1
    unfolding fetch_due_deliveries
    fetch-Kept batch_size db h =
        bind-Keeps (Kept es ks) (query (λ d. ok (select_due batch_size d, d)))
          (λ rows d. let (due, d') = keep_valid parse_url config rows d in (ok due, d')) db
          (query-Keeps (Kept es ks) (λ d. ok (select_due batch_size d, d)) db (base-Kept es ks db h)
            (λ d k. k))
          (λ rows d k. keep_valid-Kept rows d k)

    module _ (callback : Callback)
        (calls : (target : CallbackTarget) (event : EventForDelivery) (db : Db)
          → Kept es ks db
          → Kept es ks (callback target event db).database) where
      after_lock-Kept :
          (due : DueDelivery) (locked : Result Error Bool) (db : Db)
          → Kept es ks db
          → Kept es ks (after_lock callback due locked db)
      unfolding after_lock
      after_lock-Kept due (err e) db h = h
      after_lock-Kept due (ok false) db h = h
      after_lock-Kept due (ok true) db h = write_result-Kept due _ _ _ (calls due.target _ db h)

      dispatch_all-Kept :
          (due : List DueDelivery) (db : Db)
          → Kept es ks db
          → Kept es ks (dispatch_all callback config due db)
      unfolding dispatch_all dispatch_one
      dispatch_all-Kept [] db h = h
      dispatch_all-Kept (due ∷ rest) db h =
          dispatch_all-Kept rest _ (after_lock-Kept due _ _ (lock-Kept due.delivery_id _ db h))

      after_fetch-Kept :
          (r : Result Error (List DueDelivery)) (db : Db)
          → Kept es ks db
          → Kept es ks (after_fetch callback config r db).1
      unfolding after_fetch
      after_fetch-Kept (err e) db h = h
      after_fetch-Kept (ok due) db h = dispatch_all-Kept due db h

      -- A dispatch keeps the events and the keys if its calls do.
      pub dispatch_due-Kept :
          (db : Db) → Kept es ks db → Kept es ks (dispatch_due parse_url callback config db).1
      unfolding dispatch_due
      dispatch_due-Kept db h = after_fetch-Kept _ _ (fetch-Kept config.batch_size db h)
