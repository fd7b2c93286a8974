-- ===== src/Rescan.antt =====
-- The command `rescan`: crates/bin/src/main.rs.
pub mod Covers
use outbox_dispatcher.Base.{
  ℕ, zero, suc, ◌+◌, max, Bool, Option, none, some, List, [], ◌∷◌, ltb, ◌==◌, if◌then◌else◌, select,
  Result, ok, err,
}
use outbox_dispatcher.Text.{Text}
use outbox_dispatcher.Schema.{Time, RawEvent}
use outbox_dispatcher.Config.{DispatchConfig}
use outbox_dispatcher.Callbacks.Url.{Url}
use outbox_dispatcher.Repo.Error.{Error}
use outbox_dispatcher.Repo.Db.{Db, Action, query}
use outbox_dispatcher.Scheduler.{schedule_new_deliveries}

-- `COALESCE(MAX(id), 0)`.
unfoldable pub max_id : List RawEvent → ℕ
max_id [] = 0
max_id (e ∷ es) = max e.id (max_id es)

unfoldable start_cursor : Time → Action ℕ
start_cursor since = query λ db. ok (max_id (select (λ e. ltb e.created_at since) db.events), db)

-- What the command logs at its end.
pub record RescanReport : Type 0 where
  pub batches : ℕ
  pub final_cursor : ℕ

-- After a batch: an error ends the command, and so does a cursor that did not move. What `let`
-- binds is read only if the loop goes on.
after_batch :
    (ℕ → ℕ → Db → Option (Result Error RescanReport × Db))
    → ℕ
    → ℕ
    → Result Error ℕ
    → Db
    → Option (Result Error RescanReport × Db)
after_batch continue current_cursor total_batches (err e) db = some (err e, db)
after_batch continue current_cursor total_batches (ok new_cursor) db =
    let rest = continue new_cursor (total_batches + 1) db in
    if new_cursor == current_cursor
    then some (ok (record { batches = total_batches; final_cursor = current_cursor }), db)
    else rest

module _ (parse_url : Text → Option Url) (config : DispatchConfig) where
  -- The loop; `none` means that the fuel ran out.
  unfoldable rescan_loop : ℕ → ℕ → ℕ → Db → Option (Result Error RescanReport × Db)
  rescan_loop zero current_cursor total_batches db = none
  rescan_loop (suc fuel) current_cursor total_batches db =
      let (result, db') = schedule_new_deliveries parse_url config current_cursor db in
      after_batch (rescan_loop fuel) current_cursor total_batches result db'

  -- The loop from the answer of the query on.
  from_cursor : ℕ → Result Error ℕ → Db → Option (Result Error RescanReport × Db)
  from_cursor fuel (err e) db = some (err e, db)
  from_cursor fuel (ok cursor) db = rescan_loop fuel cursor 0 db

  -- The body, from the query of the cursor on.
  pub rescan : ℕ → Time → Db → Option (Result Error RescanReport × Db)
  unfolding from_cursor
  rescan fuel since db = let (result, db') = start_cursor since db in from_cursor fuel result db'
