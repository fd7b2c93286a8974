-- ===== src/Scheduler/Wakes.antt =====
-- The wake loop from its start: `run_scheduler_with_cycle_tracker` of crates/core/src/scheduler.rs.
pub mod Cycle
pub mod Covers
use outbox_dispatcher.Base.{ℕ, zero, suc, ◌+◌, Option, Result, ok, err}
use outbox_dispatcher.Text.{Text}
use outbox_dispatcher.Config.{DispatchConfig}
use outbox_dispatcher.Callbacks.Url.{Url}
use outbox_dispatcher.Repo.Error.{Error}
use outbox_dispatcher.Repo.Db.{Db}
use outbox_dispatcher.Repo.Scheduling.{recover_cursor}
use outbox_dispatcher.Dispatch.{Callback}
use outbox_dispatcher.Scheduler.{Loop, cycle}

-- The variables before the loop.
pub start_loop : DispatchConfig → ℕ → Db → Loop
start_loop config cursor db = record {
  cursor = cursor;
  consecutive_errors = 0;
  last_sweep = db.now;
  next_poll = db.now + config.poll_interval;
}

-- `idle` is what becomes of the database while the loop waits for a notification or for its timer.
module _ (parse_url : Text → Option Url) (callback : Callback) (idle : Loop → Db → Db)
    (config : DispatchConfig) where
  -- The loop until the shutdown, which comes after a number of cycles.
  unfoldable cycles : ℕ → Loop → Db → Loop × Db
  cycles zero l db = (l, db)
  cycles (suc wakes) l db =
      let (l', db') = cycle parse_url callback config l (idle l db) in cycles wakes l' db'

  -- An error of `recover_cursor` ends the scheduler.
  from_recovered : ℕ → Result Error ℕ → Db → Result Error Loop × Db
  from_recovered wakes (err e) db = (err e, db)
  from_recovered wakes (ok cursor) db =
      let (l, db') = cycles wakes (start_loop config cursor db) db in (ok l, db')

  pub run_scheduler : ℕ → Db → Result Error Loop × Db
  run_scheduler wakes db =
      let (recovered, db') = recover_cursor db in from_recovered wakes recovered db'
