-- ===== src/Retention.antt =====
-- The retention worker: crates/core/src/retention.rs.
pub mod Keeps
use outbox_dispatcher.Base.{ℕ, zero, suc, ◌+◌, ◌*◌, ◌-◌, ◌%◌, Option, ltb, if◌then◌else◌}
use outbox_dispatcher.Schema.{Duration, from_secs, RetentionDeleted}
use outbox_dispatcher.Config.Settings.{RetentionConfig}
use outbox_dispatcher.Repo.Db.{Db, Action, ◌>>=◌, pure}
use outbox_dispatcher.Repo.Retention.{delete_terminal_events, oldest_terminal_event_age}

pub record RetentionReport : Type 0 where
  pub deleted : RetentionDeleted
  pub oldest_age : Option Duration

-- `chrono::Duration::days`.
abbrev pub days : ℕ → Duration
days n = from_secs (n * 86400)

-- A cutoff before the epoch is 0, and no event is older than either.
unfoldable pub run_retention_cycle : RetentionConfig → Action RetentionReport
run_retention_cycle config db =
    let processed_cutoff = db.now - days config.processed_retention_days in
    let dead_letter_cutoff = db.now - days config.dead_letter_retention_days in
    (delete_terminal_events dead_letter_cutoff processed_cutoff config.batch_limit >>= λ deleted.
    oldest_terminal_event_age dead_letter_cutoff processed_cutoff >>= λ oldest_age.
    pure (record { deleted = deleted; oldest_age = oldest_age }))
      db

-- The first sleep, a random number of seconds below the interval.
unfoldable pub initial_sleep : RetentionConfig → ℕ → Duration
initial_sleep config random =
    if ltb 0 config.cleanup_interval_secs
    then from_secs (random % config.cleanup_interval_secs)
    else 0

-- `tokio::time::sleep`, with nothing else going on.
abbrev pub sleep : Duration → Db → Db
sleep duration db = record db { now = db.now + duration }

-- The loop until the shutdown, which comes after a number of cycles. A cycle's error is logged only.
unfoldable retention_loop : RetentionConfig → ℕ → Duration → Db → Db
retention_loop config zero next_sleep db = db
retention_loop config (suc cycles) next_sleep db =
    retention_loop config cycles (from_secs config.cleanup_interval_secs)
      (run_retention_cycle config (sleep next_sleep db)).1

pub run_retention_worker : RetentionConfig → ℕ → ℕ → Db → Db
run_retention_worker config random cycles db =
    if config.enabled then retention_loop config cycles (initial_sleep config random) db else db
