-- ===== src/Retention/Keeps.antt =====
-- The retention worker leaves the work in progress alone.
use outbox_dispatcher.Base.{
  ℕ, zero, suc, ◌%◌, ◌<◌, false, Bool-cases, inl, inr, arith, ◌-◌, ◌≡◌, refl, ◌∙◌, Option, select,
}
use native.Mathlib.Nat.{mod-lt}
use outbox_dispatcher.Schema.{Time, Duration, from_secs, RetentionDeleted}
use outbox_dispatcher.Config.Settings.{RetentionConfig}
use outbox_dispatcher.Repo.Db.{Db, Action, effect, ◌>>=◌, pure}
use outbox_dispatcher.Repo.Query.{query-Keeps, read-Keeps, bind-Keeps}
use outbox_dispatcher.Repo.Retention.{
  delete_statement, delete_terminal_events, oldest_terminal_event_age, candidates,
}
use outbox_dispatcher.Repo.Retention.Deletes.{is_under_way, select-under_way, candidates-quiet}
use outbox_dispatcher.Retention.{
  run_retention_cycle, days, initial_sleep, sleep, retention_loop, run_retention_worker,
}

run_retention_cycle-keeps :
    (config : RetentionConfig) (db : Db)
    → select is_under_way (run_retention_cycle config db).1.deliveries
      ≡ select is_under_way db.deliveries
unfolding run_retention_cycle delete_terminal_events delete_statement oldest_terminal_event_age
run_retention_cycle-keeps config db =
    bind-Keeps Same delete
      (λ deleted.
        age >>= λ oldest_age. pure (record { deleted = deleted; oldest_age = oldest_age }))
      db
      (query-Keeps Same (delete_statement dead_letter_cutoff processed_cutoff config.batch_limit) db
        refl deletes)
      (λ deleted d same.
        bind-Keeps Same age
          (λ oldest_age. pure (record { deleted = deleted; oldest_age = oldest_age })) d
          (reads d same) (λ age d' same'. same'))
  where
    Same : Db → Type 0
    Same d = select is_under_way d.deliveries ≡ select is_under_way db.deliveries

    processed_cutoff : Time
    processed_cutoff = db.now - days config.processed_retention_days

    dead_letter_cutoff : Time
    dead_letter_cutoff = db.now - days config.dead_letter_retention_days

    delete : Action RetentionDeleted
    delete = delete_terminal_events dead_letter_cutoff processed_cutoff config.batch_limit

    age : Action (Option Duration)
    age = oldest_terminal_event_age dead_letter_cutoff processed_cutoff

    deletes :
        (d : Db)
        → Same d
        → Same
            (effect (delete_statement dead_letter_cutoff processed_cutoff config.batch_limit d) d)
    deletes d same =
        let chosen =
          candidates d.deliveries d.events dead_letter_cutoff processed_cutoff config.batch_limit in
        select-under_way chosen d.deliveries (
          candidates-quiet d.deliveries d.events dead_letter_cutoff processed_cutoff
            config.batch_limit)
        ∙ same

    reads : (d : Db) → Same d → Same (age d).1
    reads d same = read-Keeps Same _ d same

loop-keeps :
    (config : RetentionConfig) (cycles : ℕ) (next_sleep : Duration) (db : Db)
    → select is_under_way (retention_loop config cycles next_sleep db).deliveries
      ≡ select is_under_way db.deliveries
unfolding retention_loop
loop-keeps config zero next_sleep db = refl
loop-keeps config (suc cycles) next_sleep db =
    loop-keeps config cycles (from_secs config.cleanup_interval_secs)
      (run_retention_cycle config (sleep next_sleep db)).1
    ∙ run_retention_cycle-keeps config (sleep next_sleep db)

-- However many cycles the worker runs and whatever befalls their round trips, it deletes no delivery
-- that is still under way; a worker that is not enabled does nothing at all, and one that is enabled
-- begins its first cycle within the interval.
pub run_retention_worker-keeps :
    (config : RetentionConfig) (random cycles : ℕ) (db : Db)
    → let after = run_retention_worker config random cycles db in
      (select is_under_way after.deliveries ≡ select is_under_way db.deliveries)
      × (config.enabled ≡ false → after ≡ db)
      × (0 < config.cleanup_interval_secs
          → initial_sleep config random < from_secs config.cleanup_interval_secs)
unfolding run_retention_worker initial_sleep retention_loop run_retention_cycle
run_retention_worker-keeps config random cycles db = (
  elim (Bool-cases config.enabled) [
    | inl on ↦ rw on (loop-keeps config cycles (initial_sleep config random) db)
    | inr off ↦ rw off refl
  ],
  (λ off. rw off refl),
  λ some. first (mod-lt random some),
)
  where
    first :
        random % config.cleanup_interval_secs < config.cleanup_interval_secs
        → initial_sleep config random < from_secs config.cleanup_interval_secs
    first lt = ground arith
