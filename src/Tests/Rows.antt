-- ===== src/Tests/Rows.antt =====
-- The statements, run on a table of two rows.
use outbox_dispatcher.Base.{
  false, ◌<◌, ℕ, ◌+◌, ◌≤◌, ◌≡◌, refl, ◌≢◌, true, some, [], ◌∷◌, if◌then◌else◌, ok, select, arith,
}
use outbox_dispatcher.Text.{text_eq}
use outbox_dispatcher.Json.{lookup}
use outbox_dispatcher.Callbacks.Parse.{find_named, is_named}
use outbox_dispatcher.Schema.{from_secs, SweepReport, RetentionDeleted}
use outbox_dispatcher.Repo.Db.{Db, is_unlocked, query, event_of, order_by, insert_by}
use outbox_dispatcher.Repo.Rows.{find_row, map_row}
use outbox_dispatcher.Repo.Sweep.{
  reset_hung_external, sweep_statement, sweep_rows, hung, awaits_completion, cb_match, cb_fields,
  int_member, sweep_one, sweep_row, cb_row,
}
use outbox_dispatcher.Repo.Sweep.Counts.{Balanced, reset_hung_external-Balanced}
use outbox_dispatcher.Repo.Retention.{
  delete_terminal_events, delete_statement, candidates, is_candidate, in_progress, has_dead_letter,
  count_reasons,
}
use outbox_dispatcher.Repo.Retention.Deletes.{is_under_way, delete_terminal_events_safe}
use outbox_dispatcher.Repo.Admin.{retry_delivery, retry_row, complete_delivery}
use outbox_dispatcher.Repo.Admin.Retry.{retry_outcome, retry_delivery_lem, complete_delivery_again}
use outbox_dispatcher.Config.Settings.{RetentionConfig}
use outbox_dispatcher.Retention.{initial_sleep, run_retention_worker}
use outbox_dispatcher.Retention.Keeps.{run_retention_worker-keeps}
use outbox_dispatcher.Tests.Data.{row, waiting_row, database}

abbrev one_reset : SweepReport
one_reset = record { reset = 1; exhausted = 0 }

swept : (reset_hung_external 5_000_000_000 20 database).0 ≡ ok one_reset
unfolding reset_hung_external query sweep_statement sweep_rows hung awaits_completion cb_match
    event_of find_named is_named lookup text_eq cb_fields int_member sweep_one sweep_row cb_row
swept = refl

reset_hung_external-Balanced_example :
    Balanced database.deliveries
      (reset_hung_external 5_000_000_000 20 database).1.deliveries
      one_reset
reset_hung_external-Balanced_example =
    reset_hung_external-Balanced 5_000_000_000 20 database one_reset swept

-- The same rows, all of them done.
abbrev finished : Db
finished = record database {
  deliveries =
      record row { processed_at = some 1700 }
      ∷ record waiting_row { processed_at = some 1700 }
      ∷ [];
}

abbrev one_event : RetentionDeleted
one_event = record { processed = 1; dead_letter = 0 }

deleted : (delete_terminal_events 1900 1900 100 finished).0 ≡ ok one_event
unfolding delete_terminal_events query delete_statement candidates is_candidate in_progress
    has_dead_letter order_by insert_by count_reasons
deleted = refl

delete_terminal_events_safe_example :
    (select is_under_way (delete_terminal_events 1900 1900 100 finished).1.deliveries
      ≡ select is_under_way finished.deliveries)
    × (1 + 0 ≤ 100)
delete_terminal_events_safe_example =
    delete_terminal_events_safe 1900 1900 100 finished one_event deleted

retry_delivery_lem_example :
    let (answer, db') = retry_delivery 1 database in
    (answer ≡ ok (retry_outcome 2000 (find_row 1 database.deliveries)))
    × (find_row 1 db'.deliveries
        ≡ map_row
            (λ r. if is_unlocked r.locked_until 2000 then retry_row 2000 r else r)
            (find_row 1 database.deliveries))
    × ((j : ℕ) → j ≢ 1 → find_row j db'.deliveries ≡ find_row j database.deliveries)
retry_delivery_lem_example =
    retry_delivery_lem 0 3 1 database refl (omega arith, (omega arith, omega arith))

found_2 : find_row 2 database.deliveries ≡ some waiting_row
unfolding find_row
found_2 = refl

complete_delivery_again_example :
    let once = (complete_delivery 2 database).1 in
    find_row 2 (complete_delivery 2 (record once { now = 9000 })).1.deliveries
    ≡ find_row 2 once.deliveries
complete_delivery_again_example = complete_delivery_again 2 database 9000 refl

abbrev retention : RetentionConfig
retention = record {
  enabled = true;
  processed_retention_days = 0;
  dead_letter_retention_days = 0;
  cleanup_interval_secs = 3600;
  batch_limit = 100;
}

run_retention_worker-keeps_example :
    let after = run_retention_worker retention 5000 2 database in
    (select is_under_way after.deliveries ≡ select is_under_way database.deliveries)
    × (retention.enabled ≡ false → after ≡ database)
    × (0 < 3600 → initial_sleep retention 5000 < from_secs 3600)
run_retention_worker-keeps_example = run_retention_worker-keeps retention 5000 2 database
