-- ===== src/Rescan/Covers.antt =====
-- The rescan ends, and leaves no event above its start without its rows.
use mathlib.Core.Path.{subst}
use native.Mathlib.Decide.{ℕ_discrete}
use outbox_dispatcher.Base.{
  ℕ, zero, suc, ◌+◌, ◌<◌, ◌≡◌, ◌≢◌, ap, ◌∙◌, Option, some, List, ◌++◌, select, length, ltb, All,
  All-imp, ok, append_assoc, arith,
}
use outbox_dispatcher.Text.{Text}
use outbox_dispatcher.Schema.{Time, RawEvent, DeliveryRow}
use outbox_dispatcher.Config.{DispatchConfig}
use outbox_dispatcher.Callbacks.Url.{Url}
use outbox_dispatcher.Repo.Db.{Db}
use outbox_dispatcher.Repo.Query.{IsHealthy, query_healthy}
use outbox_dispatcher.Repo.Scheduling.Inserts.{IsTable}
use outbox_dispatcher.Scheduler.Pass.{
  HasRows, HasRows-grows, batch, batch-above, last_id, insert_events, insert_events-keeps,
  insert_events-IsScheduled, schedule_new_deliveries_run,
}
use outbox_dispatcher.Rescan.{
  RescanReport, max_id, start_cursor, after_batch, from_cursor, rescan_loop, rescan,
}
use outbox_dispatcher.Scheduler.Ahead.{
  DistinctIds, ahead, All-of_ahead, batch-and-rest, nothing_ahead, above_count, count-le-length,
  falls,
}

module _ (parse_url : Text → Option Url) (config : DispatchConfig) where
  module _ (some_batch : 0 < config.schedule_batch_size) where
    -- What a rescan from a cursor leaves.
    abbrev Rescanned : ℕ → Db → Db → Type 0
    Rescanned cursor before after =
        ((more : List DeliveryRow) × (after.deliveries ≡ before.deliveries ++ more))
        × All (λ e. cursor < e.id → HasRows parse_url config after.deliveries e) before.events
        × IsTable after

    abbrev Ends : ℕ → ℕ → ℕ → Db → Type 0
    Ends fuel cursor batches db =
        (report : RescanReport) × (after : Db) × (rescan_loop parse_url config fuel cursor batches
            db
          ≡ some (ok report, after))
        × Rescanned cursor db after

    -- A round on a healthy database.
    round :
        (fuel cursor batches : ℕ) (db : Db)
        → IsHealthy db
        → let events = batch cursor config.schedule_batch_size db in
          rescan_loop parse_url config (suc fuel) cursor batches db
          ≡ after_batch
              (rescan_loop parse_url config fuel)
              cursor
              batches
              (ok (last_id cursor events))
              (insert_events parse_url config events db)
    unfolding rescan_loop
    round fuel cursor batches db h =
        ap (λ p. after_batch (rescan_loop parse_url config fuel) cursor batches p.0 p.1)
          (schedule_new_deliveries_run parse_url config cursor db h)

    -- With nothing ahead the loop ends in this round.
    Ends-here :
        (fuel cursor batches : ℕ) (db : Db)
        → IsHealthy db
        → IsTable db
        → last_id cursor (batch cursor config.schedule_batch_size db) ≡ cursor
        → Ends (suc fuel) cursor batches db
    unfolding after_batch
    Ends-here fuel cursor batches db h table e =
        let n = config.schedule_batch_size in
        let events = batch cursor n db in
        let after = insert_events parse_url config events db in
        let rows = insert_events-IsScheduled parse_url config events db table in
        let nothing =
          nothing_ahead n cursor (ahead cursor db) some_batch (batch-above cursor n db) e in
        (
          record { batches = batches; final_cursor = cursor },
          after,
          round fuel cursor batches db h ∙ rw e (ground arith),
          (
            rows.0,
            All-of_ahead (HasRows parse_url config after.deliveries) cursor db (rw nothing tt),
            rows.2,
          ),
        )

    -- Else the batch has its rows, and the next rounds see to what stands above it.
    continues :
        (fuel cursor batches : ℕ) (db : Db)
        → IsHealthy db
        → IsTable db
        → DistinctIds db.events
        → let events = batch cursor config.schedule_batch_size db in
          last_id cursor events ≢ cursor
          → Ends fuel
              (last_id cursor events)
              (batches + 1)
              (insert_events parse_url config events db)
          → Ends (suc fuel) cursor batches db
    unfolding after_batch
    continues fuel cursor batches db h table distinct moved (report, after, ran, rows) =
        let n = config.schedule_batch_size in
        let events = batch cursor n db in
        let new_cursor = last_id cursor events in
        let once = insert_events parse_url config events db in
        let keeps = insert_events-keeps parse_url config events db in
        let first = insert_events-IsScheduled parse_url config events db table in
        let later : All (λ e. new_cursor < e.id → HasRows parse_url config after.deliveries e)
            db.events =
          subst
            (λ es. All (λ e. new_cursor < e.id → HasRows parse_url config after.deliveries e) es)
            keeps.0 rows.1 in
        let grown : (e : RawEvent)
            → HasRows parse_url config once.deliveries e
            → HasRows parse_url config after.deliveries e =
          λ e there.
            rw rows.0.1 (HasRows-grows parse_url config once.deliveries rows.0.0 e there) in
        (
          report,
          after,
          round fuel cursor batches db h ∙ ground (arith, ran),
          (
            (
              first.0.0 ++ rows.0.0,
              rows.0.1
                  ∙ ap (λ ds. ds ++ rows.0.0) first.0.1
                  ∙ append_assoc db.deliveries first.0.0 rows.0.0,
            ),
            batch-and-rest (HasRows parse_url config after.deliveries) n cursor db some_batch
                distinct (All-imp _ _ events grown first.1) later,
            rows.2,
          ),
        )

    ends :
        (fuel cursor batches : ℕ) (db : Db)
        → IsHealthy db
        → IsTable db
        → DistinctIds db.events
        → above_count cursor db < fuel
        → Ends fuel cursor batches db
    ends zero cursor batches db h table distinct enough = absurd (omega arith)
    ends (suc fuel) cursor batches db h table distinct enough =
        let n = config.schedule_batch_size in
        let events = batch cursor n db in
        let once = insert_events parse_url config events db in
        let keeps = insert_events-keeps parse_url config events db in
        elim (ℕ_discrete (last_id cursor events) cursor) [
          | yes same ↦ Ends-here fuel cursor batches db h table same
          | no moved ↦ continues fuel cursor batches db h table distinct moved (
              ends fuel (last_id cursor events) (batches + 1) once (keeps.1 ∙ h)
                (insert_events-IsScheduled parse_url config events db table).2 (rw keeps.0 distinct)
                (rw keeps.0 (omega (arith, falls cursor n db moved))))
        ]

    -- With more fuel than there are events, a rescan of a healthy database whose keys are distinct
    -- ends without an error: the rows that were there are a prefix of those that are, the keys are
    -- distinct, and every event whose id is above those of all events created before `since` has a
    -- row for each of its planned callbacks.
    pub rescan_covers :
        (fuel : ℕ) (since : Time) (db : Db)
        → IsHealthy db
        → IsTable db
        → DistinctIds db.events
        → length db.events < fuel
        → (report : RescanReport) × (after : Db) × (rescan parse_url config fuel since db
            ≡ some (ok report, after))
          × ((more : List DeliveryRow) × (after.deliveries ≡ db.deliveries ++ more))
          × All
              (λ e.
                max_id (select (λ x. ltb x.created_at since) db.events) < e.id
                → HasRows parse_url config after.deliveries e)
              db.events
          × IsTable after
    unfolding rescan start_cursor from_cursor
    rescan_covers fuel since db h table distinct enough =
        let cursor = max_id (select (λ x. ltb x.created_at since) db.events) in
        let (report, after, ran, rows) =
          ends fuel cursor 0 db h table distinct
            (omega (arith, count-le-length (λ e. ltb cursor e.id) db.events)) in
        (
          report,
          after,
          ap (λ p. from_cursor parse_url config fuel p.0 p.1)
                (query_healthy (λ d. ok (max_id (select (λ e. ltb e.created_at since) d.events), d))
                  db h)
              ∙ ran,
          rows.0,
          rows.1,
          rows.2,
        )
