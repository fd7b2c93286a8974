-- ===== src/Scheduler/Wakes/Cycle.antt =====
-- One cycle of the wake loop on a healthy database: what it inserts, and what it leaves alone.
use outbox_dispatcher.Base.{
  ℕ, ◌-◌, ◌≡◌, refl, sym, ap, ◌∙◌, Option, List, ◌==◌, ◌&&◌, map, any, leb, All-imp, ok, Bool-cases,
  inl, inr,
}
use outbox_dispatcher.Text.{Text, text_eq}
use outbox_dispatcher.Schema.{RawEvent, DeliveryRow, CallbackTarget, EventForDelivery}
use outbox_dispatcher.Config.{DispatchConfig}
use outbox_dispatcher.Callbacks.Url.{Url}
use outbox_dispatcher.Repo.Db.{Db}
use outbox_dispatcher.Repo.Query.{IsHealthy, bind_pure-db}
use outbox_dispatcher.Repo.Scheduling.Inserts.{HasRow}
use outbox_dispatcher.Repo.Scheduling.{NewDelivery}
use outbox_dispatcher.Dispatch.{Callback}
use outbox_dispatcher.Dispatch.Keys.{dispatch_due-Kept}
use outbox_dispatcher.Repo.Keys.{key, Kept, any-same_key, sweep-Kept}
use outbox_dispatcher.Repo.Sweep.{reset_hung_external}
use outbox_dispatcher.Scheduler.{Loop, sweep_hung_external, sweep_if_due, after_schedule, cycle}
use outbox_dispatcher.Scheduler.Cursor.{sweep_if_due-cursor}
use outbox_dispatcher.Scheduler.Rows.{planned}
use outbox_dispatcher.Scheduler.Pass.{
  HasRows, HasRows-grows, batch, last_id, insert_events, insert_events-keeps, insert_events-prefix,
  schedule_new_deliveries_run,
}

-- What leaves alone the events, the keys of the deliveries, and a healthy connection.
abbrev pub IsBystander : (Db → Db) → Type 0
IsBystander f =
    (db : Db)
    → ((f db).events ≡ db.events)
      × (IsHealthy db → IsHealthy (f db))
      × (map key (f db).deliveries ≡ map key db.deliveries)

bystander-Kept :
    (f : Db → Db) (es : List RawEvent) (ks : List (ℕ × Text)) (db : Db)
    → IsBystander f
    → Kept es ks db
    → Kept es ks (f db)
bystander-Kept f es ks db stays h = let s = stays db in (s.0 ∙ h.0, s.1 h.1, s.2 ∙ h.2)

HasRow-keys :
    (event_id : ℕ) (rows rows' : List DeliveryRow) (n : NewDelivery)
    → map key rows ≡ map key rows'
    → HasRow event_id rows n
    → HasRow event_id rows' n
HasRow-keys event_id rows rows' n e h =
    any-same_key event_id n.callback_name rows'
    ∙ ap (any (λ k. k.0 == event_id && text_eq k.1 n.callback_name)) (sym e)
    ∙ sym (any-same_key event_id n.callback_name rows)
    ∙ h

module _ (parse_url : Text → Option Url) (config : DispatchConfig) where
  pub HasRows-keys :
      (rows rows' : List DeliveryRow) (e : RawEvent)
      → map key rows ≡ map key rows'
      → HasRows parse_url config rows e
      → HasRows parse_url config rows' e
  HasRows-keys rows rows' e same h =
      All-imp _ _ (planned parse_url config e) (λ n. HasRow-keys e.event_id rows rows' n same) h

  sweep_if_due-Kept :
      (es : List RawEvent) (ks : List (ℕ × Text)) (l : Loop) (db : Db)
      → Kept es ks db
      → Kept es ks (sweep_if_due config l db).1
  unfolding sweep_if_due sweep_hung_external
  sweep_if_due-Kept es ks l db h =
      elim (Bool-cases (leb config.external_timeout_sweep_interval (db.now - l.last_sweep))) [
        | inr early ↦ rw early h
        | inl late ↦
            rw
              (
                late,
                bind_pure-db (reset_hung_external db.now config.max_completion_cycles) (λ _. tt) db,
              )
              (sweep-Kept es ks db.now config.max_completion_cycles db h)
      ]

  module _ (callback : Callback)
      (calls : (target : CallbackTarget) (event : EventForDelivery)
        → IsBystander (λ db. (callback target event db).database)) where
    -- After its scheduling a cycle keeps the events, the keys and the new cursor.
    after_schedule-Kept :
        (es : List RawEvent) (ks : List (ℕ × Text)) (l : Loop) (c : ℕ) (db : Db)
        → Kept es ks db
        → let (l', db') = after_schedule parse_url callback config l (ok c) db in
          (l'.cursor ≡ c) × Kept es ks db'
    unfolding after_schedule
    after_schedule-Kept es ks l c db h = (
      sweep_if_due-cursor config (record l { cursor = c; consecutive_errors = 0 }) _,
      sweep_if_due-Kept es ks (record l { cursor = c; consecutive_errors = 0 }) _
          (dispatch_due-Kept es ks parse_url config callback
            (λ target event d k.
              bystander-Kept (λ x. (callback target event x).database) es ks d (calls target event)
                k)
            db h),
    )

    -- A cycle on a healthy database inserts the rows of its batch.
    pub cycle_run :
        (l : Loop) (db : Db)
        → IsHealthy db
        → let events = batch l.cursor config.schedule_batch_size db in
          let (l', db') = cycle parse_url callback config l db in
          (l'.cursor ≡ last_id l.cursor events)
          × Kept db.events (map key (insert_events parse_url config events db).deliveries) db'
    unfolding cycle
    cycle_run l db h =
        let events = batch l.cursor config.schedule_batch_size db in
        let keeps = insert_events-keeps parse_url config events db in
        rw (schedule_new_deliveries_run parse_url config l.cursor db h) (
          after_schedule-Kept db.events _ l (last_id l.cursor events)
            (insert_events parse_url config events db) (keeps.0, keeps.1 ∙ h, refl))

    pub cycle-persists :
        (l : Loop) (db : Db) (e : RawEvent)
        → IsHealthy db
        → HasRows parse_url config db.deliveries e
        → HasRows parse_url config (cycle parse_url callback config l db).1.deliveries e
    cycle-persists l db e h there =
        let events = batch l.cursor config.schedule_batch_size db in
        let prefix = insert_events-prefix parse_url config events db in
        HasRows-keys _ _ e (sym (cycle_run l db h).1.2)
          (rw prefix.1 (HasRows-grows parse_url config db.deliveries prefix.0 e there))
