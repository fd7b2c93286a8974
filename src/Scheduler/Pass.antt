-- ===== src/Scheduler/Pass.antt =====
-- A whole pass of `schedule_new_deliveries`.
use outbox_dispatcher.Base.{
  ℕ, ◌≤◌, ◌<◌, ◌≡◌, refl, sym, ap, ◌∙◌, true, Option, List, [], ◌∷◌, ◌++◌, select, take, ltb,
  is_some, All, All-imp, All-take, All-select, All-select-old, arith, ok, append_assoc, append_nil,
}
use outbox_dispatcher.Text.{Text}
use outbox_dispatcher.Schema.{RawEvent, DeliveryRow}
use outbox_dispatcher.Config.{DispatchConfig}
use outbox_dispatcher.Callbacks.Url.{Url}
use outbox_dispatcher.Repo.Db.{Db, event_of, order_by, All-order_by, ◌>>=◌}
use outbox_dispatcher.Repo.Query.{IsHealthy, bind_healthy}
use outbox_dispatcher.Repo.Scheduling.{insert_all, fetch_new_events, by_id}
use outbox_dispatcher.Repo.Scheduling.Inserts.{
  HasRow, HasRow-grows, insert_all-prefix, insert_all-HasRow, insert_all-keeps, IsTable,
  insert_all-IsTable,
}
use outbox_dispatcher.Scheduler.{schedule_loop, schedule_new_deliveries}
use outbox_dispatcher.Scheduler.Rows.{IsKnown, planned, schedule_event_healthy}

-- The batch that a pass reads.
abbrev pub batch : ℕ → ℕ → Db → List RawEvent
batch cursor limit db = take limit (order_by by_id (select (λ e. ltb cursor e.id) db.events))

event_of-cons :
    (e : RawEvent) (es : List RawEvent) (id : ℕ)
    → is_some (event_of es id) ≡ true
    → is_some (event_of (e ∷ es) id) ≡ true
unfolding event_of
event_of-cons e es id h = ground arith

event_of-head : (e : RawEvent) (es : List RawEvent) → is_some (event_of (e ∷ es) e.event_id) ≡ true
unfolding event_of
event_of-head e es = ground arith

event_of-All : (es : List RawEvent) → All (λ e. is_some (event_of es e.event_id) ≡ true) es
event_of-All [] = tt
event_of-All (e ∷ es) =
    (event_of-head e es, All-imp _ _ es (λ x. event_of-cons e es x.event_id) (event_of-All es))

-- The batch's events are in the table, and above the cursor.
batch-IsKnown :
    (cursor limit : ℕ) (db : Db) → All (λ e. IsKnown e.event_id db) (batch cursor limit db)
batch-IsKnown cursor limit db =
    All-take (λ e. IsKnown e.event_id db) limit _
      (All-order_by (λ e. IsKnown e.event_id db) by_id _
        (All-select-old (λ e. IsKnown e.event_id db) _ db.events (event_of-All db.events)))

pub batch-above : (cursor limit : ℕ) (db : Db) → All (λ e. cursor < e.id) (batch cursor limit db)
batch-above cursor limit db =
    All-take (λ e. cursor < e.id) limit _
      (All-order_by (λ e. cursor < e.id) by_id _
        (All-imp _ _ (select (λ e. ltb cursor e.id) db.events) (λ e h. ground arith)
          (All-select (λ e. ltb cursor e.id) db.events)))

-- The cursor after a batch.
abbrev pub last_id : ℕ → List RawEvent → ℕ
last_id cursor [] = cursor
last_id cursor (e ∷ es) = last_id e.id es

pub last_id-le :
    (lo cursor : ℕ) (events : List RawEvent)
    → All (λ e. lo < e.id) events
    → lo ≤ cursor
    → lo ≤ last_id cursor events
last_id-le lo cursor [] above le = le
last_id-le lo cursor (e ∷ es) above le = last_id-le lo e.id es above.1 (omega (arith, above.0))

module _ (parse_url : Text → Option Url) (config : DispatchConfig) where
  -- Every planned row of an event is there.
  abbrev pub HasRows : List DeliveryRow → RawEvent → Type 0
  HasRows rows e = All (HasRow e.event_id rows) (planned parse_url config e)

  pub HasRows-grows :
      (rows more : List DeliveryRow) (e : RawEvent) → HasRows rows e → HasRows (rows ++ more) e
  HasRows-grows rows more e h =
      All-imp _ _ (planned parse_url config e)
        (λ n there. HasRow-grows e.event_id n rows more there) h

  -- What a pass leaves: the rows before it are a prefix, and every planned row is there.
  abbrev pub IsScheduled : List RawEvent → Db → Db → Type 0
  IsScheduled events before after =
      ((more : List DeliveryRow) × (after.deliveries ≡ before.deliveries ++ more))
      × All (HasRows after.deliveries) events
      × IsTable after

  -- The tables after the events of a batch.
  unfoldable pub insert_events : List RawEvent → Db → Db
  insert_events [] db = db
  insert_events (e ∷ es) db =
      insert_events es (insert_all db e.event_id (planned parse_url config e))

  pub insert_events-keeps :
      (events : List RawEvent) (db : Db)
      → let after = insert_events events db in
        (after.events ≡ db.events) × (after.faults ≡ db.faults) × (after.now ≡ db.now)
  unfolding insert_events
  insert_events-keeps [] db = (refl, refl, refl)
  insert_events-keeps (e ∷ es) db =
      let news = planned parse_url config e in
      let first = insert_all-keeps db e.event_id news in
      let rest = insert_events-keeps es (insert_all db e.event_id news) in
      (rest.0 ∙ first.0, rest.1 ∙ first.1, rest.2 ∙ first.2)

  loop_healthy :
      (events : List RawEvent) (cursor : ℕ) (db : Db)
      → IsHealthy db
      → All (λ e. IsKnown e.event_id db) events
      → schedule_loop parse_url config events cursor db
        ≡ (ok (last_id cursor events), insert_events events db)
  unfolding schedule_loop insert_events
  loop_healthy [] cursor db h known = refl
  loop_healthy (e ∷ es) cursor db h known =
      let news = planned parse_url config e in
      let keeps = insert_all-keeps db e.event_id news in
      ap (λ p. ((λ _. p) >>= λ _. schedule_loop parse_url config es e.id) db)
        (schedule_event_healthy parse_url config e db h known.0)
      ∙ loop_healthy es e.id (insert_all db e.event_id news) (keeps.1 ∙ h)
          (All-imp _ _ es (λ x k. rw keeps.0 k) known.1)

  -- What a pass does on a healthy database.
  pub schedule_new_deliveries_run :
      (cursor : ℕ) (db : Db)
      → IsHealthy db
      → let events = batch cursor config.schedule_batch_size db in
        schedule_new_deliveries parse_url config cursor db
        ≡ (ok (last_id cursor events), insert_events events db)
  unfolding schedule_new_deliveries fetch_new_events
  schedule_new_deliveries_run cursor db h =
      bind_healthy
        (λ d. ok (
          take config.schedule_batch_size (order_by by_id (select (λ e. ltb cursor e.id) d.events)),
          d,
        ))
        (λ new_events. schedule_loop parse_url config new_events cursor) db h
      ∙ loop_healthy (batch cursor config.schedule_batch_size db) cursor db h
          (batch-IsKnown cursor config.schedule_batch_size db)

  pub insert_events-prefix :
      (events : List RawEvent) (db : Db)
      → (more : List DeliveryRow) × ((insert_events events db).deliveries ≡ db.deliveries ++ more)
  unfolding insert_events
  insert_events-prefix [] db = ([], sym (append_nil db.deliveries))
  insert_events-prefix (e ∷ es) db =
      let news = planned parse_url config e in
      let first = insert_all-prefix db e.event_id news in
      let rest = insert_events-prefix es (insert_all db e.event_id news) in
      (
        first.0 ++ rest.0,
        rest.1 ∙ ap (λ ds. ds ++ rest.0) first.1 ∙ append_assoc db.deliveries first.0 rest.0,
      )

  pub insert_events-HasRows :
      (events : List RawEvent) (db : Db) → All (HasRows (insert_events events db).deliveries) events
  unfolding insert_events
  insert_events-HasRows [] db = tt
  insert_events-HasRows (e ∷ es) db =
      let once = insert_all db e.event_id (planned parse_url config e) in
      let rest = insert_events-prefix es once in
      (
        rw rest.1 (
            HasRows-grows once.deliveries rest.0 e
              (insert_all-HasRow db e.event_id (planned parse_url config e))),
        insert_events-HasRows es once,
      )

  insert_events-IsTable :
      (events : List RawEvent) (db : Db) → IsTable db → IsTable (insert_events events db)
  unfolding insert_events
  insert_events-IsTable [] db table = table
  insert_events-IsTable (e ∷ es) db table =
      insert_events-IsTable es _
        (insert_all-IsTable db e.event_id (planned parse_url config e) table)

  pub insert_events-IsScheduled :
      (events : List RawEvent) (db : Db)
      → IsTable db
      → IsScheduled events db (insert_events events db)
  insert_events-IsScheduled events db table = (
    insert_events-prefix events db,
    insert_events-HasRows events db,
    insert_events-IsTable events db table,
  )

  -- On a healthy database whose keys are distinct a pass succeeds: the cursor does not fall, the rows
  -- that were there stay as they are, every planned row of the batch is there, and the keys are
  -- distinct.
  pub schedule_new_deliveries_healthy :
      (cursor : ℕ) (db : Db)
      → IsHealthy db
      → IsTable db
      → (c : ℕ) × (after : Db) × (schedule_new_deliveries parse_url config cursor db
          ≡ (ok c, after))
        × (cursor ≤ c)
        × IsScheduled (batch cursor config.schedule_batch_size db) db after
  schedule_new_deliveries_healthy cursor db h table =
      let events = batch cursor config.schedule_batch_size db in
      (
        last_id cursor events,
        insert_events events db,
        schedule_new_deliveries_run cursor db h,
        last_id-le cursor cursor events (batch-above cursor config.schedule_batch_size db)
            (omega arith),
        insert_events-IsScheduled events db table,
      )
