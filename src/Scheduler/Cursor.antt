-- ===== src/Scheduler/Cursor.antt =====
-- The cursor of the wake loop, whatever befalls the database.
use outbox_dispatcher.Base.{
  ℕ, ◌≤◌, ◌<◌, ◌≡◌, refl, ◌-◌, Option, List, [], ◌∷◌, All, leb, arith, Result, ok, err, Ensures,
  returns, fails, any-Ensures, Bool-cases, inl, inr,
}
use outbox_dispatcher.Text.{Text}
use outbox_dispatcher.Schema.{RawEvent}
use outbox_dispatcher.Config.{DispatchConfig}
use outbox_dispatcher.Callbacks.Url.{Url}
use outbox_dispatcher.Repo.Error.{Error}
use outbox_dispatcher.Repo.Db.{
  Db, Action, ◌>>=◌, query, befall, Fault, healthy, refused, unanswered, next_fault, other_faults,
}
use outbox_dispatcher.Repo.Scheduling.{fetch_new_events}
use outbox_dispatcher.Dispatch.{Callback}
use outbox_dispatcher.Scheduler.{
  schedule_event, schedule_loop, schedule_new_deliveries, Loop, sweep_if_due, after_schedule, cycle,
}
use outbox_dispatcher.Scheduler.Pass.{batch, batch-above}

bind-answer :
    {A B : Type 0} {Q : B → Type 0} (P : A → Type 0) (m : Action A) (f : A → Action B) (db : Db)
    → Ensures P (m db).0
    → ((a : A) (d : Db) → P a → Ensures Q (f a d).0)
    → Ensures Q ((m >>= f) db).0
bind-answer {A} {B} {Q} P m f db first step = go (m db) first
  where
    go : (p : Result Error A × Db) → Ensures P p.0 → Ensures Q (((λ _. p) >>= f) db).0
    go (ok a, d) (returns h) = step a d h
    go (err e, d) fails = fails

query-answer :
    {A : Type 0} (P : A → Type 0) (value : Db → A) (db : Db)
    → ((d : Db) → P (value d))
    → Ensures P (query (λ d. ok (value d, d)) db).0
unfolding query befall
query-answer P value db h = go (next_fault db.faults)
  where
    db0 : Db
    db0 = record db { faults = other_faults db.faults }

    go : (f : Fault) → Ensures P (befall f (λ d. ok (value d, d)) db0).0
    go healthy = returns (h db0)
    go (refused t) = fails
    go (unanswered t) = fails

pub sweep_if_due-cursor :
    (config : DispatchConfig) (l : Loop) (db : Db) → (sweep_if_due config l db).0.cursor ≡ l.cursor
unfolding sweep_if_due
sweep_if_due-cursor config l db =
    elim (Bool-cases (leb config.external_timeout_sweep_interval (db.now - l.last_sweep))) [
      | inl late ↦ rw late refl
      | inr early ↦ rw early refl
    ]

module _ (parse_url : Text → Option Url) (config : DispatchConfig) where
  loop-le :
      (lo : ℕ) (events : List RawEvent) (cursor : ℕ) (db : Db)
      → All (λ e. lo < e.id) events
      → lo ≤ cursor
      → Ensures (λ c. lo ≤ c) (schedule_loop parse_url config events cursor db).0
  unfolding schedule_loop
  loop-le lo [] cursor db above le = returns le
  loop-le lo (e ∷ es) cursor db above le =
      bind-answer (λ _. Unit) (schedule_event parse_url config e)
        (λ _. schedule_loop parse_url config es e.id) db (any-Ensures _)
        (λ _ d _. loop-le lo es e.id d above.1 (omega (arith, above.0)))

  schedule-le :
      (cursor : ℕ) (db : Db)
      → Ensures (λ c. cursor ≤ c) (schedule_new_deliveries parse_url config cursor db).0
  unfolding schedule_new_deliveries fetch_new_events
  schedule-le cursor db =
      bind-answer (All (λ e. cursor < e.id)) (fetch_new_events cursor config.schedule_batch_size)
        (λ new_events. schedule_loop parse_url config new_events cursor) db
        (query-answer (All (λ e. cursor < e.id)) (batch cursor config.schedule_batch_size) db
          (batch-above cursor config.schedule_batch_size))
        (λ events d above. loop-le cursor events cursor d above (omega arith))

  after-le :
      (callback : Callback) (l : Loop) (r : Result Error ℕ) (db : Db)
      → Ensures (λ c. l.cursor ≤ c) r
      → l.cursor ≤ (after_schedule parse_url callback config l r db).0.cursor
  unfolding after_schedule
  after-le callback l (err e) db fails = omega arith
  after-le callback l (ok c) db (returns le) =
      rw (sweep_if_due-cursor config (record l { cursor = c; consecutive_errors = 0 }) _) le

  -- A cycle never moves the cursor back, whatever befalls the database and whatever the receivers do.
  pub cycle-le :
      (callback : Callback) (l : Loop) (db : Db)
      → l.cursor ≤ (cycle parse_url callback config l db).0.cursor
  unfolding cycle
  cycle-le callback l db =
      after-le callback l _ (schedule_new_deliveries parse_url config l.cursor db).1
        (schedule-le l.cursor db)
