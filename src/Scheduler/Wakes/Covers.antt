-- ===== src/Scheduler/Wakes/Covers.antt =====
-- Enough wakes of the loop give every event its deliveries, whatever the receivers answer.
use outbox_dispatcher.Base.{ℕ, ◌<◌, Option, List, All}
use outbox_dispatcher.Text.{Text}
use outbox_dispatcher.Schema.{RawEvent, CallbackTarget, EventForDelivery}
use outbox_dispatcher.Config.{DispatchConfig}
use outbox_dispatcher.Callbacks.Url.{Url}
use outbox_dispatcher.Repo.Db.{Db}
use outbox_dispatcher.Dispatch.{Callback}
use outbox_dispatcher.Scheduler.{Loop}
use outbox_dispatcher.Scheduler.Pass.{HasRows}
use outbox_dispatcher.Scheduler.Wakes.{cycles}
use outbox_dispatcher.Scheduler.Wakes.Cycle.{IsBystander}

module _ (parse_url : Text → Option Url) (config : DispatchConfig) (callback : Callback)
    (calls : (target : CallbackTarget) (event : EventForDelivery)
      → IsBystander (λ db. (callback target event db).database)) where
  module _ (idle : Loop → Db → Db) (waits : (l : Loop) → IsBystander (idle l)) where
    module _ (some_batch : 0 < config.schedule_batch_size) where
      -- Every event above the cursor has its rows after this many wakes.
      abbrev Covered : ℕ → Loop → Db → List RawEvent → Type 0
      Covered wakes l db es =
          let final = (cycles parse_url callback idle config wakes l db).1 in
          All (λ e. l.cursor < e.id → HasRows parse_url config final.deliveries e) es
