-- ===== src/Repo/Scheduling.antt =====
-- Statements of the scheduler: `fetch_new_events`, `ensure_deliveries`, `create_invalid_delivery`,
-- `create_invalid_deliveries`, `recover_cursor`.
pub mod Inserts
use outbox_dispatcher.Base.{
  ℕ, suc, ◌+◌, Bool, true, false, ◌&&◌, Option, none, some, List, [], ◌∷◌, ◌++◌, map, ltb, leb,
  ◌==◌, if◌then◌else◌, any, is_empty, take, select, Result, ok, err, is_some,
}
use outbox_dispatcher.Text.{Text, chars, text_eq}
use outbox_dispatcher.Schema.{CompletionMode, managed, CallbackTarget, RawEvent, DeliveryRow, Time}
use outbox_dispatcher.Repo.Db.{Db, Action, Statement, pure, query, order_by, event_of}
use outbox_dispatcher.Repo.Truncate.{truncate_at_char_boundary}

abbrev pub by_id : RawEvent → RawEvent → Bool
by_id a b = leb a.id b.id

unfoldable pub fetch_new_events : ℕ → ℕ → Action (List RawEvent)
fetch_new_events after_id limit =
    query λ db. ok (take limit (order_by by_id (select (λ e. ltb after_id e.id) db.events)), db)

-- UNIQUE (event_id, callback_name).
abbrev pub same_key : ℕ → Text → DeliveryRow → Bool
same_key event_id name r = r.event_id == event_id && text_eq r.callback_name name

-- The columns that an INSERT names; the others have their defaults.
pub record NewDelivery : Type 0 where
  pub callback_name : Text
  pub completion_mode : CompletionMode
  pub dead_letter : Bool
  pub last_error : Option Text

unfoldable pub new_row : ℕ → Time → ℕ → NewDelivery → DeliveryRow
new_row id now event_id new = record {
  id = id;
  event_id = event_id;
  callback_name = new.callback_name;
  completion_mode = new.completion_mode;
  attempts = 0;
  last_error = new.last_error;
  last_attempt_at = none;
  available_at = now;
  locked_until = none;
  dispatched_at = none;
  processed_at = none;
  completion_cycles = 0;
  dead_letter = new.dead_letter;
  created_at = now;
}

-- `ON CONFLICT (event_id, callback_name) DO NOTHING`; the sequence moves on all the same.
unfoldable pub insert_one : Db → ℕ → NewDelivery → Db
insert_one db event_id new =
    if any (same_key event_id new.callback_name) db.deliveries
    then record db { next_id = suc db.next_id }
    else record db {
      next_id = suc db.next_id;
      deliveries = db.deliveries ++ new_row db.next_id db.now event_id new ∷ [];
    }

unfoldable pub insert_all : Db → ℕ → List NewDelivery → Db
insert_all db event_id [] = db
insert_all db event_id (n ∷ ns) = insert_all (insert_one db event_id n) event_id ns

-- The foreign key is violated if the event is gone.
unfoldable pub insert_statement : ℕ → List NewDelivery → Statement (Unit {0})
insert_statement event_id news db =
    if is_some (event_of db.events event_id)
    then ok (tt, insert_all db event_id news)
    else err (chars "foreign key violation")

abbrev pub target_row : CallbackTarget → NewDelivery
target_row cb = record {
  callback_name = cb.name;
  completion_mode = cb.mode;
  dead_letter = false;
  last_error = none;
}

unfoldable pub ensure_deliveries : ℕ → List CallbackTarget → Action (Unit {0})
ensure_deliveries event_id callbacks =
    if is_empty callbacks
    then pure tt
    else query (insert_statement event_id (map target_row callbacks))

abbrev pub invalid_row : Text × Text → NewDelivery
invalid_row (name, reason) = record {
  callback_name = name;
  completion_mode = managed;
  dead_letter = true;
  last_error = some (truncate_at_char_boundary reason 4096);
}

unfoldable create_invalid_delivery : ℕ → Text → Text → Action (Unit {0})
create_invalid_delivery event_id callback_name reason =
    query (insert_statement event_id (invalid_row (callback_name, reason) ∷ []))

unfoldable pub create_invalid_deliveries : ℕ → List (Text × Text) → Action (Unit {0})
create_invalid_deliveries event_id entries =
    if is_empty entries
    then pure tt
    else query (insert_statement event_id (map invalid_row entries))

-- `ORDER BY d.id DESC LIMIT 1`.
unfoldable pub newest : List DeliveryRow → Option DeliveryRow
newest [] = none
newest (r ∷ rs) = elim (newest rs) [
  | none ↦ some r
  | some s ↦ if ltb s.id r.id then some r else some s
]

-- The event of the newest delivery; COALESCE gives 0 where there is none.
abbrev pub cursor_of : List RawEvent → Option DeliveryRow → ℕ
cursor_of events none = 0
cursor_of events (some d) = elim (event_of events d.event_id) [ none ↦ 0 | some e ↦ e.id ]

unfoldable pub recover_cursor : Action ℕ
recover_cursor = query λ db. ok (cursor_of db.events (newest db.deliveries), db)
