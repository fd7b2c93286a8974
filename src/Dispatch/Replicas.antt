-- ===== src/Dispatch/Replicas.antt =====
-- Several replicas on one database: each step is one statement of a replica, of the admin API or of
-- the sweeper, and between the steps anything may be interleaved. A flight is a call of a receiver
-- for which the lock was granted.
pub mod Held
pub mod Invariant
pub mod Statements
pub mod Exclusive
use outbox_dispatcher.Base.{ℕ, ◌≤◌, ◌≡◌, ◌≢◌, Bool, true, List, [], ◌∷◌, ok, All, ◌++◌}
use outbox_dispatcher.Text.{Text}
use outbox_dispatcher.Schema.{Time, DueDelivery}
use outbox_dispatcher.Repo.Db.{Db, query, update}
use outbox_dispatcher.Repo.Scheduling.{ensure_deliveries, create_invalid_deliveries}
use outbox_dispatcher.Repo.Dispatching.{lock_delivery, has_id, bury}
use outbox_dispatcher.Repo.Sweep.{reset_hung_external}
use outbox_dispatcher.Repo.Retention.{delete_terminal_events}
use outbox_dispatcher.Repo.Admin.{retry_delivery, complete_delivery, abandon_delivery}
use outbox_dispatcher.Dispatch.{Outcome, write_result}
use outbox_dispatcher.Schema.{CallbackTarget}

-- The delivery that is called, and its lock's end.
pub record Flight : Type 0 where
  pub id : ℕ
  pub until : Time

pub record System : Type 0 where
  pub db : Db
  pub flights : List Flight

-- No flight carries the id.
abbrev pub Grounded : ℕ → List Flight → Type 0
Grounded id = All λ f. f.id ≢ id

abbrev pub at_db : System → Db → System
at_db s db = record s { db = db }

pub data Step (s : System) : System → Type 0 where
  lock :
      (id : ℕ) (until : Time)
      → s.db.now ≤ until
      → (lock_delivery id until s.db).0 ≡ ok true
      → Step s (record {
        db = (lock_delivery id until s.db).1;
        flights = record { id = id; until = until } ∷ s.flights;
      })
  refused_lock :
      (id : ℕ) (until : Time)
      → (lock_delivery id until s.db).0 ≢ ok true
      → Step s (at_db s (lock_delivery id until s.db).1)
  finish :
      (due : DueDelivery) (until : Time) (outcome : Outcome) (random : ℕ)
      (before after : List Flight)
      → s.flights ≡ before ++ record { id = due.delivery_id; until = until } ∷ after
      → Step s (record { db = write_result due outcome random s.db; flights = before ++ after })
  crash :
      (f : Flight) (before after : List Flight)
      → s.flights ≡ before ++ f ∷ after
      → Step s (record s { flights = before ++ after })
  tick : (t : Time) → s.db.now ≤ t → Step s (at_db s (record (s.db) { now = t }))
  schedule :
      (event_id : ℕ) (callbacks : List CallbackTarget)
      → Step s (at_db s (ensure_deliveries event_id callbacks s.db).1)
  reject :
      (event_id : ℕ) (entries : List (Text × Text))
      → Step s (at_db s (create_invalid_deliveries event_id entries s.db).1)
  poison :
      (id : ℕ) (reason : Text) → Step s (at_db s (query (update (has_id id) (bury reason)) s.db).1)
  sweep : (cycles : ℕ) → Step s (at_db s (reset_hung_external s.db.now cycles s.db).1)
  retain :
      (dead_letter_cutoff processed_cutoff : Time) (batch_limit : ℕ)
      → Step s
          (at_db s (delete_terminal_events dead_letter_cutoff processed_cutoff batch_limit s.db).1)
  retry : (id : ℕ) → Step s (at_db s (retry_delivery id s.db).1)
  complete : (id : ℕ) → Step s (at_db s (complete_delivery id s.db).1)
  abandon : (id : ℕ) → Step s (at_db s (abandon_delivery id s.db).1)

pub data Reach (s : System) : System → Type 0 where
  here : Reach s s
  later : {t u : System} → Reach s t → Step t u → Reach s u

-- A call is over before its lock ends: it is bounded by its timeout, and the lock lasts
-- `lock_buffer` longer for the write-back. The poison-pill UPDATE is for a row that no replica calls:
-- a replica calls only rows whose callback it has validated.
abbrev pub IsOrderly : {s t : System} → Step s t → Type 0
IsOrderly (lock id until le granted) = Unit
IsOrderly {s} (tick t le) = All (λ f. t ≤ f.until) s.flights
IsOrderly {s} (poison id reason) = Grounded id s.flights
IsOrderly (refused_lock id until e) = Unit
IsOrderly (finish due until outcome random before after e) = Unit
IsOrderly (crash f before after e) = Unit
IsOrderly (schedule event_id callbacks) = Unit
IsOrderly (reject event_id entries) = Unit
IsOrderly (sweep cycles) = Unit
IsOrderly (retain a b limit) = Unit
IsOrderly (retry id) = Unit
IsOrderly (complete id) = Unit
IsOrderly (abandon id) = Unit

abbrev pub RunsOrderly : {s t : System} → Reach s t → Type 0
RunsOrderly here = Unit
RunsOrderly (later r st) = RunsOrderly r × IsOrderly st
