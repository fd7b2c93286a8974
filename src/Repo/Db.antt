-- ===== src/Repo/Db.antt =====
-- The database that the statements run on, and the statements' common parts. The tables are those
-- of migrations/0001_initial_schema.sql.
use outbox_dispatcher.Base.{
  ℕ, Bool, true, Option, none, some, List, [], ◌∷◌, ltb, ◌==◌, if◌then◌else◌, count, Result, ok,
  err, All, Bool-cases, inl, inr,
}
use outbox_dispatcher.Text.{Text}
use outbox_dispatcher.Schema.{Time, RawEvent, DeliveryRow}
use outbox_dispatcher.Repo.Error.{Error, database}

-- What befalls a round trip: the statement is not run, or it is run and its answer is lost.
pub data Fault : Type 0 where
  healthy : Fault
  refused unanswered : Text → Fault

-- `next_id` is the sequence of `outbox_deliveries.id`; `now` is both `now()` and `Utc::now()`.
-- `faults` are what befalls the next round trips; past its end all are healthy.
pub record Db : Type 0 where
  pub events : List RawEvent
  pub deliveries : List DeliveryRow
  pub next_id : ℕ
  pub now : Time
  pub faults : List Fault

-- A call of the repository.
abbrev pub Action : Type 0 → Type 0
Action A = Db → Result Error A × Db

infixl 5 ◌>>=◌ ◌>>◌
abbrev pub ◌>>=◌ : {A B : Type 0} → Action A → (A → Action B) → Action B
◌>>=◌ m f db = let (r, db') = m db in elim r [ ok a ↦ f a db' | err e ↦ (err e, db') ]

abbrev pub ◌>>◌ : {B : Type 0} → Action (Unit {0}) → Action B → Action B
m >> k = m >>= λ _. k

abbrev pub pure : {A : Type 0} → A → Action A
pure a db = (ok a, db)

abbrev pub next_fault : List Fault → Fault
next_fault [] = healthy
next_fault (f ∷ fs) = f

abbrev pub other_faults : List Fault → List Fault
other_faults [] = []
other_faults (f ∷ fs) = fs

-- A statement computes its rows and the new tables, or violates a constraint and changes nothing.
abbrev pub Statement : Type 0 → Type 0
Statement A = Db → Result Text (A × Db)

abbrev pub answer : {A : Type 0} → Result Text (A × Db) → Db → Result Error A × Db
answer (ok (a, db')) db = (ok a, db')
answer (err e) db = (err (database e), db)

abbrev pub effect : {A : Type 0} → Result Text (A × Db) → Db → Db
effect (ok (a, db')) db = db'
effect (err e) db = db

unfoldable pub befall : {A : Type 0} → Fault → Statement A → Action A
befall healthy statement db = answer (statement db) db
befall (refused e) statement db = (err (database e), db)
befall (unanswered e) statement db = (err (database e), effect (statement db) db)

-- One round trip.
unfoldable pub query : {A : Type 0} → Statement A → Action A
unfolding befall
query statement db =
    befall (next_fault db.faults) statement (record db { faults = other_faults db.faults })

-- `UPDATE outbox_deliveries SET … WHERE …`: the new rows; `count` gives `rows_affected`.
abbrev pub update_where :
    (DeliveryRow → Bool) → (DeliveryRow → DeliveryRow) → List DeliveryRow → List DeliveryRow
update_where p f [] = []
update_where p f (r ∷ rs) = (if p r then f r else r) ∷ update_where p f rs

abbrev pub update : (DeliveryRow → Bool) → (DeliveryRow → DeliveryRow) → Statement ℕ
update p f db =
    ok (count p db.deliveries, record db { deliveries = update_where p f db.deliveries })

-- `ORDER BY`, stable, by a total order.
unfoldable pub insert_by {ℓ} : {A : Type ℓ} → (A → A → Bool) → A → List A → List A
insert_by le x [] = x ∷ []
insert_by le x (y ∷ ys) = let rest = insert_by le x ys in if le x y then x ∷ y ∷ ys else y ∷ rest

unfoldable pub order_by {ℓ} : {A : Type ℓ} → (A → A → Bool) → List A → List A
unfolding insert_by
order_by le [] = []
order_by le (x ∷ xs) = insert_by le x (order_by le xs)

module _ {A : Type 0} (P : A → Type 0) where
  All-insert_by :
      (le : A → A → Bool) (x : A) (xs : List A) → P x → All P xs → All P (insert_by le x xs)
  unfolding insert_by
  All-insert_by le x [] p h = (p, tt)
  All-insert_by le x (y ∷ ys) p h = elim (Bool-cases (le x y)) [
    | inl before ↦ rw before (p, h)
    | inr after ↦ rw after (h.0, All-insert_by le x ys p h.1)
  ]

  pub All-order_by : (le : A → A → Bool) (xs : List A) → All P xs → All P (order_by le xs)
  unfolding order_by
  All-order_by le [] h = tt
  All-order_by le (x ∷ xs) h = All-insert_by le x (order_by le xs) h.0 (All-order_by le xs h.1)

-- The parent event; `event_id` is UNIQUE.
unfoldable pub event_of : List RawEvent → ℕ → Option RawEvent
event_of [] event_id = none
event_of (e ∷ es) event_id = if e.event_id == event_id then some e else event_of es event_id

-- `locked_until IS NULL OR locked_until < now()`.
abbrev pub is_unlocked : Option Time → Time → Bool
is_unlocked none now = true
is_unlocked (some t) now = ltb t now
