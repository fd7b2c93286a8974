-- ===== src/Dispatch/Replicas/Exclusive.antt =====
-- Mutual exclusion of the replicas.
use outbox_dispatcher.Base.{
  ℕ, ◌≤◌, ◌≡◌, refl, sym, ◌≢◌, true, Option, none, some, List, [], ◌∷◌, ◌++◌, All, All-zip, All-imp,
  arith, inl, inr, ok, is_empty, ◌==◌, Bool-cases,
}
use outbox_dispatcher.Schema.{DeliveryRow, CallbackTarget}
use outbox_dispatcher.Text.{Text}
use outbox_dispatcher.Repo.Db.{Db, query, update}
use outbox_dispatcher.Repo.Query.{query-Keeps, bind_pure-db}
use outbox_dispatcher.Repo.Rows.{find_row, IdsRise}
use outbox_dispatcher.Repo.Locking.{is_lockable, lock_delivery-granted}
use outbox_dispatcher.Repo.Scheduling.{ensure_deliveries, create_invalid_deliveries}
use outbox_dispatcher.Repo.Dispatching.{lock_guard, lock_row, lock_delivery, bury}
use outbox_dispatcher.Dispatch.Replicas.{
  Flight, System, Grounded, Step, lock, refused_lock, finish, crash, tick, schedule, reject, poison,
  sweep, retain, retry, complete, abandon, Reach, here, later, IsOrderly, RunsOrderly,
}
use outbox_dispatcher.Dispatch.Replicas.Held.{Bears, Held, find_row-lt}
use outbox_dispatcher.Dispatch.Replicas.Invariant.{Flies, Distinct, Inv, insert-Inv}
use outbox_dispatcher.Dispatch.Replicas.Statements.{
  lock-Inv, update_id-Inv, write_result-Inv, retry-Inv, complete-Inv, abandon-Inv, sweep-Inv,
  retain-Inv,
}

All-remove {ℓ} :
    {A : Type ℓ} (P : A → Type 0) (before : List A) (x : A) (after : List A)
    → All P (before ++ x ∷ after)
    → All P (before ++ after)
All-remove P [] x after h = h.1
All-remove P (y ∷ ys) x after h = (h.0, All-remove P ys x after h.1)

All-middle {ℓ} :
    {A : Type ℓ} (P : A → Type 0) (before : List A) (x : A) (after : List A)
    → All P (before ++ x ∷ after)
    → P x
All-middle P [] x after h = h.0
All-middle P (y ∷ ys) x after h = All-middle P ys x after h.1

Distinct-remove :
    (before : List Flight) (f : Flight) (after : List Flight)
    → Distinct (before ++ f ∷ after)
    → Distinct (before ++ after) × Grounded f.id (before ++ after)
Distinct-remove [] f after d = (d.1, d.0)
Distinct-remove (g ∷ gs) f after d =
    let (rest, grounded) = Distinct-remove gs f after d.1 in
    let ne : f.id ≢ g.id = All-middle (λ h. h.id ≢ g.id) gs f after d.0 in
    ((All-remove (λ h. h.id ≢ g.id) gs f after d.0, rest), ((λ e. ne (sym e)), grounded))

-- A flight ends and leaves the others.
remove-Inv :
    (before : List Flight) (f : Flight) (after : List Flight) (db : Db)
    → Inv (before ++ f ∷ after) db
    → Inv (before ++ after) db × Grounded f.id (before ++ after)
remove-Inv before f after db inv =
    let (distinct, grounded) = Distinct-remove before f after inv.2 in
    ((inv.0, All-remove (Flies db) before f after inv.1, distinct), grounded)

-- A row that can be locked is in no flight.
lockable-Grounded :
    (fs : List Flight) (id : ℕ) (r : DeliveryRow) (db : Db)
    → find_row id db.deliveries ≡ some r
    → is_lockable db.now r ≡ true
    → All (Flies db) fs
    → Grounded id fs
unfolding lock_row
lockable-Grounded fs id r db e free flies =
    All-imp (Flies db) (λ f. f.id ≢ id) fs (λ f h same. bears f.until (rw e at (rw same at h.1)))
      flies
  where
    bears : (until : ℕ) → Bears (some r) db.now until → ⊥
    bears until b = ground arith

lock-clock : (id until : ℕ) (db : Db) → (lock_delivery id until db).1.now ≡ db.now
unfolding lock_delivery
lock-clock id until db =
    rw
      (bind_pure-db (query (λ d. update (lock_guard id d.now) (lock_row d.now until) d))
        (λ n. n == 1) db)
      (query-Keeps (λ d. d.now ≡ db.now)
        (λ d. update (lock_guard id d.now) (lock_row d.now until) d) db refl (λ d h. h))

lock_new-Inv :
    (id until : ℕ) (fs : List Flight) (db : Db)
    → db.now ≤ until
    → (lock_delivery id until db).0 ≡ ok true
    → Inv fs db
    → Inv (record { id = id; until = until } ∷ fs) (lock_delivery id until db).1
unfolding lock_row
lock_new-Inv id until fs db le granted inv =
    let (r, e, free, e') = lock_delivery-granted 0 db.next_id id until db inv.0 granted in
    let old = lock-Inv id until fs db inv in
    let bears : Bears (some (lock_row db.now until r)) db.now until = ground arith in
    let held : Held (lock_delivery id until db).1.deliveries db.now id until = rw e' bears in
    (
      old.0,
      (
        (
          find_row-lt 0 (lock_delivery id until db).1.next_id id
              (lock_delivery id until db).1.deliveries old.0 e',
          rw (lock-clock id until db) held,
        ),
        old.1,
      ),
      (lockable-Grounded fs id r db e free inv.1, inv.2),
    )

ensure-Inv :
    (event_id : ℕ) (callbacks : List CallbackTarget) (fs : List Flight) (db : Db)
    → Inv fs db
    → Inv fs (ensure_deliveries event_id callbacks db).1
unfolding ensure_deliveries
ensure-Inv event_id callbacks fs db inv = elim (Bool-cases (is_empty callbacks)) [
  | inl e ↦ rw e inv
  | inr e ↦ rw e (insert-Inv fs event_id _ db inv)
]

invalid-Inv :
    (event_id : ℕ) (entries : List (Text × Text)) (fs : List Flight) (db : Db)
    → Inv fs db
    → Inv fs (create_invalid_deliveries event_id entries db).1
unfolding create_invalid_deliveries
invalid-Inv event_id entries fs db inv = elim (Bool-cases (is_empty entries)) [
  | inl e ↦ rw e inv
  | inr e ↦ rw e (insert-Inv fs event_id _ db inv)
]

Bears-tick :
    (o : Option DeliveryRow) (now t until : ℕ) → t ≤ until → Bears o now until → Bears o t until
Bears-tick none now t until fit b = tt
Bears-tick (some r) now t until fit b = (b.0, b.1, fit)

-- Every orderly step keeps the invariant.
Step-Inv : {s t : System} (st : Step s t) → IsOrderly st → Inv s.flights s.db → Inv t.flights t.db
unfolding bury
Step-Inv {s} (lock id until le granted) orderly inv =
    lock_new-Inv id until s.flights s.db le granted inv
Step-Inv {s} (refused_lock id until no_lock) orderly inv = lock-Inv id until s.flights s.db inv
Step-Inv {s} (finish due until outcome random before after e) orderly inv =
    let (rest, grounded) = remove-Inv before _ after s.db (rw e at inv) in
    write_result-Inv due outcome random (before ++ after) s.db grounded rest
Step-Inv {s} (crash f before after e) orderly inv = (remove-Inv before f after s.db (rw e at inv)).0
Step-Inv {s} (tick t le) fits inv = (
  inv.0,
  All-zip (λ f. t ≤ f.until) (Flies s.db) _ s.flights (λ f fit h. (h.0, moved f fit h.1)) fits
      inv.1,
  inv.2,
)
  where
    moved :
        (f : Flight)
        → t ≤ f.until
        → Held s.db.deliveries s.db.now f.id f.until
        → Held s.db.deliveries t f.id f.until
    moved f fit h = Bears-tick (find_row f.id s.db.deliveries) s.db.now t f.until fit h
Step-Inv {s} (schedule event_id callbacks) orderly inv =
    ensure-Inv event_id callbacks s.flights s.db inv
Step-Inv {s} (reject event_id entries) orderly inv = invalid-Inv event_id entries s.flights s.db inv
Step-Inv {s} (poison id reason) grounded inv =
    update_id-Inv id (λ d. bury reason) s.flights s.db (λ d r. refl) grounded inv
Step-Inv {s} (sweep cycles) orderly inv = sweep-Inv s.db.now cycles s.flights s.db inv
Step-Inv {s} (retain a b limit) orderly inv = retain-Inv a b limit s.flights s.db inv
Step-Inv {s} (retry id) orderly inv = retry-Inv id s.flights s.db inv
Step-Inv {s} (complete id) orderly inv = complete-Inv id s.flights s.db inv
Step-Inv {s} (abandon id) orderly inv = abandon-Inv id s.flights s.db inv

Reach-Inv : {s t : System} (r : Reach s t) → RunsOrderly r → Inv s.flights s.db → Inv t.flights t.db
Reach-Inv here orderly inv = inv
Reach-Inv (later r st) orderly inv = Step-Inv st orderly.1 (Reach-Inv r orderly.0 inv)

-- No two of the flights are calls for one delivery.
abbrev pub IsExclusive : System → Type 0
IsExclusive s = Distinct s.flights

-- From a database whose ids rise and no call in flight, in a run whose calls end before their locks
-- do and whose poison pills are rows that nobody calls: whatever the replicas, the administrators,
-- the sweeper, the retention worker and the database's faults do, in whatever order, no delivery is
-- ever under two calls at once.
pub Reach-IsExclusive :
    {s t : System} (r : Reach s t)
    → RunsOrderly r
    → IdsRise 0 s.db.deliveries s.db.next_id
    → s.flights ≡ []
    → IsExclusive t
Reach-IsExclusive r orderly rise idle = (Reach-Inv r orderly (ground arith)).2
