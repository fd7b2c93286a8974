-- ===== src/Dispatch/Replicas/Statements.antt =====
-- The statements of the dispatcher, the sweeper, the admin API and the retention worker keep the
-- invariant of the flights.
use outbox_dispatcher.Base.{
  ℕ, suc, ◌≡◌, refl, ◌≢◌, not, Option, none, List, [], ◌∷◌, All-imp, arith, inl, inr, ok, Returns,
  Result-cases, if◌then◌else◌, ◌==◌, any, Bool-cases,
}
use outbox_dispatcher.Text.{Text}
use outbox_dispatcher.Schema.{
  DeliveryRow, RawEvent, DueDelivery, managed, external, locked, not_found, CompletionMode,
  transient,
}
use outbox_dispatcher.Repo.Db.{Db, query, update, pure, ◌>>=◌}
use outbox_dispatcher.Repo.Query.{query-Keeps, bind_pure-db, bind-Keeps}
use outbox_dispatcher.Repo.Rows.{find_row, IdsRise, KeepsId}
use outbox_dispatcher.Repo.Dispatching.{
  has_id, lock_guard, lock_row, lock_delivery, finish_managed, finish_external, fail_row,
  mark_dispatched_managed, mark_dispatched_external, mark_failure,
}
use outbox_dispatcher.Repo.Sweep.{
  hung, sweep_one, sweep_row, sweep_rows, sweep_statement, reset_hung_external, awaits_completion,
}
use outbox_dispatcher.Repo.Admin.{
  retry_guard, retry_row, retry_answer, retry_delivery, complete_row, complete_delivery,
  abandon_row, abandon_delivery,
}
use outbox_dispatcher.Repo.Retention.{
  candidates, is_orphan, delete_statement, delete_terminal_events,
}
use outbox_dispatcher.Dispatch.{
  Outcome, delivered, failed, timed_out, write_result, record_success, record_failure,
}
use outbox_dispatcher.Dispatch.Replicas.{Flight, Grounded}
use outbox_dispatcher.Dispatch.Replicas.Held.{Held, Held-select, IdsRise-select}
use outbox_dispatcher.Dispatch.Replicas.Invariant.{Flies, Inv, update-Inv}

-- A locked row is not lockable, and its lock is not overwritten.
pub lock-Inv :
    (id until : ℕ) (fs : List Flight) (db : Db) → Inv fs db → Inv fs (lock_delivery id until db).1
unfolding lock_delivery lock_guard lock_row
lock-Inv id until fs db inv =
    rw
      (bind_pure-db (query (λ d. update (lock_guard id d.now) (lock_row d.now until) d))
        (λ n. n == 1) db)
      (update-Inv (λ d. lock_guard id d.now) (λ d. lock_row d.now until) fs db (λ d r. refl)
        (All-imp (Flies db) _ fs (λ f h d r e b. ground arith) inv.1) inv)

-- An UPDATE by id spares every flight of another delivery.
pub update_id-Inv :
    (id : ℕ) (F : Db → DeliveryRow → DeliveryRow) (fs : List Flight) (db : Db)
    → ((d : Db) → KeepsId (F d))
    → Grounded id fs
    → Inv fs db
    → Inv fs (query (λ d. update (has_id id) (F d) d) db).1
update_id-Inv id F fs db keeps grounded inv =
    update-Inv (λ d. has_id id) F fs db keeps
      (All-imp (λ f. f.id ≢ id) _ fs (λ f ne d r e b. ground arith) grounded) inv

-- The same where the answer is shaped afterwards.
done-Inv :
    (id : ℕ) (F : Db → DeliveryRow → DeliveryRow) (fs : List Flight) (db : Db)
    → ((d : Db) → KeepsId (F d))
    → Grounded id fs
    → Inv fs db
    → Inv fs ((query (λ d. update (has_id id) (F d) d) >>= λ _. pure {A = Unit {0}} tt) db).1
done-Inv id F fs db keeps grounded inv =
    rw (bind_pure-db (query (λ d. update (has_id id) (F d) d)) (λ _. tt) db)
      (update_id-Inv id F fs db keeps grounded inv)

success-Inv :
    (mode : CompletionMode) (id : ℕ) (fs : List Flight) (db : Db)
    → Grounded id fs
    → Inv fs db
    → Inv fs (record_success mode id db)
unfolding record_success mark_dispatched_managed mark_dispatched_external finish_managed
    finish_external
success-Inv managed id fs db grounded inv =
    done-Inv id (λ d. finish_managed d.now) fs db (λ d r. refl) grounded inv
success-Inv external id fs db grounded inv =
    done-Inv id (λ d. finish_external d.now) fs db (λ d r. refl) grounded inv

failure-Inv :
    (due : DueDelivery) (reason : Text) (retry_after : Option ℕ) (random : ℕ) (fs : List Flight)
    (db : Db)
    → Grounded due.delivery_id fs
    → Inv fs db
    → Inv fs (record_failure due reason retry_after random db)
unfolding record_failure mark_failure fail_row
failure-Inv due reason retry_after random fs db grounded inv =
    done-Inv due.delivery_id (λ d. fail_row _ _ _) fs db (λ d r. refl) grounded inv

pub write_result-Inv :
    (due : DueDelivery) (outcome : Outcome) (random : ℕ) (fs : List Flight) (db : Db)
    → Grounded due.delivery_id fs
    → Inv fs db
    → Inv fs (write_result due outcome random db)
unfolding write_result
write_result-Inv due delivered random fs db grounded inv =
    success-Inv due.target.mode due.delivery_id fs db grounded inv
write_result-Inv due (failed (transient reason retry_after)) random fs db grounded inv =
    failure-Inv due reason retry_after random fs db grounded inv
write_result-Inv due timed_out random fs db grounded inv =
    failure-Inv due _ none random fs db grounded inv

retry_answer-Inv :
    (id affected : ℕ) (fs : List Flight) (db : Db)
    → Inv fs db
    → Inv fs (retry_answer id affected db).1
unfolding retry_answer
retry_answer-Inv id affected fs db inv = elim (Bool-cases (affected == 1)) [
  | inl one ↦ rw one inv
  | inr more ↦ rw more (
      rw
        (bind_pure-db (query (λ c. ok (any (has_id id) c.deliveries, c)))
          (λ exists. if exists then locked else not_found) db)
        (query-Keeps (Inv fs) (λ c. ok (any (has_id id) c.deliveries, c)) db inv (λ c v. v)))
]

pub retry-Inv : (id : ℕ) (fs : List Flight) (db : Db) → Inv fs db → Inv fs (retry_delivery id db).1
unfolding retry_delivery retry_guard retry_row
retry-Inv id fs db inv =
    bind-Keeps (Inv fs) (query (λ d. update (retry_guard id d.now) (retry_row d.now) d))
      (retry_answer id) db
      (update-Inv (λ d. retry_guard id d.now) (λ d. retry_row d.now) fs db (λ d r. refl)
        (All-imp (Flies db) _ fs (λ f h d r e b. ground arith) inv.1) inv)
      (λ n d v. retry_answer-Inv id n fs d v)

pub complete-Inv :
    (id : ℕ) (fs : List Flight) (db : Db) → Inv fs db → Inv fs (complete_delivery id db).1
unfolding complete_delivery complete_row
complete-Inv id fs db inv =
    rw (bind_pure-db (query (λ d. update (has_id id) (complete_row d.now) d)) (λ n. n == 1) db) (
      update-Inv (λ d. has_id id) (λ d. complete_row d.now) fs db (λ d r. ground arith)
        (All-imp (Flies db) _ fs (λ f h d r e b. ground arith) inv.1) inv)

pub abandon-Inv :
    (id : ℕ) (fs : List Flight) (db : Db) → Inv fs db → Inv fs (abandon_delivery id db).1
unfolding abandon_delivery abandon_row
abandon-Inv id fs db inv =
    rw (bind_pure-db (query (update (has_id id) abandon_row)) (λ n. n == 1) db) (
      update-Inv (λ d. has_id id) (λ d. abandon_row) fs db (λ d r. refl)
        (All-imp (Flies db) _ fs (λ f h d r e b. ground arith) inv.1) inv)

-- A locked row has not been dispatched, so the sweep does not select it.
hung-none :
    (events : List RawEvent) (t default : ℕ) (r : DeliveryRow)
    → r.dispatched_at ≡ none
    → hung events t default r ≡ ok none
unfolding hung awaits_completion
hung-none events t default r e = ground arith

sweep_rows-Held :
    (events : List RawEvent) (t default now id until : ℕ) (rows : List DeliveryRow)
    → Held rows now id until
    → Returns (λ out. Held out.0 now id until) (sweep_rows events t default rows)
unfolding sweep_rows find_row sweep_one sweep_row
sweep_rows-Held events t default now id until [] held = tt
sweep_rows-Held events t default now id until (r ∷ rs) held =
    elim (Result-cases (hung events t default r)) [
      | inl (m, e) ↦ elim (Result-cases (sweep_rows events t default rs)) [
        | inl (out, e') ↦
            rw (e, e')
              (ground (
                arith,
                e,
                e',
                hung-none events t default r,
                sweep_rows-Held events t default now id until rs,
              ))
        | inr (t, e') ↦ rw (e, e') tt
      ]
      | inr (t, e) ↦ rw e tt
    ]

sweep_rows-IdsRise :
    (events : List RawEvent) (t default lo hi : ℕ) (rows : List DeliveryRow)
    → IdsRise lo rows hi
    → Returns (λ out. IdsRise lo out.0 hi) (sweep_rows events t default rows)
unfolding sweep_rows sweep_one sweep_row
sweep_rows-IdsRise events t default lo hi [] rise = rise
sweep_rows-IdsRise events t default lo hi (r ∷ rs) rise =
    elim (Result-cases (hung events t default r)) [
      | inl (m, e) ↦ elim (Result-cases (sweep_rows events t default rs)) [
        | inl (out, e') ↦
            rw (e, e')
              (ground (arith, e', sweep_rows-IdsRise events t default (suc r.id) hi rs rise.1))
        | inr (t, e') ↦ rw (e, e') tt
      ]
      | inr (t, e) ↦ rw e tt
    ]

pub retain-Inv :
    (a b limit : ℕ) (fs : List Flight) (db : Db)
    → Inv fs db
    → Inv fs (delete_terminal_events a b limit db).1
unfolding delete_terminal_events delete_statement
retain-Inv a b limit fs db inv = query-Keeps (Inv fs) (delete_statement a b limit) db inv λ d v.
    let chosen = candidates d.deliveries d.events a b limit in
    (
      IdsRise-select (λ r. not (is_orphan chosen r)) 0 d.deliveries d.next_id v.0,
      All-imp (Flies d) _ fs
          (λ f h. (
            h.0,
            Held-select (λ r. not (is_orphan chosen r)) 0 d.next_id d.deliveries d.now f.id f.until
                v.0 h.1,
          ))
          v.1,
      v.2,
    )

pub sweep-Inv :
    (t cycles : ℕ) (fs : List Flight) (db : Db)
    → Inv fs db
    → Inv fs (reset_hung_external t cycles db).1
unfolding reset_hung_external sweep_statement
sweep-Inv t cycles fs db inv = query-Keeps (Inv fs) (sweep_statement t cycles) db inv λ d v.
    elim (Result-cases (sweep_rows d.events t cycles d.deliveries)) [
      | inl (out, e) ↦ rw e (
        rw e at (sweep_rows-IdsRise d.events t cycles 0 d.next_id d.deliveries v.0),
        All-imp (Flies d) _ fs
            (λ f h. (
              h.0,
              rw e at (sweep_rows-Held d.events t cycles d.now f.id f.until d.deliveries h.1),
            ))
            v.1,
        v.2,
      )
      | inr (x, e) ↦ rw e v
    ]
