-- ===== src/Repo/Admin/Retry.antt =====
-- `retry_delivery` and `complete_delivery`, on every branch.
use outbox_dispatcher.Base.{
  ℕ, ◌≡◌, refl, ap, ◌∙◌, ◌≢◌, Bool, true, Option, none, some, List, [], ◌∷◌, any, ◌==◌,
  if◌then◌else◌, is_some, count, arith, ok, Bool-cases, Option-cases, inl, inr,
}
use outbox_dispatcher.Schema.{Time, DeliveryRow, RetryOutcome, reset, not_found, locked}
use outbox_dispatcher.Repo.Db.{Db, pure, update, is_unlocked}
use outbox_dispatcher.Repo.Query.{IsHealthy, bind_healthy}
use outbox_dispatcher.Repo.Rows.{
  find_row, IdsRise, KeepsId, affected, map_row, count-affected, find_row-update_guarded,
  find_row-update_other, find_row-update_id,
}
use outbox_dispatcher.Repo.Locking.{updated}
use outbox_dispatcher.Repo.Dispatching.{has_id, is_due}
use outbox_dispatcher.Repo.Admin.{
  retry_guard, retry_row, retry_answer, retry_delivery, complete_row, complete_delivery,
}

any-find_row : (id : ℕ) (rs : List DeliveryRow) → any (has_id id) rs ≡ is_some (find_row id rs)
unfolding find_row
any-find_row id [] = refl
any-find_row id (r ∷ rs) = ground (arith, any-find_row id rs)

abbrev is_free : Time → DeliveryRow → Bool
is_free now r = is_unlocked r.locked_until now

-- What the operator is told of a row.
abbrev pub retry_outcome : Time → Option DeliveryRow → RetryOutcome
retry_outcome now none = not_found
retry_outcome now (some r) = if is_unlocked r.locked_until now then reset else locked

answer_healthy :
    (id n : ℕ) (db : Db)
    → IsHealthy db
    → retry_answer id n db ≡ (
      ok (if n == 1 then reset else if any (has_id id) db.deliveries then locked else not_found),
      db,
    )
unfolding retry_answer
answer_healthy id n db h = elim (Bool-cases (n == 1)) [
  | inl one ↦ rw one refl
  | inr other ↦ rw other (
      bind_healthy (λ d. ok (any (has_id id) d.deliveries, d))
        (λ exists. pure (if exists then locked else not_found)) db h)
]

retry_healthy :
    (id : ℕ) (db : Db)
    → IsHealthy db
    → retry_delivery id db
      ≡ retry_answer id
          (count (retry_guard id db.now) db.deliveries)
          (updated db (retry_guard id db.now) (retry_row db.now))
unfolding retry_delivery
retry_healthy id db h =
    bind_healthy (λ d. update (retry_guard id d.now) (retry_row d.now) d) (retry_answer id) db h

retry_row-KeepsId : (now : Time) → KeepsId (retry_row now)
unfolding retry_row
retry_row-KeepsId now r = refl

outcome_cases :
    (now : Time) (f : DeliveryRow → DeliveryRow) (o : Option DeliveryRow)
    → (if affected (is_free now) o == 1
        then reset
        else if is_some (map_row f o)
        then locked
        else not_found)
      ≡ retry_outcome now o
outcome_cases now f none = refl
outcome_cases now f (some r) = ground arith

-- The answer tells a missing row from a locked one, only a row without a live lock is reset, and
-- every other row is as it was.
pub retry_delivery_lem :
    (lo hi id : ℕ) (db : Db)
    → IsHealthy db
    → IdsRise lo db.deliveries hi
    → let (answer, db') = retry_delivery id db in
      (answer ≡ ok (retry_outcome db.now (find_row id db.deliveries)))
      × (find_row id db'.deliveries
          ≡ map_row
              (λ r. if is_unlocked r.locked_until db.now then retry_row db.now r else r)
              (find_row id db.deliveries))
      × ((j : ℕ) → j ≢ id → find_row j db'.deliveries ≡ find_row j db.deliveries)
unfolding retry_guard
retry_delivery_lem lo hi id db h rise =
    let after = updated db (retry_guard id db.now) (retry_row db.now) in
    let now_found =
      find_row-update_guarded id (is_free db.now) (retry_row db.now) db.deliveries
        (retry_row-KeepsId db.now) in
    rw (retry_healthy id db h) (
      rw (answer_healthy id (count (retry_guard id db.now) db.deliveries) after h) (
        ap ok (
            rw
              (
                count-affected lo hi id (is_free db.now) db.deliveries rise,
                any-find_row id after.deliveries,
                now_found,
              )
              (outcome_cases db.now _ (find_row id db.deliveries))),
        now_found,
        λ j ne.
            find_row-update_other id j (retry_guard id db.now) (retry_row db.now) db.deliveries
              (retry_row-KeepsId db.now) (λ r e. ground arith) ne,
      ))

-- A row that is reset is due at once, with all its attempts and cycles before it.
retry_row-is_due :
    (now : Time) (r : DeliveryRow)
    → let r' = retry_row now r in
      (is_due now r' ≡ true) × (r'.attempts ≡ 0) × (r'.completion_cycles ≡ 0)
unfolding retry_row is_due
retry_row-is_due now r = (ground arith, refl, refl)

-- A delivery that no live lock holds is reset by `retry_delivery`, and is due at once, whatever it
-- was before, with all its attempts and cycles before it.
pub retry_delivery-is_due :
    (lo hi id : ℕ) (db : Db) (r : DeliveryRow)
    → IsHealthy db
    → IdsRise lo db.deliveries hi
    → find_row id db.deliveries ≡ some r
    → is_unlocked r.locked_until db.now ≡ true
    → let (answer, db') = retry_delivery id db in
      (answer ≡ ok reset)
      × (r' : DeliveryRow) × (find_row id db'.deliveries ≡ some r')
      × (is_due db.now r' ≡ true)
      × (r'.attempts ≡ 0)
      × (r'.completion_cycles ≡ 0)
retry_delivery-is_due lo hi id db r h rise e free =
    let (told, left, others) = retry_delivery_lem lo hi id db h rise in
    let due = retry_row-is_due db.now r in
    (
      told ∙ ap ok (rw (e, free) refl),
      retry_row db.now r,
      left ∙ rw (e, free) refl,
      due.0,
      due.1,
      due.2,
    )

complete_healthy :
    (id : ℕ) (db : Db)
    → IsHealthy db
    → complete_delivery id db
      ≡ (ok (count (has_id id) db.deliveries == 1), updated db (has_id id) (complete_row db.now))
unfolding complete_delivery
complete_healthy id db h =
    bind_healthy (λ d. update (has_id id) (complete_row d.now) d) (λ n. pure (n == 1)) db h

complete_row-KeepsId : (now : Time) → KeepsId (complete_row now)
unfolding complete_row
complete_row-KeepsId now r = elim (Option-cases r.processed_at) [
  | inl e ↦ rw (complete_row, e) refl
  | inr (t, e) ↦ rw (complete_row, e) refl
]

completed : Time → DeliveryRow → Option Time → DeliveryRow
completed now r none = record r { processed_at = some now }
completed now r (some t) = r

complete_row_lem :
    (now : Time) (r : DeliveryRow) (o : Option Time)
    → r.processed_at ≡ o
    → complete_row now r ≡ completed now r o
unfolding complete_row completed
complete_row_lem now r o e = go o e
  where
    go : (o : Option Time) → r.processed_at ≡ o → complete_row now r ≡ completed now r o
    go none e = ap (λ p. elim p [ none ↦ record r { processed_at = some now } | some t ↦ r ]) e
    go (some t) e = ap (λ p. elim p [ none ↦ record r { processed_at = some now } | some t ↦ r ]) e

complete_twice :
    (first second : Time) (o : Option DeliveryRow)
    → map_row (complete_row second) (map_row (complete_row first) o)
      ≡ map_row (complete_row first) o
unfolding completed
complete_twice first second none = refl
complete_twice first second (some r) = elim (Option-cases r.processed_at) [
  | inl e ↦
      rw (complete_row_lem first r none e) (
        ap some
          (complete_row_lem second (record r { processed_at = some first }) (some first) refl))
  | inr (t, e) ↦
      rw (complete_row_lem first r (some t) e) (ap some (complete_row_lem second r (some t) e))
]

-- Completing a delivery again, at any later time, leaves its row as the first call left it.
pub complete_delivery_again :
    (id : ℕ) (db : Db) (later : Time)
    → IsHealthy db
    → let once = (complete_delivery id db).1 in
      find_row id (complete_delivery id (record once { now = later })).1.deliveries
      ≡ find_row id once.deliveries
complete_delivery_again id db later h = rw (complete_healthy id db h) (
    rw
      (complete_healthy id (record (updated db (has_id id) (complete_row db.now)) { now = later })
        h)
      (rw
        (
          find_row-update_id id (complete_row later)
              (updated db (has_id id) (complete_row db.now)).deliveries
              (complete_row-KeepsId later),
          find_row-update_id id (complete_row db.now) db.deliveries (complete_row-KeepsId db.now),
        )
        (complete_twice db.now later (find_row id db.deliveries))))
