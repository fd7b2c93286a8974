-- ===== src/Repo/Locking.antt =====
-- The row lock of `lock_delivery`.
use outbox_dispatcher.Base.{
  ℕ, ◌≡◌, refl, Bool, true, not, ◌&&◌, some, ◌==◌, is_none, count, arith, ok, Option-cases, inl,
  inr,
}
use outbox_dispatcher.Schema.{Time, DeliveryRow}
use outbox_dispatcher.Repo.Db.{
  Fault, healthy, refused, unanswered, next_fault, other_faults, befall, query, Db, ◌>>=◌, pure,
  update, update_where, is_unlocked,
}
use outbox_dispatcher.Repo.Query.{IsHealthy, bind_healthy}
use outbox_dispatcher.Repo.Rows.{
  find_row, IdsRise, KeepsId, count-affected, find_row-update_guarded,
}
use outbox_dispatcher.Repo.Dispatching.{lock_guard, lock_row, lock_delivery}

-- What `lock_delivery` asks of the row besides its id.
abbrev pub is_lockable : Time → DeliveryRow → Bool
is_lockable now r = is_unlocked r.locked_until now && (is_none r.dispatched_at && not r.dead_letter)

lock_row-KeepsId : (now until : Time) → KeepsId (lock_row now until)
unfolding lock_row
lock_row-KeepsId now until r = refl

abbrev pub updated : Db → (DeliveryRow → Bool) → (DeliveryRow → DeliveryRow) → Db
updated db p f = record db { deliveries = update_where p f db.deliveries }

pub lock_delivery_healthy :
    (id until : ℕ) (db : Db)
    → IsHealthy db
    → lock_delivery id until db ≡ (
      ok (count (lock_guard id db.now) db.deliveries == 1),
      updated db (lock_guard id db.now) (lock_row db.now until),
    )
unfolding lock_delivery
lock_delivery_healthy id until db h =
    bind_healthy (λ d. update (lock_guard id d.now) (lock_row d.now until) d) (λ n. pure (n == 1))
      db h

-- The answer that a lock is granted tells that the row was lockable and bears the lock now, whatever
-- befalls the round trip.
granted_row :
    (lo hi id until : ℕ) (f : Fault) (db : Db)
    → IdsRise lo db.deliveries hi
    → let (granted, db') =
        (befall f (λ d. update (lock_guard id d.now) (lock_row d.now until) d) >>= λ n.
        pure (n == 1))
          db in
      granted ≡ ok true
      → (r : DeliveryRow) × (find_row id db.deliveries ≡ some r)
        × (is_lockable db.now r ≡ true)
        × (find_row id db'.deliveries ≡ some (lock_row db.now until r))
unfolding befall lock_guard
granted_row lo hi id until healthy db rise h = elim (Option-cases (find_row id db.deliveries)) [
  | inl missing ↦ ground (arith, count-affected lo hi id (is_lockable db.now) db.deliveries rise)
  | inr (r, e) ↦ (
    r,
    e,
    ground (arith, count-affected lo hi id (is_lockable db.now) db.deliveries rise),
    ground (
      arith,
      count-affected lo hi id (is_lockable db.now) db.deliveries rise,
      find_row-update_guarded id (is_lockable db.now) (lock_row db.now until) db.deliveries
          (lock_row-KeepsId db.now until),
    ),
  )
]
granted_row lo hi id until (refused t) db rise h = cc
granted_row lo hi id until (unanswered t) db rise h = cc

pub lock_delivery-granted :
    (lo hi id until : ℕ) (db : Db)
    → IdsRise lo db.deliveries hi
    → let (granted, db') = lock_delivery id until db in
      granted ≡ ok true
      → (r : DeliveryRow) × (find_row id db.deliveries ≡ some r)
        × (is_lockable db.now r ≡ true)
        × (find_row id db'.deliveries ≡ some (lock_row db.now until r))
unfolding lock_delivery query
lock_delivery-granted lo hi id until db rise h =
    granted_row lo hi id until (next_fault db.faults)
      (record db { faults = other_faults db.faults }) rise h
