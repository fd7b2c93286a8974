-- ===== src/Dispatch/Replicas/Invariant.antt =====
-- Each flight holds its row's lock, no two flights are of one delivery, and the ids rise; kept by an
-- UPDATE that spares the flights' rows, an INSERT and a DELETE, whatever befalls the round trip.
use outbox_dispatcher.Base.{
  ℕ, ◌<◌, refl, Bool, List, [], ◌∷◌, All, All-imp, All-zip, arith, inl, inr, any, is_some,
  Bool-cases,
}
use outbox_dispatcher.Schema.{DeliveryRow}
use outbox_dispatcher.Repo.Db.{Db, query, update, event_of}
use outbox_dispatcher.Repo.Query.{query-Keeps}
use outbox_dispatcher.Repo.Rows.{IdsRise, KeepsId, IdsRise-update_where}
use outbox_dispatcher.Repo.Scheduling.{
  NewDelivery, new_row, insert_one, insert_all, insert_statement, same_key,
}
use outbox_dispatcher.Dispatch.Replicas.{Flight, Grounded}
use outbox_dispatcher.Dispatch.Replicas.Held.{
  Held, Spares, Held-update, Held-append, IdsRise-append, IdsRise-suc,
}

abbrev pub Flies : Db → Flight → Type 0
Flies db f = (f.id < db.next_id) × Held db.deliveries db.now f.id f.until

abbrev pub Distinct : List Flight → Type 0
Distinct [] = Unit
Distinct (f ∷ fs) = Grounded f.id fs × Distinct fs

abbrev pub Inv : List Flight → Db → Type 0
Inv fs db = IdsRise 0 db.deliveries db.next_id × All (Flies db) fs × Distinct fs

-- An UPDATE of each database spares the flight's row there.
abbrev SparesAt : (Db → DeliveryRow → Bool) → (Db → DeliveryRow → DeliveryRow) → Flight → Type 0
SparesAt P F f = (d : Db) → Spares (P d) (F d) f.id d.now f.until

pub update-Inv :
    (P : Db → DeliveryRow → Bool) (F : Db → DeliveryRow → DeliveryRow) (fs : List Flight) (db : Db)
    → ((d : Db) → KeepsId (F d))
    → All (SparesAt P F) fs
    → Inv fs db
    → Inv fs (query (λ d. update (P d) (F d) d) db).1
update-Inv P F fs db keeps spares inv =
    query-Keeps (Inv fs) (λ d. update (P d) (F d) d) db inv
      λ d v. (
        IdsRise-update_where 0 d.next_id (P d) (F d) d.deliveries (keeps d) v.0,
        All-zip (SparesAt P F) (Flies d) _ fs
            (λ f s held. (
              held.0,
              Held-update (P d) (F d) d.deliveries d.now f.id f.until (keeps d) (s d) held.1,
            ))
            spares v.1,
        v.2,
      )

insert_one-Inv :
    (fs : List Flight) (event_id : ℕ) (new : NewDelivery) (db : Db)
    → Inv fs db
    → Inv fs (insert_one db event_id new)
unfolding insert_one new_row
insert_one-Inv fs event_id new db inv =
    elim (Bool-cases (any (same_key event_id new.callback_name) db.deliveries)) [
      | inl clash ↦ rw clash (
        IdsRise-suc 0 db.deliveries db.next_id inv.0,
        All-imp (Flies db) _ fs (λ f h. (omega arith, h.1)) inv.1,
        inv.2,
      )
      | inr fresh ↦ rw fresh (
        IdsRise-append 0 db.deliveries (new_row db.next_id db.now event_id new) db.next_id inv.0
            refl,
        All-imp (Flies db) _ fs
            (λ f h. (
              omega arith,
              Held-append db.deliveries (new_row db.next_id db.now event_id new) db.now f.id f.until
                  (omega arith) h.1,
            ))
            inv.1,
        inv.2,
      )
    ]

insert_all-Inv :
    (fs : List Flight) (event_id : ℕ) (news : List NewDelivery) (db : Db)
    → Inv fs db
    → Inv fs (insert_all db event_id news)
unfolding insert_all
insert_all-Inv fs event_id [] db inv = inv
insert_all-Inv fs event_id (n ∷ ns) db inv =
    insert_all-Inv fs event_id ns (insert_one db event_id n) (insert_one-Inv fs event_id n db inv)

pub insert-Inv :
    (fs : List Flight) (event_id : ℕ) (news : List NewDelivery) (db : Db)
    → Inv fs db
    → Inv fs (query (insert_statement event_id news) db).1
unfolding insert_statement
insert-Inv fs event_id news db inv =
    query-Keeps (Inv fs) (insert_statement event_id news) db inv λ d v.
      elim (Bool-cases (is_some (event_of d.events event_id))) [
        | inl known ↦ rw known (insert_all-Inv fs event_id news d v)
        | inr gone ↦ rw gone v
      ]
