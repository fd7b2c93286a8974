-- ===== src/Repo/Scheduling/Inserts.antt =====
-- What the INSERT of `ensure_deliveries` and `create_invalid_deliveries` does to the table.
use outbox_dispatcher.Base.{
  ℕ, suc, ◌≡◌, refl, sym, ap, ◌∙◌, true, false, List, [], ◌∷◌, ◌++◌, any, All, append_nil,
  append_assoc, any-append, arith, Bool-cases, inl, inr,
}
use outbox_dispatcher.Text.{text_eq_refl, text_eq_comm}
use outbox_dispatcher.Schema.{DeliveryRow}
use outbox_dispatcher.Repo.Db.{Db}
use outbox_dispatcher.Repo.Rows.{IdsRise}
use outbox_dispatcher.Repo.Scheduling.{same_key, NewDelivery, new_row, insert_one, insert_all}

-- A row of the table has the event's and the callback's key.
abbrev pub HasRow : ℕ → List DeliveryRow → NewDelivery → Type 0
HasRow event_id rows new = any (same_key event_id new.callback_name) rows ≡ true

pub HasRow-grows :
    (event_id : ℕ) (new : NewDelivery) (rows more : List DeliveryRow)
    → HasRow event_id rows new
    → HasRow event_id (rows ++ more) new
HasRow-grows event_id new rows more h =
    ground (arith, any-append (same_key event_id new.callback_name) rows more)

insert_one-HasRow :
    (db : Db) (event_id : ℕ) (new : NewDelivery)
    → HasRow event_id (insert_one db event_id new).deliveries new
unfolding insert_one new_row
insert_one-HasRow db event_id new = ground (
  arith,
  any-append (same_key event_id new.callback_name) db.deliveries
      (new_row db.next_id db.now event_id new ∷ []),
  text_eq_refl new.callback_name,
)

-- One insertion leaves the rows that are there as a prefix.
insert_one-prefix :
    (db : Db) (event_id : ℕ) (new : NewDelivery)
    → (more : List DeliveryRow) × ((insert_one db event_id new).deliveries ≡ db.deliveries ++ more)
unfolding insert_one
insert_one-prefix db event_id new =
    elim (Bool-cases (any (same_key event_id new.callback_name) db.deliveries)) [
      | inl there ↦ ([], rw there (sym (append_nil db.deliveries)))
      | inr fresh ↦ (new_row db.next_id db.now event_id new ∷ [], rw fresh refl)
    ]

pub insert_all-prefix :
    (db : Db) (event_id : ℕ) (news : List NewDelivery)
    → (more : List DeliveryRow) × ((insert_all db event_id news).deliveries ≡ db.deliveries ++ more)
unfolding insert_all
insert_all-prefix db event_id [] = ([], sym (append_nil db.deliveries))
insert_all-prefix db event_id (n ∷ ns) =
    let first = insert_one-prefix db event_id n in
    let rest = insert_all-prefix (insert_one db event_id n) event_id ns in
    (
      first.0 ++ rest.0,
      rest.1 ∙ ap (λ rows. rows ++ rest.0) first.1 ∙ append_assoc db.deliveries first.0 rest.0,
    )

-- Every row that is asked for is there afterwards.
pub insert_all-HasRow :
    (db : Db) (event_id : ℕ) (news : List NewDelivery)
    → All (HasRow event_id (insert_all db event_id news).deliveries) news
unfolding insert_all
insert_all-HasRow db event_id [] = tt
insert_all-HasRow db event_id (n ∷ ns) =
    let db' = insert_one db event_id n in
    let rest = insert_all-prefix db' event_id ns in
    (
      rw rest.1 (HasRow-grows event_id n db'.deliveries rest.0 (insert_one-HasRow db event_id n)),
      insert_all-HasRow db' event_id ns,
    )

-- One insertion where the key is taken, and where it is free.
insert_one-taken :
    (db : Db) (event_id : ℕ) (new : NewDelivery)
    → HasRow event_id db.deliveries new
    → insert_one db event_id new ≡ record db { next_id = suc db.next_id }
unfolding insert_one
insert_one-taken db event_id new h = rw h refl

abbrev IsFree : ℕ → List DeliveryRow → NewDelivery → Type 0
IsFree event_id rows new = any (same_key event_id new.callback_name) rows ≡ false

insert_one-free :
    (db : Db) (event_id : ℕ) (new : NewDelivery)
    → IsFree event_id db.deliveries new
    → insert_one db event_id new ≡ record db {
      next_id = suc db.next_id;
      deliveries = db.deliveries ++ new_row db.next_id db.now event_id new ∷ [];
    }
unfolding insert_one
insert_one-free db event_id new h = rw h refl

-- Where every row is there, nothing is inserted.
pub insert_all-again :
    (db : Db) (event_id : ℕ) (news : List NewDelivery)
    → All (HasRow event_id db.deliveries) news
    → (insert_all db event_id news).deliveries ≡ db.deliveries
unfolding insert_all
insert_all-again db event_id [] h = refl
insert_all-again db event_id (n ∷ ns) h =
    rw (insert_all, insert_one-taken db event_id n h.0)
      (insert_all-again (record db { next_id = suc db.next_id }) event_id ns h.1)

-- What an insertion keeps if it is kept where the key is taken and where it is free.
insert_all-Keeps :
    (P : Db → Type 0) (event_id : ℕ) (news : List NewDelivery)
    → ((db : Db) → P db → P (record db { next_id = suc db.next_id }))
    → ((db : Db) (new : NewDelivery)
        → IsFree event_id db.deliveries new
        → P db
        → P (record db {
          next_id = suc db.next_id;
          deliveries = db.deliveries ++ new_row db.next_id db.now event_id new ∷ [];
        }))
    → (db : Db) → P db
    → P (insert_all db event_id news)
unfolding insert_all
insert_all-Keeps P event_id [] taken free db h = h
insert_all-Keeps P event_id (n ∷ ns) taken free db h =
    insert_all-Keeps P event_id ns taken free (insert_one db event_id n)
      (elim (Bool-cases (any (same_key event_id n.callback_name) db.deliveries)) [
        | inl there ↦ rw (insert_one-taken db event_id n there) (taken db h)
        | inr new ↦ rw (insert_one-free db event_id n new) (free db n new h)
      ])

-- The insertions touch neither the events nor the faults to come.
pub insert_all-keeps :
    (db : Db) (event_id : ℕ) (news : List NewDelivery)
    → let db' = insert_all db event_id news in
      (db'.events ≡ db.events) × (db'.faults ≡ db.faults) × (db'.now ≡ db.now)
insert_all-keeps db event_id news =
    insert_all-Keeps (λ d. (d.events ≡ db.events) × (d.faults ≡ db.faults) × (d.now ≡ db.now))
      event_id news (λ d h. h) (λ d new free h. h) db (refl, refl, refl)

pub insert_all-append :
    (db : Db) (event_id : ℕ) (xs ys : List NewDelivery)
    → insert_all db event_id (xs ++ ys) ≡ insert_all (insert_all db event_id xs) event_id ys
unfolding insert_all
insert_all-append db event_id [] ys = refl
insert_all-append db event_id (x ∷ xs) ys =
    insert_all-append (insert_one db event_id x) event_id xs ys

-- UNIQUE (event_id, callback_name), and the primary key.
abbrev UniqueKeys : List DeliveryRow → Type 0
UniqueKeys [] = Unit
UniqueKeys (r ∷ rs) = (any (same_key r.event_id r.callback_name) rs ≡ false) × UniqueKeys rs

UniqueKeys-append :
    (rows : List DeliveryRow) (row : DeliveryRow)
    → any (same_key row.event_id row.callback_name) rows ≡ false
    → UniqueKeys rows
    → UniqueKeys (rows ++ row ∷ [])
UniqueKeys-append [] row free u = (refl, tt)
UniqueKeys-append (r ∷ rs) row free u = (
  ground (
    arith,
    any-append (same_key r.event_id r.callback_name) rs (row ∷ []),
    text_eq_comm r.callback_name row.callback_name,
  ),
  UniqueKeys-append rs row (ground arith) u.1,
)

IdsRise-append :
    (lo : ℕ) (rows : List DeliveryRow) (row : DeliveryRow)
    → IdsRise lo rows row.id
    → IdsRise lo (rows ++ row ∷ []) (suc row.id)
IdsRise-append lo [] row h = (h, omega arith)
IdsRise-append lo (r ∷ rs) row h = (h.0, IdsRise-append (suc r.id) rs row h.1)

-- What the table's constraints ask of it.
abbrev pub IsTable : Db → Type 0
IsTable db = UniqueKeys db.deliveries × IdsRise 0 db.deliveries db.next_id

IdsRise-suc : (lo hi : ℕ) (rows : List DeliveryRow) → IdsRise lo rows hi → IdsRise lo rows (suc hi)
IdsRise-suc lo hi [] h = omega arith
IdsRise-suc lo hi (r ∷ rs) h = (h.0, IdsRise-suc (suc r.id) hi rs h.1)

-- The INSERT keeps the keys of the table distinct and its ids below the sequence.
pub insert_all-IsTable :
    (db : Db) (event_id : ℕ) (news : List NewDelivery)
    → IsTable db
    → IsTable (insert_all db event_id news)
unfolding new_row
insert_all-IsTable db event_id news h =
    insert_all-Keeps IsTable event_id news (λ d t. (t.0, IdsRise-suc 0 d.next_id d.deliveries t.1))
      (λ d new free t. (
        UniqueKeys-append d.deliveries (new_row d.next_id d.now event_id new) free t.0,
        IdsRise-append 0 d.deliveries (new_row d.next_id d.now event_id new) t.1,
      ))
      db h
