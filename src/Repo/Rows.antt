-- ===== src/Repo/Rows.antt =====
-- A row of `outbox_deliveries` by its id, and what an UPDATE does to it.
use outbox_dispatcher.Base.{
  ℕ, suc, ◌≤◌, ◌≡◌, refl, ◌≢◌, Bool, true, ◌&&◌, Option, none, some, List, [], ◌∷◌, ◌==◌,
  if◌then◌else◌, count, arith,
}
use outbox_dispatcher.Schema.{DeliveryRow}
use outbox_dispatcher.Repo.Db.{update_where}
use outbox_dispatcher.Repo.Dispatching.{has_id}

-- The row with an id.
unfoldable pub find_row : ℕ → List DeliveryRow → Option DeliveryRow
find_row id [] = none
find_row id (r ∷ rs) = if r.id == id then some r else find_row id rs

-- The primary key: ids rise along the table from `lo` on, and stay below the sequence's `hi`.
abbrev pub IdsRise : ℕ → List DeliveryRow → ℕ → Type 0
IdsRise lo [] hi = lo ≤ hi
IdsRise lo (r ∷ rs) hi = (lo ≤ r.id) × IdsRise (suc r.id) rs hi

-- A change of a row that keeps its id.
abbrev pub KeepsId : (DeliveryRow → DeliveryRow) → Type 0
KeepsId f = (r : DeliveryRow) → (f r).id ≡ r.id

pub IdsRise-le : (lo hi : ℕ) (rs : List DeliveryRow) → IdsRise lo rs hi → lo ≤ hi
IdsRise-le lo hi [] h = h
IdsRise-le lo hi (r ∷ rs) h = omega (arith, IdsRise-le (suc r.id) hi rs h.1)

pub IdsRise-mono :
    (lo lo' hi : ℕ) (rs : List DeliveryRow) → lo' ≤ lo → IdsRise lo rs hi → IdsRise lo' rs hi
IdsRise-mono lo lo' hi [] le h = omega arith
IdsRise-mono lo lo' hi (r ∷ rs) le h = (omega arith, h.1)

pub IdsRise-update_where :
    (lo hi : ℕ) (p : DeliveryRow → Bool) (f : DeliveryRow → DeliveryRow) (rs : List DeliveryRow)
    → KeepsId f
    → IdsRise lo rs hi
    → IdsRise lo (update_where p f rs) hi
IdsRise-update_where lo hi p f [] keeps h = h
IdsRise-update_where lo hi p f (r ∷ rs) keeps h =
    ground (arith, keeps r, IdsRise-update_where (suc r.id) hi p f rs keeps h.1)

-- No row has an id below the bound.
pub find_row_below :
    (lo hi id : ℕ) (rs : List DeliveryRow) → IdsRise lo rs hi → suc id ≤ lo → find_row id rs ≡ none
unfolding find_row
find_row_below lo hi id [] h lt = refl
find_row_below lo hi id (r ∷ rs) h lt =
    ground (arith, find_row_below (suc r.id) hi id rs h.1 (omega arith))

count_below :
    (lo hi id : ℕ) (g : DeliveryRow → Bool) (rs : List DeliveryRow)
    → IdsRise lo rs hi
    → suc id ≤ lo
    → count (λ r. has_id id r && g r) rs ≡ 0
count_below lo hi id g [] h lt = refl
count_below lo hi id g (r ∷ rs) h lt =
    ground (arith, count_below (suc r.id) hi id g rs h.1 (omega arith))

-- The rows affected by an UPDATE with `WHERE id = …`.
abbrev pub affected : (DeliveryRow → Bool) → Option DeliveryRow → ℕ
affected g none = 0
affected g (some r) = if g r then 1 else 0

pub count-affected :
    (lo hi id : ℕ) (g : DeliveryRow → Bool) (rs : List DeliveryRow)
    → IdsRise lo rs hi
    → count (λ r. has_id id r && g r) rs ≡ affected g (find_row id rs)
unfolding find_row
count-affected lo hi id g [] h = refl
count-affected lo hi id g (r ∷ rs) h =
    ground (arith, count_below (suc r.id) hi id g rs h.1, count-affected (suc r.id) hi id g rs h.1)

abbrev pub map_row : (DeliveryRow → DeliveryRow) → Option DeliveryRow → Option DeliveryRow
map_row f none = none
map_row f (some r) = some (f r)

-- An UPDATE acts on the row with an id as its SET clauses say, where its WHERE holds.
pub find_row-update_where :
    (id : ℕ) (p : DeliveryRow → Bool) (f : DeliveryRow → DeliveryRow) (rs : List DeliveryRow)
    → KeepsId f
    → find_row id (update_where p f rs) ≡ map_row (λ r. if p r then f r else r) (find_row id rs)
unfolding find_row
find_row-update_where id p f [] keeps = refl
find_row-update_where id p f (r ∷ rs) keeps =
    ground (arith, keeps r, find_row-update_where id p f rs keeps)

-- With `WHERE id = … AND …`, and with `WHERE id = …`.
pub find_row-update_guarded :
    (id : ℕ) (g : DeliveryRow → Bool) (f : DeliveryRow → DeliveryRow) (rs : List DeliveryRow)
    → KeepsId f
    → find_row id (update_where (λ r. has_id id r && g r) f rs)
      ≡ map_row (λ r. if g r then f r else r) (find_row id rs)
unfolding find_row
find_row-update_guarded id g f [] keeps = refl
find_row-update_guarded id g f (r ∷ rs) keeps =
    ground (arith, keeps r, find_row-update_guarded id g f rs keeps)

pub find_row-update_id :
    (id : ℕ) (f : DeliveryRow → DeliveryRow) (rs : List DeliveryRow)
    → KeepsId f
    → find_row id (update_where (has_id id) f rs) ≡ map_row f (find_row id rs)
unfolding find_row
find_row-update_id id f [] keeps = refl
find_row-update_id id f (r ∷ rs) keeps = ground (arith, keeps r, find_row-update_id id f rs keeps)

-- An UPDATE that reaches only the row with `id` leaves every other row alone.
pub find_row-update_other :
    (id j : ℕ) (p : DeliveryRow → Bool) (f : DeliveryRow → DeliveryRow) (rs : List DeliveryRow)
    → KeepsId f
    → ((r : DeliveryRow) → p r ≡ true → r.id ≡ id)
    → j ≢ id
    → find_row j (update_where p f rs) ≡ find_row j rs
unfolding find_row
find_row-update_other id j p f [] keeps only ne = refl
find_row-update_other id j p f (r ∷ rs) keeps only ne =
    ground (arith, keeps r, only r, find_row-update_other id j p f rs keeps only ne)

pub find_row-id :
    (id : ℕ) (rs : List DeliveryRow) {r : DeliveryRow} → find_row id rs ≡ some r → r.id ≡ id
unfolding find_row
find_row-id id [] h = cc
find_row-id id (x ∷ rs) {r} h = ground (arith, find_row-id id rs {r = r})
