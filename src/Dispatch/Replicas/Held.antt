-- ===== src/Dispatch/Replicas/Held.antt =====
-- A flight holds its row's lock, and each statement keeps that.
use outbox_dispatcher.Base.{
  ℕ, suc, ◌≤◌, ◌<◌, ◌≡◌, ◌≢◌, Bool, Option, none, some, List, [], ◌∷◌, ◌++◌, if◌then◌else◌, select,
  arith, inl, inr, Option-cases,
}
use outbox_dispatcher.Schema.{Time, DeliveryRow}
use outbox_dispatcher.Repo.Db.{update_where}
use outbox_dispatcher.Repo.Rows.{
  find_row, IdsRise, KeepsId, find_row-update_where, find_row-id, IdsRise-mono, IdsRise-le,
  find_row_below,
}

-- The row bears the lock, waits for its dispatch, and the lock has not run out. (Retention may have
-- deleted the row of an abandoned delivery.)
abbrev pub Bears : Option DeliveryRow → Time → Time → Type 0
Bears none now until = Unit
Bears (some r) now until = (r.locked_until ≡ some until) × (r.dispatched_at ≡ none) × (now ≤ until)

abbrev pub Held : List DeliveryRow → Time → ℕ → Time → Type 0
Held rows now id until = Bears (find_row id rows) now until

-- The row with `id`, locked and not dispatched, is updated into such a row.
abbrev pub Spares : (DeliveryRow → Bool) → (DeliveryRow → DeliveryRow) → ℕ → Time → Time → Type 0
Spares p f id now until =
    (r : DeliveryRow)
    → r.id ≡ id
    → Bears (some r) now until
    → Bears (some (if p r then f r else r)) now until

pub Held-update :
    (p : DeliveryRow → Bool) (f : DeliveryRow → DeliveryRow) (rows : List DeliveryRow)
    (now id until : ℕ)
    → KeepsId f
    → Spares p f id now until
    → Held rows now id until
    → Held (update_where p f rows) now id until
Held-update p f rows now id until keeps spares held = elim (Option-cases (find_row id rows)) [
  | inl e ↦ rw (find_row-update_where id p f rows keeps) (rw e tt)
  | inr (r, e) ↦
      rw (find_row-update_where id p f rows keeps)
        (rw e (spares r (find_row-id id rows e) (rw e at held)))
]

-- An INSERT appends a row with a new id.
pub Held-append :
    (rows : List DeliveryRow) (new : DeliveryRow) (now id until : ℕ)
    → new.id ≢ id
    → Held rows now id until
    → Held (rows ++ new ∷ []) now id until
unfolding find_row
Held-append [] new now id until ne held = ground arith
Held-append (r ∷ rs) new now id until ne held = ground (arith, Held-append rs new now id until ne)

pub IdsRise-select :
    (q : DeliveryRow → Bool) (lo : ℕ) (rows : List DeliveryRow) (hi : ℕ)
    → IdsRise lo rows hi
    → IdsRise lo (select q rows) hi
IdsRise-select q lo [] hi h = h
IdsRise-select q lo (r ∷ rs) hi h =
    ground
      (arith, IdsRise-select q (suc r.id) rs hi h.1, IdsRise-mono (suc r.id) lo hi (select q rs))

-- A DELETE takes rows away.
pub Held-select :
    (q : DeliveryRow → Bool) (lo hi : ℕ) (rows : List DeliveryRow) (now id until : ℕ)
    → IdsRise lo rows hi
    → Held rows now id until
    → Held (select q rows) now id until
unfolding find_row
Held-select q lo hi [] now id until rise held = tt
Held-select q lo hi (r ∷ rs) now id until rise held = ground (
  arith,
  Held-select q (suc r.id) hi rs now id until rise.1,
  find_row_below (suc r.id) hi id (select q rs) (IdsRise-select q (suc r.id) rs hi rise.1),
)

pub IdsRise-append :
    (lo : ℕ) (rows : List DeliveryRow) (new : DeliveryRow) (hi : ℕ)
    → IdsRise lo rows hi
    → new.id ≡ hi
    → IdsRise lo (rows ++ new ∷ []) (suc hi)
IdsRise-append lo [] new hi h e = omega arith
IdsRise-append lo (r ∷ rs) new hi h e = (h.0, IdsRise-append (suc r.id) rs new hi h.1 e)

pub IdsRise-suc :
    (lo : ℕ) (rows : List DeliveryRow) (hi : ℕ) → IdsRise lo rows hi → IdsRise lo rows (suc hi)
IdsRise-suc lo [] hi h = omega arith
IdsRise-suc lo (r ∷ rs) hi h = (h.0, IdsRise-suc (suc r.id) rs hi h.1)

pub find_row-lt :
    (lo hi id : ℕ) (rows : List DeliveryRow) {r : DeliveryRow}
    → IdsRise lo rows hi
    → find_row id rows ≡ some r
    → id < hi
unfolding find_row
find_row-lt lo hi id [] rise e = cc
find_row-lt lo hi id (x ∷ xs) {r} rise e =
    ground
      (arith, find_row-lt (suc x.id) hi id xs {r = r} rise.1, IdsRise-le (suc x.id) hi xs rise.1)
