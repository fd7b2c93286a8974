-- ===== src/AdminApi/Listing.antt =====
-- The dead letters that a query lists, and what a cursor leaves of them.
use mathlib.Core.Path.{fun_ext}
use outbox_dispatcher.Base.{
  ℕ, zero, suc, ◌≤◌, ◌<◌, ◌≡◌, refl, sym, ap, ◌∙◌, Bool, true, false, ◌&&◌, Option, some, List, [],
  ◌∷◌, take, select, ltb, All, All-imp, All-select, All-select-old, All-take, Bool-cases,
  Option-cases, inl, inr, arith,
}
use outbox_dispatcher.Text.{Text}
use outbox_dispatcher.Schema.{RawEvent, DeliveryRow}
use outbox_dispatcher.Repo.Db.{Db, order_by, All-order_by, event_of}
use outbox_dispatcher.Repo.Rows.{IdsRise}
use outbox_dispatcher.Repo.Scheduling.Inserts.{IsTable}
use outbox_dispatcher.AdminApi.Pages.{
  drop, select-select, select_all, last_of-All, join_events-select, join_events-All,
}
use outbox_dispatcher.Repo.Ordered.{IsSorted, IsStrict, order_by-IsSorted, last_of}
use outbox_dispatcher.Repo.Ordered.Conditions.{select-order_by}
use outbox_dispatcher.Repo.Dispatching.{join_events}
use outbox_dispatcher.Repo.Admin.{on_page, before_cursor, has_name, newest_first}

-- The rows of the listing without its LIMIT.
unfoldable pub listed : Option Text → Option ℕ → Db → List (DeliveryRow × RawEvent)
unfolding on_page
listed name cursor db = join_events db.events (
    order_by newest_first
      (select (λ d. d.dead_letter && (before_cursor cursor d && has_name name d)) db.deliveries))

-- The newer row stands first.
abbrev pub Newer : DeliveryRow → DeliveryRow → Type 0
Newer a b = b.id < a.id

abbrev pub NewerJoined : DeliveryRow × RawEvent → DeliveryRow × RawEvent → Type 0
NewerJoined p q = Newer p.0 q.0

rise-All : (lo hi : ℕ) (ds : List DeliveryRow) → IdsRise lo ds hi → All (λ d. lo ≤ d.id) ds
rise-All lo hi [] h = tt
rise-All lo hi (d ∷ ds) h =
    (h.0, All-imp _ _ ds (λ x le. omega (arith, h.0)) (rise-All (suc d.id) hi ds h.1))

-- Rows whose ids rise stand level with no other.
rise-IsStrict :
    (lo hi : ℕ) (ds : List DeliveryRow) → IdsRise lo ds hi → IsStrict newest_first Newer ds
rise-IsStrict lo hi [] h = tt
rise-IsStrict lo hi (d ∷ ds) h = (
  All-imp _ _ ds (λ x above le. ground arith) (rise-All (suc d.id) hi ds h.1),
  rise-IsStrict (suc d.id) hi ds h.1,
)

select-IsStrict :
    (p : DeliveryRow → Bool) (ds : List DeliveryRow)
    → IsStrict newest_first Newer ds
    → IsStrict newest_first Newer (select p ds)
select-IsStrict p [] h = tt
select-IsStrict p (d ∷ ds) h = elim (Bool-cases (p d)) [
  | inl hit ↦ rw hit (All-select-old _ p ds h.0, select-IsStrict p ds h.1)
  | inr miss ↦ rw miss (select-IsStrict p ds h.1)
]

abbrev pub no_test : DeliveryRow × RawEvent → DeliveryRow × RawEvent → Bool
no_test p q = true

join_events-IsSorted :
    (events : List RawEvent) (ds : List DeliveryRow)
    → IsSorted newest_first Newer ds
    → IsSorted no_test NewerJoined (join_events events ds)
unfolding join_events
join_events-IsSorted events [] s = tt
join_events-IsSorted events (d ∷ ds) s = elim (Option-cases (event_of events d.event_id)) [
  | inl missing ↦ rw (missing, join_events) (join_events-IsSorted events ds s.1)
  | inr (e, found) ↦
      rw (found, join_events)
        (join_events-All events (Newer d) ds s.0, join_events-IsSorted events ds s.1)
]

module _ (name : Option Text) (db : Db) (table : IsTable db) where
  abbrev pub wanted : Option ℕ → DeliveryRow → Bool
  wanted cursor d = d.dead_letter && (before_cursor cursor d && has_name name d)

  rows-IsStrict : IsStrict newest_first Newer db.deliveries
  rows-IsStrict = rise-IsStrict 0 db.next_id db.deliveries table.1

  pub listed-IsSorted : (cursor : Option ℕ) → IsSorted no_test NewerJoined (listed name cursor db)
  unfolding listed
  listed-IsSorted cursor = join_events-IsSorted db.events _ (
      order_by-IsSorted newest_first Newer (λ x y z h k. omega arith) (λ x y e. ground arith) _
        (select-IsStrict (wanted cursor) db.deliveries rows-IsStrict))

  pub listed-All : (cursor : Option ℕ) → All (λ p. wanted cursor p.0 ≡ true) (listed name cursor db)
  unfolding listed
  listed-All cursor =
      join_events-All db.events (λ d. wanted cursor d ≡ true) _
        (All-order_by (λ d. wanted cursor d ≡ true) newest_first _
          (All-select (wanted cursor) db.deliveries))

  -- A later cursor drops the rows that are not below it.
  pub listed_narrows :
      (cursor : Option ℕ) (k : ℕ)
      → ((d : DeliveryRow) → ltb d.id k ≡ true → before_cursor cursor d ≡ true)
      → listed name (some k) db ≡ select (λ p. ltb p.0.id k) (listed name cursor db)
  unfolding listed
  listed_narrows cursor k below =
      let q : DeliveryRow → Bool = λ d. ltb d.id k in
      let same : (d : DeliveryRow) → wanted (some k) d ≡ (wanted cursor d && q d) =
        λ d. ground (arith, below d) in
      ap
        (λ (w : DeliveryRow → Bool).
          join_events db.events (order_by newest_first (select w db.deliveries)))
        (fun_ext same)
      ∙ ap (λ ds. join_events db.events (order_by newest_first ds))
          (sym (select-select (wanted cursor) q db.deliveries))
      ∙ ap (join_events db.events) (
          sym (
            select-order_by newest_first Newer (λ x y z h k. omega arith) (λ x y e. ground arith)
              (λ x y z le b. ground arith) q (select (wanted cursor) db.deliveries)
              (select-IsStrict (wanted cursor) db.deliveries rows-IsStrict)))
      ∙ join_events-select db.events q
          (order_by newest_first (select (wanted cursor) db.deliveries))

-- Behind the last row of a page stand exactly the rows below its id.
pub behind :
    (m : ℕ) (x : DeliveryRow × RawEvent) (xs : List (DeliveryRow × RawEvent))
    → IsSorted no_test NewerJoined (x ∷ xs)
    → select (λ p. ltb p.0.id (last_of x (take m xs)).0.id) (x ∷ xs) ≡ drop m xs
behind zero x xs s =
    let self : ltb x.0.id x.0.id ≡ false = ground arith in
    rw self (select_all _ xs (All-imp _ _ xs (λ p newer. ground arith) s.0))
behind (suc m) x [] s = let self : ltb x.0.id x.0.id ≡ false = ground arith in rw self refl
behind (suc m) x (y ∷ ys) s =
    let last = last_of y (take m ys) in
    let lower : last.0.id < x.0.id =
      last_of-All (λ p. p.0.id < x.0.id) y (take m ys) s.0.0
        (All-take (λ p. p.0.id < x.0.id) m ys s.0.1) in
    let above : ltb x.0.id last.0.id ≡ false = ground arith in rw above (behind m y ys s.1)
