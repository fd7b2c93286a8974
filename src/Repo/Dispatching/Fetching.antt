-- ===== src/Repo/Dispatching/Fetching.antt =====
-- What `fetch_due_deliveries` returns.
use mathlib.Core.Path.{subst}
use mathlib.Core.List.{Memᴰ}
use outbox_dispatcher.Base.{
  ℕ, ◌≤◌, ◌≡◌, refl, true, false, Option, none, some, is_none, select, All-imp, All-zip,
  All-select-old, List, [], ◌∷◌, length, All, All-take, All-select, length-take-le, ok,
  ok-injective, Result-cases, Option-cases, inl, inr, arith,
}
use outbox_dispatcher.Text.{Text}
use outbox_dispatcher.Schema.{RawEvent, DeliveryRow, DueDelivery, CallbackTarget}
use outbox_dispatcher.Config.{DispatchConfig}
use outbox_dispatcher.Callbacks.Url.{Url}
use outbox_dispatcher.Repo.Error.{Error}
use outbox_dispatcher.Repo.Db.{
  Db, ◌>>=◌, is_unlocked, event_of, All-order_by, query, befall, Fault, healthy, refused,
  unanswered, next_fault, other_faults,
}
use outbox_dispatcher.Repo.Dispatching.{
  is_due, by_available, join_events, select_due, due_delivery, extract_callback_target, keep_valid,
  fetch_due_deliveries,
}

All-join :
    (P : DeliveryRow → Type 0) (events : List RawEvent) (ds : List DeliveryRow)
    → All P ds
    → All (λ p. P p.0 × (event_of events p.0.event_id ≡ some p.1)) (join_events events ds)
unfolding join_events
All-join P events [] h = tt
All-join P events (d ∷ ds) h = elim (Option-cases (event_of events d.event_id)) [
  | inl e ↦ rw (join_events, e) (All-join P events ds h.1)
  | inr (event, e) ↦ rw (join_events, e) ((h.0, e), All-join P events ds h.1)
]

-- A row of the table that is due: it was neither dispatched nor processed nor dead-lettered, its time
-- has come, and it bears no live lock.
abbrev pub IsDue : Db → DeliveryRow → Type 0
IsDue db d =
    Memᴰ d db.deliveries
    × (d.dispatched_at ≡ none)
    × (d.processed_at ≡ none)
    × (d.dead_letter ≡ false)
    × (d.available_at ≤ db.now)
    × (is_unlocked d.locked_until db.now ≡ true)

is_none-none : {A : Type 0} (o : Option A) → is_none o ≡ true → o ≡ none
is_none-none none h = refl
is_none-none (some a) h = cc

is_due-IsDue :
    (db : Db) (d : DeliveryRow) → Memᴰ d db.deliveries → is_due db.now d ≡ true → IsDue db d
unfolding is_due
is_due-IsDue db d row h = (
  row,
  is_none-none d.dispatched_at (ground arith),
  is_none-none d.processed_at (ground arith),
  ground arith,
  ground arith,
  ground arith,
)

All-Memᴰ : {A : Type 0} (xs : List A) → All (λ x. Memᴰ x xs) xs
All-Memᴰ [] = tt
All-Memᴰ (x ∷ xs) = (Memᴰ.head refl, All-imp _ _ xs (λ y m. Memᴰ.tail m) (All-Memᴰ xs))

IsDue-All : (db : Db) → All (IsDue db) (select (is_due db.now) db.deliveries)
IsDue-All db =
    All-zip (λ d. Memᴰ d db.deliveries) (λ d. is_due db.now d ≡ true) (IsDue db) _ (is_due-IsDue db)
      (All-select-old _ (is_due db.now) db.deliveries (All-Memᴰ db.deliveries))
      (All-select (is_due db.now) db.deliveries)

-- A row that is due, with its event.
abbrev IsDueRow : Db → DeliveryRow × RawEvent → Type 0
IsDueRow db p = IsDue db p.0 × (event_of db.events p.0.event_id ≡ some p.1)

select_IsDue-All : (batch_size : ℕ) (db : Db) → All (IsDueRow db) (select_due batch_size db)
unfolding select_due
select_IsDue-All batch_size db =
    All-take (IsDueRow db) batch_size _
      (All-join (IsDue db) db.events _ (All-order_by (IsDue db) by_available _ (IsDue-All db)))

select_due-le : (batch_size : ℕ) (db : Db) → length (select_due batch_size db) ≤ batch_size
unfolding select_due
select_due-le batch_size db = length-take-le batch_size _

module _ (parse_url : Text → Option Url) (config : DispatchConfig) where
  -- The delivery is made of a due row and its event, and its target has just passed the validation.
  abbrev pub IsFetched : Db → DueDelivery → Type 0
  IsFetched db due =
      (d : DeliveryRow) × (e : RawEvent) × (target : CallbackTarget) × IsDue db d
      × (event_of db.events d.event_id ≡ some e)
      × (extract_callback_target parse_url config e.callbacks d.callback_name ≡ ok target)
      × (due ≡ due_delivery d e target)

  keep_valid-All :
      (db0 : Db) (rows : List (DeliveryRow × RawEvent)) (db : Db)
      → All (IsDueRow db0) rows
      → let due = (keep_valid parse_url config rows db).0 in
        All (IsFetched db0) due × (length due ≤ length rows)
  unfolding keep_valid
  keep_valid-All db0 [] db h = (tt, omega arith)
  keep_valid-All db0 ((d, e) ∷ rest) db h =
      elim (Result-cases (extract_callback_target parse_url config e.callbacks d.callback_name)) [
        | inl (target, passes) ↦
            let kept = keep_valid-All db0 rest db h.1 in
            rw (keep_valid, passes)
              (((d, e, target, h.0.0, h.0.1, passes, refl), kept.0), omega (arith, kept.1))
        | inr (error, fails) ↦
            let kept = keep_valid-All db0 rest (query _ db).1 h.1 in
            rw (keep_valid, fails) (kept.0, omega (arith, kept.1))
      ]

  -- Of an answered call every delivery comes from a row of the table that was neither dispatched nor
  -- processed nor dead-lettered, whose time has come and that bears no live lock, and from that row's
  -- event; its target passed the validation in this call, and there are no more deliveries than the
  -- batch size.
  pub fetch_due_deliveries-All :
      (batch_size : ℕ) (db : Db) (due : List DueDelivery)
      → (fetch_due_deliveries parse_url config batch_size db).0 ≡ ok due
      → All (IsFetched db) due × (length due ≤ batch_size)
  unfolding fetch_due_deliveries query befall
  fetch_due_deliveries-All batch_size db due = go (next_fault db.faults)
    where
      db0 : Db
      db0 = record db { faults = other_faults db.faults }

      rows : List (DeliveryRow × RawEvent)
      rows = select_due batch_size db0

      go :
          (f : Fault)
          → (((λ _. befall f (λ d. ok (select_due batch_size d, d)) db0) >>= λ rows d.
                let (kept, d') = keep_valid parse_url config rows d in (ok kept, d'))
              db).0
            ≡ ok due
          → All (IsFetched db) due × (length due ≤ batch_size)
      go healthy h =
          let kept = keep_valid-All db0 rows db0 (select_IsDue-All batch_size db0) in
          subst (λ ds. All (IsFetched db) ds × (length ds ≤ batch_size))
            (ok-injective {E = Error} h)
            (kept.0, omega (arith, kept.1, select_due-le batch_size db0))
      go (refused t) h = cc
      go (unanswered t) h = cc
