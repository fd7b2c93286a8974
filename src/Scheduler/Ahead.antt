-- ===== src/Scheduler/Ahead.antt =====
-- The events that stand above a cursor, and what a batch leaves of them.
use outbox_dispatcher.Base.{
  ℕ, zero, suc, ◌≤◌, ◌<◌, ◌≡◌, ◌≢◌, refl, sym, ◌⊎◌, Bool, true, List, [], ◌∷◌, select, take,
  All-take, All-zip, count, length, ltb, All, All-imp, All-select, All-select-old, Bool-cases, inl,
  inr, arith,
}
use outbox_dispatcher.Schema.{RawEvent}
use outbox_dispatcher.Repo.Db.{Db, order_by, All-order_by}
use outbox_dispatcher.Repo.Ordered.{
  last_of, IsSorted, IsStrict, order_by-IsSorted, All-of_order_by, All-of_take,
}
use outbox_dispatcher.Repo.Scheduling.{by_id}
use outbox_dispatcher.Scheduler.Pass.{batch, batch-above, last_id, last_id-le}

-- The primary key of `outbox_events`.
abbrev pub DistinctIds : List RawEvent → Type 0
DistinctIds [] = Unit
DistinctIds (e ∷ es) = All (λ x. x.id ≢ e.id) es × DistinctIds es

pub DistinctIds-select :
    (p : RawEvent → Bool) (es : List RawEvent) → DistinctIds es → DistinctIds (select p es)
DistinctIds-select p [] h = tt
DistinctIds-select p (e ∷ es) h = elim (Bool-cases (p e)) [
  | inl hit ↦ rw hit (All-select-old _ p es h.0, DistinctIds-select p es h.1)
  | inr miss ↦ rw miss (DistinctIds-select p es h.1)
]

abbrev Older : RawEvent → RawEvent → Type 0
Older a b = a.id < b.id

DistinctIds-IsStrict : (es : List RawEvent) → DistinctIds es → IsStrict by_id Older es
DistinctIds-IsStrict [] h = tt
DistinctIds-IsStrict (e ∷ es) h =
    (All-imp _ _ es (λ x ne le. ground arith) h.0, DistinctIds-IsStrict es h.1)

All-of_select :
    {A : Type 0} (P : A → Type 0) (p : A → Bool) (xs : List A)
    → All P (select p xs)
    → All (λ x. p x ≡ true → P x) xs
All-of_select P p [] h = tt
All-of_select P p (x ∷ xs) h = elim (Bool-cases (p x)) [
  | inl hit ↦
      let h' : P x × All P (select p xs) = rw hit at h in (λ _. h'.0, All-of_select P p xs h'.1)
  | inr miss ↦
      let h' : All P (select p xs) = rw miss at h in (λ e. absurd (cc), All-of_select P p xs h')
]

-- The events above a cursor, in the order in which they are read.
abbrev pub ahead : ℕ → Db → List RawEvent
ahead cursor db = order_by by_id (select (λ e. ltb cursor e.id) db.events)

pub ahead-IsSorted :
    (cursor : ℕ) (db : Db) → DistinctIds db.events → IsSorted by_id Older (ahead cursor db)
ahead-IsSorted cursor db distinct =
    order_by-IsSorted by_id Older (λ x y z h k. omega arith) (λ x y e. ground arith) _
      (DistinctIds-IsStrict _ (DistinctIds-select _ db.events distinct))

-- What holds of all events ahead holds of every event of the table that is above the cursor.
pub All-of_ahead :
    (Q : RawEvent → Type 0) (cursor : ℕ) (db : Db)
    → All Q (ahead cursor db)
    → All (λ e. cursor < e.id → Q e) db.events
All-of_ahead Q cursor db h =
    All-imp _ _ db.events (λ e imp above. imp (ground arith))
      (All-of_select Q (λ e. ltb cursor e.id) db.events (All-of_order_by by_id Older Q _ h))

module _ (Q : RawEvent → Type 0) where
  -- Past the batch stand only events above its last.
  pub take_rest :
      (n cursor : ℕ) (es : List RawEvent)
      → 0 < n
      → IsSorted by_id Older es
      → All Q (take n es)
      → ((y : RawEvent) → last_id cursor (take n es) < y.id → Q y)
      → All Q es
  take_rest zero cursor es pos s taken rest = absurd (omega arith)
  take_rest (suc n) cursor [] pos s taken rest = tt
  take_rest (suc n) cursor (e ∷ es) pos s taken rest =
      All-of_take by_id Older Q n e es s taken.0 taken.1
        (λ y b. rest y (rw (last_id-last_of e (take n es)) b))
    where
      last_id-last_of : (e : RawEvent) (es : List RawEvent) → last_id e.id es ≡ (last_of e es).id
      last_id-last_of e [] = refl
      last_id-last_of e (x ∷ xs) = last_id-last_of x xs

last_id-All :
    (P : ℕ → Type 0) (n : ℕ) (es : List RawEvent) → P n → All (λ e. P e.id) es → P (last_id n es)
last_id-All P n [] p h = p
last_id-All P n (e ∷ es) p h = last_id-All P e.id es h.0 h.1

-- A batch that leaves the cursor where it was had nothing ahead.
pub nothing_ahead :
    (n cursor : ℕ) (es : List RawEvent)
    → 0 < n
    → All (λ e. cursor < e.id) (take n es)
    → last_id cursor (take n es) ≡ cursor
    → es ≡ []
nothing_ahead zero cursor es pos above e = absurd (omega arith)
nothing_ahead (suc n) cursor [] pos above e = refl
nothing_ahead (suc n) cursor (x ∷ xs) pos above e =
    absurd (omega (arith, e, last_id-All (λ i. cursor < i) x.id (take n xs) above.0 above.1))

pub count-le-length : {A : Type 0} (p : A → Bool) (xs : List A) → count p xs ≤ length xs
count-le-length p [] = omega arith
count-le-length p (x ∷ xs) = ground (arith, count-le-length p xs)

-- How many events are above a cursor.
abbrev pub above_count : ℕ → Db → ℕ
above_count cursor db = count (λ e. ltb cursor e.id) db.events

fewer_above :
    (lo hi : ℕ) (es : List RawEvent)
    → lo ≤ hi
    → (count (λ e. ltb hi e.id) es < count (λ e. ltb lo e.id) es)
      ⊎ ((count (λ e. ltb hi e.id) es ≡ count (λ e. ltb lo e.id) es)
          × All (λ e. lo < e.id → hi < e.id) es)
fewer_above lo hi [] le = inr (refl, tt)
fewer_above lo hi (e ∷ es) le = elim (fewer_above lo hi es le) [
  | inl fewer ↦ inl (ground arith)
  | inr same ↦ elim (Bool-cases (ltb hi e.id)) [
    | inl far ↦ inr (ground (arith, same.0), ((λ _. ground arith), same.1))
    | inr near ↦ elim (Bool-cases (ltb lo e.id)) [
      | inl between ↦ inl (ground (arith, same.0))
      | inr below ↦ inr (ground (arith, same.0), ((λ h. absurd (ground arith)), same.1))
    ]
  ]
]

-- A batch that moves the cursor leaves fewer events above it.
pub falls :
    (cursor n : ℕ) (db : Db)
    → last_id cursor (batch cursor n db) ≢ cursor
    → above_count (last_id cursor (batch cursor n db)) db < above_count cursor db
falls cursor n db moved =
    let events = batch cursor n db in
    let new_cursor = last_id cursor events in
    elim (fewer_above cursor new_cursor db.events
      (last_id-le cursor cursor events (batch-above cursor n db) (omega arith))) [
        | inl fewer ↦ fewer
        | inr same ↦
            let beyond : All (λ e. new_cursor < e.id) events =
              in_batch cursor n db new_cursor same.1 in
            absurd (stuck cursor events new_cursor refl moved beyond)
      ]
  where
    in_batch :
        (cursor n : ℕ) (db : Db) (m : ℕ)
        → All (λ e. cursor < e.id → m < e.id) db.events
        → All (λ e. m < e.id) (batch cursor n db)
    in_batch cursor n db m h =
        All-take (λ e. m < e.id) n _
          (All-order_by (λ e. m < e.id) by_id _
            (All-zip _ _ _ (select (λ e. ltb cursor e.id) db.events)
              (λ e imp above. imp (ground arith))
              (All-select-old (λ e. cursor < e.id → m < e.id) _ db.events h)
              (All-select (λ e. ltb cursor e.id) db.events)))

    stuck :
        (cursor : ℕ) (events : List RawEvent) (m : ℕ)
        → last_id cursor events ≡ m
        → m ≢ cursor
        → All (λ e. m < e.id) events
        → ⊥
    stuck cursor [] m e moved h = moved (sym e)
    stuck cursor (x ∷ xs) m e moved h =
        absurd (omega (arith, e, last_id-All (λ i. m < i) x.id xs h.0 h.1))

-- What the events of a batch satisfy, and the events above its last, all events above the cursor do.
pub batch-and-rest :
    (Q : RawEvent → Type 0) (n cursor : ℕ) (db : Db)
    → 0 < n
    → DistinctIds db.events
    → let events = batch cursor n db in
      All Q events
      → All (λ e. last_id cursor events < e.id → Q e) db.events
      → All (λ e. cursor < e.id → Q e) db.events
batch-and-rest Q n cursor db pos distinct taken beyond =
    let events = batch cursor n db in
    let Reached : RawEvent → Type 0 = λ e. (last_id cursor events < e.id) ⊎ Q e in
    All-zip _ _ _ db.events
      (λ e reach rest above. elim (reach above) [ inl far ↦ rest far | inr there ↦ there ])
      (All-of_ahead Reached cursor db (
        take_rest Reached n cursor (ahead cursor db) pos (ahead-IsSorted cursor db distinct)
          (All-imp Q Reached events (λ e there. inr there) taken) (λ e far. inl far)))
      beyond
