-- ===== src/AdminApi/Pages.antt =====
-- Lists cut into pages, and conditions on joined rows.
use outbox_dispatcher.Base.{
  ℕ, zero, suc, ◌≤◌, ◌≡◌, ◌≢◌, refl, ap, Bool, true, ◌&&◌, List, [], ◌∷◌, ◌++◌, take, length,
  select, All, Bool-cases, Option-cases, inl, inr, arith,
}
use outbox_dispatcher.Schema.{RawEvent, DeliveryRow}
use outbox_dispatcher.Repo.Db.{event_of}
use outbox_dispatcher.Repo.Ordered.{last_of}
use outbox_dispatcher.Repo.Dispatching.{join_events}

abbrev pub drop {ℓ} : {A : Type ℓ} → ℕ → List A → List A
drop zero xs = xs
drop (suc n) [] = []
drop (suc n) (x ∷ xs) = drop n xs

pub take-drop : {A : Type 0} (n : ℕ) (xs : List A) → take n xs ++ drop n xs ≡ xs
take-drop zero xs = refl
take-drop (suc n) [] = refl
take-drop (suc n) (x ∷ xs) = ap (λ r. x ∷ r) (take-drop n xs)

pub length-drop-le : {A : Type 0} (n : ℕ) (xs : List A) → length (drop n xs) ≤ length xs
length-drop-le zero xs = omega arith
length-drop-le (suc n) [] = omega arith
length-drop-le (suc n) (x ∷ xs) = omega (arith, length-drop-le n xs)

-- A page that is not full is the last.
pub take_short : {A : Type 0} (n : ℕ) (xs : List A) → length (take n xs) ≢ n → take n xs ≡ xs
take_short zero xs h = absurd (h refl)
take_short (suc n) [] h = refl
take_short (suc n) (x ∷ xs) h = ap (λ r. x ∷ r) (take_short n xs (λ e. h (ap suc e)))

pub select-select :
    {A : Type 0} (p q : A → Bool) (xs : List A)
    → select q (select p xs) ≡ select (λ x. p x && q x) xs
select-select p q [] = refl
select-select p q (x ∷ xs) = elim (Bool-cases (p x)) [
  | inl hit ↦ elim (Bool-cases (q x)) [
    | inl both ↦ rw (hit, both) (ap (λ r. x ∷ r) (select-select p q xs))
    | inr one ↦ rw (hit, one) (select-select p q xs)
  ]
  | inr miss ↦ rw miss (select-select p q xs)
]

pub select_all :
    {A : Type 0} (q : A → Bool) (xs : List A) → All (λ x. q x ≡ true) xs → select q xs ≡ xs
select_all q [] h = refl
select_all q (x ∷ xs) h = rw h.0 (ap (λ r. x ∷ r) (select_all q xs h.1))

pub last_of-All :
    {A : Type 0} (P : A → Type 0) (x : A) (xs : List A) → P x → All P xs → P (last_of x xs)
last_of-All P x [] p h = p
last_of-All P x (y ∷ ys) p h = last_of-All P y ys h.0 h.1

pub join_events-select :
    (events : List RawEvent) (q : DeliveryRow → Bool) (ds : List DeliveryRow)
    → join_events events (select q ds) ≡ select (λ p. q p.0) (join_events events ds)
unfolding join_events
join_events-select events q [] = refl
join_events-select events q (d ∷ ds) = elim (Option-cases (event_of events d.event_id)) [
  | inl missing ↦ elim (Bool-cases (q d)) [
    | inl hit ↦ rw (hit, missing, join_events) (join_events-select events q ds)
    | inr miss ↦ rw (miss, missing, join_events) (join_events-select events q ds)
  ]
  | inr (e, found) ↦ elim (Bool-cases (q d)) [
    | inl hit ↦
        rw (hit, found, join_events)
          (rw hit (ap (λ r. (d, e) ∷ r) (join_events-select events q ds)))
    | inr miss ↦ rw (miss, found, join_events) (rw miss (join_events-select events q ds))
  ]
]

pub join_events-All :
    (events : List RawEvent) (P : DeliveryRow → Type 0) (ds : List DeliveryRow)
    → All P ds
    → All (λ p. P p.0) (join_events events ds)
unfolding join_events
join_events-All events P [] h = tt
join_events-All events P (d ∷ ds) h = elim (Option-cases (event_of events d.event_id)) [
  | inl missing ↦ rw (missing, join_events) (join_events-All events P ds h.1)
  | inr (e, found) ↦ rw (found, join_events) (h.0, join_events-All events P ds h.1)
]
