-- ===== src/Repo/Stats/Breakdown.antt =====
-- The breakdown by callback adds up to the totals.
use mathlib.Core.Path.{fun_ext}
use outbox_dispatcher.Base.{
  ℕ, ◌+◌, ◌≡◌, refl, sym, ap, ◌∙◌, Bool, true, false, ◌&&◌, List, [], ◌∷◌, map, count, length,
  is_some, All, All-imp, ok, Bool-cases, Option-cases, inl, inr, arith,
}
use outbox_dispatcher.Text.{Text, text_eq, contains, text_eq_sound, text_eq_refl, text_eq_comm}
use outbox_dispatcher.Schema.{RawEvent, DeliveryRow, CallbackStats, Stats}
use outbox_dispatcher.Repo.Db.{Db, Action, event_of, ◌>>=◌, query, pure}
use outbox_dispatcher.Repo.Query.{IsHealthy, bind_healthy}
use outbox_dispatcher.Repo.Dispatching.{join_events}
use outbox_dispatcher.Repo.Sweep.{awaits_completion}
use outbox_dispatcher.Repo.Stats.{
  Totals, is_pending, pending_in, is_dead, totals, group_names, count_in, callback_stats,
  fetch_stats,
}

-- The sum of a column over the groups.
abbrev pub sum_by {ℓ} : {A : Type ℓ} → (A → ℕ) → List A → ℕ
sum_by f [] = 0
sum_by f (x ∷ xs) = f x + sum_by f xs

sum_by-add :
    {A : Type 0} (f g h : A → ℕ) (xs : List A)
    → ((x : A) → f x ≡ g x + h x)
    → sum_by f xs ≡ sum_by g xs + sum_by h xs
sum_by-add f g h [] e = refl
sum_by-add f g h (x ∷ xs) e = omega (arith, e x, sum_by-add f g h xs e)

sum_by-zero : {A : Type 0} (f : A → ℕ) (xs : List A) → ((x : A) → f x ≡ 0) → sum_by f xs ≡ 0
sum_by-zero f [] e = refl
sum_by-zero f (x ∷ xs) e = omega (arith, e x, sum_by-zero f xs e)

abbrev Distinct : List Text → Type 0
Distinct [] = Unit
Distinct (n ∷ ns) = (contains ns n ≡ false) × Distinct ns

abbrev one_if : Bool → ℕ
one_if true = 1
one_if false = 0

-- A name that stands in a list of distinct names stands there once.
once :
    (name : Text) (names : List Text)
    → Distinct names
    → sum_by (λ n. one_if (text_eq name n)) names ≡ one_if (contains names name)
unfolding contains
once name [] d = refl
once name (n ∷ ns) d = elim (Bool-cases (text_eq n name)) [
  | inl hit ↦
      let e : n ≡ name = text_eq_sound n name hit in
      let absent : contains ns name ≡ false = rw e at d.0 in
      let rest : sum_by (λ k. one_if (text_eq name k)) ns ≡ 0 =
        once name ns d.1 ∙ ap one_if absent in
      let this : text_eq name n ≡ true = text_eq_comm name n ∙ hit in
      rw (hit, contains) (rw this (omega (arith, rest)))
  | inr miss ↦
      let this : text_eq name n ≡ false = text_eq_comm name n ∙ miss in
      rw (miss, contains) (rw this (omega (arith, once name ns d.1)))
]

once_if :
    (name : Text) (names : List Text) (b : Bool)
    → Distinct names
    → sum_by (λ n. one_if (text_eq name n && b)) names ≡ one_if (contains names name && b)
once_if name names true d =
    ap (λ (f : Text → ℕ). sum_by f names) (fun_ext (λ n. ground arith))
    ∙ once name names d
    ∙ ground arith
once_if name names false d = sum_by-zero _ names (λ n. ground arith) ∙ ground arith

-- Each row is counted under one name.
sum_by-count_in :
    (p : DeliveryRow → Bool) (names : List Text) (ds : List DeliveryRow)
    → Distinct names
    → All (λ d. contains names d.callback_name ≡ true) ds
    → sum_by (λ n. count_in n p ds) names ≡ count p ds
sum_by-count_in p names [] d h = sum_by-zero _ names (λ n. refl)
sum_by-count_in p names (r ∷ rs) d h =
    let this : Text → ℕ = λ n. one_if (text_eq r.callback_name n && p r) in
    let split =
      sum_by-add (λ n. count_in n p (r ∷ rs)) this (λ n. count_in n p rs) names
        (λ n. ground arith) in
    let rest = sum_by-count_in p names rs d h.1 in
    let own : sum_by this names ≡ one_if (p r) =
      once_if r.callback_name names (p r) d ∙ ap (λ b. one_if (b && p r)) h.0 in
    let head : count p (r ∷ rs) ≡ one_if (p r) + count p rs = ground arith in
    omega (arith, split, own, rest, head)

group_names-Distinct : (ds : List DeliveryRow) → Distinct (group_names ds)
unfolding group_names
group_names-Distinct [] = tt
group_names-Distinct (d ∷ ds) = elim (Bool-cases (contains (group_names ds) d.callback_name)) [
  | inl old ↦ rw old (group_names-Distinct ds)
  | inr new ↦ rw new (new, group_names-Distinct ds)
]

group_names-grows :
    (d : DeliveryRow) (ds : List DeliveryRow) (m : Text)
    → contains (group_names ds) m ≡ true
    → contains (group_names (d ∷ ds)) m ≡ true
unfolding group_names contains
group_names-grows d ds m h = elim (Bool-cases (contains (group_names ds) d.callback_name)) [
  | inl old ↦ rw (group_names, old) h
  | inr new ↦ rw (group_names, new) (ground arith)
]

group_names-head :
    (d : DeliveryRow) (ds : List DeliveryRow)
    → contains (group_names (d ∷ ds)) d.callback_name ≡ true
unfolding group_names contains
group_names-head d ds = elim (Bool-cases (contains (group_names ds) d.callback_name)) [
  | inl old ↦ rw (group_names, old) old
  | inr new ↦ rw (group_names, new) (ground (arith, text_eq_refl d.callback_name))
]

-- Every row's name is the name of a group.
group_names-All :
    (ds : List DeliveryRow) → All (λ d. contains (group_names ds) d.callback_name ≡ true) ds
group_names-All [] = tt
group_names-All (d ∷ ds) = (
  group_names-head d ds,
  All-imp _ _ ds (λ x. group_names-grows d ds x.callback_name) (group_names-All ds),
)

-- The foreign key of `outbox_deliveries`.
abbrev pub HasEvents : Db → Type 0
HasEvents db = All (λ d. is_some (event_of db.events d.event_id) ≡ true) db.deliveries

count-join_events :
    (p : DeliveryRow → Bool) (events : List RawEvent) (ds : List DeliveryRow)
    → All (λ d. is_some (event_of events d.event_id) ≡ true) ds
    → count (λ j. p j.0) (join_events events ds) ≡ count p ds
unfolding join_events
count-join_events p events [] h = refl
count-join_events p events (d ∷ ds) h = elim (Option-cases (event_of events d.event_id)) [
  | inl missing ↦ let e : false ≡ true = rw missing at h.0 in absurd (cc)
  | inr (e, found) ↦ rw (found, join_events) (ground (arith, count-join_events p events ds h.1))
]

-- The rows of a callback that await their first dispatch are managed or external.
count-pending :
    (name : Text) (ds : List DeliveryRow)
    → count_in name is_pending ds
      ≡ count_in name (pending_in false) ds + count_in name (pending_in true) ds
count-pending name [] = refl
count-pending name (d ∷ ds) = ground (arith, count-pending name ds)

sum_by-map :
    {A B : Type 0} (f : B → ℕ) (g : A → B) (xs : List A)
    → sum_by f (map g xs) ≡ sum_by (λ x. f (g x)) xs
sum_by-map f g [] = refl
sum_by-map f g (x ∷ xs) = omega (arith, sum_by-map f g xs)

-- One column of the breakdown.
column :
    (p : DeliveryRow → Bool) (f : Text × CallbackStats → ℕ) (ds : List DeliveryRow)
    → ((n : Text) → f (n, callback_stats ds n) ≡ count_in n p ds)
    → sum_by f (map (λ n. (n, callback_stats ds n)) (group_names ds)) ≡ count p ds
column p f ds e =
    sum_by-map f _ (group_names ds)
    ∙ ap (λ (g : Text → ℕ). sum_by g (group_names ds)) (fun_ext e)
    ∙ sum_by-count_in p (group_names ds) ds (group_names-Distinct ds) (group_names-All ds)

breakdown : Db → List (Text × CallbackStats)
breakdown db = map (λ name. (name, callback_stats db.deliveries name)) (group_names db.deliveries)

report : ℕ → Totals → List (Text × CallbackStats) → Stats
report events_total sums callbacks = record {
  events_total = events_total;
  deliveries_pending = sums.pending;
  deliveries_external_pending = sums.external_pending;
  deliveries_dead_lettered = sums.dead_lettered;
  oldest_pending_age = sums.oldest_age;
  callbacks = callbacks;
}

stats_of : Db → Stats
unfolding breakdown report
stats_of db = report (length db.events) (totals db) (breakdown db)

fetch_stats_healthy : (db : Db) → IsHealthy db → fetch_stats db ≡ (ok (stats_of db), db)
unfolding fetch_stats stats_of
fetch_stats_healthy db h =
    let total = length db.events in
    let third : Totals → Action Stats = λ sums.
      query (λ d. ok (breakdown d, d)) >>= λ callbacks. pure (report total sums callbacks) in
    let second : ℕ → Action Stats = λ n. query (λ d. ok (totals d, d)) >>= λ sums.
    query (λ d. ok (breakdown d, d)) >>= λ callbacks. pure (report n sums callbacks) in
    bind_healthy (λ d. ok (length d.events, d)) second db h
    ∙ bind_healthy (λ d. ok (totals d, d)) third db h
    ∙ bind_healthy (λ d. ok (breakdown d, d))
        (λ callbacks. pure (report total (totals db) callbacks)) db h

-- On a healthy database whose deliveries all have their events, the statistics count every event,
-- and the columns of the breakdown by callback add up to the totals: managed and external ones
-- that are pending to the pending ones, and so for those that await their completion and the dead.
pub fetch_stats-adds :
    (db : Db)
    → IsHealthy db
    → HasEvents db
    → (stats : Stats) × (fetch_stats db ≡ (ok stats, db))
      × (stats.events_total ≡ length db.events)
      × (sum_by (λ c. c.1.pending_managed + c.1.pending_external) stats.callbacks
          ≡ stats.deliveries_pending)
      × (sum_by (λ c. c.1.external_pending) stats.callbacks ≡ stats.deliveries_external_pending)
      × (sum_by (λ c. c.1.dead_lettered) stats.callbacks ≡ stats.deliveries_dead_lettered)
unfolding totals callback_stats stats_of
fetch_stats-adds db h parents = (
  stats_of db,
  fetch_stats_healthy db h,
  refl,
  column is_pending _ db.deliveries (λ n. sym (count-pending n db.deliveries))
      ∙ sym (count-join_events is_pending db.events db.deliveries parents),
  column awaits_completion _ db.deliveries (λ n. refl)
      ∙ sym (count-join_events awaits_completion db.events db.deliveries parents),
  column is_dead _ db.deliveries (λ n. refl)
      ∙ sym (count-join_events is_dead db.events db.deliveries parents),
)
