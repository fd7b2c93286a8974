-- ===== src/Repo/Stats.antt =====
-- Queries that only read: `fetch_event_with_deliveries`, `ping`, `fetch_stats`,
-- `sample_external_pending_ages`.
pub mod Breakdown
use outbox_dispatcher.Base.{
  ℕ, ◌-◌, Bool, true, false, not, ◌&&◌, Option, none, some, List, [], ◌∷◌, map, ltb, leb, ◌==◌,
  if◌then◌else◌, is_none, select, take, count, length, filter_map, Result, ok, err,
}
use outbox_dispatcher.Text.{Text, chars, text_eq, contains}
use outbox_dispatcher.Schema.{
  Time, Duration, RawEvent, DeliveryRow, is_external, RawEventSerializable, EventWithDeliveries,
  CallbackStats, Stats,
}
use outbox_dispatcher.Repo.Error.{Error, database}
use outbox_dispatcher.Repo.Db.{Db, Action, ◌>>=◌, pure, query, order_by, event_of}
use outbox_dispatcher.Repo.Dispatching.{join_events}
use outbox_dispatcher.Repo.Sweep.{awaits_completion}

-- `sqlx::Error::RowNotFound`, which `fetch_one` gives where there is no row.
abbrev pub row_not_found : Text
row_not_found = chars "no rows returned by a query that expected to return at least one row"

abbrev serializable : RawEvent → RawEventSerializable
serializable e = record {
  id = e.id;
  event_id = e.event_id;
  kind = e.kind;
  aggregate_type = e.aggregate_type;
  aggregate_id = e.aggregate_id;
  payload = e.payload;
  metadata = e.metadata;
  callbacks = e.callbacks;
  actor_id = e.actor_id;
  correlation_id = e.correlation_id;
  causation_id = e.causation_id;
  created_at = e.created_at;
}

-- `fetch_one` on a query that may give no row.
abbrev one_row : {A : Type 0} → Option A → Db → Result Text (A × Db)
one_row none db = err row_not_found
one_row (some a) db = ok (a, db)

abbrev oldest_first : DeliveryRow → DeliveryRow → Bool
oldest_first a b = leb a.id b.id

unfoldable pub fetch_event_with_deliveries : ℕ → Action EventWithDeliveries
fetch_event_with_deliveries event_id = do
  event ← query (λ db. one_row (event_of db.events event_id) db)
  deliveries ←
      query
        (λ db. ok (order_by oldest_first (select (λ d. d.event_id == event_id) db.deliveries), db))
  pure (record { event = serializable event; deliveries = deliveries })

unfoldable pub ping : Action (Unit {0})
ping = query (λ db. ok (tt, db))

-- `dispatched_at IS NULL AND processed_at IS NULL AND dead_letter = FALSE`.
unfoldable pub is_pending : DeliveryRow → Bool
is_pending d = is_none d.dispatched_at && (is_none d.processed_at && not d.dead_letter)

abbrev pub pending_in : Bool → DeliveryRow → Bool
pending_in external d =
    (if external then is_external d.completion_mode else not (is_external d.completion_mode))
    && is_pending d

abbrev pub is_dead : DeliveryRow → Bool
is_dead d = d.dead_letter

-- `MIN(e.created_at) FILTER (…)`, as an age.
oldest_pending : List (DeliveryRow × RawEvent) → Option Time
oldest_pending [] = none
oldest_pending ((d, e) ∷ rest) =
    let others = oldest_pending rest in
    let with_this : Option Time = elim others [
      | none ↦ some e.created_at
      | some t ↦ if ltb e.created_at t then some e.created_at else some t
    ] in
    if is_pending d then with_this else others

abbrev age_at : Time → Option Time → Option Duration
age_at now none = none
age_at now (some t) = some (now - t)

pub record Totals : Type 0 where
  pub pending : ℕ
  pub external_pending : ℕ
  pub dead_lettered : ℕ
  pub oldest_age : Option Duration

-- The second query: counts over the deliveries joined with their events.
unfoldable pub totals : Db → Totals
unfolding oldest_pending
totals db =
    let joined = join_events db.events db.deliveries in
    record {
      pending = count (λ p. is_pending p.0) joined;
      external_pending = count (λ p. awaits_completion p.0) joined;
      dead_lettered = count (λ p. is_dead p.0) joined;
      oldest_age = age_at db.now (oldest_pending joined);
    }

-- The groups of `GROUP BY callback_name`.
unfoldable pub group_names : List DeliveryRow → List Text
group_names [] = []
group_names (d ∷ ds) =
    let rest = group_names ds in
    if contains rest d.callback_name then rest else d.callback_name ∷ rest

abbrev pub count_in : Text → (DeliveryRow → Bool) → List DeliveryRow → ℕ
count_in name p = count (λ d. text_eq d.callback_name name && p d)

-- A row of the third query.
unfoldable pub callback_stats : List DeliveryRow → Text → CallbackStats
callback_stats ds name = record {
  pending_managed = count_in name (pending_in false) ds;
  pending_external = count_in name (pending_in true) ds;
  external_pending = count_in name awaits_completion ds;
  dead_lettered = count_in name is_dead ds;
}

unfoldable pub fetch_stats : Action Stats
fetch_stats = do
  events_total ← query (λ db. ok (length db.events, db))
  sums ← query (λ db. ok (totals db, db))
  callbacks ← query (λ db.
      ok (map (λ name. (name, callback_stats db.deliveries name)) (group_names db.deliveries), db))
  pure (record {
    events_total = events_total;
    deliveries_pending = sums.pending;
    deliveries_external_pending = sums.external_pending;
    deliveries_dead_lettered = sums.dead_lettered;
    oldest_pending_age = sums.oldest_age;
    callbacks = callbacks;
  })

-- `ORDER BY dispatched_at LIMIT …` on the rows that await their completion.
abbrev dispatch_of : DeliveryRow → Option (Time × Text)
dispatch_of d = elim d.dispatched_at [ none ↦ none | some t ↦ some (t, d.callback_name) ]

unfoldable sample_external_pending_ages : ℕ → Action (List (Text × Duration))
sample_external_pending_ages sample_size = query λ db. ok (
  map (λ s. (s.1, db.now - s.0))
      (take sample_size (
        order_by (λ a b. leb a.0 b.0)
          (filter_map dispatch_of (select awaits_completion db.deliveries)))),
  db,
)
