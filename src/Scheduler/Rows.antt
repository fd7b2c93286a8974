-- ===== src/Scheduler/Rows.antt =====
-- The rows that scheduling an event inserts.
use outbox_dispatcher.Base.{
  ℕ, ◌≡◌, refl, sym, ap, ◌∙◌, Bool, true, Option, List, [], ◌∷◌, ◌++◌, map, ltb, if◌then◌else◌,
  is_empty, is_some, All, ok, Bool-cases, inl, inr,
}
use outbox_dispatcher.Text.{Text}
use outbox_dispatcher.Json.{as_array}
use outbox_dispatcher.Schema.{RawEvent, CallbackTarget, DeliveryRow}
use outbox_dispatcher.Config.{DispatchConfig}
use outbox_dispatcher.Callbacks.Messages.{payload_too_large_error}
use outbox_dispatcher.Callbacks.Url.{Url}
use outbox_dispatcher.Callbacks.Parse.{Invalid, ParsedCallbacks, parse_callbacks}
use outbox_dispatcher.Repo.Db.{Db, Action, query, pure, event_of, ◌>>=◌}
use outbox_dispatcher.Repo.Query.{IsHealthy, query_healthy}
use outbox_dispatcher.Repo.Scheduling.{
  NewDelivery, insert_all, insert_statement, target_row, invalid_row, ensure_deliveries,
  create_invalid_deliveries,
}
use outbox_dispatcher.Repo.Scheduling.Inserts.{
  HasRow, insert_all-prefix, insert_all-HasRow, insert_all-again, insert_all-keeps,
  insert_all-append, IsTable, insert_all-IsTable,
}
use outbox_dispatcher.Scheduler.{
  extract_callback_names, with_reason, first_message, rejected_at_root, expand, schedule_event,
}

-- The event's row is there, so that the foreign key holds.
abbrev pub IsKnown : ℕ → Db → Type 0
IsKnown event_id db = is_some (event_of db.events event_id) ≡ true

insert_healthy :
    (event_id : ℕ) (news : List NewDelivery) (db : Db)
    → IsHealthy db
    → IsKnown event_id db
    → query (insert_statement event_id news) db ≡ (ok tt, insert_all db event_id news)
unfolding insert_statement
insert_healthy event_id news db h known =
    rw (query_healthy (insert_statement event_id news) db h) (rw known refl)

ensure_healthy :
    (event_id : ℕ) (callbacks : List CallbackTarget) (db : Db)
    → IsHealthy db
    → IsKnown event_id db
    → ensure_deliveries event_id callbacks db
      ≡ (ok tt, insert_all db event_id (map target_row callbacks))
unfolding ensure_deliveries insert_all
ensure_healthy event_id [] db h known = refl
ensure_healthy event_id (c ∷ cs) db h known =
    insert_healthy event_id (map target_row (c ∷ cs)) db h known

invalid_healthy :
    (event_id : ℕ) (entries : List (Text × Text)) (db : Db)
    → IsHealthy db
    → IsKnown event_id db
    → create_invalid_deliveries event_id entries db
      ≡ (ok tt, insert_all db event_id (map invalid_row entries))
unfolding create_invalid_deliveries insert_all
invalid_healthy event_id [] db h known = refl
invalid_healthy event_id (c ∷ cs) db h known =
    insert_healthy event_id (map invalid_row (c ∷ cs)) db h known

-- The rows of a list that was parsed.
abbrev pub expanded : ParsedCallbacks → List NewDelivery
expanded parsed =
    map target_row parsed.valid ++ map invalid_row (map (λ e. (e.0, e.2)) parsed.invalid)

skip_valid :
    (event_id : ℕ) (callbacks : List CallbackTarget)
    → (if is_empty callbacks then pure tt else ensure_deliveries event_id callbacks)
      ≡ ensure_deliveries event_id callbacks
unfolding ensure_deliveries
skip_valid event_id [] = refl
skip_valid event_id (c ∷ cs) = refl

skip_invalid :
    (event_id : ℕ) (invalid : List Invalid)
    → (if is_empty invalid
        then pure tt
        else create_invalid_deliveries event_id (map (λ e. (e.0, e.2)) invalid))
      ≡ create_invalid_deliveries event_id (map (λ e. (e.0, e.2)) invalid)
unfolding create_invalid_deliveries
skip_invalid event_id [] = refl
skip_invalid event_id (e ∷ es) = refl

IsKnown-insert_all :
    (event_id : ℕ) (news : List NewDelivery) (db : Db)
    → IsKnown event_id db
    → IsKnown event_id (insert_all db event_id news)
IsKnown-insert_all event_id news db known = rw (insert_all-keeps db event_id news).0 known

expand_healthy :
    (event_id : ℕ) (parsed : ParsedCallbacks) (db : Db)
    → IsHealthy db
    → IsKnown event_id db
    → expand event_id parsed db ≡ (ok tt, insert_all db event_id (expanded parsed))
unfolding expand
expand_healthy event_id parsed db h known =
    let valid = map target_row parsed.valid in
    let entries = map (λ e. (e.0, e.2)) parsed.invalid in
    let then_invalid : Action (Unit {0}) = create_invalid_deliveries event_id entries in
    let db' = insert_all db event_id valid in
    ap (λ m. (m >>= λ _. if is_empty parsed.invalid then pure tt else then_invalid) db)
      (skip_valid event_id parsed.valid)
    ∙ ap (λ m. (ensure_deliveries event_id parsed.valid >>= λ _. m) db)
        (skip_invalid event_id parsed.invalid)
    ∙ ap (λ p. ((λ _. p) >>= λ _. then_invalid) db)
        (ensure_healthy event_id parsed.valid db h known)
    ∙ invalid_healthy event_id entries db' ((insert_all-keeps db event_id valid).1 ∙ h)
        (IsKnown-insert_all event_id valid db known)
    ∙ ap (λ d. (ok tt, d)) (sym (insert_all-append db event_id valid (map invalid_row entries)))

-- The outcome that the documentation asks for, as rows: too large an event has all its names
-- dead-lettered, a list that is rejected as a whole has all its names dead-lettered with the reason,
-- any other has a row for each valid callback and a dead-lettered one for each invalid callback.
abbrev pub rejected : RawEvent → Text → List NewDelivery
rejected event reason =
    map invalid_row (with_reason reason (extract_callback_names event.callbacks))

module _ (parse_url : Text → Option Url) (config : DispatchConfig) where
  abbrev pub is_too_large : RawEvent → Bool
  is_too_large event = ltb config.payload_size_limit_bytes event.payload_size_bytes

  unfoldable pub planned : RawEvent → List NewDelivery
  planned event =
      let parsed = parse_callbacks parse_url event.callbacks config in
      if is_too_large event
      then rejected event
          (payload_too_large_error event.payload_size_bytes config.payload_size_limit_bytes)
      else if rejected_at_root parsed
      then (if is_some (as_array event.callbacks)
          then rejected event (first_message parsed.invalid)
          else [])
      else expanded parsed

  -- On a healthy database that has the event, scheduling it succeeds and inserts its planned rows.
  pub schedule_event_healthy :
      (event : RawEvent) (db : Db)
      → IsHealthy db
      → IsKnown event.event_id db
      → schedule_event parse_url config event db
        ≡ (ok tt, insert_all db event.event_id (planned event))
  unfolding schedule_event planned insert_all
  schedule_event_healthy event db h known =
      let parsed = parse_callbacks parse_url event.callbacks config in
      elim (Bool-cases (is_too_large event)) [
        | inl large ↦ rw large (
            invalid_healthy event.event_id
              (with_reason
                (payload_too_large_error event.payload_size_bytes config.payload_size_limit_bytes)
                (extract_callback_names event.callbacks))
              db h known)
        | inr fits ↦ elim (Bool-cases (rejected_at_root parsed)) [
          | inr good ↦ rw (fits, good) (expand_healthy event.event_id parsed db h known)
          | inl bad ↦ elim (Bool-cases (is_some (as_array event.callbacks))) [
            | inr scalar ↦ rw (fits, bad, scalar) refl
            | inl listed ↦
                rw (fits, bad, listed)
                  (invalid_healthy event.event_id
                    (with_reason (first_message parsed.invalid)
                      (extract_callback_names event.callbacks))
                    db h known)
          ]
        ]
      ]

  -- Scheduling an event a second time, as after a crash before the cursor moved, changes no row.
  pub schedule_event_again :
      (event : RawEvent) (db : Db)
      → IsHealthy db
      → IsKnown event.event_id db
      → let (first, once) = schedule_event parse_url config event db in
        let (second, twice) = schedule_event parse_url config event once in
        (first ≡ ok tt) × (second ≡ ok tt) × (twice.deliveries ≡ once.deliveries)
  schedule_event_again event db h known =
      let once = insert_all db event.event_id (planned event) in
      let keeps = insert_all-keeps db event.event_id (planned event) in
      rw (schedule_event_healthy event db h known) (
        rw
          (schedule_event_healthy event once (keeps.1 ∙ h)
            (IsKnown-insert_all event.event_id (planned event) db known))
          (
            refl,
            refl,
            insert_all-again once event.event_id (planned event)
                (insert_all-HasRow db event.event_id (planned event)),
          ))

  -- Scheduling an event on a healthy database that has it leaves the rows that are there as they
  -- are, adds its own after them so that each planned callback has a row, and keeps the table's
  -- keys distinct.
  pub schedule_event_adds :
      (event : RawEvent) (db : Db)
      → IsHealthy db
      → IsKnown event.event_id db
      → IsTable db
      → let (result, db') = schedule_event parse_url config event db in
        (result ≡ ok tt)
        × ((more : List DeliveryRow) × (db'.deliveries ≡ db.deliveries ++ more))
        × All (HasRow event.event_id db'.deliveries) (planned event)
        × IsTable db'
  schedule_event_adds event db h known table = rw (schedule_event_healthy event db h known) (
    refl,
    insert_all-prefix db event.event_id (planned event),
    insert_all-HasRow db event.event_id (planned event),
    insert_all-IsTable db event.event_id (planned event) table,
  )
