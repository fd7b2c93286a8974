-- ===== src/Repo/Keys.antt =====
-- The keys of the deliveries, and the statements that leave them and the events alone.
use outbox_dispatcher.Base.{
  ℕ, ◌≡◌, refl, ap, ◌∙◌, Option, none, some, Bool, List, [], ◌∷◌, map, any, ◌==◌, ◌&&◌, Bool-cases,
  inl, inr, Returns, Result-cases,
}
use outbox_dispatcher.Text.{Text, text_eq}
use outbox_dispatcher.Schema.{Time, RawEvent, DeliveryRow, SweepReport}
use outbox_dispatcher.Repo.Db.{Db, query, update, update_where, ◌>>=◌, pure, other_faults}
use outbox_dispatcher.Repo.Query.{query-Keeps, bind_pure-db}
use outbox_dispatcher.Repo.Scheduling.{same_key}
use outbox_dispatcher.Repo.Sweep.{
  hung, sweep_row, sweep_one, sweep_rows, sweep_statement, reset_hung_external, is_exhausted,
}

-- The columns of UNIQUE (event_id, callback_name).
abbrev pub key : DeliveryRow → ℕ × Text
key r = (r.event_id, r.callback_name)

-- The tables with these events and these keys, on a healthy connection.
abbrev pub Kept : List RawEvent → List (ℕ × Text) → Db → Type 0
Kept es ks db = (db.events ≡ es) × (db.faults ≡ []) × (map key db.deliveries ≡ ks)

abbrev pub KeepsKey : (DeliveryRow → DeliveryRow) → Type 0
KeepsKey f = (r : DeliveryRow) → key (f r) ≡ key r

key-update_where :
    (p : DeliveryRow → Bool) (f : DeliveryRow → DeliveryRow) (rs : List DeliveryRow)
    → KeepsKey f
    → map key (update_where p f rs) ≡ map key rs
key-update_where p f [] keeps = refl
key-update_where p f (r ∷ rs) keeps =
    let rest = key-update_where p f rs keeps in
    elim (Bool-cases (p r)) [
      | inl hit ↦
          rw hit
            (ap (λ k. k ∷ map key (update_where p f rs)) (keeps r) ∙ ap (λ ks. key r ∷ ks) rest)
      | inr miss ↦ rw miss (ap (λ ks. key r ∷ ks) rest)
    ]

-- A row is found by its key in one table as in another with the same keys.
pub any-same_key :
    (event_id : ℕ) (name : Text) (rs : List DeliveryRow)
    → any (same_key event_id name) rs ≡ any (λ k. k.0 == event_id && text_eq k.1 name) (map key rs)
any-same_key event_id name [] = refl
any-same_key event_id name (r ∷ rs) = rw (any-same_key event_id name rs) refl

module _ (es : List RawEvent) (ks : List (ℕ × Text)) where
  -- The round trip itself.
  pub base-Kept :
      (db : Db) → Kept es ks db → Kept es ks (record db { faults = other_faults db.faults })
  base-Kept db h = (h.0, ap other_faults h.1, h.2)

  -- An UPDATE that leaves the two columns alone.
  pub update-Kept :
      (p : Db → DeliveryRow → Bool) (f : Db → DeliveryRow → DeliveryRow) (db : Db)
      → ((d : Db) → KeepsKey (f d))
      → Kept es ks db
      → Kept es ks (query (λ d. update (p d) (f d) d) db).1
  update-Kept p f db keeps h =
      query-Keeps (Kept es ks) (λ d. update (p d) (f d) d) db (base-Kept db h)
        λ d k. (k.0, k.1, key-update_where (p d) (f d) d.deliveries (keeps d) ∙ k.2)

  -- The same where the answer is shaped afterwards.
  pub shaped-Kept :
      {B : Type 0} (g : ℕ → B) (p : Db → DeliveryRow → Bool) (f : Db → DeliveryRow → DeliveryRow)
      (db : Db)
      → ((d : Db) → KeepsKey (f d))
      → Kept es ks db
      → Kept es ks ((query (λ d. update (p d) (f d) d) >>= λ n. pure (g n)) db).1
  shaped-Kept g p f db keeps h =
      rw (bind_pure-db (query (λ d. update (p d) (f d) d)) g db) (update-Kept p f db keeps h)

  sweep_one-key :
      (now : Time) (m : Option ℕ) (d : DeliveryRow) (report : SweepReport)
      → key (sweep_one now m d report).0 ≡ key d
  unfolding sweep_one sweep_row
  sweep_one-key now none d report = refl
  sweep_one-key now (some n) d report = elim (Bool-cases (is_exhausted d n)) [
    | inl over ↦ rw over refl
    | inr more ↦ rw more refl
  ]

  sweep_rows-key :
      (events : List RawEvent) (now : Time) (default : ℕ) (rows : List DeliveryRow)
      → Returns (λ out. map key out.0 ≡ map key rows) (sweep_rows events now default rows)
  unfolding sweep_rows
  sweep_rows-key events now default [] = refl
  sweep_rows-key events now default (r ∷ rs) = elim (Result-cases (hung events now default r)) [
    | inl (m, e) ↦ elim (Result-cases (sweep_rows events now default rs)) [
      | inl (out, e') ↦
          rw (sweep_rows, e, e')
            (ap (λ k. k ∷ map key out.0) (sweep_one-key now m r out.1)
              ∙ ap (λ ks. key r ∷ ks) (rw e' at (sweep_rows-key events now default rs)))
      | inr (t, e') ↦ rw (sweep_rows, e, e') tt
    ]
    | inr (t, e) ↦ rw (sweep_rows, e) tt
  ]

  -- So does the sweep.
  pub sweep-Kept :
      (now : Time) (cycles : ℕ) (db : Db)
      → Kept es ks db
      → Kept es ks (reset_hung_external now cycles db).1
  unfolding reset_hung_external sweep_statement
  sweep-Kept now cycles db h =
      query-Keeps (Kept es ks) (sweep_statement now cycles) db (base-Kept db h) λ d k.
        elim (Result-cases (sweep_rows d.events now cycles d.deliveries)) [
          | inl (out, e) ↦
              rw e (k.0, k.1, (rw e at (sweep_rows-key d.events now cycles d.deliveries)) ∙ k.2)
          | inr (t, e) ↦ rw e k
        ]
