-- ===== src/Repo/Sweep/Counts.antt =====
-- What a sweep reports, against what it does to the table.
use mathlib.Core.Path.{subst}
use outbox_dispatcher.Base.{
  ℕ, ◌+◌, ◌≡◌, refl, Bool, true, Option, none, some, List, [], ◌∷◌, length, count, is_some, arith,
  Bool-cases, inl, inr, Result, ok, err, ◌>>=◌, Ensures, returns, fails, bind-Ensures, any-Ensures,
  ok-injective,
}
use outbox_dispatcher.Text.{Text}
use outbox_dispatcher.Schema.{Time, RawEvent, DeliveryRow, SweepReport}
use outbox_dispatcher.Repo.Error.{Error}
use outbox_dispatcher.Repo.Db.{
  Db, Fault, healthy, refused, unanswered, answer, befall, query, next_fault, other_faults,
}
use outbox_dispatcher.Repo.Sweep.{
  cb_match, awaits_completion, is_exhausted, sweep_row, hung, sweep_one, sweep_rows,
  sweep_statement, reset_hung_external,
}

-- Only a row that awaits its completion is hung.
hung-Awaits :
    (events : List RawEvent) (now : Time) (default : ℕ) (d : DeliveryRow)
    → Ensures (λ m. is_some m ≡ true → awaits_completion d ≡ true) (hung events now default d)
unfolding hung
hung-Awaits events now default d = elim (Bool-cases (awaits_completion d)) [
  | inr absent ↦ rw absent (returns (λ h. cc))
  | inl waits ↦
      rw waits (bind-Ensures (any-Ensures (cb_match events d default)) λ m _. returns (λ _. refl))
]

abbrev is_dead : DeliveryRow → Bool
is_dead d = d.dead_letter

-- Each row that the report counts has left the wait, and each that it counts as exhausted is dead.
abbrev pub Balanced : List DeliveryRow → List DeliveryRow → SweepReport → Type 0
Balanced before after report =
    (length after ≡ length before)
    × (count is_dead after ≡ count is_dead before + report.exhausted)
    × (count awaits_completion before
        ≡ count awaits_completion after + (report.reset + report.exhausted))

one-Balanced :
    (now : Time) (m : Option ℕ) (d : DeliveryRow) (before after : List DeliveryRow)
    (report : SweepReport)
    → (is_some m ≡ true → awaits_completion d ≡ true)
    → Balanced before after report
    → let (d', report') = sweep_one now m d report in Balanced (d ∷ before) (d' ∷ after) report'
unfolding sweep_one sweep_row awaits_completion
one-Balanced now none d before after report waits b = ground arith
one-Balanced now (some n) d before after report waits b = elim (Bool-cases (is_exhausted d n)) [
  | inl over ↦ ground arith
  | inr more ↦ ground arith
]

rows-Balanced :
    (events : List RawEvent) (now : Time) (default : ℕ) (ds : List DeliveryRow)
    → Ensures (λ result. Balanced ds result.0 result.1) (sweep_rows events now default ds)
unfolding sweep_rows
rows-Balanced events now default [] = returns (refl, refl, refl)
rows-Balanced events now default (d ∷ ds) =
    bind-Ensures (hung-Awaits events now default d) λ m waits.
      bind-Ensures (rows-Balanced events now default ds)
        λ rest b. returns (one-Balanced now m d ds rest.0 rest.1 waits b)

answer-Balanced :
    (ds : List DeliveryRow) (db : Db) (r : Result Text (List DeliveryRow × SweepReport))
    (report : SweepReport)
    → Ensures (λ result. Balanced ds result.0 result.1) r
    → let (result, db') =
        answer (r >>= λ rows. ok (rows.1, record db { deliveries = rows.0 })) db in
      result ≡ ok report → Balanced ds db'.deliveries report
answer-Balanced ds db (ok rows) report (returns b) h =
    subst (Balanced ds rows.0) (ok-injective {E = Error} h) b
answer-Balanced ds db (err t) report fails h = cc

-- What an answered sweep reports is what it did: no row is lost, the dead rows grow by the number
-- of exhausted ones, and the rows that await their completion shrink by all the rows reported.
pub reset_hung_external-Balanced :
    (now : Time) (max_completion_cycles : ℕ) (db : Db) (report : SweepReport)
    → let (result, db') = reset_hung_external now max_completion_cycles db in
      result ≡ ok report → Balanced db.deliveries db'.deliveries report
unfolding reset_hung_external query befall sweep_statement
reset_hung_external-Balanced now default db report = go (next_fault db.faults)
  where
    db0 : Db
    db0 = record db { faults = other_faults db.faults }

    go :
        (f : Fault)
        → let (result, db') = befall f (sweep_statement now default) db0 in
          result ≡ ok report → Balanced db.deliveries db'.deliveries report
    go healthy h =
        answer-Balanced db.deliveries db0 (sweep_rows db.events now default db.deliveries) report
          (rows-Balanced db.events now default db.deliveries) h
    go (refused t) h = cc
    go (unanswered t) h = cc
