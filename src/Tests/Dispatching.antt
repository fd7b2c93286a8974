-- ===== src/Tests/Dispatching.antt =====
-- Attempts and replicas, run.
use outbox_dispatcher.Base.{◌≡◌, refl, true, some, none, [], ◌∷◌, ok, arith}
use outbox_dispatcher.Text.{chars}
use outbox_dispatcher.Repo.Db.{query}
use outbox_dispatcher.Repo.Rows.{find_row}
use outbox_dispatcher.Repo.Dispatching.{lock_delivery, lock_guard}
use outbox_dispatcher.Repo.Admin.{abandon_delivery, retry_delivery}
use outbox_dispatcher.Dispatch.{record_failure}
use outbox_dispatcher.Dispatch.Attempt.{IsUnderWay, At}
use outbox_dispatcher.Dispatch.Exhaustion.{always_fails, Counts, redeliver, redeliver-Counts}
use outbox_dispatcher.Dispatch.Revival.{IsRevived, abandon_undone}
use outbox_dispatcher.Dispatch.Replicas.{System, lock, retry, Reach, here, later}
use outbox_dispatcher.Dispatch.Replicas.Exclusive.{IsExclusive, Reach-IsExclusive}
use outbox_dispatcher.Tests.Data.{config, row, database, due}

found_1 : find_row 1 database.deliveries ≡ some row
unfolding find_row
found_1 = refl

row-IsUnderWay : IsUnderWay row
row-IsUnderWay = record { undispatched = refl; unprocessed = refl; alive = refl }

row-Counts : Counts 0 6 (find_row 1 database.deliveries)
unfolding find_row
row-Counts = (refl, refl, refl, refl)

redeliver-Counts_example :
    Counts 6 6
      (find_row 1 (redeliver (always_fails (chars "500") 12345) config due 6 database).deliveries)
redeliver-Counts_example =
    redeliver-Counts config (chars "500") 12345 6 due 3 database refl
      (omega arith, (omega arith, omega arith)) (omega arith) row-Counts

abandon_undone_example :
    let db' = (abandon_delivery 1 database).1 in
    At (λ a. a.dead_letter ≡ true) (find_row 1 db'.deliveries)
    × At IsRevived (find_row 1 (record_failure due (chars "500") none 12345 db').deliveries)
abandon_undone_example =
    abandon_undone due (chars "500") none 12345 database row refl found_1 row-IsUnderWay
      (omega arith)

-- One replica locks the first delivery, an operator retries it, and another replica tries it too.
abbrev idle : System
idle = record { db = database; flights = [] }

granted : (lock_delivery 1 5000 database).0 ≡ ok true
unfolding lock_delivery query lock_guard
granted = refl

abbrev calling : System
calling = record {
  db = (lock_delivery 1 5000 database).1;
  flights = record { id = 1; until = 5000 } ∷ [];
}

abbrev run : Reach idle (record calling { db = (retry_delivery 1 calling.db).1 })
run = later (later here (lock 1 5000 (omega arith) granted)) (retry 1)

Reach-IsExclusive_example : IsExclusive (record calling { db = (retry_delivery 1 calling.db).1 })
Reach-IsExclusive_example =
    Reach-IsExclusive run ((tt, tt), tt) (omega arith, (omega arith, omega arith)) refl
