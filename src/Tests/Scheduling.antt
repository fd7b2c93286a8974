-- ===== src/Tests/Scheduling.antt =====
-- An event is scheduled.
use outbox_dispatcher.Base.{◌≤◌, ◌≡◌, refl, List, [], ◌∷◌, ◌++◌, ok, All, arith}
use outbox_dispatcher.Schema.{DeliveryRow}
use outbox_dispatcher.Repo.Db.{Db, event_of, refused}
use outbox_dispatcher.Repo.Scheduling.Inserts.{HasRow, IsTable}
use outbox_dispatcher.Scheduler.{schedule_event, Loop, cycle}
use outbox_dispatcher.Scheduler.Cursor.{cycle-le}
use outbox_dispatcher.Text.{chars}
use outbox_dispatcher.Repo.Error.{database as db_error}
use outbox_dispatcher.Dispatch.{Callback}
use outbox_dispatcher.Dispatch.Exhaustion.{always_fails}
use outbox_dispatcher.Scheduler.Rows.{IsKnown, planned, schedule_event_again, schedule_event_adds}
use outbox_dispatcher.Tests.Data.{config, parse_url, event, row, database}

-- The event, with one of its rows there.
abbrev half_done : Db
half_done = record database { deliveries = row ∷ [] }

known : IsKnown 700 half_done
unfolding event_of
known = refl

schedule_event_again_example :
    let (first, once) = schedule_event parse_url config event half_done in
    let (second, twice) = schedule_event parse_url config event once in
    (first ≡ ok tt) × (second ≡ ok tt) × (twice.deliveries ≡ once.deliveries)
schedule_event_again_example = schedule_event_again parse_url config event half_done refl known

schedule_event_adds_example :
    let (result, db') = schedule_event parse_url config event half_done in
    (result ≡ ok tt)
    × ((more : List DeliveryRow) × (db'.deliveries ≡ half_done.deliveries ++ more))
    × All (HasRow 700 db'.deliveries) (planned parse_url config event)
    × IsTable db'
schedule_event_adds_example =
    schedule_event_adds parse_url config event half_done refl known
      ((refl, tt), (omega arith, omega arith))

-- The wake loop in its first round, on a database that does not answer.
abbrev start : Loop
start = record { cursor = 3; consecutive_errors = 0; last_sweep = 0; next_poll = 2000 }

abbrev receiver : Callback
receiver = always_fails (chars "500") 12345

abbrev broken : Db
broken = record half_done { faults = refused (chars "connection reset") ∷ [] }

cycle-le_example : 3 ≤ (cycle parse_url receiver config start broken).0.cursor
cycle-le_example = cycle-le parse_url config receiver start broken
