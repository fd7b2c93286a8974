-- ===== src/Tests/Operations.antt =====
-- Operators rescan, load keys, page through dead letters and read statistics.
use outbox_dispatcher.Base.{
  ℕ, ◌+◌, ◌<◌, ◌≡◌, refl, true, Option, none, some, List, [], ◌∷◌, ◌++◌, select, length, ltb,
  if◌then◌else◌, All, Result, ok, err, arith,
}
use outbox_dispatcher.Text.{Text, chars, text_eq}
use outbox_dispatcher.Schema.{DeliveryRow, Stats}
use outbox_dispatcher.Config.Settings.{SigningKeyConfig}
use outbox_dispatcher.Repo.Db.{Db, event_of, order_by, insert_by}
use outbox_dispatcher.Repo.Scheduling.Inserts.{IsTable}
use outbox_dispatcher.Repo.Dispatching.{join_events}
use outbox_dispatcher.Repo.Stats.{fetch_stats}
use outbox_dispatcher.Repo.Stats.Breakdown.{sum_by, HasEvents, fetch_stats-adds}
use outbox_dispatcher.Rescan.{RescanReport, max_id, rescan}
use outbox_dispatcher.Dispatch.{Callback, delivered}
use outbox_dispatcher.Scheduler.{Loop}
use outbox_dispatcher.Scheduler.Pass.{HasRows}
use outbox_dispatcher.Rescan.Covers.{rescan_covers}
use outbox_dispatcher.Keyring.{Base64, load_internal}
use outbox_dispatcher.Keyring.Loads.{Loads, load_internal-Loads}
use outbox_dispatcher.AdminApi.{
  AdminState, DeadLettersQuery, retry_route, protected_route, run_protected, serve, unauthorized,
}
use outbox_dispatcher.AdminApi.Guard.{Presents, serve_guarded}
use outbox_dispatcher.AdminApi.Listing.{listed}
use outbox_dispatcher.AdminApi.Paging.{all_dead_letters, follow_pages, follow_pages-all}
use outbox_dispatcher.Tests.Data.{config, parse_url, row, waiting_row, database, billing}

-- The event, with one of its rows there.
abbrev half_done : Db
half_done = record database { deliveries = row ∷ [] }

half_done-IsTable : IsTable half_done
half_done-IsTable = ((refl, tt), (omega arith, omega arith))

rescan_covers_example :
    (report : RescanReport) × (after : Db) × (rescan parse_url config 2 500 half_done
      ≡ some (ok report, after))
    × ((more : List DeliveryRow) × (after.deliveries ≡ half_done.deliveries ++ more))
    × All
        (λ e.
          max_id (select (λ x. ltb x.created_at 500) half_done.events) < e.id
          → HasRows parse_url config after.deliveries e)
        half_done.events
    × IsTable after
rescan_covers_example =
    rescan_covers parse_url config (omega arith) 2 500 half_done refl half_done-IsTable (tt, tt)
      (omega arith)

-- One variable that is set for the first of two keys.
abbrev pub engines : Base64
engines = record {
  standard = λ s. ok s;
  standard_no_pad = λ s. ok s;
  url_safe = λ s. ok s;
  url_safe_no_pad = λ s. ok s;
}

abbrev pub environment : Text → Result Text Text
environment name =
    if text_eq name (chars "A")
    then ok (chars "0123456789 0123456789 0123456789 01")
    else err (chars "is not set")

abbrev signing_keys : List (Text × SigningKeyConfig)
signing_keys =
    (chars "k1", record { secret_env = chars "A" })
    ∷ (chars "k2", record { secret_env = chars "B" })
    ∷ []

load_internal-Loads_example : Loads signing_keys (load_internal engines environment signing_keys)
load_internal-Loads_example = load_internal-Loads engines environment signing_keys

abbrev state : AdminState
state = record { listener_status = true; last_cycle_at = 0; ready_deadline = 0 }

abbrev authorization : Option Text
authorization = some (chars "bearer secret")

serve_guarded_example :
    (Presents (chars "secret") authorization
      → serve state (chars "secret") authorization (protected_route (retry_route 1)) database
        ≡ run_protected (retry_route 1) database)
    × (¬ Presents (chars "secret") authorization
        → serve state (chars "secret") authorization (protected_route (retry_route 1)) database
          ≡ (unauthorized, database))
serve_guarded_example = serve_guarded state (chars "secret") authorization (retry_route 1) database

-- Two dead letters, on pages of one.
abbrev dead : ℕ → DeliveryRow
dead id = record row { id = id; callback_name = billing; dead_letter = true }

abbrev buried : Db
buried = record database { deliveries = dead 1 ∷ record waiting_row { dead_letter = true } ∷ [] }

buried-IsTable : IsTable buried
unfolding text_eq
buried-IsTable = ((refl, (refl, tt)), (omega arith, (omega arith, omega arith)))

abbrev all_of_them : DeadLettersQuery
all_of_them = record { callback_name = none; before = none; limit = 1 }

few : length (all_dead_letters all_of_them buried) < 4
unfolding listed join_events order_by insert_by event_of
few = omega arith

follow_pages-all_example :
    follow_pages 4 all_of_them buried ≡ some (all_dead_letters all_of_them buried)
follow_pages-all_example = follow_pages-all none 1 buried refl buried-IsTable 4 none few

database-HasEvents : HasEvents database
unfolding event_of
database-HasEvents = (refl, (refl, tt))

fetch_stats-adds_example :
    (stats : Stats) × (fetch_stats database ≡ (ok stats, database))
    × (stats.events_total ≡ length database.events)
    × (sum_by (λ c. c.1.pending_managed + c.1.pending_external) stats.callbacks
        ≡ stats.deliveries_pending)
    × (sum_by (λ c. c.1.external_pending) stats.callbacks ≡ stats.deliveries_external_pending)
    × (sum_by (λ c. c.1.dead_lettered) stats.callbacks ≡ stats.deliveries_dead_lettered)
fetch_stats-adds_example = fetch_stats-adds database refl database-HasEvents

-- Nothing is scheduled yet; every receiver takes its delivery, and the clock goes on.
abbrev backlog : Db
backlog = record database { deliveries = [] }

abbrev takes_it : Callback
takes_it target event db = record {
  outcome = delivered;
  database = record db { now = db.now + 7 };
  random = 0;
}

abbrev clock_goes_on : Loop → Db → Db
clock_goes_on l db = record db { now = db.now + 1000 }
