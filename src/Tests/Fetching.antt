-- ===== src/Tests/Fetching.antt =====
-- A batch is fetched, and a pass of the scheduler is run.
use outbox_dispatcher.Base.{ℕ, ◌≤◌, ◌≡◌, refl, ok, [], ◌∷◌, All, length, arith}
use outbox_dispatcher.Text.{
  text_eq, len_utf8, to_ascii_lowercase, to_ascii_lower, trim_end_matches, ends_with,
}
use outbox_dispatcher.Json.{lookup}
use outbox_dispatcher.Callbacks.Name.{is_valid_callback_name}
use outbox_dispatcher.Callbacks.Url.{
  validate_url, scheme_allowed, is_private_host, is_blocked_domain,
}
use outbox_dispatcher.Callbacks.Headers.{parse_headers}
use outbox_dispatcher.Callbacks.Fields.{
  parse_mode, parse_max_attempts, parse_backoff, parse_timeout, parse_external_timeout,
  parse_max_completion_cycles,
}
use outbox_dispatcher.Callbacks.Parse.{
  validate_named_callback, find_named, is_named, parse_one_callback, parse_name, parse_body,
}
use outbox_dispatcher.Repo.Db.{Db, query, befall, order_by, insert_by, event_of}
use outbox_dispatcher.Repo.Dispatching.{
  fetch_due_deliveries, keep_valid, select_due, join_events, is_due, due_delivery,
  extract_callback_target,
}
use outbox_dispatcher.Repo.Dispatching.Fetching.{IsFetched, fetch_due_deliveries-All}
use outbox_dispatcher.Scheduler.{schedule_new_deliveries}
use outbox_dispatcher.Scheduler.Pass.{batch, IsScheduled, schedule_new_deliveries_healthy}
use outbox_dispatcher.Tests.Data.{config, parse_url, row, database, due}

fetched : (fetch_due_deliveries parse_url config 50 database).0 ≡ ok (due ∷ [])
unfolding fetch_due_deliveries query befall keep_valid select_due join_events order_by insert_by
    is_due event_of due_delivery extract_callback_target validate_named_callback find_named is_named
    lookup text_eq parse_one_callback parse_name is_valid_callback_name len_utf8 parse_body
    validate_url scheme_allowed is_private_host is_blocked_domain to_ascii_lowercase to_ascii_lower
    trim_end_matches ends_with parse_mode parse_headers parse_max_attempts parse_backoff
    parse_timeout parse_external_timeout parse_max_completion_cycles
fetched = refl

fetch_due_deliveries-All_example :
    All (IsFetched parse_url config database) (due ∷ []) × (length (due ∷ []) ≤ 50)
fetch_due_deliveries-All_example =
    fetch_due_deliveries-All parse_url config 50 database (due ∷ []) fetched

-- The event, with one of its rows there.
abbrev half_done : Db
half_done = record database { deliveries = row ∷ [] }

schedule_new_deliveries_healthy_example :
    (c : ℕ) × (after : Db) × (schedule_new_deliveries parse_url config 3 half_done ≡ (ok c, after))
    × (3 ≤ c)
    × IsScheduled parse_url config (batch 3 500 half_done) half_done after
schedule_new_deliveries_healthy_example =
    schedule_new_deliveries_healthy parse_url config 3 half_done refl
      ((refl, tt), (omega arith, omega arith))
