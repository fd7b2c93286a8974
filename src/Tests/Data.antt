-- ===== src/Tests/Data.antt =====
-- The configuration, the events and the rows that the tests run on.
use outbox_dispatcher.Base.{false, Option, none, some, [], ◌∷◌, if◌then◌else◌, arith}
use outbox_dispatcher.Text.{Text, chars, text_eq}
use outbox_dispatcher.Json.{
  Value, pos_int, number, null, string, array, object, nil, cons, end, member,
}
use outbox_dispatcher.Schema.{
  CallbackTarget, managed, external, RawEvent, DeliveryRow, DueDelivery, from_secs,
}
use outbox_dispatcher.Config.{DispatchConfig}
use outbox_dispatcher.Callbacks.Parse.Target.{HasDefaults}
use outbox_dispatcher.Callbacks.Url.{Url, domain}
use outbox_dispatcher.Repo.Db.{Db}

-- The defaults of `DispatchConfig`.
abbrev pub config : DispatchConfig
config = record {
  poll_interval = from_secs 5;
  batch_size = 50;
  dispatch_concurrency = 16;
  schedule_batch_size = 500;
  max_attempts = 6;
  backoff = from_secs 30 ∷ from_secs 120 ∷ from_secs 600 ∷ [];
  handler_timeout = from_secs 30;
  lock_buffer = from_secs 10;
  external_timeout_sweep_interval = from_secs 60;
  max_completion_cycles = 20;
  payload_size_limit_bytes = 1048576;
  notify_channel = chars "outbox_events_new";
  allow_insecure_urls = false;
  allow_unsigned_callbacks = false;
  allow_private_ip_targets = false;
  max_callbacks_per_event = 32;
}

abbrev pub url_text : Text
url_text = chars "https://a.io/h"

abbrev pub url : Url
url = record {
  username = [];
  password = none;
  scheme = chars "https";
  host = some (domain (chars "a.io"));
}

-- A parser that reads one URL.
abbrev pub parse_url : Text → Option Url
parse_url s = if text_eq s url_text then some url else none

abbrev pub spec : Text → Value
spec name = object (
    member (chars "name") (string name) (
      member (chars "url") (string url_text)
        (member (chars "signing_key_id") (string (chars "key")) end)))

-- A callback that is to be completed within a second.
abbrev pub external_spec : Text → Value
external_spec name = object (
    member (chars "name") (string name) (
      member (chars "url") (string url_text) (
        member (chars "signing_key_id") (string (chars "key")) (
          member (chars "mode") (string (chars "external"))
            (member (chars "external_completion_timeout_seconds") (number (pos_int 1)) end)))))

-- A callback without a URL.
abbrev pub bare_spec : Text → Value
bare_spec name = object (member (chars "name") (string name) end)

abbrev pub billing : Text
billing = chars "billing"

abbrev pub audit : Text
audit = chars "audit_2"

abbrev pub target : Text → CallbackTarget
target name = record {
  name = name;
  url = url_text;
  mode = managed;
  signing_key_id = some (chars "key");
  headers = [];
  max_attempts = 6;
  backoff = from_secs 30 ∷ from_secs 120 ∷ from_secs 600 ∷ [];
  timeout = from_secs 30;
  external_completion_timeout = none;
  max_completion_cycles = 20;
}

abbrev pub event : RawEvent
event = record {
  id = 7;
  event_id = 700;
  kind = chars "paid";
  aggregate_type = chars "order";
  aggregate_id = 9;
  payload = null;
  metadata = null;
  callbacks = array (cons (spec billing) (cons (external_spec audit) nil));
  actor_id = none;
  correlation_id = none;
  causation_id = none;
  created_at = 1000;
  payload_size_bytes = 20;
}

abbrev pub row : DeliveryRow
row = record {
  id = 1;
  event_id = 700;
  callback_name = billing;
  completion_mode = managed;
  attempts = 0;
  last_error = none;
  last_attempt_at = none;
  available_at = 1500;
  locked_until = none;
  dispatched_at = none;
  processed_at = none;
  completion_cycles = 0;
  dead_letter = false;
  created_at = 1500;
}

-- A delivery to a receiver that is to report its completion.
abbrev pub waiting_row : DeliveryRow
waiting_row = record row {
  id = 2;
  callback_name = audit;
  completion_mode = external;
  dispatched_at = some 1600;
}

abbrev pub database : Db
database = record {
  events = event ∷ [];
  deliveries = row ∷ waiting_row ∷ [];
  next_id = 3;
  now = 2000;
  faults = [];
}

abbrev pub due : DueDelivery
due = record {
  delivery_id = 1;
  event_id = 700;
  attempts = 0;
  target = target billing;
  kind = chars "paid";
  aggregate_type = chars "order";
  aggregate_id = 9;
  payload = null;
  metadata = null;
  actor_id = none;
  correlation_id = none;
  causation_id = none;
  created_at = 1000;
}

pub config-HasDefaults : HasDefaults config
config-HasDefaults = record {
  attempts = (omega arith, omega arith);
  timeout = (omega arith, omega arith);
  cycles = (omega arith, omega arith);
  backoff = (
    λ e. cc,
    ((omega arith, omega arith), ((omega arith, omega arith), ((omega arith, omega arith), tt))),
  );
}
