-- ===== src/Scheduler.antt =====
-- Event scheduling and the wake loop: crates/core/src/scheduler.rs and timeout_sweep.rs.
pub mod Rows
pub mod Backoff
pub mod Pass
pub mod Cursor
pub mod Complete
pub mod Ahead
pub mod Wakes
use outbox_dispatcher.Base.{
  ℕ, suc, ◌+◌, ◌-◌, ◌*◌, ◌^◌, min, Bool, true, false, not, ◌&&◌, Option, none, some, List, [], ◌∷◌,
  map, ltb, leb, if◌then◌else◌, is_empty, is_some, all, Result, ok, err,
}
use outbox_dispatcher.Text.{Text, chars, text_eq}
use outbox_dispatcher.Json.{Value, as_array, as_str, get}
use outbox_dispatcher.Schema.{Time, Duration, from_millis, RawEvent, CallbackTarget, SweepReport}
use outbox_dispatcher.Config.{DispatchConfig}
use outbox_dispatcher.Callbacks.Messages.{root, positional, payload_too_large_error}
use outbox_dispatcher.Callbacks.Url.{Url}
use outbox_dispatcher.Callbacks.Parse.{Invalid, ParsedCallbacks, parse_callbacks}
use outbox_dispatcher.Repo.Db.{Db, Action, ◌>>=◌, ◌>>◌, pure}
use outbox_dispatcher.Repo.Scheduling.{
  fetch_new_events, ensure_deliveries, create_invalid_deliveries,
}
use outbox_dispatcher.Repo.Sweep.{reset_hung_external}
use outbox_dispatcher.Repo.Error.{Error}
use outbox_dispatcher.Dispatch.{Callback, dispatch_due}

abbrev or_positional : Option Text → ℕ → Text
or_positional none i = positional i
or_positional (some n) i = n

abbrev name_of : Value → Option Text
name_of v = elim (get v (chars "name")) [ none ↦ none | some n ↦ as_str n ]

names_from : ℕ → List Value → List Text
names_from i [] = []
names_from i (v ∷ vs) = or_positional (name_of v) i ∷ names_from (i + 1) vs

-- A value that is no array has no names.
unfoldable extract_callback_names : Value → List Text
unfolding names_from
extract_callback_names callbacks = elim (as_array callbacks) [
  | none ↦ []
  | some vs ↦ names_from 0 vs
]

-- Every name with the same reason.
abbrev with_reason : Text → List Text → List (Text × Text)
with_reason reason = map (λ n. (n, reason))

abbrev first_message : List Invalid → Text
first_message [] = chars "invalid_callback: unspecified array-level rejection"
first_message ((_, _, msg) ∷ rest) = msg

-- `valid.is_empty() && invalid.iter().all(|(n, _, _)| n == "<root>")`.
unfoldable rejected_at_root : ParsedCallbacks → Bool
rejected_at_root parsed = is_empty parsed.valid && all (λ e. text_eq e.0 root) parsed.invalid

-- The deliveries of a list that was parsed: valid ones first, then dead-lettered ones. Either call
-- is skipped where its list is empty, as `ensure_deliveries` and its sibling do themselves.
expand : ℕ → ParsedCallbacks → Action (Unit {0})
expand event_id parsed = do
  if is_empty parsed.valid then pure tt else ensure_deliveries event_id parsed.valid
  if is_empty parsed.invalid
      then pure tt
      else create_invalid_deliveries event_id (map (λ e. (e.0, e.2)) parsed.invalid)

module _ (parse_url : Text → Option Url) (config : DispatchConfig) where
  -- The body of the loop over the new events, up to `new_cursor = event.id`.
  pub schedule_event : RawEvent → Action (Unit {0})
  schedule_event event =
      let too_large = ltb config.payload_size_limit_bytes event.payload_size_bytes in
      let parsed = parse_callbacks parse_url event.callbacks config in
      if too_large
      then create_invalid_deliveries event.event_id (
          with_reason
            (payload_too_large_error event.payload_size_bytes config.payload_size_limit_bytes)
            (extract_callback_names event.callbacks))
      else if rejected_at_root parsed
      then (if is_some (as_array event.callbacks)
          then create_invalid_deliveries event.event_id
              (with_reason (first_message parsed.invalid) (extract_callback_names event.callbacks))
          else pure tt)
      else expand event.event_id parsed

  -- A failed call ends the loop, and the new cursor is lost with it.
  unfoldable pub schedule_loop : List RawEvent → ℕ → Action ℕ
  schedule_loop [] new_cursor = pure new_cursor
  schedule_loop (event ∷ rest) new_cursor =
      schedule_event event >>= λ _. schedule_loop rest event.id

  unfoldable pub schedule_new_deliveries : ℕ → Action ℕ
  schedule_new_deliveries cursor =
      fetch_new_events cursor config.schedule_batch_size >>= λ new_events.
      schedule_loop new_events cursor

-- `sweep_hung_external`; the counters are metrics.
unfoldable sweep_hung_external : DispatchConfig → Action (Unit {0})
sweep_hung_external config db =
    (reset_hung_external db.now config.max_completion_cycles >>= λ report. pure tt) db

-- The variables of the wake loop.
pub record Loop : Type 0 where
  pub cursor : ℕ
  pub consecutive_errors : ℕ
  pub last_sweep : Time
  pub next_poll : Time

-- `poll_interval.min(100ms * (1 << consecutive_errors.min(6)))`.
pub error_backoff : Duration → ℕ → Duration
error_backoff poll_interval consecutive_errors =
    min poll_interval (from_millis (100 * 2 ^ min consecutive_errors 6))

-- `u32::saturating_add(1)`.
abbrev saturating_suc : ℕ → ℕ
saturating_suc n = min (n + 1) (2 ^ 32 - 1)

-- Step 3, if `last_sweep.elapsed() >= sweep_interval`; an error is logged only.
unfoldable sweep_if_due : DispatchConfig → Loop → Db → Loop × Db
sweep_if_due config l db =
    if leb config.external_timeout_sweep_interval (db.now - l.last_sweep)
    then (let db' = (sweep_hung_external config db).1 in (record l { last_sweep = db'.now }, db'))
    else (l, db)

module _ (parse_url : Text → Option Url) (callback : Callback) (config : DispatchConfig) where
  -- What follows Step 1, by its result: on an error the loop sleeps and goes on; else Steps 2 and 3.
  unfoldable after_schedule : Loop → Result Error ℕ → Db → Loop × Db
  after_schedule l (err e) db =
      let errors = saturating_suc l.consecutive_errors in
      let wake = db.now + error_backoff config.poll_interval errors in
      (
        record l { consecutive_errors = errors; next_poll = wake + config.poll_interval },
        record db { now = wake },
      )
  after_schedule l (ok new_cursor) db =
      let db' = (dispatch_due parse_url callback config db).1 in
      let (l', db'') =
        sweep_if_due config (record l { cursor = new_cursor; consecutive_errors = 0 }) db' in
      (record l' { next_poll = db''.now + config.poll_interval }, db'')

  -- One cycle of the wake loop.
  pub cycle : Loop → Db → Loop × Db
  cycle l db =
      let (result, db') = schedule_new_deliveries parse_url config l.cursor db in
      after_schedule l result db'
