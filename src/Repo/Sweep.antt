-- ===== src/Repo/Sweep.antt =====
-- `reset_hung_external`: the CTE's selection, the SET clauses, and the report.
pub mod Counts
use outbox_dispatcher.Base.{
  ℕ, suc, ◌+◌, Bool, true, false, not, ◌&&◌, Option, none, some, List, [], ◌∷◌, ltb, leb,
  if◌then◌else◌, is_some, is_none, Result, ok, err, ◌>>=◌,
}
use outbox_dispatcher.Text.{Text, chars}
use outbox_dispatcher.Json.{
  Value, null, bool, number, string, array, object, pos_int, neg_int, float, as_array, get,
}
use outbox_dispatcher.Schema.{Time, RawEvent, DeliveryRow, SweepReport, is_external, from_secs}
use outbox_dispatcher.Callbacks.Parse.{find_named}
use outbox_dispatcher.Repo.Db.{Db, Action, Statement, query, event_of}

abbrev bad_integer : Result Text (Option ℕ)
bad_integer = err (chars "invalid input syntax for type integer")

-- `(cb->>'key')::int`: NULL for an absent member and for JSON null. The cast of anything but a
-- non-negative integer is taken to fail: the texts that it could also read do not pass the
-- validation, which a row has passed before it is dispatched.
unfoldable pub int_member : Option Value → Result Text (Option ℕ)
int_member none = ok none
int_member (some null) = ok none
int_member (some (number (pos_int n))) =
    if ltb n 2_147_483_648 then ok (some n) else err (chars "integer out of range")
int_member (some (number (neg_int n))) = bad_integer
int_member (some (number float)) = bad_integer
int_member (some (bool b)) = bad_integer
int_member (some (string s)) = bad_integer
int_member (some (array es)) = bad_integer
int_member (some (object ms)) = bad_integer

abbrev coalesce : Option ℕ → ℕ → ℕ
coalesce none d = d
coalesce (some n) d = n

-- The LATERAL subquery's row, joined where its `timeout_s` is not NULL.
pub record CbMatch : Type 0 where
  pub timeout_s : ℕ
  pub max_cycles : ℕ

unfoldable pub cb_row : Option ℕ → Option ℕ → ℕ → Option CbMatch
cb_row none max_cycles default = none
cb_row (some t) max_cycles default =
    some (record { timeout_s = t; max_cycles = coalesce max_cycles default })

unfoldable pub cb_fields : Value → ℕ → Result Text (Option CbMatch)
cb_fields cb default =
    int_member (get cb (chars "external_completion_timeout_seconds")) >>= λ timeout_s.
    int_member (get cb (chars "max_completion_cycles")) >>= λ max_cycles.
    ok (cb_row timeout_s max_cycles default)

-- The first callback of the row's name in its event. `->>` also reads a name that is no string, such
-- as `true`; no such name passes the validation, and it is taken not to match.
unfoldable pub cb_match : List RawEvent → DeliveryRow → ℕ → Result Text (Option CbMatch)
cb_match events d default = elim (event_of events d.event_id) [
  | none ↦ ok none
  | some e ↦ elim (as_array e.callbacks) [
    | none ↦ err (chars "cannot extract elements from a scalar")
    | some cbs ↦ elim (find_named d.callback_name cbs 0) [
      | none ↦ ok none
      | some found ↦ cb_fields found.1 default
    ]
  ]
]

-- The part of the WHERE that reads the delivery alone.
unfoldable pub awaits_completion : DeliveryRow → Bool
awaits_completion d =
    is_external d.completion_mode
    && (is_some d.dispatched_at && (is_none d.processed_at && not d.dead_letter))

-- `d.dispatched_at + timeout < now`.
abbrev is_overdue : Option Time → ℕ → Time → Bool
is_overdue none timeout_s now = false
is_overdue (some t) timeout_s now = ltb (t + from_secs timeout_s) now

-- `completion_cycles + 1 >= max_cycles`.
abbrev pub is_exhausted : DeliveryRow → ℕ → Bool
is_exhausted d max_cycles = leb max_cycles (d.completion_cycles + 1)

unfoldable pub sweep_row : Time → ℕ → DeliveryRow → DeliveryRow
sweep_row now max_cycles d =
    if is_exhausted d max_cycles
    then record d {
      completion_cycles = d.completion_cycles + 1;
      last_error = some (chars "external_completion_cycles_exhausted");
      dead_letter = true;
      locked_until = none;
    }
    else record d {
      completion_cycles = d.completion_cycles + 1;
      dispatched_at = none;
      available_at = now;
      attempts = 0;
      last_error = none;
      dead_letter = false;
      locked_until = none;
    }

-- The row's `max_cycles`, if it is hung.
unfoldable pub hung : List RawEvent → Time → ℕ → DeliveryRow → Result Text (Option ℕ)
hung events now default d =
    if awaits_completion d
    then (cb_match events d default >>= λ m. ok (elim m [
      | none ↦ none
      | some cb ↦ if is_overdue d.dispatched_at cb.timeout_s now then some cb.max_cycles else none
    ]))
    else ok none

abbrev tally : SweepReport → Bool → SweepReport
tally report true = record report { exhausted = suc report.exhausted }
tally report false = record report { reset = suc report.reset }

-- One row's update and its part of the report.
unfoldable pub sweep_one : Time → Option ℕ → DeliveryRow → SweepReport → DeliveryRow × SweepReport
sweep_one now none d report = (d, report)
sweep_one now (some max_cycles) d report =
    (sweep_row now max_cycles d, tally report (is_exhausted d max_cycles))

unfoldable pub sweep_rows :
    List RawEvent → Time → ℕ → List DeliveryRow → Result Text (List DeliveryRow × SweepReport)
sweep_rows events now default [] = ok ([], record { reset = 0; exhausted = 0 })
sweep_rows events now default (d ∷ ds) = hung events now default d >>= λ m.
    sweep_rows events now default ds >>= λ rest.
    let (d', report) = sweep_one now m d rest.1 in ok (d' ∷ rest.0, report)

unfoldable pub sweep_statement : Time → ℕ → Statement SweepReport
sweep_statement now max_completion_cycles db =
    sweep_rows db.events now max_completion_cycles db.deliveries >>= λ result.
    ok (result.1, record db { deliveries = result.0 })

unfoldable pub reset_hung_external : Time → ℕ → Action SweepReport
reset_hung_external now max_completion_cycles = query (sweep_statement now max_completion_cycles)
