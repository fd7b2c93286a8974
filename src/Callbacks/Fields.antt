-- ===== src/Callbacks/Fields.antt =====
-- The parsers of the optional fields, with their limits.
pub mod Ranges
use outbox_dispatcher.Base.{
  ℕ, ◌*◌, Bool, not, ◌&&◌, Option, none, some, List, [], ◌∷◌, leb, ltb, ◌==◌, is_empty, Result, ok,
  err, ok_or, fail_if, ◌>>=◌, ◌>>◌, if◌then◌else◌,
}
use outbox_dispatcher.Text.{Text, chars, text_eq}
use outbox_dispatcher.Json.{Value, as_array, as_u64}
use outbox_dispatcher.Schema.{CompletionMode, managed, external, Duration, from_secs}
use outbox_dispatcher.Callbacks.Reason.{
  InvalidReason, invalid_mode, max_attempts_not_integer, max_attempts_out_of_range,
  backoff_not_array, backoff_empty, backoff_element_invalid, backoff_element_out_of_range,
  timeout_not_integer, timeout_out_of_range, external_timeout_not_integer,
  external_timeout_out_of_range, max_completion_cycles_not_integer,
  max_completion_cycles_out_of_range,
}
use outbox_dispatcher.Callbacks.Messages.{
  invalid_mode_text, not_integer_text, out_of_range_text, backoff_not_array_text,
  backoff_empty_text, backoff_element_text, backoff_zero_text, backoff_range_text,
}

abbrev max_external_timeout_secs : ℕ
max_external_timeout_secs = 604_800

abbrev pub max_per_callback_attempts : ℕ
max_per_callback_attempts = 50

abbrev pub max_handler_timeout_secs : ℕ
max_handler_timeout_secs = 300

abbrev pub max_completion_cycles_limit : ℕ
max_completion_cycles_limit = 1_000

abbrev pub max_backoff_element_secs : ℕ
max_backoff_element_secs = 604_800

abbrev pub max_callbacks_per_event_limit : ℕ
max_callbacks_per_event_limit = 1_000

-- `mode_str.unwrap_or("managed")`.
mode_or_default : Option Text → Text
mode_or_default none = chars "managed"
mode_or_default (some s) = s

unfoldable pub parse_mode : Option Text → Result (InvalidReason × Text) CompletionMode
unfolding mode_or_default
parse_mode mode_str =
    let mode = mode_or_default mode_str in
    if text_eq mode (chars "managed")
    then ok managed
    else if text_eq mode (chars "external")
    then ok external
    else err (invalid_mode, invalid_mode_text mode)

unfoldable pub parse_max_attempts : Option Value → ℕ → Result (InvalidReason × Text) ℕ
parse_max_attempts none default = ok default
parse_max_attempts (some v) default = do
  n ← ok_or (as_u64 v) (max_attempts_not_integer, not_integer_text (chars "max_attempts"))
  fail_if (not (leb 1 n && leb n max_per_callback_attempts)) (
    max_attempts_out_of_range,
    out_of_range_text (chars "max_attempts") max_per_callback_attempts n,
  )
  ok n

parse_backoff_element : Value → Result (InvalidReason × Text) Duration
parse_backoff_element e = do
  n ← ok_or (as_u64 e) (backoff_element_invalid, backoff_element_text)
  fail_if (n == 0) (backoff_element_invalid, backoff_zero_text)
  fail_if (ltb max_backoff_element_secs n)
      (backoff_element_out_of_range, backoff_range_text max_backoff_element_secs n)
  ok (from_secs n)

-- `.map(…).collect::<Result<_, _>>()`: the first error wins.
pub collect_backoff : List Value → Result (InvalidReason × Text) (List Duration)
collect_backoff [] = ok []
collect_backoff (e ∷ es) = parse_backoff_element e >>= λ d. collect_backoff es >>= λ ds. ok (d ∷ ds)

unfoldable pub parse_backoff :
    Option Value → List Duration → Result (InvalidReason × Text) (List Duration)
parse_backoff none default = ok default
parse_backoff (some v) default = do
  arr ← ok_or (as_array v) (backoff_not_array, backoff_not_array_text)
  fail_if (is_empty arr) (backoff_empty, backoff_empty_text)
  collect_backoff arr

unfoldable pub parse_timeout : Option Value → Duration → Result (InvalidReason × Text) Duration
parse_timeout none default = ok default
parse_timeout (some v) default = do
  n ← ok_or (as_u64 v) (timeout_not_integer, not_integer_text (chars "timeout_seconds"))
  fail_if (not (leb 1 n && leb n max_handler_timeout_secs))
      (timeout_out_of_range, out_of_range_text (chars "timeout_seconds") max_handler_timeout_secs n)
  ok (from_secs n)

unfoldable pub parse_external_timeout :
    Option Value → Result (InvalidReason × Text) (Option Duration)
parse_external_timeout none = ok none
parse_external_timeout (some v) = do
  n ←
      ok_or (as_u64 v) (
        external_timeout_not_integer,
        not_integer_text (chars "external_completion_timeout_seconds"),
      )
  fail_if (not (leb 1 n && leb n max_external_timeout_secs)) (
    external_timeout_out_of_range,
    out_of_range_text (chars "external_completion_timeout_seconds") max_external_timeout_secs n,
  )
  ok (some (from_secs n))

unfoldable pub parse_max_completion_cycles : Option Value → ℕ → Result (InvalidReason × Text) ℕ
parse_max_completion_cycles none default = ok default
parse_max_completion_cycles (some v) default = do
  n ←
      ok_or (as_u64 v)
        (max_completion_cycles_not_integer, not_integer_text (chars "max_completion_cycles"))
  fail_if (not (leb 1 n && leb n max_completion_cycles_limit)) (
    max_completion_cycles_out_of_range,
    out_of_range_text (chars "max_completion_cycles") max_completion_cycles_limit n,
  )
  ok n
