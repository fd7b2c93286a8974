-- ===== src/Callbacks/Fields/Ranges.antt =====
-- The ranges of the optional fields.
use outbox_dispatcher.Base.{
  ℕ, ◌≤◌, ◌≡◌, refl, ◌≢◌, false, not, ◌&&◌, Option, none, some, List, [], ◌∷◌, All, arith, is_empty,
  leb, ltb, ◌==◌, Ensures, returns, bind-Ensures, ok_or-Ensures, fail_if-Ensures, weaken,
}
use outbox_dispatcher.Json.{Value, as_array, as_u64}
use outbox_dispatcher.Schema.{Duration, from_secs}
use outbox_dispatcher.Callbacks.Fields.{
  max_external_timeout_secs, max_per_callback_attempts, max_handler_timeout_secs,
  max_completion_cycles_limit, max_backoff_element_secs, parse_max_attempts, parse_backoff_element,
  collect_backoff, parse_backoff, parse_timeout, parse_external_timeout,
  parse_max_completion_cycles,
}

abbrev pub Between : ℕ → ℕ → ℕ → Type 0
Between lo hi n = (lo ≤ n) × (n ≤ hi)

abbrev pub AttemptsOk : ℕ → Type 0
AttemptsOk = Between 1 max_per_callback_attempts

abbrev pub TimeoutOk : Duration → Type 0
TimeoutOk = Between (from_secs 1) (from_secs max_handler_timeout_secs)

abbrev pub CyclesOk : ℕ → Type 0
CyclesOk = Between 1 max_completion_cycles_limit

abbrev pub BackoffOk : List Duration → Type 0
BackoffOk ds = (ds ≢ []) × All (Between (from_secs 1) (from_secs max_backoff_element_secs)) ds

abbrev pub ExternalOk : Option Duration → Type 0
ExternalOk none = Unit
ExternalOk (some d) = Between (from_secs 1) (from_secs max_external_timeout_secs) d

in_range : (hi n : ℕ) → not (leb 1 n && leb n hi) ≡ false → Between 1 hi n
in_range hi n h = ground arith

in_seconds : (hi n : ℕ) → Between 1 hi n → Between (from_secs 1) (from_secs hi) (from_secs n)
in_seconds hi n h = (omega arith, omega arith)

pub max_attempts-Ensures :
    (v : Option Value) (default : ℕ)
    → AttemptsOk default
    → Ensures AttemptsOk (parse_max_attempts v default)
unfolding parse_max_attempts
max_attempts-Ensures none default h = returns h
max_attempts-Ensures (some v) default h = bind-Ensures (ok_or-Ensures (as_u64 v) _) λ n e.
    bind-Ensures (fail_if-Ensures (not (leb 1 n && leb n max_per_callback_attempts)) _)
      λ _ range. returns (in_range _ n range)

pub timeout-Ensures :
    (v : Option Value) (default : Duration)
    → TimeoutOk default
    → Ensures TimeoutOk (parse_timeout v default)
unfolding parse_timeout
timeout-Ensures none default h = returns h
timeout-Ensures (some v) default h = bind-Ensures (ok_or-Ensures (as_u64 v) _) λ n e.
    bind-Ensures (fail_if-Ensures (not (leb 1 n && leb n max_handler_timeout_secs)) _)
      λ _ range. returns (in_seconds _ n (in_range _ n range))

pub external_timeout-Ensures : (v : Option Value) → Ensures ExternalOk (parse_external_timeout v)
unfolding parse_external_timeout
external_timeout-Ensures none = returns tt
external_timeout-Ensures (some v) = bind-Ensures (ok_or-Ensures (as_u64 v) _) λ n e.
    bind-Ensures (fail_if-Ensures (not (leb 1 n && leb n max_external_timeout_secs)) _)
      λ _ range. returns (in_seconds _ n (in_range _ n range))

pub max_completion_cycles-Ensures :
    (v : Option Value) (default : ℕ)
    → CyclesOk default
    → Ensures CyclesOk (parse_max_completion_cycles v default)
unfolding parse_max_completion_cycles
max_completion_cycles-Ensures none default h = returns h
max_completion_cycles-Ensures (some v) default h = bind-Ensures (ok_or-Ensures (as_u64 v) _) λ n e.
    bind-Ensures (fail_if-Ensures (not (leb 1 n && leb n max_completion_cycles_limit)) _)
      λ _ range. returns (in_range _ n range)

element-Ensures :
    (v : Value)
    → Ensures (Between (from_secs 1) (from_secs max_backoff_element_secs)) (parse_backoff_element v)
unfolding parse_backoff_element
element-Ensures v = bind-Ensures (ok_or-Ensures (as_u64 v) _) λ n e.
    bind-Ensures (fail_if-Ensures (n == 0) _) λ _ pos.
      bind-Ensures (fail_if-Ensures (ltb max_backoff_element_secs n) _)
        λ _ small. returns (in_seconds max_backoff_element_secs n (ground arith, ground arith))

-- One delay for each element, so none for an empty array only.
collect-Ensures :
    (vs : List Value)
    → Ensures
        (λ ds.
          (is_empty ds ≡ is_empty vs)
          × All (Between (from_secs 1) (from_secs max_backoff_element_secs)) ds)
        (collect_backoff vs)
unfolding collect_backoff
collect-Ensures [] = returns (refl, tt)
collect-Ensures (v ∷ vs) =
    bind-Ensures (element-Ensures v)
      λ d hd. bind-Ensures (collect-Ensures vs) λ ds hds. returns (refl, (hd, hds.1))

pub backoff-Ensures :
    (v : Option Value) (default : List Duration)
    → BackoffOk default
    → Ensures BackoffOk (parse_backoff v default)
unfolding parse_backoff
backoff-Ensures none default h = returns h
backoff-Ensures (some v) default h = bind-Ensures (ok_or-Ensures (as_array v) _) λ vs e.
    bind-Ensures (fail_if-Ensures (is_empty vs) _) λ _ some_element.
      weaken (collect-Ensures vs)
        (λ ds p. ((λ nothing. nonempty ds vs p.0 some_element nothing), p.1))
  where
    nonempty :
        (ds : List Duration) (vs : List Value)
        → is_empty ds ≡ is_empty vs
        → is_empty vs ≡ false
        → ds ≡ []
        → ⊥
    nonempty ds vs same filled nothing = ground arith
