-- ===== src/Callbacks/Parse/Lists.antt =====
-- The two lists that `parse_callbacks` returns.
use outbox_dispatcher.Base.{
  ℕ, ◌+◌, ◌≡◌, refl, ◌≢◌, true, Option, some, List, [], ◌∷◌, All, length, ltb,
}
use outbox_dispatcher.Text.{Text, contains}
use outbox_dispatcher.Json.{Value, as_array}
use outbox_dispatcher.Schema.{CallbackTarget}
use outbox_dispatcher.Config.{DispatchConfig}
use outbox_dispatcher.Callbacks.Reason.{too_many_callbacks}
use outbox_dispatcher.Callbacks.Messages.{root, too_many_text}
use outbox_dispatcher.Callbacks.Name.{is_valid_callback_name}
use outbox_dispatcher.Callbacks.Url.{Url}
use outbox_dispatcher.Callbacks.Parse.{ParsedCallbacks, parse_array, parse_callbacks}
use outbox_dispatcher.Callbacks.Parse.Target.{HasDefaults, IsWellFormed}

-- No two targets have one name.
abbrev pub DistinctTargets : List CallbackTarget → Type 0
DistinctTargets [] = Unit
DistinctTargets (t ∷ ts) = All (λ u. u.name ≢ t.name) ts × DistinctTargets ts

-- The loop's variables agree.
abbrev Seen : List Text → List CallbackTarget → Type 0
Seen seen = All λ t. contains seen t.name ≡ true

-- What the loop keeps of the names seen and the lists so far.
abbrev Good : (CallbackTarget → Type 0) → ℕ → List Text × ParsedCallbacks → Type 0
Good P n (seen, out) =
    All P out.valid
    × DistinctTargets out.valid
    × Seen seen out.valid
    × (length out.valid + length out.invalid ≡ n)

-- An array above the limit is rejected as a whole.
pub parse_callbacks-over :
    (parse_url : Text → Option Url) (config : DispatchConfig) (json : Value) (elements : List Value)
    → as_array json ≡ some elements
    → ltb config.max_callbacks_per_event (length elements) ≡ true
    → parse_callbacks parse_url json config ≡ record {
      valid = [];
      invalid =
          (root, too_many_callbacks, too_many_text (length elements) config.max_callbacks_per_event)
          ∷ [];
    }
unfolding parse_callbacks parse_array
parse_callbacks-over parse_url config json elements e over =
    rw (parse_callbacks, e, parse_array, over) refl

module _ (parse_url : Text → Option Url) (config : DispatchConfig) (d : HasDefaults config) where
  -- A target that `parse_one_callback` lets through.
  abbrev pub Passes : CallbackTarget → Type 0
  Passes t = IsWellFormed parse_url config t × (is_valid_callback_name t.name ≡ true)
