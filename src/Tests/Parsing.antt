-- ===== src/Tests/Parsing.antt =====
-- The validation of callbacks, run.
use outbox_dispatcher.Base.{◌≡◌, refl, ◌↔◌, true, [], ◌∷◌, All, Ensures, ok}
use outbox_dispatcher.Text.{chars, text_eq, text_eq_sound, text_eq_comm}
use outbox_dispatcher.Json.{Value, string, object, end, member, lookup}
use outbox_dispatcher.Callbacks.Name.{is_valid_callback_name}
use outbox_dispatcher.Callbacks.Name.Syntax.{IsName, is_valid_callback_name_iff}
use outbox_dispatcher.Callbacks.Headers.{Headers}
use outbox_dispatcher.Callbacks.Parse.{
  parse_callbacks, parse_one_callback, validate_named_callback, is_named,
}
use outbox_dispatcher.Callbacks.Parse.Target.{IsWellFormed, one_callback-Ensures}
use outbox_dispatcher.Callbacks.Parse.Agreement.{UniqueNames, valid-agree}
use outbox_dispatcher.Tests.Data.{
  config-HasDefaults, config, parse_url, spec, external_spec, billing, audit, event,
}

is_valid_callback_name_iff_example : (is_valid_callback_name audit ≡ true) ↔ IsName audit
is_valid_callback_name_iff_example = is_valid_callback_name_iff audit

one_callback-Ensures_example :
    Ensures
      (λ t. IsWellFormed parse_url config t × (is_valid_callback_name t.name ≡ true))
      (parse_one_callback parse_url (spec billing) 0 config)
one_callback-Ensures_example =
    one_callback-Ensures parse_url (spec billing) 0 config config-HasDefaults

two-UniqueNames : UniqueNames (spec billing ∷ external_spec audit ∷ [])
unfolding is_named lookup text_eq
two-UniqueNames =
    (((λ n h. rw (text_eq_sound n billing (rw (text_eq_comm n billing) h)) refl), tt), (tt, tt))

valid-agree_example :
    All
      (λ t. validate_named_callback parse_url event.callbacks t.name config ≡ ok t)
      (parse_callbacks parse_url event.callbacks config).valid
valid-agree_example =
    valid-agree parse_url config event.callbacks (spec billing ∷ external_spec audit ∷ []) refl
      two-UniqueNames

-- One header, mixed in case.
abbrev headers : Value
headers = object (member (chars "X-Team") (string (chars "core")) end)
