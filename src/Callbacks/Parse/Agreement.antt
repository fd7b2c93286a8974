-- ===== src/Callbacks/Parse/Agreement.antt =====
-- The validation at dispatch time agrees with the one at schedule time where names are unique.
use mathlib.Core.Path.{subst}
use outbox_dispatcher.Base.{
  ℕ, ◌+◌, ◌≡◌, refl, sym, ap, ◌∙◌, inl, inr, true, false, Option, some, List, [], ◌∷◌, ◌++◌, All,
  All-append, All-imp, length, length-append, ltb, arith, ok, err, Result, Ensures, returns,
  bind-Ensures, Bool-cases, ok_or-Ensures, fail_if-Ensures, any-Ensures, map_err-Ensures, weaken,
  Ensures-ok, not, is_none, ◌&&◌,
}
use outbox_dispatcher.Text.{Text, chars, text_eq_refl, contains}
use outbox_dispatcher.Json.{
  Value, null, bool, number, string, array, object, as_array, as_object, as_str, lookup, get,
}
use outbox_dispatcher.Schema.{CallbackTarget, is_external}
use outbox_dispatcher.Config.{DispatchConfig}
use outbox_dispatcher.Callbacks.Name.{is_valid_callback_name}
use outbox_dispatcher.Callbacks.Url.{Url, validate_url}
use outbox_dispatcher.Callbacks.Headers.{parse_headers}
use outbox_dispatcher.Callbacks.Fields.{
  parse_mode, parse_max_attempts, parse_backoff, parse_timeout, parse_external_timeout,
  parse_max_completion_cycles,
}
use outbox_dispatcher.Callbacks.Parse.{
  Invalid, ParsedCallbacks, get_str, tag, find_named, parse_name, parse_body, parse_one_callback,
  classify, callback_loop, parse_callbacks, is_named, validate_named_callback, parse_array,
}

-- No element carries the name of an earlier one.
abbrev pub UniqueNames : List Value → Type 0
UniqueNames [] = Unit
UniqueNames (v ∷ vs) =
    All (λ w. (n : Text) → is_named n v ≡ true → is_named n w ≡ false) vs × UniqueNames vs

get-object :
    (v : Value) (obj : List (Text × Value)) (k : Text)
    → as_object v ≡ some obj
    → get v k ≡ lookup k obj
get-object (object ms) obj k e = cc
get-object null obj k e = cc
get-object (bool b) obj k e = cc
get-object (number n) obj k e = cc
get-object (string s) obj k e = cc
get-object (array es) obj k e = cc

name-is_named :
    (v : Value) (obj : List (Text × Value)) (i : ℕ)
    → as_object v ≡ some obj
    → Ensures (λ name. is_named name v ≡ true) (parse_name obj i)
unfolding parse_name is_named
name-is_named v obj i e = bind-Ensures (ok_or-Ensures (lookup (chars "name") obj) _) λ w found.
    weaken (ok_or-Ensures (as_str w) _) (λ name is_text.
      rw (is_named, get-object v obj (chars "name") e, found, is_text) (text_eq_refl name))

All-middle : (P : Value → Type 0) (xs ys : List Value) (y : Value) → All P (xs ++ y ∷ ys) → P y
All-middle P [] ys y h = h.0
All-middle P (x ∷ xs) ys y h = All-middle P xs ys y h.1

move_one : (xs ys : List Value) (y : Value) → (xs ++ y ∷ []) ++ ys ≡ xs ++ y ∷ ys
move_one [] ys y = refl
move_one (x ∷ xs) ys y = ap (◌∷◌ x) (move_one xs ys y)

-- A name that an element bears is borne by none before it.
unique-fresh :
    (name : Text) (before after : List Value) (v : Value)
    → UniqueNames (before ++ v ∷ after)
    → is_named name v ≡ true
    → All (λ w. is_named name w ≡ false) before
unique-fresh name [] after v u h = tt
unique-fresh name (w ∷ ws) after v u h = (
  elim (Bool-cases (is_named name w)) [
    | inl taken ↦
        let free =
          All-middle (λ x. (n : Text) → is_named n w ≡ true → is_named n x ≡ false) ws after v u.0
            name taken in
        absurd (cc free)
    | inr free ↦ free
  ],
  unique-fresh name ws after v u.1 h,
)

find_named_skip :
    (name : Text) (before after : List Value) (v : Value) (i k : ℕ)
    → All (λ w. is_named name w ≡ false) before
    → is_named name v ≡ true
    → k ≡ i + length before
    → find_named name (before ++ v ∷ after) i ≡ some (k, v)
unfolding find_named
find_named_skip name [] after v i k fresh h at_k = ground arith
find_named_skip name (w ∷ ws) after v i k fresh h at_k =
    ground (arith, find_named_skip name ws after v (i + 1) k fresh.1 h)

module _ (parse_url : Text → Option Url) (config : DispatchConfig) where
  body-name :
      (obj : List (Text × Value)) (name : Text)
      → Ensures (λ t. t.name ≡ name) (parse_body parse_url obj name config)
  unfolding parse_body
  body-name obj name = bind-Ensures (ok_or-Ensures (lookup (chars "url") obj) _) λ url_value _.
      bind-Ensures (ok_or-Ensures (as_str url_value) _) λ url _.
        bind-Ensures
          (any-Ensures
            (validate_url parse_url url config.allow_insecure_urls config.allow_private_ip_targets))
          λ _ _. bind-Ensures (any-Ensures (parse_mode (get_str obj (chars "mode")))) λ mode _.
            bind-Ensures
              (fail_if-Ensures
                (not config.allow_unsigned_callbacks
                  && is_none (get_str obj (chars "signing_key_id")))
                _)
              λ _ _.
                bind-Ensures (any-Ensures (parse_headers (lookup (chars "headers") obj))) λ _ _.
                  bind-Ensures (any-Ensures (parse_max_attempts _ config.max_attempts)) λ _ _.
                    bind-Ensures (any-Ensures (parse_backoff _ config.backoff)) λ _ _.
                      bind-Ensures (any-Ensures (parse_timeout _ config.handler_timeout)) λ _ _.
                        bind-Ensures (any-Ensures (parse_external_timeout _)) λ x _.
                          bind-Ensures
                            (any-Ensures
                              (parse_max_completion_cycles _ config.max_completion_cycles))
                            λ _ _.
                              bind-Ensures (fail_if-Ensures (is_external mode && is_none x) _)
                                λ _ _. returns refl

  -- A target that passes bears its element's name.
  one_callback-is_named :
      (v : Value) (i : ℕ)
      → Ensures (λ t. is_named t.name v ≡ true) (parse_one_callback parse_url v i config)
  unfolding parse_one_callback
  one_callback-is_named v i = bind-Ensures (ok_or-Ensures (as_object v) _) λ obj e.
      bind-Ensures (name-is_named v obj i e) λ name named.
        bind-Ensures (fail_if-Ensures (not (is_valid_callback_name name)) _)
          λ _ _. map_err-Ensures (tag name) (weaken (body-name obj name) (λ t same. rw same named))

  -- The element that is found by the target's name is the one that the target comes from.
  abbrev Agrees : List Value → CallbackTarget → Type 0
  Agrees elements t =
      (i : ℕ) × (v : Value) × (find_named t.name elements 0 ≡ some (i, v))
      × (parse_one_callback parse_url v i config ≡ ok t)

  classify-Agrees :
      (elements : List Value) (r : Result Invalid CallbackTarget) (seen : List Text)
      (out : ParsedCallbacks)
      → ((t : CallbackTarget) → r ≡ ok t → Agrees elements t)
      → All (Agrees elements) out.valid
      → All (Agrees elements) (classify r seen out).1.valid
  unfolding classify
  classify-Agrees elements (err e) seen out new old = old
  classify-Agrees elements (ok t) seen out new old = elim (Bool-cases (contains seen t.name)) [
    | inl again ↦ rw again old
    | inr fresh ↦ rw fresh (All-append (Agrees elements) out.valid (t ∷ []) old (new t refl, tt))
  ]

  element-Agrees :
      (before after : List Value) (v : Value) (i : ℕ)
      → i ≡ length before
      → UniqueNames (before ++ v ∷ after)
      → (t : CallbackTarget) → parse_one_callback parse_url v i config ≡ ok t
      → Agrees (before ++ v ∷ after) t
  element-Agrees before after v i at_i u t e =
      let named : is_named t.name v ≡ true = Ensures-ok t (one_callback-is_named v i) e in
      (
        i,
        v,
        find_named_skip t.name before after v 0 i (unique-fresh t.name before after v u named) named
            (omega arith),
        e,
      )

  loop-Agrees :
      (elements before rest : List Value) (i : ℕ) (seen : List Text) (out : ParsedCallbacks)
      → UniqueNames elements
      → elements ≡ before ++ rest
      → i ≡ length before
      → All (Agrees elements) out.valid
      → All (Agrees elements) (callback_loop parse_url rest i config seen out).valid
  unfolding callback_loop
  loop-Agrees elements before [] i seen out u e at_i old = old
  loop-Agrees elements before (v ∷ vs) i seen out u e at_i old =
      let next = classify (parse_one_callback parse_url v i config) seen out in
      loop-Agrees elements (before ++ v ∷ []) vs (i + 1) next.0 next.1 u
        (e ∙ sym (move_one before vs v)) (omega (arith, at_i, length-append before (v ∷ [])))
        (classify-Agrees elements (parse_one_callback parse_url v i config) seen out
          (λ t p.
            subst (λ es. UniqueNames es → Agrees es t) (sym e)
              (λ u'. element-Agrees before vs v i at_i u' t p) u)
          old)

  -- Where no two elements of the array bear one name, every target that `parse_callbacks` accepts is
  -- accepted by `validate_named_callback` under its name, as the same target.
  pub valid-agree :
      (json : Value) (elements : List Value)
      → as_array json ≡ some elements
      → UniqueNames elements
      → All
          (λ t. validate_named_callback parse_url json t.name config ≡ ok t)
          (parse_callbacks parse_url json config).valid
  unfolding parse_callbacks parse_array validate_named_callback
  valid-agree json elements e u =
      elim (Bool-cases (ltb config.max_callbacks_per_event (length elements))) [
        | inl over ↦ rw (parse_callbacks, e, parse_array, over) tt
        | inr fits ↦
            rw (parse_callbacks, e, parse_array, fits)
              (All-imp (Agrees elements) _
                (callback_loop parse_url elements 0 config []
                  (record { valid = []; invalid = [] })).valid
                (λ t (i, v, found, parsed). rw (found, parsed) refl)
                (loop-Agrees elements [] elements 0 [] (record { valid = []; invalid = [] }) u refl
                  refl tt))
      ]
