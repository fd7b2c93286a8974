-- ===== src/Callbacks/Name/Syntax.antt =====
-- The names are those of ^[a-z][a-z0-9_]{2,63}$.
use outbox_dispatcher.Base.{ℕ, ◌≤◌, ◌≡◌, refl, ◌↔◌, true, [], ◌∷◌, all, length, arith}
use outbox_dispatcher.Text.{Text, len_utf8, byte_len, is_ascii_lowercase}
use outbox_dispatcher.Callbacks.Name.{name_char, is_valid_callback_name}

-- A lower-case letter, then 2 to 63 letters, digits and underscores.
abbrev pub IsName : Text → Type 0
IsName s =
    (first : ℕ) × (rest : Text) × (s ≡ first ∷ rest)
    × (is_ascii_lowercase first ≡ true)
    × (all name_char rest ≡ true)
    × (2 ≤ length rest)
    × (length rest ≤ 63)

name_char_len : (c : ℕ) → name_char c ≡ true → len_utf8 c ≡ 1
unfolding len_utf8
name_char_len c h = ground arith

name_chars_len : (s : Text) → all name_char s ≡ true → byte_len s ≡ length s
name_chars_len [] h = refl
name_chars_len (c ∷ s) h = ground (arith, name_char_len c, name_chars_len s)

-- The validation, which measures bytes, accepts exactly the names of the documented syntax.
pub is_valid_callback_name_iff : (s : Text) → (is_valid_callback_name s ≡ true) ↔ IsName s
unfolding is_valid_callback_name
is_valid_callback_name_iff [] = (λ h. ground arith, λ (c, rest, e, _, _, _, _). cc)
is_valid_callback_name_iff (c ∷ s) = (
  λ h. (
    c,
    s,
    refl,
    ground arith,
    ground arith,
    ground (arith, name_chars_len s, name_char_len c),
    ground (arith, name_chars_len s, name_char_len c),
  ),
  λ (first, rest, e, low, chars, lo, hi). ground (arith, name_chars_len s, name_char_len c),
)
