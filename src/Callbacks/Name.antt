-- ===== src/Callbacks/Name.antt =====
-- `is_valid_callback_name`.
pub mod Syntax
use outbox_dispatcher.Base.{ℕ, Bool, false, ◌&&◌, ◌||◌, [], ◌∷◌, leb, ◌==◌, if◌then◌else◌, all, not}
use outbox_dispatcher.Text.{Text, byte_len, is_ascii_lowercase, is_ascii_digit}

abbrev name_char : ℕ → Bool
name_char c = is_ascii_lowercase c || is_ascii_digit c || c == b'_'

name_chars : Text → Bool
name_chars [] = false
name_chars (first ∷ rest) = is_ascii_lowercase first && all name_char rest

unfoldable pub is_valid_callback_name : Text → Bool
unfolding name_chars
is_valid_callback_name name =
    if not (leb 3 (byte_len name) && leb (byte_len name) 64) then false else name_chars name
