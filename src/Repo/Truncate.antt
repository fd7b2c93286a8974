-- ===== src/Repo/Truncate.antt =====
-- `truncate_at_char_boundary`.
pub mod Longest
use outbox_dispatcher.Base.{
  ℕ, zero, suc, ◌-◌, Bool, ◌&&◌, ◌||◌, List, [], ◌∷◌, leb, ◌==◌, if◌then◌else◌,
}
use outbox_dispatcher.Text.{Text, len_utf8, byte_len}

-- `str::is_char_boundary`.
is_char_boundary : Text → ℕ → Bool
is_char_boundary [] i = i == 0
is_char_boundary (c ∷ s) i = i == 0 || (leb (len_utf8 c) i && is_char_boundary s (i - len_utf8 c))

-- `&s[..end]` at a boundary.
slice_to : Text → ℕ → Text
slice_to [] end = []
slice_to (c ∷ s) end = let rest = slice_to s (end - len_utf8 c) in if end == 0 then [] else c ∷ rest

-- `while !s.is_char_boundary(end) { end -= 1; }`.
back_up : Text → ℕ → ℕ
back_up s zero = zero
back_up s (suc end) =
    let before = back_up s end in if is_char_boundary s (suc end) then suc end else before

pub truncate_at_char_boundary : Text → ℕ → Text
truncate_at_char_boundary s max_bytes =
    if leb (byte_len s) max_bytes then s else slice_to s (back_up s max_bytes)
