-- ===== src/Repo/Truncate/Longest.antt =====
-- The truncation is the longest prefix of whole chars that fits.
use native.Mathlib.Decide.{dec_lt}
use outbox_dispatcher.Base.{
  ℕ, zero, suc, ◌+◌, ◌-◌, ◌≤◌, ◌<◌, ◌≡◌, refl, sym, ap, ◌∙◌, true, [], ◌∷◌, leb, if◌then◌else◌,
  arith, inl, inr, Bool-cases,
}
use outbox_dispatcher.Text.{Text, len_utf8, len_utf8_pos, byte_len}
use outbox_dispatcher.Repo.Truncate.{is_char_boundary, slice_to, back_up, truncate_at_char_boundary}

-- The reference: chars are taken while they fit.
pub longest_prefix : Text → ℕ → Text
longest_prefix [] room = []
longest_prefix (c ∷ s) room =
    let rest = longest_prefix s (room - len_utf8 c) in
    if leb (len_utf8 c) room then c ∷ rest else []

-- Before the first char ends there is no boundary but 0.
back_up_short : (c : ℕ) (s : Text) (m : ℕ) → m < len_utf8 c → back_up (c ∷ s) m ≡ 0
unfolding back_up is_char_boundary
back_up_short c s zero h = refl
back_up_short c s (suc m) h = ground (arith, back_up_short c s m (omega arith))

boundary_zero : (s : Text) → is_char_boundary s 0 ≡ true
unfolding is_char_boundary
boundary_zero [] = refl
boundary_zero (c ∷ s) = refl

boundary_cons :
    (c : ℕ) (s : Text) (k : ℕ) → is_char_boundary (c ∷ s) (len_utf8 c + k) ≡ is_char_boundary s k
unfolding is_char_boundary
boundary_cons c s k =
    let e : len_utf8 c + k - len_utf8 c ≡ k = omega arith in
    rw e (ground (arith, len_utf8_pos c, boundary_zero s))

back_up_step :
    (s : Text) (n : ℕ)
    → 0 < n
    → back_up s n ≡ (if is_char_boundary s n then n else back_up s (n - 1))
unfolding back_up
back_up_step s zero h = elim h [ ]
back_up_step s (suc n) h = ground arith

back_up_cons :
    (c : ℕ) (s : Text) (k : ℕ) → back_up (c ∷ s) (len_utf8 c + k) ≡ len_utf8 c + back_up s k
unfolding back_up
back_up_cons c s zero = ground (
  arith,
  back_up_step (c ∷ s) (len_utf8 c + 0),
  boundary_cons c s 0,
  boundary_zero s,
  len_utf8_pos c,
)
back_up_cons c s (suc k) =
    let e : len_utf8 c + suc k - 1 ≡ len_utf8 c + k = omega arith in
    ground (
      arith,
      rw e at (back_up_step (c ∷ s) (len_utf8 c + suc k) (omega arith)),
      boundary_cons c s (suc k),
      back_up_cons c s k,
    )

slice_to-back_up : (s : Text) (m : ℕ) → slice_to s (back_up s m) ≡ longest_prefix s m
unfolding slice_to longest_prefix
slice_to-back_up [] m = refl
slice_to-back_up (c ∷ s) m = elim (dec_lt m (len_utf8 c)) [
  | yes short ↦ ground (arith, back_up_short c s m short)
  | no long ↦
      let k = m - len_utf8 c in
      let split : m ≡ len_utf8 c + k = omega arith in
      let all_of : back_up (c ∷ s) m ≡ len_utf8 c + back_up s k =
        ap (back_up (c ∷ s)) split ∙ back_up_cons c s k in
      let rest : len_utf8 c + back_up s k - len_utf8 c ≡ back_up s k = omega arith in
      rw (all_of, rest) (ground (arith, slice_to-back_up s k, len_utf8_pos c))
]

longest_prefix_whole : (s : Text) (m : ℕ) → byte_len s ≤ m → longest_prefix s m ≡ s
unfolding longest_prefix
longest_prefix_whole [] m h = refl
longest_prefix_whole (c ∷ s) m h = ground (arith, longest_prefix_whole s (m - len_utf8 c))

-- The loop that backs up to a boundary takes exactly the chars that fit.
pub truncate-eq-longest_prefix :
    (s : Text) (m : ℕ) → truncate_at_char_boundary s m ≡ longest_prefix s m
unfolding truncate_at_char_boundary
truncate-eq-longest_prefix s m = elim (Bool-cases (leb (byte_len s) m)) [
  | inl fits ↦ rw fits (sym (longest_prefix_whole s m (ground arith)))
  | inr long ↦ rw long (slice_to-back_up s m)
]

-- So the result fits, and only whole chars at the end are cut.
longest_prefix-fits : (s : Text) (m : ℕ) → byte_len (longest_prefix s m) ≤ m
unfolding longest_prefix
longest_prefix-fits [] m = omega arith
longest_prefix-fits (c ∷ s) m = ground (arith, longest_prefix-fits s (m - len_utf8 c))

-- What is left fits into the limit, in bytes.
pub truncate-fits : (s : Text) (m : ℕ) → byte_len (truncate_at_char_boundary s m) ≤ m
truncate-fits s m = rw (truncate-eq-longest_prefix s m) (longest_prefix-fits s m)
