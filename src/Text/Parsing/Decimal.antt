-- ===== src/Text/Parsing/Decimal.antt =====
-- A u64 that is printed is read back.
use mathlib.Core.Logic.{dif_pos, dif_neg}
use mathlib.Core.WellFounded.{Acc}
use native.Mathlib.Decide.{dec_lt}
use native.Mathlib.Bridge.{le_prop}
use outbox_dispatcher.Base.Order.{lt_wf}
use outbox_dispatcher.Base.{
  ℕ, ◌+◌, ◌-◌, ◌*◌, ◌/◌, ◌%◌, ◌<◌, ◌≡◌, refl, ◌∙◌, ap, true, false, some, [], ◌∷◌, arith, All,
  is_empty,
}
use outbox_dispatcher.Text.{Text, is_ascii_digit, digits_acc, show}
use outbox_dispatcher.Text.Parsing.{from_digits, parse_u64}

from_digits-digit :
    (n d : ℕ) (s : Text)
    → d < 10
    → n * 10 + d < 18446744073709551616
    → from_digits n ((b'0' + d) ∷ s) ≡ from_digits (n * 10 + d) s
unfolding from_digits
from_digits-digit n d s small fits =
    let e : n * 10 + (b'0' + d - b'0') ≡ n * 10 + d = omega arith in
    rw (from_digits, e) (ground arith)

from_digits-digits_acc :
    (n : ℕ) (w : Acc ◌<◌ n) (out : Text)
    → n < 18446744073709551616
    → from_digits 0 (digits_acc n w out) ≡ from_digits n out
unfolding digits_acc
from_digits-digits_acc n (Acc.intro _ smaller) out fits = elim (dec_lt 9 n) [
  | yes p ↦ rw (dif_pos _ le_prop p) (
      from_digits-digits_acc (n / 10) (smaller (n / 10) (omega arith)) _ (omega arith)
      ∙ from_digits-digit (n / 10) (n % 10) out (omega arith) (omega arith)
      ∙ ap (λ m. from_digits m out) (omega arith))
  | no p ↦ rw (dif_neg _ p) (
      from_digits-digit 0 n out (omega arith) (omega arith)
      ∙ ap (λ m. from_digits m out) (omega arith))
]

digits_acc-All :
    (n : ℕ) (w : Acc ◌<◌ n) (out : Text)
    → All (λ c. is_ascii_digit c ≡ true) out
    → All (λ c. is_ascii_digit c ≡ true) (digits_acc n w out)
unfolding digits_acc
digits_acc-All n (Acc.intro _ smaller) out h = elim (dec_lt 9 n) [
  | yes p ↦
      rw (dif_pos _ le_prop p)
        (digits_acc-All (n / 10) (smaller (n / 10) (omega arith)) _ (ground arith, h))
  | no p ↦ rw (dif_neg _ p) (ground arith, h)
]

-- `show` prints ASCII digits only.
pub show-All : (n : ℕ) → All (λ c. is_ascii_digit c ≡ true) (show n)
unfolding show
show-All n = digits_acc-All n (lt_wf.apply n) [] tt

parse_digits :
    (s : Text)
    → All (λ c. is_ascii_digit c ≡ true) s
    → is_empty s ≡ false
    → parse_u64 s ≡ from_digits 0 s
unfolding parse_u64
parse_digits [] h e = cc
parse_digits (c ∷ s) h e = ground (arith, h.0)

digits_acc-nonempty : (n : ℕ) (w : Acc ◌<◌ n) (out : Text) → is_empty (digits_acc n w out) ≡ false
unfolding digits_acc
digits_acc-nonempty n (Acc.intro _ smaller) out = elim (dec_lt 9 n) [
  | yes p ↦
      rw (dif_pos _ le_prop p) (digits_acc-nonempty (n / 10) (smaller (n / 10) (omega arith)) _)
  | no p ↦ rw (dif_neg _ p) refl
]

pub parse_u64-show : (n : ℕ) → n < 18446744073709551616 → parse_u64 (show n) ≡ some n
unfolding show from_digits
parse_u64-show n fits =
    parse_digits (show n) (show-All n) (digits_acc-nonempty n (lt_wf.apply n) [])
    ∙ from_digits-digits_acc n (lt_wf.apply n) [] fits
