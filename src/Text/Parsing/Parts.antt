-- ===== src/Text/Parsing/Parts.antt =====
-- A text is split where it was joined, and trimming takes nothing else than white space.
use outbox_dispatcher.Base.{
  ℕ, ◌≡◌, refl, ◌∙◌, ap, false, Option, some, [], ◌∷◌, ◌++◌, arith, ◌==◌, All, Bool-cases, inl, inr,
  none,
}
use outbox_dispatcher.Text.{Text}
use outbox_dispatcher.Text.Parsing.{
  is_whitespace, before_rest, split_once, split, trim_start, trim_end, trim, strip_prefix,
}

-- The text is free of a separator.
abbrev pub Lacks : ℕ → Text → Type 0
Lacks sep = All (λ c. (c == sep) ≡ false)

pub split_whole : (sep : ℕ) (s : Text) → Lacks sep s → split sep s ≡ s ∷ []
unfolding split
split_whole sep [] h = refl
split_whole sep (c ∷ s) h = rw (split, h.0) (rw (split_whole sep s h.1) refl)

pub split-append : (sep : ℕ) (s t : Text) → Lacks sep s → split sep (s ++ sep ∷ t) ≡ s ∷ split sep t
unfolding split
split-append sep [] t h = ground arith
split-append sep (c ∷ s) t h = rw (split, h.0) (rw (split-append sep s t h.1) refl)

-- No character is white space.
abbrev pub Solid : Text → Type 0
Solid = All (λ c. is_whitespace c ≡ false)

trim_start-Solid : (s : Text) → Solid s → trim_start s ≡ s
unfolding trim_start
trim_start-Solid [] h = refl
trim_start-Solid (c ∷ s) h = rw (trim_start, h.0) refl

trim_end-Solid : (s : Text) → Solid s → trim_end s ≡ s
unfolding trim_end
trim_end-Solid [] h = refl
trim_end-Solid (c ∷ []) h = rw (trim_end, h.0) refl
trim_end-Solid (c ∷ d ∷ s) h = rw (trim_end-Solid (d ∷ s) h.1) refl

pub trim-Solid : (s : Text) → Solid s → trim s ≡ s
unfolding trim
trim-Solid s h = ap trim_end (trim_start-Solid s h) ∙ trim_end-Solid s h

pub strip_prefix-append : (p s : Text) → strip_prefix (p ++ s) p ≡ some s
unfolding strip_prefix
strip_prefix-append [] s = refl
strip_prefix-append (c ∷ p) s = ground (arith, strip_prefix-append p s)

-- A text is cut at its first separator.
pub split_once-append :
    (sep : ℕ) (s t : Text) → Lacks sep s → split_once sep (s ++ sep ∷ t) ≡ some (s, t)
unfolding split_once
split_once-append sep [] t h = ground arith
split_once-append sep (c ∷ s) t h = rw (split_once, h.0) (rw (split_once-append sep s t h.1) refl)

-- What a cut gives back.
abbrev pub IsCut : ℕ → Text → Option (Text × Text) → Type 0
IsCut sep s none = Unit
IsCut sep s (some (a, b)) = (s ≡ a ++ sep ∷ b) × Lacks sep a

before_rest-IsCut :
    (sep c : ℕ) (s : Text) (r : Option (Text × Text))
    → (c == sep) ≡ false
    → IsCut sep s r
    → IsCut sep (c ∷ s) (before_rest c r)
before_rest-IsCut sep c s none other h = tt
before_rest-IsCut sep c s (some (a, b)) other h = (ap (λ x. c ∷ x) h.0, (other, h.1))

pub split_once-IsCut : (sep : ℕ) (s : Text) → IsCut sep s (split_once sep s)
unfolding split_once
split_once-IsCut sep [] = tt
split_once-IsCut sep (c ∷ s) = elim (Bool-cases (c == sep)) [
  | inl found ↦ rw found (ground arith, tt)
  | inr other ↦
      rw other (before_rest-IsCut sep c s (split_once sep s) other (split_once-IsCut sep s))
]
