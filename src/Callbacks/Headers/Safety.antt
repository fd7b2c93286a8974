-- ===== src/Callbacks/Headers/Safety.antt =====
-- The headers that pass: none reserved, none twice, and nothing that could split a request.
use mathlib.Core.List.{append-nil, append_assoc, map-append}
use outbox_dispatcher.Base.{
  ℕ, ◌≤◌, ◌<◌, ◌≡◌, refl, ◌≢◌, ◌∙◌, sym, ◌⊎◌, inl, inr, true, false, not, Option, none, some, List,
  [], ◌∷◌, ◌++◌, map, All, all, any, All-append, arith, All-imp, weaken, Ensures, returns,
  bind-Ensures, ok_or-Ensures, fail_if-Ensures, Bool-cases,
}
use outbox_dispatcher.Text.{
  Text, bytes, text_eq, text_eq_iff, text_eq_refl, contains, to_ascii_lowercase,
}
use outbox_dispatcher.Json.{Value, as_str, as_object}
use outbox_dispatcher.Callbacks.Headers.{
  Headers, is_tchar, is_valid_header_name, is_reserved, illegal_byte, insert, check_header,
  header_loop, parse_headers,
}

-- A tab, or a printable ASCII character: no CR, no LF.
abbrev IsValueByte : ℕ → Type 0
IsValueByte b = (b ≡ 9) ⊎ ((32 ≤ b) × (b < 127))

-- Printable, not a space and not a colon.
abbrev IsNameByte : ℕ → Type 0
IsNameByte b = (33 ≤ b) × (b < 127) × (b ≢ 58)

pub record IsSafe (h : Text × Text) : Type 0 where
  pub name_not_empty : h.0 ≢ []
  pub name_bytes : All IsNameByte (bytes h.0)
  pub not_reserved : is_reserved (to_ascii_lowercase h.0) ≡ false
  pub value_bytes : All IsValueByte (bytes h.1)

-- No two names are equal but for case.
abbrev pub DistinctNames : Headers → Type 0
DistinctNames [] = Unit
DistinctNames (h ∷ hs) =
    All (λ g. to_ascii_lowercase g.0 ≢ to_ascii_lowercase h.0) hs × DistinctNames hs

name_byte : (b : ℕ) → is_tchar b ≡ true → IsNameByte b
unfolding is_tchar
name_byte b h = ground arith

name_bytes_of_all : (bs : List ℕ) → all is_tchar bs ≡ true → All IsNameByte bs
name_bytes_of_all [] h = tt
name_bytes_of_all (b ∷ bs) h = (name_byte b (ground arith), name_bytes_of_all bs (ground arith))

value_bytes_of_any : (bs : List ℕ) → any illegal_byte bs ≡ false → All IsValueByte bs
unfolding illegal_byte
value_bytes_of_any [] h = tt
value_bytes_of_any (b ∷ bs) h = (ground arith, value_bytes_of_any bs (ground arith))

safe :
    (k s : Text)
    → not (is_valid_header_name k) ≡ false
    → is_reserved (to_ascii_lowercase k) ≡ false
    → any illegal_byte (bytes s) ≡ false
    → IsSafe (k, s)
unfolding is_valid_header_name
safe k s name free legal = record {
  name_not_empty = λ e. ground arith;
  name_bytes = name_bytes_of_all (bytes k) (ground arith);
  not_reserved = free;
  value_bytes = value_bytes_of_any (bytes s) legal;
}

-- What one round of the loop lets through.
check_header-Ensures :
    (seen_lower : List Text) (k : Text) (v : Value)
    → Ensures
        (λ s. IsSafe (k, s) × (contains seen_lower (to_ascii_lowercase k) ≡ false))
        (check_header seen_lower k v)
unfolding check_header
check_header-Ensures seen_lower k v =
    bind-Ensures (fail_if-Ensures (not (is_valid_header_name k)) _) λ _ name.
      bind-Ensures (fail_if-Ensures (is_reserved (to_ascii_lowercase k)) _) λ _ free.
        bind-Ensures (fail_if-Ensures (contains seen_lower (to_ascii_lowercase k)) _) λ _ new.
          bind-Ensures (ok_or-Ensures (as_str v) _) λ s is_string.
            bind-Ensures (fail_if-Ensures (any illegal_byte (bytes s)) _)
              λ _ legal. returns (safe k s name free legal, new)

-- The loop's variables agree: every name that was taken is among those seen.
abbrev Seen : List Text → Headers → Type 0
Seen seen = All λ h. contains seen (to_ascii_lowercase h.0) ≡ true

contains_cons :
    (seen : List Text) (s t : Text) → contains seen t ≡ true → contains (s ∷ seen) t ≡ true
unfolding contains
contains_cons seen s t h = ground arith

contains_head : (seen : List Text) (t : Text) → contains (t ∷ seen) t ≡ true
unfolding contains
contains_head seen t = ground (arith, text_eq_refl t)

-- A new name is appended.
insert_new :
    (seen : List Text) (k v : Text) (hs : Headers)
    → contains seen (to_ascii_lowercase k) ≡ false
    → Seen seen hs
    → insert k v hs ≡ hs ++ (k, v) ∷ []
unfolding insert
insert_new seen k v [] new taken = refl
insert_new seen k v (h ∷ hs) new taken = elim (Bool-cases (text_eq h.0 k)) [
  | inl same ↦
      let e : h.0 ≡ k = (text_eq_iff h.0 k).0 same in
      let hit : contains seen (to_ascii_lowercase k) ≡ true = rw e at taken.0 in absurd (cc hit)
  | inr other ↦ ground (arith, other, insert_new seen k v hs new taken.1)
]

distinct_append :
    (seen : List Text) (k v : Text) (hs : Headers)
    → contains seen (to_ascii_lowercase k) ≡ false
    → Seen seen hs
    → DistinctNames hs
    → DistinctNames (hs ++ (k, v) ∷ [])
distinct_append seen k v [] new taken d = (tt, tt)
distinct_append seen k v (h ∷ hs) new taken d = (
  All-append _ hs ((k, v) ∷ []) d.0 (
    (λ e. let hit : contains seen (to_ascii_lowercase k) ≡ true = rw e taken.0 in absurd (cc hit)),
    tt,
  ),
  distinct_append seen k v hs new taken.1 d.1,
)

-- What `header_loop` keeps: safe headers, distinct names, and the members' names in their order.
abbrev Passes : List (Text × Value) → Headers → Headers → Type 0
Passes obj before hs =
    All IsSafe hs
    × DistinctNames hs
    × (map (λ h. h.0) hs ≡ map (λ h. h.0) before ++ map (λ m. m.0) obj)

header_loop-Ensures :
    (obj : List (Text × Value)) (headers : Headers) (seen : List Text)
    → All IsSafe headers
    → DistinctNames headers
    → Seen seen headers
    → Ensures (Passes obj headers) (header_loop obj headers seen)
unfolding header_loop
header_loop-Ensures [] headers seen safe_all d taken = returns (safe_all, d, sym (append-nil _))
header_loop-Ensures ((k, v) ∷ rest) headers seen safe_all d taken =
    bind-Ensures (check_header-Ensures seen k v) λ s (ok_name, new).
      rw (insert_new seen k s headers new taken) (
        weaken
          (header_loop-Ensures rest (headers ++ (k, s) ∷ []) (to_ascii_lowercase k ∷ seen)
            (All-append IsSafe headers ((k, s) ∷ []) safe_all (ok_name, tt))
            (distinct_append seen k s headers new taken d)
            (All-append _ headers ((k, s) ∷ [])
              (All-imp _ _ headers
                (λ h t. contains_cons seen (to_ascii_lowercase k) (to_ascii_lowercase h.0) t) taken)
              (contains_head seen (to_ascii_lowercase k), tt)))
          (λ hs p. (p.0, p.1, p.2 ∙ simp (map-append, append_assoc))))

-- The same for a field that may be absent.
pub headers-Ensures :
    (v : Option Value) → Ensures (λ hs. All IsSafe hs × DistinctNames hs) (parse_headers v)
unfolding parse_headers
headers-Ensures none = returns (tt, tt)
headers-Ensures (some v) =
    bind-Ensures (ok_or-Ensures (as_object v) _)
      λ obj e. weaken (header_loop-Ensures obj [] [] tt tt tt) (λ hs p. (p.0, p.1))
