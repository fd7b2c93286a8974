-- ===== src/Keyring/Loads.antt =====
-- What a keyring that loads holds, and how many errors one that does not reports.
use mathlib.Core.Path.{subst}
use outbox_dispatcher.Base.{
  ℕ, suc, ◌+◌, ◌≤◌, ◌<◌, ◌≡◌, refl, true, false, some, List, [], ◌∷◌, ◌++◌, length, length-append,
  is_some, is_empty, Result, ok, err, All, All-imp, Bool-cases, Option-cases, Result-cases, inl,
  inr, arith,
}
use outbox_dispatcher.Text.{Text, text_eq, text_eq_refl}
use outbox_dispatcher.Text.Parsing.{trim}
use outbox_dispatcher.Config.Settings.{SigningKeyConfig}
use outbox_dispatcher.Repo.Db.{order_by}
use outbox_dispatcher.Repo.Ordered.{All-of_order_by, length-order_by}
use outbox_dispatcher.Keyring.{
  get_text, Base64, KeyRing, get, check_secret, Loading, entry_le, load_entry, load_loop,
  load_internal,
}

-- A secret of an allowed size.
abbrev pub IsSized : List ℕ → Type 0
IsSized bytes = (32 ≤ length bytes) × (length bytes ≤ 256)

check_secret-IsSized :
    (engines : Base64) (id env : Text) (value : Result Text Text) {bytes : List ℕ}
    → check_secret engines id env value ≡ ok bytes
    → IsSized bytes
unfolding check_secret
check_secret-IsSized engines id env (err reason) h = cc
check_secret-IsSized engines id env (ok val) h = ground arith

some_injective : {A : Type 0} {x y : A} → some x ≡ some y → x ≡ y
some_injective h = cc

get_text-All :
    {A : Type 0} (P : A → Type 0) (k : Text) (entries : List (Text × A)) (a : A)
    → All (λ e. P e.1) entries
    → get_text k entries ≡ some a
    → P a
unfolding get_text
get_text-All P k [] a h e = absurd (cc)
get_text-All P k ((j, b) ∷ rest) a h e = elim (Bool-cases (text_eq j k)) [
  | inl hit ↦
      let same : some b ≡ some a = rw (hit, get_text) at e in subst P (some_injective same) h.0
  | inr miss ↦ get_text-All P k rest a h.1 (rw (miss, get_text) at e)
]

-- What one entry adds: an error, or a secret under its id.
data Adds (id : Text) (l : Loading) : Loading → Type 0 where
  an_error :
      (message : Text) (seen : List (Text × Text))
      → Adds id l (record l { errors = l.errors ++ message ∷ []; seen_envs = seen })
  a_secret :
      (bytes : List ℕ) (seen : List (Text × Text))
      → IsSized bytes
      → Adds id l (record l { keys = (id, bytes) ∷ l.keys; seen_envs = seen })

module _ (engines : Base64) (env_resolver : Text → Result Text Text) where
  load_entry-Adds :
      (id env : Text) (l : Loading) → Adds id l (load_entry engines env_resolver id env l)
  unfolding load_entry
  load_entry-Adds id env l = elim (Bool-cases (is_empty (trim env))) [
    | inl blank ↦ rw (blank, load_entry) (an_error _ l.seen_envs)
    | inr named ↦ elim (Option-cases (get_text env l.seen_envs)) [
      | inr (prior_id, used) ↦ rw (named, load_entry) (rw used (an_error _ l.seen_envs))
      | inl fresh ↦ elim (Result-cases (check_secret engines id env (env_resolver env))) [
        | inl (bytes, e) ↦
            rw (named, load_entry)
              (rw fresh (
                rw e (
                  a_secret bytes ((env, id) ∷ l.seen_envs)
                    (check_secret-IsSized engines id env (env_resolver env) e))))
        | inr (message, e) ↦
            rw (named, load_entry) (rw fresh (rw e (an_error message ((env, id) ∷ l.seen_envs))))
      ]
    ]
  ]

-- What an entry does to the counts, to the secrets, and to the ids that are resolved.
Adds-counts :
    {id : Text} {l l' : Loading}
    → Adds id l l'
    → length l'.errors + length l'.keys ≡ suc (length l.errors + length l.keys)
Adds-counts {id} {l} (an_error message seen) = omega (arith, length-append l.errors (message ∷ []))
Adds-counts (a_secret bytes seen sized) = omega arith

abbrev AllSized : Loading → Type 0
AllSized l = All (λ k. IsSized k.1) l.keys

Adds-AllSized : {id : Text} {l l' : Loading} → Adds id l l' → AllSized l → AllSized l'
Adds-AllSized (an_error message seen) h = h
Adds-AllSized (a_secret bytes seen sized) h = (sized, h)

abbrev pub IsKey : Text → List (Text × List ℕ) → Type 0
IsKey id keys = is_some (get_text id keys) ≡ true

Adds-IsKey :
    {id : Text} {l l' : Loading} (k : Text) → Adds id l l' → IsKey k l.keys → IsKey k l'.keys
unfolding get_text
Adds-IsKey k (an_error message seen) h = h
Adds-IsKey {id} k (a_secret bytes seen sized) h = ground arith

append-nonempty : {A : Type 0} (xs : List A) (y : A) → is_empty (xs ++ y ∷ []) ≡ false
append-nonempty [] y = refl
append-nonempty (x ∷ xs) y = refl

-- An entry that leaves no error leaves its id resolved.
Adds-resolves :
    {id : Text} {l l' : Loading}
    → Adds id l l'
    → is_empty l'.errors ≡ true
    → (is_empty l.errors ≡ true) × IsKey id l'.keys
unfolding get_text
Adds-resolves {id} {l} (an_error message seen) h =
    let e : false ≡ true = rw (append-nonempty l.errors message) at h in absurd (cc)
Adds-resolves {id} (a_secret bytes seen sized) h = (h, rw (text_eq_refl id, get_text) refl)

-- What the configured keys come to: each id has a secret of an allowed size and there are no
-- others, or there is at least one error, and no more than one for each key.
abbrev pub Loads : List (Text × SigningKeyConfig) → Result (List Text) KeyRing → Type 0
Loads signing_keys (ok ring) =
    All (λ e. (bytes : List ℕ) × (get ring e.0 ≡ some bytes) × IsSized bytes) signing_keys
    × (length ring.keys ≡ length signing_keys)
Loads signing_keys (err errors) = (0 < length errors) × (length errors ≤ length signing_keys)

module _ (engines : Base64) (env_resolver : Text → Result Text Text) where
  abbrev nothing : Loading
  nothing = record { errors = []; keys = []; seen_envs = [] }

  loop_counts :
      (entries : List (Text × SigningKeyConfig)) (l : Loading)
      → let l' = load_loop engines env_resolver entries l in
        length l'.errors + length l'.keys ≡ length entries + (length l.errors + length l.keys)
  unfolding load_loop
  loop_counts [] l = omega arith
  loop_counts ((id, cfg) ∷ rest) l =
      let l' = load_entry engines env_resolver id cfg.secret_env l in
      omega (
        arith,
        loop_counts rest l',
        Adds-counts (load_entry-Adds engines env_resolver id cfg.secret_env l),
      )

  loop-AllSized :
      (entries : List (Text × SigningKeyConfig)) (l : Loading)
      → AllSized l
      → AllSized (load_loop engines env_resolver entries l)
  unfolding load_loop
  loop-AllSized [] l h = h
  loop-AllSized ((id, cfg) ∷ rest) l h =
      loop-AllSized rest (load_entry engines env_resolver id cfg.secret_env l)
        (Adds-AllSized (load_entry-Adds engines env_resolver id cfg.secret_env l) h)

  loop-IsKey :
      (k : Text) (entries : List (Text × SigningKeyConfig)) (l : Loading)
      → IsKey k l.keys
      → IsKey k (load_loop engines env_resolver entries l).keys
  unfolding load_loop
  loop-IsKey k [] l h = h
  loop-IsKey k ((id, cfg) ∷ rest) l h =
      loop-IsKey k rest (load_entry engines env_resolver id cfg.secret_env l)
        (Adds-IsKey k (load_entry-Adds engines env_resolver id cfg.secret_env l) h)

  loop_resolves :
      (entries : List (Text × SigningKeyConfig)) (l : Loading)
      → is_empty (load_loop engines env_resolver entries l).errors ≡ true
      → (is_empty l.errors ≡ true)
        × All (λ e. IsKey e.0 (load_loop engines env_resolver entries l).keys) entries
  unfolding load_loop
  loop_resolves [] l h = (h, tt)
  loop_resolves ((id, cfg) ∷ rest) l h =
      let l' = load_entry engines env_resolver id cfg.secret_env l in
      let later = loop_resolves rest l' h in
      let here = Adds-resolves (load_entry-Adds engines env_resolver id cfg.secret_env l) later.0 in
      (here.0, (loop-IsKey id rest l' here.1, later.1))

  pub load_internal-Loads :
      (signing_keys : List (Text × SigningKeyConfig))
      → Loads signing_keys (load_internal engines env_resolver signing_keys)
  unfolding load_internal get
  load_internal-Loads signing_keys =
      let entries = order_by entry_le signing_keys in
      let l = load_loop engines env_resolver entries nothing in
      let size = length-order_by entry_le (λ _ _. Unit {0}) signing_keys in
      let counts = loop_counts entries nothing in
      elim (Bool-cases (is_empty l.errors)) [
        | inl clean ↦ rw clean (
          All-imp _ _ signing_keys
              (λ e key. resolved e.0 l.keys (loop-AllSized entries nothing tt) key)
              (All-of_order_by entry_le (λ _ _. Unit {0}) (λ e. IsKey e.0 l.keys) signing_keys
                (loop_resolves entries nothing clean).1),
          omega (arith, counts, size, empty_length l.errors clean),
        )
        | inr failed ↦ rw failed (nonempty_length l.errors failed, omega (arith, counts, size))
      ]
    where
      resolved :
          (id : Text) (keys : List (Text × List ℕ))
          → All (λ k. IsSized k.1) keys
          → IsKey id keys
          → (bytes : List ℕ) × (get_text id keys ≡ some bytes) × IsSized bytes
      resolved id keys sized key = elim (Option-cases (get_text id keys)) [
        | inl missing ↦ let e : false ≡ true = rw missing at key in absurd (cc)
        | inr (bytes, found) ↦ (bytes, found, get_text-All IsSized id keys bytes sized found)
      ]

      empty_length : (xs : List Text) → is_empty xs ≡ true → length xs ≡ 0
      empty_length [] h = refl
      empty_length (x ∷ xs) h = cc

      nonempty_length : (xs : List Text) → is_empty xs ≡ false → 0 < length xs
      nonempty_length [] h = cc
      nonempty_length (x ∷ xs) h = omega arith
