-- ===== src/AdminApi/Guard.antt =====
-- Who reaches a protected route.
use outbox_dispatcher.Base.{
  ◌≡◌, refl, ◌↔◌, true, Option, none, some, ◌∷◌, ◌++◌, Bool-cases, inl, inr, arith,
}
use outbox_dispatcher.Text.{Text, chars, bytes, text_eq_sound, text_eq_refl, to_ascii_lowercase}
use outbox_dispatcher.Text.Parsing.Parts.{Lacks}
use outbox_dispatcher.Repo.Db.{Db}
use outbox_dispatcher.AdminApi.{
  AdminState, Protected, protected_route, run_protected, serve, unauthorized,
}
use outbox_dispatcher.Text.Parsing.{split_once}
use outbox_dispatcher.Text.Parsing.Parts.{split_once-append, IsCut, split_once-IsCut}
use outbox_dispatcher.AdminApi.Auth.{accepts, is_authorised}

-- The value is the scheme Bearer in any case, a space, and the expected token, byte for byte.
abbrev pub BearsToken : Text → Text → Type 0
BearsToken expected value =
    (scheme : Text) × (provided : Text) × (value ≡ scheme ++ b' ' ∷ provided)
    × Lacks b' ' scheme
    × (to_ascii_lowercase scheme ≡ chars "bearer")
    × (bytes provided ≡ bytes expected)

abbrev pub Presents : Text → Option Text → Type 0
Presents expected none = ⊥
Presents expected (some value) = BearsToken expected value

accepts-BearsToken :
    (expected value : Text) (r : Option (Text × Text))
    → IsCut b' ' value r
    → accepts expected r ≡ true
    → BearsToken expected value
unfolding accepts
accepts-BearsToken expected value none cut h = absurd (cc)
accepts-BearsToken expected value (some (scheme, provided)) cut h = (
  scheme,
  provided,
  cut.0,
  cut.1,
  text_eq_sound (to_ascii_lowercase scheme) (chars "bearer") (ground arith),
  text_eq_sound (bytes provided) (bytes expected) (ground arith),
)

is_authorised_iff :
    (expected : Text) (authorization : Option Text)
    → (is_authorised expected authorization ≡ true) ↔ Presents expected authorization
unfolding is_authorised accepts
is_authorised_iff expected none = ((λ h. cc), (λ h. absurd h))
is_authorised_iff expected (some value) = (
  accepts-BearsToken expected value (split_once b' ' value) (split_once-IsCut b' ' value),
  λ (scheme, provided, whole, lacks, lower, same). rw whole (
      rw (split_once-append b' ' scheme provided lacks) (
        rw (lower, same)
          (ground (arith, text_eq_refl (chars "bearer"), text_eq_refl (bytes expected))))),
)

-- A request on a protected route whose header Authorization is the scheme Bearer, in any case, a
-- space and the expected token is served by the route's handler; any other is answered with 401,
-- and nothing is read or written for it.
pub serve_guarded :
    (state : AdminState) (auth_token : Text) (authorization : Option Text) (r : Protected) (db : Db)
    → (Presents auth_token authorization
        → serve state auth_token authorization (protected_route r) db ≡ run_protected r db)
      × (¬ Presents auth_token authorization
          → serve state auth_token authorization (protected_route r) db ≡ (unauthorized, db))
unfolding serve
serve_guarded state auth_token authorization r db =
    let iff = is_authorised_iff auth_token authorization in
    (
      λ presents. rw (iff.1 presents) refl,
      λ absent. elim (Bool-cases (is_authorised auth_token authorization)) [
        | inl let_in ↦ absurd (absent (iff.0 let_in))
        | inr kept_out ↦ rw kept_out refl
      ],
    )
