-- ===== src/Base/Outcome.antt =====
-- Rust's `Result<A, E>` with `?`, and its helpers on options.
use mathlib.Core.Path.{◌≡◌, refl, subst}
use mathlib.Core.Bool.{Bool, true, false}
use mathlib.Core.Logic.{◌⊎◌, inl, inr}
use mathlib.Core.Option.{Option, none, some}

pub data Result (E A : Type 0) : Type 0 where
  ok : A → Result E A
  err : E → Result E A

infixl 5 ◌>>=◌ ◌>>◌
abbrev pub ◌>>=◌ : {E A B : Type 0} → Result E A → (A → Result E B) → Result E B
ok a >>= f = f a
err e >>= f = err e

abbrev pub ◌>>◌ : {E B : Type 0} → Result E (Unit {0}) → Result E B → Result E B
m >> k = m >>= λ _. k

-- `Option::ok_or_else`.
abbrev pub ok_or : {E A : Type 0} → Option A → E → Result E A
ok_or none e = err e
ok_or (some a) e = ok a

-- `if test { return Err(e) }`.
abbrev pub fail_if : {E : Type 0} → Bool → E → Result E (Unit {0})
fail_if true e = err e
fail_if false e = ok tt

abbrev pub map_err : {E F A : Type 0} → (E → F) → Result E A → Result F A
map_err f (ok a) = ok a
map_err f (err e) = err (f e)

-- What a successful result satisfies.
abbrev pub Returns : {E A : Type 0} → (A → Type 0) → Result E A → Type 0
Returns P (ok a) = P a
Returns P (err e) = Unit

pub Result-cases :
    {E A : Type 0} (r : Result E A) → ((a : A) × (r ≡ ok a)) ⊎ ((e : E) × (r ≡ err e))
Result-cases (ok a) = inl (a, refl)
Result-cases (err e) = inr (e, refl)

pub ok-injective : {E A : Type 0} {a b : A} → ◌≡◌ {A = Result E A} (ok a) (ok b) → a ≡ b
ok-injective h = cc

-- Postconditions of a chain, as a family that determines its predicate.
pub data Ensures {E A : Type 0} (P : A → Type 0) : Result E A → Type 0 where
  returns : {a : A} → P a → Ensures P (ok a)
  fails : {e : E} → Ensures P (err e)

pub bind-Ensures :
    {E A B : Type 0} {P : A → Type 0} {Q : B → Type 0} {m : Result E A} {f : A → Result E B}
    → Ensures P m
    → ((a : A) → P a → Ensures Q (f a))
    → Ensures Q (m >>= f)
bind-Ensures (returns {a = a} p) step = step a p
bind-Ensures fails step = fails

pub ok_or-Ensures : {E A : Type 0} (o : Option A) (e : E) → Ensures (λ a. o ≡ some a) (ok_or o e)
ok_or-Ensures none e = fails
ok_or-Ensures (some a) e = returns refl

pub fail_if-Ensures : {E : Type 0} (b : Bool) (e : E) → Ensures (λ _. b ≡ false) (fail_if b e)
fail_if-Ensures true e = fails
fail_if-Ensures false e = returns refl

pub map_err-Ensures :
    {E F A : Type 0} {P : A → Type 0} (f : E → F) {m : Result E A}
    → Ensures P m
    → Ensures P (map_err f m)
map_err-Ensures f (returns p) = returns p
map_err-Ensures f fails = fails

-- What a result that is known satisfies.
pub Ensures-ok :
    {E A : Type 0} {P : A → Type 0} {m : Result E A} (a : A) → Ensures P m → m ≡ ok a → P a
Ensures-ok {E} {A} {P} a (returns {a = b} p) e = subst P (ok-injective {E = E} e) p
Ensures-ok a fails e = cc

pub weaken :
    {E A : Type 0} {P Q : A → Type 0} {m : Result E A}
    → Ensures P m
    → ((a : A) → P a → Q a)
    → Ensures Q m
weaken (returns {a = a} p) imp = returns (imp a p)
weaken fails imp = fails

pub any-Ensures : {E A : Type 0} (m : Result E A) → Ensures (λ _. Unit {0}) m
any-Ensures (ok a) = returns tt
any-Ensures (err e) = fails
