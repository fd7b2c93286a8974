-- ===== src/Repo/Query.antt =====
-- Laws of a round trip: a healthy one is its statement, and any one keeps what its statement keeps.
use outbox_dispatcher.Base.{◌≡◌, sym, ap, ◌∙◌, refl, inl, inr, [], Result, ok, err, Result-cases}
use outbox_dispatcher.Repo.Error.{Error}
use outbox_dispatcher.Repo.Db.{
  Fault, healthy, refused, unanswered, Db, Action, Statement, answer, effect, next_fault,
  other_faults, befall, query, ◌>>=◌, pure,
}

abbrev pub IsHealthy : Db → Type 0
IsHealthy db = db.faults ≡ []

pub query_healthy :
    {A : Type 0} (statement : Statement A) (db : Db)
    → IsHealthy db
    → query statement db ≡ answer (statement db) db
unfolding query
query_healthy statement db h =
    ap (λ fs. befall (next_fault fs) statement (record db { faults = other_faults fs })) h
    ∙ ap (λ fs. answer (statement (record db { faults = fs })) (record db { faults = fs })) (sym h)

befall-Keeps :
    {A : Type 0} (P : Db → Type 0) (f : Fault) (statement : Statement A) (db : Db)
    → P db
    → P (effect (statement db) db)
    → P (befall f statement db).1
unfolding befall
befall-Keeps P healthy statement db p q = elim (Result-cases (statement db)) [
  | inl ((a, db'), e) ↦ rw e (rw e at q)
  | inr (t, e) ↦ rw e p
]
befall-Keeps P (refused t) statement db p q = p
befall-Keeps P (unanswered t) statement db p q = q

-- A predicate that does not read the faults and that the statement keeps is kept whatever befalls.
pub query-Keeps :
    {A : Type 0} (P : Db → Type 0) (statement : Statement A) (db : Db)
    → P (record db { faults = other_faults db.faults })
    → ((d : Db) → P d → P (effect (statement d) d))
    → P (query statement db).1
unfolding query
query-Keeps P statement db base step =
    befall-Keeps P (next_fault db.faults) statement (record db { faults = other_faults db.faults })
      base (step _ base)

-- A healthy query followed by other calls.
pub bind_healthy :
    {A B : Type 0} (statement : Statement A) (f : A → Action B) (db : Db)
    → IsHealthy db
    → (query statement >>= f) db ≡ ((λ d. answer (statement d) d) >>= f) db
bind_healthy statement f db h = ap (λ p. ((λ _. p) >>= f) db) (query_healthy statement db h)

-- What follows a call only to shape its answer leaves the database alone.
pub bind_pure-db :
    {A B : Type 0} (m : Action A) (g : A → B) (db : Db) → ((m >>= λ a. pure (g a)) db).1 ≡ (m db).1
bind_pure-db {A} m g db = go (m db)
  where
    go : (p : Result Error A × Db) → (((λ _. p) >>= λ a. pure (g a)) db).1 ≡ p.1
    go (ok a, d) = refl
    go (err e, d) = refl

-- A chain of calls keeps what each of them keeps.
pub bind-Keeps :
    {A B : Type 0} (P : Db → Type 0) (m : Action A) (k : A → Action B) (db : Db)
    → P (m db).1
    → ((a : A) (d : Db) → P d → P (k a d).1)
    → P ((m >>= k) db).1
bind-Keeps {A} P m k db base step = go (m db) base
  where
    go : (p : Result Error A × Db) → P p.1 → P (((λ _. p) >>= k) db).1
    go (ok a, d) h = step a d h
    go (err e, d) h = h

-- A statement that only reads keeps what does not read the faults.
pub read-Keeps :
    {A : Type 0} (P : Db → Type 0) (value : Db → A) (db : Db)
    → P (record db { faults = other_faults db.faults })
    → P (query (λ d. ok (value d, d)) db).1
read-Keeps P value db base = query-Keeps P (λ d. ok (value d, d)) db base (λ d h. h)
