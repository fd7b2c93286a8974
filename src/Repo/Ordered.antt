-- ===== src/Repo/Ordered.antt =====
-- Sorted reads with a limit: what `ORDER BY … LIMIT n` leaves for the next read.
pub mod Conditions
use outbox_dispatcher.Base.{
  ℕ, zero, suc, ◌≤◌, ◌≡◌, refl, ap, ◌∙◌, Bool, true, false, List, [], ◌∷◌, take, length, All,
  All-imp, Bool-cases, inl, inr, arith,
}
use outbox_dispatcher.Repo.Db.{insert_by, order_by}

abbrev pub last_of {ℓ} : {A : Type ℓ} → A → List A → A
last_of x [] = x
last_of x (y ∷ ys) = last_of y ys

module _ {A : Type 0} (le : A → A → Bool) (Before : A → A → Type 0) where
  -- Every element stands before all that follow it.
  abbrev pub IsSorted : List A → Type 0
  IsSorted [] = Unit
  IsSorted (x ∷ xs) = All (Before x) xs × IsSorted xs

  -- No element of the list stands level with another.
  abbrev pub IsStrict : List A → Type 0
  IsStrict [] = Unit
  IsStrict (x ∷ xs) = All (λ y. le x y ≡ true → Before x y) xs × IsStrict xs

  insert_by-All :
      (P : A → Type 0) (x : A) (xs : List A) → P x → All P xs → All P (insert_by le x xs)
  unfolding insert_by
  insert_by-All P x [] p h = (p, tt)
  insert_by-All P x (y ∷ ys) p h = elim (Bool-cases (le x y)) [
    | inl before ↦ rw before (p, h)
    | inr after ↦ rw after (h.0, insert_by-All P x ys p h.1)
  ]

  All-of_insert_by :
      (P : A → Type 0) (x : A) (xs : List A) → All P (insert_by le x xs) → P x × All P xs
  unfolding insert_by
  All-of_insert_by P x [] h = (h.0, tt)
  All-of_insert_by P x (y ∷ ys) h = elim (Bool-cases (le x y)) [
    | inl before ↦ rw before at h
    | inr after ↦
        let g : P y × All P (insert_by le x ys) = rw after at h in
        let r = All-of_insert_by P x ys g.1 in (r.0, (g.0, r.1))
  ]

  -- What holds of every row that is read holds of every row of the table that the WHERE selects.
  pub All-of_order_by : (P : A → Type 0) (xs : List A) → All P (order_by le xs) → All P xs
  unfolding order_by
  All-of_order_by P [] h = tt
  All-of_order_by P (x ∷ xs) h =
      let r = All-of_insert_by P x (order_by le xs) h in (r.0, All-of_order_by P xs r.1)

  order_by-All : (P : A → Type 0) (xs : List A) → All P xs → All P (order_by le xs)
  unfolding order_by
  order_by-All P [] h = tt
  order_by-All P (x ∷ xs) h = insert_by-All P x (order_by le xs) h.0 (order_by-All P xs h.1)

  length-insert_by : (x : A) (xs : List A) → length (insert_by le x xs) ≡ suc (length xs)
  unfolding insert_by
  length-insert_by x [] = refl
  length-insert_by x (y ∷ ys) = ground (arith, length-insert_by x ys)

  pub length-order_by : (xs : List A) → length (order_by le xs) ≡ length xs
  unfolding order_by
  length-order_by [] = refl
  length-order_by (x ∷ xs) = length-insert_by x (order_by le xs) ∙ ap suc (length-order_by xs)

  module _ (trans : (x y z : A) → Before x y → Before y z → Before x z)
      (otherwise : (x y : A) → le x y ≡ false → Before y x) where
    insert_by-IsSorted :
        (x : A) (ys : List A)
        → All (λ y. le x y ≡ true → Before x y) ys
        → IsSorted ys
        → IsSorted (insert_by le x ys)
    unfolding insert_by
    insert_by-IsSorted x [] strict s = (tt, tt)
    insert_by-IsSorted x (y ∷ ys) strict s = elim (Bool-cases (le x y)) [
      | inl before ↦
          let first = strict.0 before in
          rw before ((first, All-imp _ _ ys (λ z b. trans x y z first b) s.0), s)
      | inr after ↦ rw after (
        insert_by-All (Before y) x ys (otherwise x y after) s.0,
        insert_by-IsSorted x ys strict.1 s.1,
      )
    ]

    pub order_by-IsSorted : (xs : List A) → IsStrict xs → IsSorted (order_by le xs)
    unfolding order_by
    order_by-IsSorted [] h = tt
    order_by-IsSorted (x ∷ xs) h =
        insert_by-IsSorted x (order_by le xs) (order_by-All _ xs h.0) (order_by-IsSorted xs h.1)

  -- Past a limit stand only rows behind the last row that is read.
  pub All-of_take :
      (Q : A → Type 0) (n : ℕ) (x : A) (xs : List A)
      → IsSorted (x ∷ xs)
      → Q x
      → All Q (take n xs)
      → ((y : A) → Before (last_of x (take n xs)) y → Q y)
      → All Q (x ∷ xs)
  All-of_take Q zero x xs s q taken rest = (q, All-imp (Before x) Q xs rest s.0)
  All-of_take Q (suc n) x [] s q taken rest = (q, tt)
  All-of_take Q (suc n) x (y ∷ ys) s q taken rest =
      (q, All-of_take Q n y ys s.1 taken.0 taken.1 rest)
