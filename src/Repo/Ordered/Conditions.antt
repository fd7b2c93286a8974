-- ===== src/Repo/Ordered/Conditions.antt =====
-- A further condition in a WHERE, and the rows behind a page.
use outbox_dispatcher.Base.{
  ◌≡◌, refl, sym, ap, ◌∙◌, Bool, true, false, List, [], ◌∷◌, select, if◌then◌else◌, All, All-imp,
  All-select-old, Bool-cases, inl, inr,
}
use outbox_dispatcher.Repo.Db.{insert_by, order_by}
use outbox_dispatcher.Repo.Ordered.{IsSorted, IsStrict, order_by-IsSorted}

module _ {A : Type 0} (le : A → A → Bool) (Before : A → A → Type 0) where
  insert_by-front : (x : A) (ys : List A) → All (λ y. le x y ≡ true) ys → insert_by le x ys ≡ x ∷ ys
  unfolding insert_by
  insert_by-front x [] h = refl
  insert_by-front x (y ∷ ys) h = rw (insert_by, h.0) refl

  module _ (trans : (x y z : A) → Before x y → Before y z → Before x z)
      (otherwise : (x y : A) → le x y ≡ false → Before y x)
      (le_before : (x y z : A) → le x y ≡ true → Before y z → le x z ≡ true) (q : A → Bool) where
    select-insert_by :
        (x : A) (ys : List A)
        → IsSorted le Before ys
        → select q (insert_by le x ys) ≡ (if q x then insert_by le x (select q ys) else select q ys)
    unfolding insert_by
    select-insert_by x [] s = refl
    select-insert_by x (y ∷ ys) s = elim (Bool-cases (le x y)) [
      | inl before ↦
          let front = insert_by-front x (select q (y ∷ ys)) (
            All-select-old (λ z. le x z ≡ true) q (y ∷ ys)
              (before, All-imp _ _ ys (λ z b. le_before x y z before b) s.0)) in
          elim (Bool-cases (q x)) [
            | inl hit ↦ rw (insert_by, before) (rw hit (sym front))
            | inr miss ↦ rw (insert_by, before) (rw miss refl)
          ]
      | inr after ↦
          let ih = select-insert_by x ys s.1 in
          elim (Bool-cases (q y)) [
            | inl hit ↦ elim (Bool-cases (q x)) [
              | inl both ↦
                  rw (insert_by, after)
                    (rw (hit, both) (rw after (ap (λ r. y ∷ r) (ih ∙ rw both refl))))
              | inr one ↦ rw (insert_by, after) (rw (hit, one) (ap (λ r. y ∷ r) (ih ∙ rw one refl)))
            ]
            | inr miss ↦ rw (insert_by, after) (rw miss ih)
          ]
    ]

    -- A further condition in the WHERE drops rows from the sorted answer.
    pub select-order_by :
        (xs : List A)
        → IsStrict le Before xs
        → select q (order_by le xs) ≡ order_by le (select q xs)
    unfolding order_by
    select-order_by [] s = refl
    select-order_by (x ∷ xs) s =
        let sorted = order_by-IsSorted le Before trans otherwise xs s.1 in
        let ih = select-order_by xs s.1 in
        select-insert_by x (order_by le xs) sorted ∙ elim (Bool-cases (q x)) [
          | inl hit ↦ rw hit (ap (insert_by le x) ih)
          | inr miss ↦ rw miss ih
        ]
