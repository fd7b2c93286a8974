-- ===== src/AdminApi/Paging.antt =====
-- An operator who follows `next_cursor` from page to page sees every dead letter.
use mathlib.Core.Path.{subst}
use mathlib.Core.List.{map-append}
use native.Mathlib.Decide.{ℕ_discrete}
use outbox_dispatcher.Base.{
  ℕ, zero, suc, ◌-◌, ◌<◌, ◌≡◌, ◌≢◌, refl, sym, ap, ◌∙◌, true, false, ◌&&◌, Option, none, some, List,
  [], ◌∷◌, ◌++◌, map, take, length, select, ltb, ◌==◌, All, All-imp, length-map, All-take, ok,
  arith,
}
use outbox_dispatcher.Text.{Text}
use outbox_dispatcher.Schema.{RawEvent, DeliveryRow, DeadLetterRow, PageParams}
use outbox_dispatcher.Repo.Db.{Db, order_by}
use outbox_dispatcher.Repo.Query.{IsHealthy, query_healthy}
use outbox_dispatcher.Repo.Scheduling.Inserts.{IsTable}
use outbox_dispatcher.AdminApi.Pages.{drop, take-drop, length-drop-le, take_short, last_of-All}
use outbox_dispatcher.Repo.Ordered.{IsSorted, last_of}
use outbox_dispatcher.Repo.Dispatching.{join_events}
use outbox_dispatcher.Repo.Admin.{
  list_dead_letters, dead_letter_row, on_page, before_cursor, newest_first,
}
use outbox_dispatcher.AdminApi.{
  Reply, answered, dead_letters, DeadLettersQuery, DeadLettersResponse, clamp_limit, last_id,
  next_cursor, list_dead_letters_handler, dead_letters_reply,
}
use outbox_dispatcher.AdminApi.Listing.{
  listed, NewerJoined, no_test, listed-IsSorted, listed-All, listed_narrows, behind,
}

-- What the table of dead letters holds, newest first; `before` is the cursor to start from.
abbrev pub all_dead_letters : DeadLettersQuery → Db → List DeadLetterRow
all_dead_letters q db = map dead_letter_row (listed q.callback_name q.before db)

-- The first rows as a page of a given size.
page_from : ℕ → List (DeliveryRow × RawEvent) → DeadLettersResponse
page_from limit rows =
    let items = map dead_letter_row (take limit rows) in
    record { items = items; next_cursor = next_cursor (λ r. r.delivery_id) limit items }

-- The page that the handler answers.
page_of : DeadLettersQuery → Db → DeadLettersResponse
page_of q db = page_from (clamp_limit q.limit) (listed q.callback_name q.before db)

handler_healthy :
    (q : DeadLettersQuery) (db : Db)
    → IsHealthy db
    → list_dead_letters_handler q db ≡ (answered 200 (dead_letters (page_of q db)), db)
unfolding list_dead_letters_handler list_dead_letters on_page listed page_of page_from
handler_healthy q db h =
    let page : PageParams = record {
      limit = clamp_limit q.limit;
      cursor = q.before;
      callback_name = q.callback_name;
    } in
    ap (λ p. (dead_letters_reply (clamp_limit q.limit) p.0, p.1))
      (query_healthy
        (λ d. ok (
          map dead_letter_row (
              take page.limit (
                join_events d.events (
                  order_by newest_first
                    (select (λ r. r.dead_letter && on_page page r) d.deliveries)))),
          d,
        ))
        db h)

last_id-map :
    (x : DeliveryRow × RawEvent) (xs : List (DeliveryRow × RawEvent))
    → last_id (λ r. r.delivery_id) (map dead_letter_row (x ∷ xs)) ≡ some (last_of x xs).0.id
unfolding dead_letter_row
last_id-map x [] = refl
last_id-map x (y ∷ ys) = last_id-map y ys

-- The pages, one request for each until there is no next one; `none` means that the fuel ran out.
abbrev prepend : List DeadLetterRow → Option (List DeadLetterRow) → Option (List DeadLetterRow)
prepend items none = none
prepend items (some rest) = some (items ++ rest)

abbrev onward :
    (Option ℕ → Db → Option (List DeadLetterRow))
    → DeadLettersResponse
    → Option ℕ
    → Db
    → Option (List DeadLetterRow)
onward continue page none db = some page.items
onward continue page (some c) db = prepend page.items (continue (some c) db)

next_page : (Option ℕ → Db → Option (List DeadLetterRow)) → Reply × Db → Option (List DeadLetterRow)
next_page continue (answered status (dead_letters page), db) =
    onward continue page page.next_cursor db
next_page continue other = none

pub follow_pages : ℕ → DeadLettersQuery → Db → Option (List DeadLetterRow)
unfolding next_page
follow_pages zero q db = none
follow_pages (suc fuel) q db =
    next_page (λ c d. follow_pages fuel (record q { before = c }) d)
      (list_dead_letters_handler q db)

-- Where a page of `m + 1` rows leads.
module _ (continue : Option ℕ → Db → Option (List DeadLetterRow)) (m : ℕ) where
  ends_empty :
      (db : Db)
      → let page = page_from (suc m) [] in onward continue page page.next_cursor db ≡ some []
  unfolding page_from
  ends_empty db = ground arith

  module _ (x : DeliveryRow × RawEvent) (xs : List (DeliveryRow × RawEvent)) (db : Db) where
    abbrev items : List DeadLetterRow
    items = map dead_letter_row (x ∷ take m xs)

    goes_on :
        length (take m xs) ≡ m
        → let page = page_from (suc m) (x ∷ xs) in
          onward continue page page.next_cursor db
          ≡ prepend items (continue (some (last_of x (take m xs)).0.id) db)
    unfolding page_from
    goes_on full =
        let test : (length items == suc m) ≡ true =
          ground (arith, length-map (take m xs) dead_letter_row) in
        let leads : next_cursor (λ r. r.delivery_id) (suc m) items
            ≡ some (last_of x (take m xs)).0.id =
          rw test (last_id-map x (take m xs)) in
        ap (λ c. onward continue (record { items = items; next_cursor = c }) c db) leads

    ends_short :
        length (take m xs) ≢ m
        → let page = page_from (suc m) (x ∷ xs) in
          onward continue page page.next_cursor db ≡ some items
    unfolding page_from
    ends_short short =
        let differ : length (map dead_letter_row (take m xs)) ≢ m =
          λ e. short (sym (length-map (take m xs) dead_letter_row) ∙ e) in
        let test : (length items == suc m) ≡ false = ground arith in
        let leads : next_cursor (λ r. r.delivery_id) (suc m) items ≡ none = rw test refl in
        ap (λ c. onward continue (record { items = items; next_cursor = c }) c db) leads

-- A row that is listed from a cursor is below it, and so is what is below the row.
below :
    (cursor : Option ℕ) (d : DeliveryRow)
    → before_cursor cursor d ≡ true
    → (r : DeliveryRow) → ltb r.id d.id ≡ true
    → before_cursor cursor r ≡ true
below none d h r lt = refl
below (some c) d h r lt = ground arith

module _ (name : Option Text) (limit : ℕ) (db : Db) (h : IsHealthy db) (table : IsTable db) where
  abbrev asked : Option ℕ → DeadLettersQuery
  asked cursor = record { callback_name = name; before = cursor; limit = limit }

  round :
      (fuel : ℕ) (cursor : Option ℕ)
      → let page = page_of (asked cursor) db in
        follow_pages (suc fuel) (asked cursor) db
        ≡ onward (λ c d. follow_pages fuel (asked c) d) page page.next_cursor db
  unfolding follow_pages
  round fuel cursor =
      ap (next_page (λ c d. follow_pages fuel (asked c) d)) (handler_healthy (asked cursor) db h)

  abbrev onwards : ℕ → Option ℕ → Db → Option (List DeadLetterRow)
  onwards fuel c d = follow_pages fuel (asked c) d

  start :
      (fuel : ℕ) (cursor : Option ℕ) (rows : List (DeliveryRow × RawEvent)) (m : ℕ)
      → listed name cursor db ≡ rows
      → clamp_limit limit ≡ suc m
      → let page = page_from (suc m) rows in
        follow_pages (suc fuel) (asked cursor) db ≡ onward (onwards fuel) page page.next_cursor db
  unfolding page_of
  start fuel cursor rows m e page_size =
      round fuel cursor
      ∙ ap (λ page. onward (onwards fuel) page page.next_cursor db)
          (ap (λ n. page_from n (listed name cursor db)) page_size ∙ ap (page_from (suc m)) e)

  walk :
      (fuel : ℕ) (cursor : Option ℕ) (rows : List (DeliveryRow × RawEvent)) (m : ℕ)
      → listed name cursor db ≡ rows
      → clamp_limit limit ≡ suc m
      → length rows < fuel
      → follow_pages fuel (asked cursor) db ≡ some (map dead_letter_row rows)
  walk zero cursor rows m e page_size enough = absurd (omega arith)
  walk (suc fuel) cursor [] m e page_size enough =
      start fuel cursor [] m e page_size ∙ ends_empty (onwards fuel) m db
  walk (suc fuel) cursor (x ∷ xs) m e page_size enough =
      let bound : All (λ p. before_cursor cursor p.0 ≡ true) (x ∷ xs) =
        subst (All (λ p. before_cursor cursor p.0 ≡ true)) e (
          All-imp _ _ (listed name cursor db) (λ p w. ground arith)
            (listed-All name db table cursor)) in
      elim (ℕ_discrete (length (take m xs)) m) [
        | yes full ↦
            let last = last_of x (take m xs) in
            let rest : listed name (some last.0.id) db ≡ drop m xs =
              listed_narrows name db table cursor last.0.id (
                below cursor last.0 (
                  last_of-All (λ p. before_cursor cursor p.0 ≡ true) x (take m xs) bound.0
                    (All-take (λ p. before_cursor cursor p.0 ≡ true) m xs bound.1)))
              ∙ ap (select (λ p. ltb p.0.id last.0.id)) e
              ∙ behind m x xs
                  (subst (IsSorted no_test NewerJoined) e (listed-IsSorted name db table cursor)) in
            let later =
              walk fuel (some last.0.id) (drop m xs) m rest page_size
                (omega (arith, length-drop-le m xs)) in
            start fuel cursor (x ∷ xs) m e page_size
            ∙ goes_on (onwards fuel) m x xs db full
            ∙ ap (prepend (map dead_letter_row (x ∷ take m xs))) later
            ∙ ap some (
                sym (map-append dead_letter_row (x ∷ take m xs) (drop m xs))
                ∙ ap (λ r. map dead_letter_row (x ∷ r)) (take-drop m xs))
        | no short ↦
            start fuel cursor (x ∷ xs) m e page_size
            ∙ ends_short (onwards fuel) m x xs db short
            ∙ ap (λ r. some (map dead_letter_row (x ∷ r))) (take_short m xs short)
      ]

  -- With more requests than there are dead letters to show, following `next_cursor` on a healthy
  -- database whose keys are distinct comes to an end, whatever limit is asked for, and the pages
  -- together are exactly the rows that the query gives without its LIMIT, in that order.
  pub follow_pages-all :
      (fuel : ℕ) (cursor : Option ℕ)
      → let q : DeadLettersQuery = record {
        callback_name = name;
        before = cursor;
        limit = limit;
      } in
        length (all_dead_letters q db) < fuel
        → follow_pages fuel q db ≡ some (all_dead_letters q db)
  follow_pages-all fuel cursor enough =
      walk fuel cursor (listed name cursor db) (clamp_limit limit - 1) refl (ground arith)
        (omega (arith, length-map (listed name cursor db) dead_letter_row))
