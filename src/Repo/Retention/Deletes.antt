-- ===== src/Repo/Retention/Deletes.antt =====
-- What retention deletes, and what it never deletes.
use outbox_dispatcher.Base.{
  ℕ, ◌+◌, ◌≤◌, ◌≡◌, refl, sym, Bool, true, false, not, ◌&&◌, List, [], ◌∷◌, length, is_none, arith,
  ok, ok-injective, any, All, All-imp, select, All-take, All-select, length-take-le, count-not,
}
use outbox_dispatcher.Schema.{Time, RawEvent, DeliveryRow, RetentionDeleted}
use outbox_dispatcher.Repo.Error.{Error}
use outbox_dispatcher.Repo.Db.{
  Db, All-order_by, query, befall, Fault, healthy, refused, unanswered, next_fault, other_faults,
}
use outbox_dispatcher.Repo.Retention.{
  has_dead_letter, in_progress, is_candidate, candidates, is_orphan, count_reasons,
  delete_statement, delete_terminal_events,
}

-- Every chosen event has all its deliveries finished, and is older than its cutoff.
candidates-AreCandidates :
    (ds : List DeliveryRow) (events : List RawEvent) (dead_letter_cutoff processed_cutoff : Time)
    (batch_limit : ℕ)
    → All
        (λ e. is_candidate ds dead_letter_cutoff processed_cutoff e ≡ true)
        (candidates ds events dead_letter_cutoff processed_cutoff batch_limit)
unfolding candidates
candidates-AreCandidates ds events dead_letter_cutoff processed_cutoff batch_limit =
    let p = is_candidate ds dead_letter_cutoff processed_cutoff in
    All-take (λ e. p e ≡ true) batch_limit _
      (All-order_by (λ e. p e ≡ true) _ _ (All-select p events))

-- A delivery that is neither finished nor dead.
abbrev pub is_under_way : DeliveryRow → Bool
is_under_way d = is_none d.processed_at && not d.dead_letter

under_way-kept :
    (chosen : List RawEvent) (d : DeliveryRow) (ds : List DeliveryRow)
    → All (λ e. any (in_progress e) (d ∷ ds) ≡ false) chosen
    → is_under_way d ≡ true
    → is_orphan chosen d ≡ false
unfolding is_orphan in_progress
under_way-kept [] d ds h u = refl
under_way-kept (c ∷ cs) d ds h u = ground (arith, under_way-kept cs d ds h.1 u)

tail-quiet :
    (chosen : List RawEvent) (d : DeliveryRow) (ds : List DeliveryRow)
    → All (λ e. any (in_progress e) (d ∷ ds) ≡ false) chosen
    → All (λ e. any (in_progress e) ds ≡ false) chosen
tail-quiet chosen d ds = All-imp _ _ chosen (λ e h. ground arith)

pub select-under_way :
    (chosen : List RawEvent) (ds : List DeliveryRow)
    → All (λ e. any (in_progress e) ds ≡ false) chosen
    → select is_under_way (select (λ d. not (is_orphan chosen d)) ds) ≡ select is_under_way ds
select-under_way chosen [] h = refl
select-under_way chosen (d ∷ ds) h =
    ground
      (arith, under_way-kept chosen d ds h, select-under_way chosen ds (tail-quiet chosen d ds h))

pub candidates-quiet :
    (ds : List DeliveryRow) (events : List RawEvent) (dead_letter_cutoff processed_cutoff : Time)
    (batch_limit : ℕ)
    → All
        (λ e. any (in_progress e) ds ≡ false)
        (candidates ds events dead_letter_cutoff processed_cutoff batch_limit)
unfolding is_candidate
candidates-quiet ds events dead_letter_cutoff processed_cutoff batch_limit =
    All-imp _ _ (candidates ds events dead_letter_cutoff processed_cutoff batch_limit)
      (λ e h. ground arith)
      (candidates-AreCandidates ds events dead_letter_cutoff processed_cutoff batch_limit)

-- An answered call deletes no delivery that is still under way, and reports no more events than the
-- batch limit.
pub delete_terminal_events_safe :
    (dead_letter_cutoff processed_cutoff : Time) (batch_limit : ℕ) (db : Db)
    (deleted : RetentionDeleted)
    → let (result, db') =
        delete_terminal_events dead_letter_cutoff processed_cutoff batch_limit db in
      result ≡ ok deleted
      → (select is_under_way db'.deliveries ≡ select is_under_way db.deliveries)
        × (deleted.processed + deleted.dead_letter ≤ batch_limit)
unfolding delete_terminal_events query befall delete_statement count_reasons candidates
delete_terminal_events_safe dead_letter_cutoff processed_cutoff batch_limit db deleted =
    go (next_fault db.faults)
  where
    db0 : Db
    db0 = record db { faults = other_faults db.faults }

    chosen : List RawEvent
    chosen = candidates db.deliveries db.events dead_letter_cutoff processed_cutoff batch_limit

    few : length chosen ≤ batch_limit
    few = length-take-le batch_limit _

    go :
        (f : Fault)
        → let (result, db') =
            befall f (delete_statement dead_letter_cutoff processed_cutoff batch_limit) db0 in
          result ≡ ok deleted
          → (select is_under_way db'.deliveries ≡ select is_under_way db.deliveries)
            × (deleted.processed + deleted.dead_letter ≤ batch_limit)
    go healthy h =
        let report : count_reasons db.deliveries chosen ≡ deleted = ok-injective {E = Error} h in
        (
          select-under_way chosen db.deliveries (
              candidates-quiet db.deliveries db.events dead_letter_cutoff processed_cutoff
                batch_limit),
          rw (sym report) (omega (arith, count-not (has_dead_letter db.deliveries) chosen, few)),
        )
    go (refused t) h = cc
    go (unanswered t) h = cc
