-- ===== src/Storage/Inbox.antt =====
-- The processed_events table (shared_data_service/app/database/inbox.py) and its bulk insert,
-- mark_events_processed of shared_data_service/app/database/unit_of_work.py.
use rabbit_speed_test.Base.{
  ◌≡◌, refl, ap, ◌∙◌, not, ◌&&◌, ◌||◌, List, [], ◌∷◌, ◌++◌, Eq, contains, contains-append, dedupe,
  contains-dedupe, arith, if◌then◌else◌,
}

module _ {P : Type 0} ⦃e : Eq P⦄ where
  -- INSERT ... ON CONFLICT DO NOTHING RETURNING: the rows that were new, and the table.
  unfoldable pub insert_new : List P → List P → List P × List P
  insert_new inbox [] = ([], inbox)
  insert_new inbox (p ∷ ps) =
      let known = contains p inbox in
      let rest = insert_new (if known then inbox else inbox ++ p ∷ []) ps in
      (if known then rest.0 else p ∷ rest.0, rest.1)

  unfoldable pub mark_events_processed : List P → List P → List P × List P
  unfolding insert_new
  mark_events_processed inbox [] = ([], inbox)
  mark_events_processed inbox (p ∷ ps) = insert_new inbox (dedupe (p ∷ ps))

  inbox-insert_new :
      (a : P) (inbox ps : List P)
      → contains a (insert_new inbox ps).1 ≡ (contains a inbox || contains a ps)
  unfolding insert_new
  inbox-insert_new a inbox [] = ground arith
  inbox-insert_new a inbox (p ∷ ps) = ground (
    arith,
    inbox-insert_new a inbox ps,
    inbox-insert_new a (inbox ++ p ∷ []) ps,
    contains-append a inbox (p ∷ []),
    e.beq_iff p a,
  )

  fresh-insert_new :
      (a : P) (inbox ps : List P)
      → contains a (insert_new inbox ps).0 ≡ (contains a ps && not (contains a inbox))
  unfolding insert_new
  fresh-insert_new a inbox [] = refl
  fresh-insert_new a inbox (p ∷ ps) = ground (
    arith,
    fresh-insert_new a inbox ps,
    fresh-insert_new a (inbox ++ p ∷ []) ps,
    contains-append a inbox (p ∷ []),
    e.beq_iff p a,
  )

  -- The pairs returned are those of the batch that the table did not hold.
  pub contains-fresh :
      (a : P) (inbox ps : List P)
      → contains a (mark_events_processed inbox ps).0 ≡ (contains a ps && not (contains a inbox))
  unfolding mark_events_processed
  contains-fresh a inbox [] = refl
  contains-fresh a inbox (p ∷ ps) =
      fresh-insert_new a inbox (dedupe (p ∷ ps))
      ∙ ap (λ b. b && not (contains a inbox)) (contains-dedupe a (p ∷ ps))

  -- Afterwards the table holds what it held and the batch.
  pub contains-inbox :
      (a : P) (inbox ps : List P)
      → contains a (mark_events_processed inbox ps).1 ≡ (contains a inbox || contains a ps)
  unfolding mark_events_processed
  contains-inbox a inbox [] = ground arith
  contains-inbox a inbox (p ∷ ps) =
      inbox-insert_new a inbox (dedupe (p ∷ ps))
      ∙ ap (λ b. contains a inbox || b) (contains-dedupe a (p ∷ ps))
