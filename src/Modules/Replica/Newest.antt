-- ===== src/Modules/Replica/Newest.antt =====
-- What a batch of announced states leaves in the table: apply_state_events of
-- shared_data_service/app/modules/shared/service.py.
use rabbit_speed_test.Base.{
  false, ℕ, ◌≡◌, ◌≤◌, refl, ap, sym, ◌∙◌, true, ◌||◌, ◌++◌, map-append, contains-append, Option,
  none, some, List, [], ◌∷◌, map, Text, nat_eq, pair_eq, list_eq, contains, contains-head,
  contains-tail, if◌then◌else◌, arith, inl, inr, Bool-cases,
}
use rabbit_speed_test.Storage.Inbox.{mark_events_processed, contains-fresh, contains-inbox}
use rabbit_speed_test.Modules.State.{State, merge, merge_assoc, version_of}
use rabbit_speed_test.Modules.Table.{
  find, put_newer, newest_of, IsUnique, find-put_newer, put_newer-IsUnique, newest_of-IsUnique,
  find-upsert,
}
use rabbit_speed_test.Modules.Spec.{ModuleSpec}
use rabbit_speed_test.Modules.Events.{Db, StateEventItem}
use rabbit_speed_test.Modules.Service.{new_module}
use rabbit_speed_test.Modules.Replica.{pair_of, winners, apply_batch}

module _ {V : Type 0} where
  abbrev payloads : List (Text × Text) → List (StateEventItem V) → List (State V)
  payloads fresh [] = []
  payloads fresh (i ∷ items) =
      let rest = payloads fresh items in
      if contains (pair_of i) fresh then i.payload ∷ rest else rest

  -- The states of the batch whose (source, event id) the inbox does not hold.
  pub unseen : List (Text × Text) → List (StateEventItem V) → List (State V)
  unseen inbox [] = []
  unseen inbox (i ∷ items) =
      let rest = unseen inbox items in if contains (pair_of i) inbox then rest else i.payload ∷ rest

  pub unseen-one :
      (inbox : List (Text × Text)) (i : StateEventItem V)
      → contains (pair_of i) inbox ≡ false
      → unseen inbox (i ∷ []) ≡ i.payload ∷ []
  unfolding unseen
  unseen-one inbox i h = rw h refl

  abbrev pub map_state : (State V → State V) → Option (State V) → Option (State V)
  map_state f none = none
  map_state f (some s) = some (f s)

  find-winners :
      (j : ℕ) (fresh : List (Text × Text)) (items : List (StateEventItem V)) (ws : List (State V))
      → find j (winners fresh items ws) ≡ merge (find j ws) (newest_of j (payloads fresh items))
  unfolding winners newest_of
  find-winners j fresh [] ws = refl
  find-winners j fresh (i ∷ items) ws = ground (
    arith,
    find-winners j fresh items ws,
    find-winners j fresh items (put_newer i.payload ws),
    find-put_newer j i.payload ws,
    merge_assoc (find j ws) (some i.payload) (newest_of j (payloads fresh items)),
  )

  winners-IsUnique :
      (fresh : List (Text × Text)) (items : List (StateEventItem V)) (ws : List (State V))
      → IsUnique ws
      → IsUnique (winners fresh items ws)
  unfolding winners
  winners-IsUnique fresh [] ws h = h
  winners-IsUnique fresh (i ∷ items) ws h = elim (Bool-cases (contains (pair_of i) fresh)) [
    | inl new ↦
        rw new (
          winners-IsUnique fresh items (put_newer i.payload ws) (put_newer-IsUnique i.payload ws h))
    | inr old ↦ rw old (winners-IsUnique fresh items ws h)
  ]

  newest_of-map :
      (spec : ModuleSpec V) (j : ℕ) (ds : List (State V))
      → newest_of j (map (λ d. new_module spec d none) ds)
        ≡ map_state (λ d. new_module spec d none) (newest_of j ds)
  unfolding newest_of new_module
  newest_of-map spec j [] = refl
  newest_of-map spec j (d ∷ ds) = ground (arith, newest_of-map spec j ds)

  payloads-unseen :
      (inbox pairs : List (Text × Text)) (items : List (StateEventItem V))
      → ((p : Text × Text) → contains p (map pair_of items) ≡ true → contains p pairs ≡ true)
      → payloads (mark_events_processed inbox pairs).0 items ≡ unseen inbox items
  unfolding unseen
  payloads-unseen inbox pairs [] h = refl
  payloads-unseen inbox pairs (i ∷ items) h =
      let member = h (pair_of i) (contains-head (pair_of i) (map pair_of items)) in
      let later =
        payloads-unseen inbox pairs items
          (λ p c. h p (contains-tail p (pair_of i) (map pair_of items) c)) in
      rw (contains-fresh (pair_of i) inbox pairs, member)
        (elim (Bool-cases (contains (pair_of i) inbox)) [
          | inl old ↦ rw (old, later)
          | inr new ↦ rw (new, later)
        ])

  contains-apply_batch :
      (spec : ModuleSpec V) (items : List (StateEventItem V)) (db : Db V) (p : Text × Text)
      → contains p (map pair_of items) ≡ true
      → contains p (apply_batch spec items db).inbox ≡ true
  unfolding apply_batch
  contains-apply_batch spec items db p h =
      ground (arith, contains-inbox p db.inbox (map pair_of items))

  merge-none : (o : Option (State V)) → merge none o ≡ o
  merge-none none = refl
  merge-none (some s) = refl

  merge-version_le : (a b : Option (State V)) → version_of a ≤ version_of (merge a b)
  merge-version_le a none = omega arith
  merge-version_le none (some d) = omega arith
  merge-version_le (some s) (some d) = ground arith

  -- After a batch the row of each id is the newest of the stored row and the unseen states of the
  -- batch: the stored row stays unless a strictly newer version was announced, and of the unseen
  -- states the first of the highest version counts, with the spec's field rules applied.
  pub find-apply_batch :
      (spec : ModuleSpec V) (items : List (StateEventItem V)) (db : Db V) (j : ℕ)
      → find j (apply_batch spec items db).rows
        ≡ merge
            (find j db.rows)
            (map_state (λ d. new_module spec d none) (newest_of j (unseen db.inbox items)))
  unfolding apply_batch find newest_of
  find-apply_batch spec items db j =
      let fresh = (mark_events_processed db.inbox (map pair_of items)).0 in
      let ws = winners fresh items [] in
      find-upsert j (map (λ d. new_module spec d none) ws) db.rows
      ∙ ap (merge (find j db.rows)) (newest_of-map spec j ws)
      ∙ ap (λ o. merge (find j db.rows) (map_state (λ d. new_module spec d none) o))
          (newest_of-IsUnique j ws (winners-IsUnique fresh items [] tt)
            ∙ find-winners j fresh items []
            ∙ merge-none (newest_of j (payloads fresh items))
            ∙ ap (newest_of j) (payloads-unseen db.inbox (map pair_of items) items (λ p c. c)))

  -- Nothing that the table holds is ever replaced by an older version, whatever is delivered.
  apply_batch-version_le :
      (spec : ModuleSpec V) (items : List (StateEventItem V)) (db : Db V) (j : ℕ)
      → version_of (find j db.rows) ≤ version_of (find j (apply_batch spec items db).rows)
  apply_batch-version_le spec items db j = rw find-apply_batch (
      merge-version_le (find j db.rows)
        (map_state (λ d. new_module spec d none) (newest_of j (unseen db.inbox items))))

  unseen_nothing :
      (inbox : List (Text × Text)) (items : List (StateEventItem V))
      → ((p : Text × Text) → contains p (map pair_of items) ≡ true → contains p inbox ≡ true)
      → unseen inbox items ≡ []
  unfolding unseen
  unseen_nothing inbox [] h = refl
  unseen_nothing inbox (i ∷ items) h =
      rw (h (pair_of i) (contains-head (pair_of i) (map pair_of items))) (
        unseen_nothing inbox items (λ p c. h p (contains-tail p (pair_of i) (map pair_of items) c)))

  -- The database after some batches, one after the other.
  abbrev pub apply_batches : ModuleSpec V → List (List (StateEventItem V)) → Db V → Db V
  apply_batches spec [] db = db
  apply_batches spec (items ∷ rest) db = apply_batches spec rest (apply_batch spec items db)

  abbrev pub all_items : List (List (StateEventItem V)) → List (StateEventItem V)
  all_items [] = []
  all_items (items ∷ rest) = items ++ all_items rest

  kept-apply_batch :
      (spec : ModuleSpec V) (items : List (StateEventItem V)) (db : Db V) (p : Text × Text)
      → contains p db.inbox ≡ true
      → contains p (apply_batch spec items db).inbox ≡ true
  unfolding apply_batch
  kept-apply_batch spec items db p h = ground (arith, contains-inbox p db.inbox (map pair_of items))

  kept-apply_batches :
      (spec : ModuleSpec V) (bs : List (List (StateEventItem V))) (db : Db V) (p : Text × Text)
      → contains p db.inbox ≡ true
      → contains p (apply_batches spec bs db).inbox ≡ true
  kept-apply_batches spec [] db p h = h
  kept-apply_batches spec (items ∷ rest) db p h =
      kept-apply_batches spec rest (apply_batch spec items db) p
        (kept-apply_batch spec items db p h)

  contains-apply_batches :
      (spec : ModuleSpec V) (bs : List (List (StateEventItem V))) (db : Db V) (p : Text × Text)
      → contains p (map pair_of (all_items bs)) ≡ true
      → contains p (apply_batches spec bs db).inbox ≡ true
  contains-apply_batches spec [] db p h = absurd (ground (arith, h))
  contains-apply_batches spec (items ∷ rest) db p h =
      let split : (contains p (map pair_of items) || contains p (map pair_of (all_items rest)))
          ≡ true =
        sym (contains-append p (map pair_of items) (map pair_of (all_items rest)))
        ∙ ap (contains p) (sym (map-append pair_of items (all_items rest)))
        ∙ h in
      elim (Bool-cases (contains p (map pair_of items))) [
        | inl e ↦
            kept-apply_batches spec rest (apply_batch spec items db) p
              (contains-apply_batch spec items db p e)
        | inr e ↦
            contains-apply_batches spec rest (apply_batch spec items db) p
              (ground (arith, split, e))
      ]

  -- Redelivery is a no-op: after any batches, a batch all of whose events stood in one of them changes
  -- no row, however many batches came in between.
  pub find-apply_batch_again :
      (spec : ModuleSpec V) (bs : List (List (StateEventItem V))) (again : List (StateEventItem V))
      (db : Db V) (j : ℕ)
      → ((p : Text × Text)
          → contains p (map pair_of again) ≡ true
          → contains p (map pair_of (all_items bs)) ≡ true)
      → find j (apply_batch spec again (apply_batches spec bs db)).rows
        ≡ find j (apply_batches spec bs db).rows
  find-apply_batch_again spec bs again db j h =
      let before = apply_batches spec bs db in
      find-apply_batch spec again before j
      ∙ ap
          (λ ds.
            merge (find j before.rows) (map_state (λ d. new_module spec d none) (newest_of j ds)))
          (unseen_nothing before.inbox again (λ p c. contains-apply_batches spec bs db p (h p c)))
      ∙ (unfold newest_of in refl)
