-- ===== src/Modules/Service/Update.antt =====
-- update of VersionedModuleService, shared_data_service/app/modules/shared/service.py.
use rabbit_speed_test.Base.{
  ℕ, ◌≡◌, ◌+◌, refl, true, false, Option, none, some, List, [], ◌∷◌, ◌++◌, Text, Eq, list_eq,
  nat_eq, arith, Option-cases, if◌then◌else◌, not, inl, inr,
}
use mathlib.Core.List.{append-nil}
use rabbit_speed_test.Outcome.{Outcome, ok, err, not_found, conflict, invalid_input, validation}
use rabbit_speed_test.Storage.Uow.{queue_publisher}
use rabbit_speed_test.Modules.State.{State}
use rabbit_speed_test.Modules.Table.{find, write, find-write}
use rabbit_speed_test.Modules.Spec.{ModuleSpec, updated_event_type}
use rabbit_speed_test.Modules.Events.{World, Moment, Changes, is_empty, or_else}
use rabbit_speed_test.Modules.Service.{
  Service, apply_changes, sent_fields, passes, version_fits, update,
}
use rabbit_speed_test.Modules.Service.Create.{IsQuiet, event_of, announces}

module _ {V : Type 0} where
  -- The row that a successful update of `m` leaves.
  abbrev pub updated : ModuleSpec V → Changes V → State V → State V
  updated spec changes m = record (apply_changes spec m changes) { version = m.version + 1 }

  apply_changes-id :
      (spec : ModuleSpec V) (changes : Changes V) (m : State V)
      → (apply_changes spec m changes).id ≡ m.id
  unfolding apply_changes
  apply_changes-id spec changes m = refl

  find-id : (j : ℕ) (rows : List (State V)) {m : State V} → find j rows ≡ some m → m.id ≡ j
  unfolding find
  find-id j [] h = absurd (ground arith)
  find-id j (r ∷ rows) {m} h = ground (arith, find-id j rows {m = m})

module _ {V : Type 0} ⦃e : Eq V⦄ (s : Service V) (now : Moment) where
  abbrev pub outcome :
      Changes V
      → Option ℕ
      → Option (Text × Option V)
      → World V
      → Option (State V)
      → Outcome (State V) × World V
  outcome changes version guard w none = (err not_found, w)
  outcome changes version guard w (some m) =
      let m' = updated s.spec changes m in
      if not (passes guard m)
      then (err not_found, w)
      else if not (version_fits version m)
      then (err conflict, w)
      else if announces s now (updated_event_type s.spec) m'
      then (
        ok m',
        record {
          db = record { rows = write m' w.db.rows; inbox = w.db.inbox };
          queue = w.queue ++ event_of s now (updated_event_type s.spec) m' ∷ [];
          alerts = w.alerts;
        },
      )
      else (err validation, w)

  -- When the commit is acknowledged and the publish confirmed, over the queue publisher, an update
  -- that sends a field writes the changed row at the next version and announces it; a missing row
  -- or a failed scope guard is a not-found, a version that differs a conflict (the keyword before
  -- the payload's), a state that the data model refuses a validation error, and so is a source,
  -- a type or a correlation id that CloudEvent refuses; these change nothing. An update that sends no field is invalid and changes nothing.
  pub update-outcome :
      (id : ℕ) (changes : Changes V) (version : Option ℕ) (guard : Option (Text × Option V))
      (w : World V)
      → IsQuiet now
      → s.publisher ≡ queue_publisher
      → update s now id changes version guard w ≡ (
          if is_empty (sent_fields s.spec changes)
          then (err invalid_input, w)
          else outcome changes
              (or_else version changes.expected_version)
              guard
              w
              (find id w.db.rows))
  unfolding update
  update-outcome id changes version guard w quiet q = elim (Option-cases (find id w.db.rows)) [
    | inl absent ↦ ground (arith, append-nil w.queue, append-nil w.alerts)
    | inr (m, found) ↦ ground (arith, append-nil w.queue, append-nil w.alerts)
  ]

  -- However the commit and the publish end, an update that returns has moved its own row to the
  -- next version, from the version that it expected, and no other row.
  pub update-ok :
      (id : ℕ) (changes : Changes V) (version : Option ℕ) (guard : Option (Text × Option V))
      (w : World V) {m' : State V}
      → (update s now id changes version guard w).0 ≡ ok m'
      → (m : State V) × (find id w.db.rows ≡ some m)
        × (version_fits (or_else version changes.expected_version) m ≡ true)
        × (passes guard m ≡ true)
        × (m' ≡ updated s.spec changes m)
        × ((update s now id changes version guard w).1.db.rows ≡ write m' w.db.rows)
  unfolding update
  update-ok id changes version guard w {m'} h = elim (Option-cases (find id w.db.rows)) [
    | inl absent ↦ absurd (ground arith)
    | inr (m, found) ↦ (m, found, ground arith, ground arith, ground arith, ground arith)
  ]

module _ {V : Type 0} ⦃e : Eq V⦄ where
  -- No lost update: of two updates of one row, both given the same expected version as the keyword
  -- and no scope guard, once the first has returned the second is a conflict and changes nothing, if it
  -- sends a field, its commit would be acknowledged and its publish confirmed, and the service
  -- publishes to the queue.
  pub update-update :
      (s : Service V) (now later : Moment) (id v : ℕ) (first second : Changes V) (w : World V)
      {m' : State V}
      → (update s now id first (some v) none w).0 ≡ ok m'
      → is_empty (sent_fields s.spec second) ≡ false
      → IsQuiet later
      → s.publisher ≡ queue_publisher
      → let w' = (update s now id first (some v) none w).1 in
        update s later id second (some v) none w' ≡ (err conflict, w')
  update-update s now later id v first second w {m'} h sent quiet q =
      let w' = (update s now id first (some v) none w).1 in
      let (m, found, fits, passed, same, rows) =
        update-ok s now id first (some v) none w {m' = m'} h in
      ground (
        arith,
        update-outcome s later id second (some v) none w' quiet q,
        find-write id m' w.db.rows,
        apply_changes-id s.spec first m,
        find-id id w.db.rows {m = m} found,
      )
