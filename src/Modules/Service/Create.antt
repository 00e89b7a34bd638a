-- ===== src/Modules/Service/Create.antt =====
-- create of VersionedModuleService, shared_data_service/app/modules/shared/service.py.
use rabbit_speed_test.Base.{
  ◌≡◌, refl, ◌⊎◌, inl, inr, Bool, true, false, ◌&&◌, Option, none, some, List, [], ◌∷◌, ◌++◌, Text,
  Eq, list_eq, nat_eq, arith, Option-cases, option_eq, if◌then◌else◌,
}
use mathlib.Core.List.{append-nil}
use rabbit_speed_test.Outcome.{Outcome, ok, err, conflict, validation}
use rabbit_speed_test.Storage.Uow.{acked, delivered, queue_publisher}
use rabbit_speed_test.Modules.State.{State}
use rabbit_speed_test.Modules.Table.{find}
use rabbit_speed_test.Modules.Spec.{created_event_type}
use rabbit_speed_test.Modules.Events.{CloudEvent, World, Moment}
use rabbit_speed_test.Modules.Service.{
  Service, new_module, content_matches, payload_of, envelope_fits, create,
}

-- Commit acknowledged and the publish confirmed.
abbrev pub IsQuiet : Moment → Type 0
IsQuiet now = (now.env.commit_ends ≡ acked) × (now.env.publish_ends 0 ≡ delivered)

module _ {V : Type 0} where
  -- The event that announces a state.
  abbrev pub event_of : Service V → Moment → Text → State V → CloudEvent V
  event_of s now type m = record {
    id = now.event_id;
    source = s.event_source;
    event_type = type;
    payload = payload_of s.spec m;
    correlationid = now.correlationid;
  }

  -- The event can be built: the data model takes the state, and the envelope its attributes.
  abbrev pub announces : Service V → Moment → Text → State V → Bool
  announces s now type m =
      s.spec.data_floor (payload_of s.spec m) && envelope_fits s.event_source type now.correlationid

module _ {V : Type 0} ⦃e : Eq V⦄ (s : Service V) (now : Moment) where
  -- What a create does when the commit is acknowledged and the publish confirmed, by the row that
  -- the id has.
  abbrev pub Announced :
      World V → List (State V) → State V → Bool → Outcome (State V × Bool) × World V
  Announced w rows m fresh =
      if announces s now (created_event_type s.spec) m
      then (
        ok (m, fresh),
        record {
          db = record { rows = rows; inbox = w.db.inbox };
          queue = w.queue ++ event_of s now (created_event_type s.spec) m ∷ [];
          alerts = w.alerts;
        },
      )
      else (err validation, w)

  abbrev pub expected : State V → World V → Option (State V) → Outcome (State V × Bool) × World V
  expected d w none =
      let m = new_module s.spec d (some 1) in Announced w (w.db.rows ++ m ∷ []) m true
  expected d w (some m) =
      if content_matches s.spec m d then Announced w w.db.rows m false else (err conflict, w)

  new_module-id : (d : State V) → (new_module s.spec d (some 1)).id ≡ d.id
  unfolding new_module
  new_module-id d = refl

  module _ (quiet : IsQuiet now) (over_queue : s.publisher ≡ queue_publisher) where
    -- When the commit is acknowledged and the publish confirmed, over the queue publisher, create
    -- of a new id adds one row at version 1 and announces it; of a taken id it changes no row, and
    -- announces the stored row again if the contents agree and is a conflict if not; a state that
    -- the data model refuses changes nothing, and so does a source, a type or a correlation id that
    -- CloudEvent refuses: both are validation errors.
    pub create-outcome :
        (d : State V) (w : World V) → create s now d w ≡ expected d w (find d.id w.db.rows)
    unfolding create
    create-outcome d w = elim (Option-cases (find d.id w.db.rows)) [
      | inl absent ↦ ground (arith, new_module-id d, append-nil w.queue, append-nil w.alerts)
      | inr (m, found) ↦ ground (arith, new_module-id d, append-nil w.queue, append-nil w.alerts)
    ]

  -- However the commit and the publish end, create leaves the rows alone, or adds its one row at
  -- an id that had none; a conflict or a refused state leaves the whole world alone.
  pub create-atomic :
      (d : State V) (w : World V)
      → let (r, w') = create s now d w in
        ((w'.db.rows ≡ w.db.rows)
          ⊎ ((find d.id w.db.rows ≡ none)
              × (w'.db.rows ≡ w.db.rows ++ new_module s.spec d (some 1) ∷ [])))
        × ((r ≡ err conflict) ⊎ (r ≡ err validation) → w' ≡ w)
  unfolding create
  create-atomic d w = ground (arith, new_module-id d, append-nil w.queue, append-nil w.alerts)
