-- ===== src/Modules/Service.antt =====
-- VersionedModuleService of shared_data_service/app/modules/shared/service.py and build_state_event
-- of events.py, over the unit of work. Each statement of the database succeeds here; the commit and
-- the publishes end as the surroundings decide (`Moment`).
pub mod Create
pub mod Update
use rabbit_speed_test.Base.{
  ℕ, ◌≡◌, ◌+◌, Bool, true, false, not, ◌&&◌, Option, none, some, List, [], ◌∷◌, ◌++◌, map, Text,
  ◌==◌, nat_eq, option_eq, pair_eq, list_eq, Eq, contains, keep, all_of, if◌then◌else◌, suc, leb,
  length,
}
use rabbit_speed_test.Outcome.{
  Outcome, ok, err, not_found, conflict, invalid_input, validation, Call, pure, raise, gets, lift,
  ◌>>=◌, ◌>>◌,
}
use rabbit_speed_test.Storable.{attribute_fits}
use rabbit_speed_test.Storage.Uow.{Publisher, Alert, Uow, Env, stage_event, commit, with_uow}
use rabbit_speed_test.Storage.Inbox.{mark_events_processed}
use rabbit_speed_test.Modules.State.{State}
use rabbit_speed_test.Modules.Events.{
  Db, CloudEvent, Changes, World, Moment, Body, in_uow, set_rows, get_rows, is_some, is_empty,
  or_else,
}
use rabbit_speed_test.Modules.Table.{find, insert_if_absent, write, put_newer, upsert_if_newer_many}
use rabbit_speed_test.Modules.Spec.{ModuleSpec, created_event_type, updated_event_type}

pub record Service (V : Type 0) : Type 0 where
  pub spec : ModuleSpec V
  pub publisher : Publisher
  pub event_source : Text

-- The constructor of CloudEvent: its rules for source, type and correlationid. The id is a uuid4 and
-- always fits.
unfoldable pub envelope_fits : Text → Text → Text → Bool
unfolding attribute_fits
envelope_fits source type correlationid =
    attribute_fits 1 source && attribute_fits 1 type && attribute_fits 0 correlationid

module _ {V : Type 0} where
  unfoldable pub validator_of : Text → List (Text × (Option V → Option V)) → Option V → Option V
  validator_of name [] = λ v. v
  validator_of name ((n, f) ∷ rest) = if n == name then f else validator_of name rest

  -- _prepared: the spec's rule for the field, if it has one
  unfoldable pub prepared : ModuleSpec V → Text → (Text → Option V) → Option V
  unfolding validator_of
  prepared spec name values = validator_of name spec.field_validators (values name)

  -- _sent_fields
  unfoldable pub sent_fields : ModuleSpec V → Changes V → List Text
  sent_fields spec changes =
      keep (λ name. contains name changes.fields_set && is_some (changes.values name))
        spec.mutable_fields

  -- _new_module
  unfoldable pub new_module : ModuleSpec V → State V → Option ℕ → State V
  unfolding prepared
  new_module spec d version = record {
    id = d.id;
    version = elim version [ none ↦ d.version | some v ↦ v ];
    values =
        λ name. if contains name spec.mutable_fields then prepared spec name d.values else none;
  }

  -- _apply_changes
  unfoldable pub apply_changes : ModuleSpec V → State V → Changes V → State V
  unfolding prepared sent_fields
  apply_changes spec m changes = record m {
    values = λ name.
        if contains name (sent_fields spec changes)
        then prepared spec name changes.values
        else m.values name;
  }

  -- _build_event and build_state_event: the payload has the fields of the data model alone.
  unfoldable pub payload_of : ModuleSpec V → State V → State V
  payload_of spec m = record m {
    values = λ name. if contains name spec.data_fields then m.values name else none;
  }

  unfoldable pub build_event : Service V → Moment → Text → State V → Outcome (CloudEvent V)
  unfolding payload_of envelope_fits
  build_event s now type m =
      let payload = payload_of s.spec m in
      if s.spec.data_floor payload && envelope_fits s.event_source type now.correlationid
      then ok (record {
        id = now.event_id;
        source = s.event_source;
        event_type = type;
        payload = payload;
        correlationid = now.correlationid;
      })
      else err validation

  -- The common end of create and update: announce the state, commit, return.
  unfoldable pub announce : {A : Type 0} → Service V → Moment → Text → State V → A → Body V A
  unfolding build_event stage_event commit
  announce s now type m a = do
    event ← lift (build_event s now type m)
    stage_event event
    commit now.env
    pure a

module _ {V : Type 0} ⦃e : Eq V⦄ where
  -- _content_matches
  unfoldable pub content_matches : ModuleSpec V → State V → State V → Bool
  content_matches spec m d =
      all_of (λ name. option_eq.beq (m.values name) (d.values name)) spec.mutable_fields

  -- The branch of create for an id that is taken.
  unfoldable pub create_replay :
      Service V → Moment → State V → Option (State V) → Body V (State V × Bool)
  unfolding content_matches announce
  create_replay s now d none = raise conflict
  create_replay s now d (some existing) =
      if not (content_matches s.spec existing d)
      then raise conflict
      else announce s now (created_event_type s.spec) existing (existing, false)

  unfoldable pub create_body : Service V → Moment → State V → Body V (State V × Bool)
  unfolding create_replay announce insert_if_absent
  create_body s now d = do
    rows ← get_rows
    let inserted = insert_if_absent (new_module s.spec d (some 1)) rows
    set_rows (inserted.1)
    elim (inserted.0) [
      | none ↦ create_replay s now d (find d.id rows)
      | some m ↦ announce s now (created_event_type s.spec) m (m, true)
    ]

  unfoldable pub create : Service V → Moment → State V → Call (World V) (State V × Bool)
  unfolding create_body in_uow
  create s now d = in_uow s.publisher (create_body s now d)

  -- The guard of a scoped update: (column, value).
  abbrev pub passes : Option (Text × Option V) → State V → Bool
  passes none m = true
  passes (some (column, value)) m = option_eq.beq (m.values column) value

  abbrev pub version_fits : Option ℕ → State V → Bool
  version_fits none m = true
  version_fits (some v) m = m.version == v

  unfoldable pub update_found :
      Service V
      → Moment
      → Changes V
      → Option ℕ
      → Option (Text × Option V)
      → Option (State V)
      → Body V (State V)
  unfolding announce apply_changes write
  update_found s now changes expected guard none = raise not_found
  update_found s now changes expected guard (some m) =
      if not (passes guard m)
      then raise not_found
      else if not (version_fits expected m)
      then raise conflict
      else do
        let m' = record (apply_changes s.spec m changes) { version = m.version + 1 }
        rows ← get_rows
        set_rows (write m' rows)
        announce s now (updated_event_type s.spec) m' m'

  unfoldable pub update :
      Service V
      → Moment
      → ℕ
      → Changes V
      → Option ℕ
      → Option (Text × Option V)
      → Call (World V) (State V)
  unfolding update_found in_uow sent_fields
  update s now id changes expected guard =
      if is_empty (sent_fields s.spec changes)
      then raise invalid_input
      else in_uow s.publisher (do
        rows ← get_rows
        update_found s now changes (or_else expected changes.expected_version) guard (find id rows))

module _ {V : Type 0} where
  unfoldable pub get : Service V → ℕ → Call (World V) (State V)
  unfolding in_uow
  get s id =
      in_uow s.publisher
        (do rows ← get_rows; elim (find id rows) [ none ↦ raise not_found | some m ↦ pure m ])
