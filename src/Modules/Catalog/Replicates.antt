-- ===== src/Modules/Catalog/Replicates.antt =====
-- From the row that the service stores to the row that a replica stores: build_state_event and the
-- handler apply_state_event of shared_data_service/app/modules/shared/events.py, over the bytes of
-- the envelope.
use rabbit_speed_test.Base.{
  ℕ, ◌≡◌, refl, ◌∙◌, true, false, Option, none, some, [], ◌∷◌, Text, codes, nat_eq, list_eq,
  pair_eq, beq_refl, contains, arith,
}
use mathlib.Core.Path.{subst}
use rabbit_speed_test.Outcome.{ok}
use rabbit_speed_test.Storable.{object}
use rabbit_speed_test.Storage.Uow.{Publisher}
use rabbit_speed_test.Modules.State.{State, merge}
use rabbit_speed_test.Modules.Table.{find, newest_of}
use rabbit_speed_test.Modules.Events.{Db, CloudEvent, StateEventItem, Moment}
use rabbit_speed_test.Modules.Service.{
  Service, new_module, payload_of, build_event, envelope_fits, prepared, validator_of,
}
use rabbit_speed_test.Modules.Service.Create.{event_of}
use rabbit_speed_test.Modules.Replica.{apply_batch}
use rabbit_speed_test.Modules.Replica.Newest.{unseen-one, find-apply_batch}
use rabbit_speed_test.Modules.Fields.{Value, Pydantic, Input}
use rabbit_speed_test.Modules.Fields.Models.{attributes_of, input_of}
use rabbit_speed_test.Messaging.CloudEvents.{Codec, Event, from_bytes, to_bytes, members_of}
use rabbit_speed_test.Messaging.CloudEvents.RoundTrip.{
  IsEvent, attribute_fits-Fits, event_from-members_of,
}
use rabbit_speed_test.Modules.Catalog.{Entity, user, project, data_of_entity, spec_of}
use rabbit_speed_test.Modules.Catalog.Wire.{dump_of_entity, data_of_entity-dump}

abbrev wire_from : Pydantic → Entity → ℕ → CloudEvent Value → Option (State Value) → Option Event
wire_from p k now event none = none
wire_from p k now event (some d) = some (record {
  id = p.print_uuid event.id;
  source = event.source;
  type = event.event_type;
  time = some now;
  datacontenttype = codes "application/json";
  members = dump_of_entity p k d;
  correlationid = some event.correlationid;
})

-- build_state_event: the payload is validated, dumped and wrapped.
unfoldable pub wire_event : Pydantic → Entity → ℕ → CloudEvent Value → Option Event
unfolding dump_of_entity data_of_entity attributes_of
wire_event p k now event =
    wire_from p k now event (data_of_entity p k (attributes_of event.payload))

abbrev item_from : Event → Option (State Value) → Option (StateEventItem Value)
item_from e none = none
item_from e (some d) = some (record { event_id = e.id; source = e.source; payload = d })

-- What apply_state_event submits to the batcher; `none` is a ValidationError.
unfoldable pub item_of : Pydantic → Entity → Event → Option (StateEventItem Value)
unfolding data_of_entity input_of
item_of p k e = item_from e (data_of_entity p k (input_of e.members))

-- The row of a state.
abbrev pub row_of : Pydantic → Entity → State Value → State Value
row_of p k d = new_module (spec_of p k) d none

row-attributes :
    (p : Pydantic) (k : Entity) (d : State Value)
    → data_of_entity p k (attributes_of (payload_of (spec_of p k) (row_of p k d)))
      ≡ data_of_entity p k (attributes_of d)
unfolding data_of_entity attributes_of payload_of spec_of new_module prepared validator_of
row-attributes p user d = refl
row-attributes p project d = refl

module _ (p : Pydantic) (k : Entity) (input : Input) {d : State Value}
    (valid : data_of_entity p k input ≡ some d) where
  -- A row, validated again, is the state that it was made from.
  row-again : data_of_entity p k (attributes_of (payload_of (spec_of p k) (row_of p k d))) ≡ some d
  row-again = row-attributes p k d ∙ (data_of_entity-dump p k input {d = d} valid).1

build_event-ok :
    {V : Type 0} (s : Service V) (now : Moment) (type : Text) (m : State V) {event : CloudEvent V}
    → build_event s now type m ≡ ok event
    → (event_of s now type m ≡ event) × (envelope_fits s.event_source type now.correlationid ≡ true)
unfolding build_event
build_event-ok s now type m h = ground arith

-- The event on the wire, of a state d.
abbrev pub sent : Pydantic → Entity → Text → Moment → Text → ℕ → State Value → Event
sent p k source now type t d = record {
  id = p.print_uuid now.event_id;
  source = source;
  type = type;
  time = some t;
  datacontenttype = codes "application/json";
  members = dump_of_entity p k d;
  correlationid = some now.correlationid;
}

sent-IsEvent :
    (p : Pydantic) (k : Entity) (source : Text) (now : Moment) (type : Text) (t : ℕ)
    (d : State Value)
    → envelope_fits source type now.correlationid ≡ true
    → IsEvent (sent p k source now type t d)
unfolding envelope_fits
sent-IsEvent p k source now type t d h = (
  (attribute_fits-Fits 1 (p.print_uuid now.event_id)).0 (p.print_uuid-fits now.event_id),
  (attribute_fits-Fits 1 source).0 (ground arith),
  (attribute_fits-Fits 1 type).0 (ground arith),
  (attribute_fits-Fits 0 now.correlationid).0 (ground arith),
)

abbrev pub entity_service : Pydantic → Entity → Publisher → Text → Service Value
entity_service p k publisher source = record {
  spec = spec_of p k;
  publisher = publisher;
  event_source = source;
}

abbrev pub item_sent : Pydantic → Text → Moment → State Value → StateEventItem Value
item_sent p source now d = record {
  event_id = p.print_uuid now.event_id;
  source = source;
  payload = d;
}

module _ (p : Pydantic) (k : Entity) (input : Input) {d : State Value}
    (valid : data_of_entity p k input ≡ some d) where
  wire-sent :
      (publisher : Publisher) (source : Text) (now : Moment) (type : Text) (t : ℕ)
      {event : CloudEvent Value}
      → event_of (entity_service p k publisher source) now type (row_of p k d) ≡ event
      → wire_event p k t event ≡ some (sent p k source now type t d)
  unfolding wire_event
  wire-sent publisher source now type t {event} h =
      subst (λ event. wire_event p k t event ≡ some (sent p k source now type t d)) h
        (rw (wire_event, row-again p k input {d = d} valid) refl)

  item-sent :
      (source : Text) (now : Moment) (type : Text) (t : ℕ)
      → item_of p k (sent p k source now type t d) ≡ some (item_sent p source now d)
  unfolding item_of
  item-sent source now type t = rw (item_of, (data_of_entity-dump p k input {d = d} valid).0) refl

  applied-sent :
      (source : Text) (now : Moment) (db : Db Value)
      → contains (source, p.print_uuid now.event_id) db.inbox ≡ false
      → find d.id (apply_batch (spec_of p k) (item_sent p source now d ∷ []) db).rows
        ≡ merge (find d.id db.rows) (some (row_of p k d))
  unfolding newest_of
  applied-sent source now db unheard =
      find-apply_batch (spec_of p k) (item_sent p source now d ∷ []) db d.id
      ∙ rw (unseen-one db.inbox (item_sent p source now d) unheard) (rw (beq_refl d.id) refl)

  -- From a row to its replica: of a row that holds a validated user or project, the event that the
  -- service builds has a wire form; a consumer that reads its bytes gets the same event back, its
  -- handler submits the same state, and the batch, unless the inbox knows the event, leaves at that
  -- id the row that the service announced, unless the one there is as new. The JSON of the bytes is
  -- assumed to be what was printed.
  pub build_event-replicates :
      {B : Type 0} (c : Codec B) (publisher : Publisher) (source : Text) (now : Moment)
      (type : Text) (t : ℕ) (db : Db Value) {event : CloudEvent Value}
      → build_event (entity_service p k publisher source) now type (row_of p k d) ≡ ok event
      → ((e : Event)
          → wire_event p k t event ≡ some e
          → c.parse_json (to_bytes c e) ≡ some (object (members_of c e)))
      → contains (source, p.print_uuid now.event_id) db.inbox ≡ false
      → (e : Event) × (i : StateEventItem Value) × (wire_event p k t event ≡ some e)
        × (from_bytes c (to_bytes c e) ≡ some e)
        × (item_of p k e ≡ some i)
        × (find d.id (apply_batch (spec_of p k) (i ∷ []) db).rows
            ≡ merge (find d.id db.rows) (some (row_of p k d)))
  unfolding from_bytes
  build_event-replicates c publisher source now type t db {event} built reads unheard =
      let (same, fits) =
        build_event-ok (entity_service p k publisher source) now type (row_of p k d) {event = event}
          built in
      let e = sent p k source now type t d in
      let wired = wire-sent publisher source now type t {event = event} same in
      (
        e,
        item_sent p source now d,
        wired,
        rw (reads e wired)
            (event_from-members_of c true e (sent-IsEvent p k source now type t d fits)),
        item-sent source now type t,
        applied-sent source now db unheard,
      )
