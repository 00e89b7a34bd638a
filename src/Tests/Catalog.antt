-- ===== src/Tests/Catalog.antt =====
-- Users and projects, and the envelope, with one-character UUIDs and JSON that is its own text.
use rabbit_speed_test.Base.{
  ℕ, suc, ◌≡◌, ◌≤◌, refl, Bool, true, false, ◌&&◌, Option, none, some, [], ◌∷◌, Text, codes, ◌==◌,
  inl, inr, nat_eq, list_eq, pair_eq, contains, length, leb, arith, if◌then◌else◌,
}
use rabbit_speed_test.Storable.{
  Json, string, integer, object, Entries, empty_object, entry, storable_text, attribute_fits,
}
use rabbit_speed_test.Query.{ℤ, pos}
use rabbit_speed_test.Storage.Uow.{queue_publisher}
use rabbit_speed_test.Modules.State.{State, merge}
use rabbit_speed_test.Modules.Table.{find}
use rabbit_speed_test.Modules.Events.{Db, CloudEvent, StateEventItem, Changes}
use rabbit_speed_test.Modules.Service.{build_event, payload_of, envelope_fits, new_module}
use rabbit_speed_test.Modules.Service.Create.{event_of}
use rabbit_speed_test.Modules.Service.Update.{updated}
use rabbit_speed_test.Modules.Replica.{apply_batch}
use rabbit_speed_test.Routes.{CreatePayload, data_of}
use rabbit_speed_test.Modules.Fields.{
  Value, plain, text_value, Pydantic, valid_name_type, floor_email_type, strict_email_type, or_none,
  attributes_type,
}
use rabbit_speed_test.Modules.Fields.Models.{input_of}
use rabbit_speed_test.Messaging.CloudEvents.{Codec, Event, from_bytes, to_bytes}
use rabbit_speed_test.Messaging.CloudEvents.RoundTrip.{from_bytes-to_bytes}
use rabbit_speed_test.Modules.Catalog.{
  user, data_of_entity, create_of_entity, update_of_entity, spec_of, scope_dependency,
}
use rabbit_speed_test.Modules.Catalog.Requests.{create_of_entity-floor}
use rabbit_speed_test.Modules.Catalog.Patch.{update_of_entity-floor}
use rabbit_speed_test.Modules.Catalog.Replicates.{
  wire_event, item_of, row_of, entity_service, build_event-replicates,
}
use rabbit_speed_test.Routes.Table.{
  Route, route, word, parameter, get_endpoint, Matcher, dispatch, app_routes,
}
use rabbit_speed_test.Routes.Dispatch.{fitting, fitting_iff, accepts, dispatch-accepts}
use rabbit_speed_test.Tests.Data.{quiet}

abbrev one_character : Json → Option ℕ
one_character (string (suc c ∷ [])) = some c
one_character _ = none

abbrev int_of : Json → Option ℤ
int_of (integer n) = some (pos n)
int_of _ = none

abbrev address : Text → Option Text
address t = if contains b'@' t && leb 3 (length t) then some t else none

address-shape : (t a : Text) → address t ≡ some a → (contains b'@' a ≡ true) × (3 ≤ length a)
address-shape t a h = ground arith

one_character-fits : (u : ℕ) → attribute_fits 1 (suc u ∷ []) ≡ true
unfolding attribute_fits storable_text
one_character-fits u = ground arith

abbrev pydantic : Pydantic
pydantic = record {
  parse_uuid = one_character;
  print_uuid = λ u. suc u ∷ [];
  parse_int = int_of;
  validate_email = address;
  strip = λ t. t;
  parse-print = λ u. refl;
  print_uuid-fits = one_character-fits;
  parse_int-integer = λ n. refl;
  validate_email-shape = address-shape;
}

abbrev codec : Codec Json
codec = record {
  parse_time = one_character;
  print_time = λ t. suc t ∷ [];
  print_json = λ j. j;
  parse_json = λ j. some j;
  parse-print_time = λ t. refl;
}

-- The body of a request, and of an event.
abbrev body : Entries
body = entry (codes "id") (string (codes "a")) (
    entry (codes "name") (string (codes "Ann"))
      (entry (codes "email") (string (codes "a@b")) empty_object))

abbrev ann : State Value
ann = record {
  id = 96;
  version = 1;
  values = λ n.
      if n == codes "project_id"
      then none
      else if n == codes "name"
      then some (text_value (codes "Ann"))
      else if n == codes "email"
      then some (text_value (codes "a@b"))
      else if n == codes "attributes"
      then some (plain (object empty_object))
      else none;
}

ann-valid : data_of_entity pydantic user (input_of body) ≡ some ann
unfolding data_of_entity input_of valid_name_type floor_email_type
ann-valid = refl

abbrev ann_created : CreatePayload Value
ann_created = record {
  id = some 96;
  values = λ n.
      if n == codes "name"
      then some (text_value (codes "Ann"))
      else if n == codes "email"
      then some (text_value (codes "a@b"))
      else if n == codes "attributes"
      then some (plain (object empty_object))
      else none;
}

create_of_entity-floor_example :
    (spec_of pydantic user).data_floor (
      payload_of
        (spec_of pydantic user)
        (data_of (scope_dependency pydantic (spec_of pydantic user) (some 7)) 5 ann_created))
    ≡ true
unfolding create_of_entity input_of valid_name_type strict_email_type
create_of_entity-floor_example =
    create_of_entity-floor pydantic user (input_of body) (some 7) 5 {payload = ann_created} refl

-- A PATCH of the name.
abbrev patch : Entries
patch = entry (codes "name") (string (codes "Eve")) empty_object

abbrev renamed_to_eve : Changes Value
renamed_to_eve = record {
  expected_version = none;
  fields_set = codes "name" ∷ [];
  values = λ n.
      if n == codes "name"
      then some (text_value (codes "Eve"))
      else if n == codes "email"
      then none
      else if n == codes "attributes"
      then none
      else none;
}

update_of_entity-floor_example :
    ((spec_of pydantic user).data_floor
        (payload_of (spec_of pydantic user) (updated (spec_of pydantic user) renamed_to_eve ann))
      ≡ true)
    × ((updated (spec_of pydantic user) renamed_to_eve ann).values (codes "project_id") ≡ none)
unfolding update_of_entity input_of spec_of payload_of valid_name_type floor_email_type or_none
    attributes_type
update_of_entity-floor_example =
    update_of_entity-floor pydantic user (input_of patch) ann {changes = renamed_to_eve} refl refl

abbrev envelope : Entries
envelope = entry (codes "specversion") (string (codes "1.0")) (
    entry (codes "id") (string (codes "e1")) (
      entry (codes "source") (string (codes "svc")) (
        entry (codes "type") (string (codes "user.created"))
          (entry (codes "data") (object body) empty_object))))

abbrev event : Event
event = record {
  id = codes "e1";
  source = codes "svc";
  type = codes "user.created";
  time = none;
  datacontenttype = codes "application/json";
  members = body;
  correlationid = none;
}

from_bytes-to_bytes_example : from_bytes codec (to_bytes codec event) ≡ some event
unfolding from_bytes to_bytes attribute_fits storable_text
from_bytes-to_bytes_example = from_bytes-to_bytes codec (object envelope) {e = event} refl refl

abbrev empty_db : Db Value
empty_db = record { rows = []; inbox = [] }

abbrev announcement : CloudEvent Value
announcement =
    event_of (entity_service pydantic user queue_publisher (codes "svc")) quiet
      (codes "user.created") (row_of pydantic user ann)

build_event-replicates_example :
    (e : Event) × (i : StateEventItem Value) × (wire_event pydantic user 3 announcement ≡ some e)
    × (from_bytes codec (to_bytes codec e) ≡ some e)
    × (item_of pydantic user e ≡ some i)
    × (find 96 (apply_batch (spec_of pydantic user) (i ∷ []) empty_db).rows
        ≡ merge (find 96 empty_db.rows) (some (row_of pydantic user ann)))
unfolding build_event spec_of data_of_entity envelope_fits attribute_fits storable_text to_bytes
    valid_name_type floor_email_type new_module or_none attributes_type
build_event-replicates_example =
    build_event-replicates pydantic user (input_of body) {d = ann} ann-valid codec queue_publisher
      (codes "svc") quiet (codes "user.created") 3 empty_db {event = announcement} refl
      (λ e wired. refl) refl

abbrev matcher : Matcher
matcher = record { matches = fitting; matches_iff = fitting_iff }

-- UUIDs of one character, as above.
abbrev one_long : Text → Bool
one_long (c ∷ []) = true
one_long _ = false

abbrev one_project : Route
one_project =
    route (codes "GET") (word (codes "project") ∷ parameter (codes "project_id") ∷ []) get_endpoint
      (codes "project") false

dispatch-accepts_example :
    dispatch matcher (app_routes pydantic) (codes "GET") (codes "project" ∷ codes "a" ∷ [])
    ≡ some one_project
unfolding accepts app_routes
dispatch-accepts_example =
    dispatch-accepts pydantic matcher one_long one_project (codes "project" ∷ codes "a" ∷ []) refl
      refl (inr (inr (inr (inr (inr (inr (inr (inr (inr (inr (inr (inl refl)))))))))))) refl
