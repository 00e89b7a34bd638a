-- ===== src/Modules/Catalog/Wire.antt =====
-- The data models of users and projects on the wire.
use rabbit_speed_test.Base.{◌≡◌, refl, Option, none, some, [], Text, All, arith, codes}
use rabbit_speed_test.Storable.{Entries, string, storable_text, scan_entries}
use rabbit_speed_test.Modules.State.{State}
use rabbit_speed_test.Modules.Fields.{
  Value, plain, Pydantic, Check, Input, validated, valid_name_type, floor_email_type,
  description_type, attributes_type, uuid_type, or_none, text_type, stored_text,
}
use rabbit_speed_test.Modules.Fields.Models.{attributes_of, input_of, dump}
use rabbit_speed_test.Modules.Fields.Stable.{
  IsStable, valid_name_type-IsStable, floor_email_type-IsStable, description_type-IsStable,
  attributes_type-IsStable, uuid_type-IsStable, or_none-IsStable,
}
use rabbit_speed_test.Modules.Fields.Dump.{Steady, IsSchema}
use rabbit_speed_test.Modules.Fields.RoundTrip.{data_model-dump, data_model-attributes}
use rabbit_speed_test.Modules.Catalog.{
  Entity, user, project, required, optional, no_attributes, data_fields, data_of_entity,
}

required-Steady :
    (p : Pydantic) (name : Text) (check : Check) → IsStable p check → Steady p (required name check)
unfolding validated
required-Steady p name check stable none w h = absurd (ground arith)
required-Steady p name check stable (some v) w h = stable v w h

optional-Steady :
    (p : Pydantic) (name : Text) (check : Check) (default : Option Value)
    → check default ≡ some default
    → IsStable p check
    → Steady p (optional name check default)
unfolding validated
optional-Steady p name check default fine stable none w h = stable default w (rw fine h)
optional-Steady p name check default fine stable (some v) w h = stable v w h

attributes-Steady :
    (p : Pydantic) → Steady p (optional (codes "attributes") attributes_type no_attributes)
unfolding attributes_type scan_entries
attributes-Steady p =
    optional-Steady p (codes "attributes") attributes_type no_attributes refl
      (attributes_type-IsStable p)

name-Steady : (p : Pydantic) → Steady p (required (codes "name") (valid_name_type p))
name-Steady p = required-Steady p (codes "name") (valid_name_type p) (valid_name_type-IsStable p)

data_fields-Steady : (p : Pydantic) (k : Entity) → All (Steady p) (data_fields p k)
unfolding data_fields or_none uuid_type description_type text_type stored_text storable_text
data_fields-Steady p user = (
  optional-Steady p (codes "project_id") (or_none (uuid_type p)) none refl
      (or_none-IsStable p (uuid_type p) refl (uuid_type-IsStable p)),
  (
    name-Steady p,
    (
      required-Steady p (codes "email") floor_email_type (floor_email_type-IsStable p),
      (attributes-Steady p, tt),
    ),
  ),
)
data_fields-Steady p project = (
  name-Steady p,
  (
    optional-Steady p (codes "description") description_type (some (plain (string []))) refl
        (description_type-IsStable p),
    (
      required-Steady p (codes "owner_email") floor_email_type (floor_email_type-IsStable p),
      (attributes-Steady p, tt),
    ),
  ),
)

data_fields-IsSchema : (p : Pydantic) (k : Entity) → IsSchema p (data_fields p k)
unfolding data_fields
data_fields-IsSchema p user = record {
  distinct = (refl, (refl, (refl, (refl, tt))));
  beside_id = refl;
  beside_version = refl;
  steady = data_fields-Steady p user;
}
data_fields-IsSchema p project = record {
  distinct = (refl, (refl, (refl, (refl, tt))));
  beside_id = refl;
  beside_version = refl;
  steady = data_fields-Steady p project;
}

-- model_dump(mode="json") of a UserData or ProjectData
unfoldable pub dump_of_entity : Pydantic → Entity → State Value → Entries
unfolding dump data_fields
dump_of_entity p k = dump p (data_fields p k)

-- Whatever a full state of a user or a project was validated from, its dump to JSON, parsed, is
-- validated to the same state; so is the state itself, read attribute by attribute.
pub data_of_entity-dump :
    (p : Pydantic) (k : Entity) (input : Input) {d : State Value}
    → data_of_entity p k input ≡ some d
    → (data_of_entity p k (input_of (dump_of_entity p k d)) ≡ some d)
      × (data_of_entity p k (attributes_of d) ≡ some d)
unfolding data_of_entity dump_of_entity
data_of_entity-dump p k input {d} h = (
  data_model-dump p (data_fields p k) (data_fields-IsSchema p k) input {d = d} h,
  data_model-attributes p (data_fields p k) (data_fields-IsSchema p k) input {d = d} h,
)
