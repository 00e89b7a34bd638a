-- ===== src/Modules/Fields/Models.antt =====
-- The three kinds of models that a module declares, *Data, *Create and *Update, and model_dump of a
-- *Data: shared_data_service/app/modules/user.py, project.py and shared/schemas.py.
use rabbit_speed_test.Base.{
  ℕ, Option, none, some, List, [], ◌∷◌, Text, codes, ◌==◌, nat_eq, list_eq, keep, if◌then◌else◌,
  suc,
}
use rabbit_speed_test.Storable.{Json, string, integer, null, Entries, empty_object, entry}
use rabbit_speed_test.Query.{ℤ, pos}
use rabbit_speed_test.Modules.State.{State}
use rabbit_speed_test.Modules.Events.{Changes, is_some}
use rabbit_speed_test.Routes.{CreatePayload}
use rabbit_speed_test.Modules.Fields.{
  Value, uuid, plain, Pydantic, FieldInfo, names_of, Input, Values, uuid_type, validate,
}

-- int with ge=1
unfoldable pub version_of_int : Option ℤ → Option ℕ
version_of_int (some (pos (suc n))) = some (suc n)
version_of_int _ = none

abbrev pub version_type : Pydantic → Option Value → Option ℕ
version_type p (some (plain j)) = version_of_int (p.parse_int j)
version_type p _ = none

-- version: int = Field(default=1, ge=1)
unfoldable pub version_field : Pydantic → Option (Option Value) → Option ℕ
unfolding version_of_int
version_field p none = some 1
version_field p (some v) = version_type p v

abbrev pub uuid_in : Option (Option Value) → Option ℕ
uuid_in (some (some (uuid u))) = some u
uuid_in _ = none

-- id: uuid.UUID
unfoldable pub id_field : Pydantic → Option (Option Value) → Option ℕ
unfolding uuid_type
id_field p none = none
id_field p (some v) = uuid_in (uuid_type p v)

abbrev pub state_from : Option ℕ → Option ℕ → Option Values → Option (State Value)
state_from (some id) (some version) (some values) =
    some (record { id = id; version = version; values = values })
state_from _ _ _ = none

-- A *Data model: id, version and its own fields.
unfoldable pub data_model : Pydantic → List FieldInfo → Input → Option (State Value)
unfolding id_field version_field validate
data_model p fields input =
    state_from (id_field p (input (codes "id"))) (version_field p (input (codes "version")))
      (validate fields input)

-- from_attributes: a row has every field, and None where the column is null.
unfoldable pub attributes_of : State Value → Input
attributes_of m name =
    if name == codes "id"
    then some (some (uuid m.id))
    else if name == codes "version"
    then some (some (plain (integer m.version)))
    else some (m.values name)

-- The parsed body of a request or of an event: of a key that stands twice the last wins.
unfoldable pub lookup : Text → Entries → Option Json
lookup k empty_object = none
lookup k (entry key child rest) = elim (lookup k rest) [
  | some j ↦ some j
  | none ↦ if key == k then some child else none
]

abbrev pub given : Json → Option Value
given null = none
given j = some (plain j)

abbrev pub given_if : Option Json → Option (Option Value)
given_if none = none
given_if (some j) = some (given j)

unfoldable pub input_of : Entries → Input
unfolding lookup
input_of members name = given_if (lookup name members)

-- model_dump(mode="json")
abbrev pub dump_value : Pydantic → Option Value → Json
dump_value p none = null
dump_value p (some (uuid u)) = string (p.print_uuid u)
dump_value p (some (plain j)) = j

unfoldable pub dump_fields : Pydantic → List FieldInfo → Values → Entries → Entries
dump_fields p [] values rest = rest
dump_fields p (f ∷ fields) values rest =
    entry f.name (dump_value p (values f.name)) (dump_fields p fields values rest)

unfoldable pub dump : Pydantic → List FieldInfo → State Value → Entries
unfolding dump_fields
dump p fields d =
    entry (codes "id") (string (p.print_uuid d.id))
      (dump_fields p fields d.values (entry (codes "version") (integer d.version) empty_object))

-- id: uuid.UUID | None = None
unfoldable pub id_or_none : Pydantic → Option (Option Value) → Option (Option ℕ)
unfolding uuid_type
id_or_none p none = some none
id_or_none p (some none) = some none
id_or_none p (some (some v)) = elim (uuid_in (uuid_type p (some v))) [
  | none ↦ none
  | some u ↦ some (some u)
]

abbrev pub payload_from : Option (Option ℕ) → Option Values → Option (CreatePayload Value)
payload_from (some id) (some values) = some (record { id = id; values = values })
payload_from _ _ = none

-- A *Create model.
unfoldable pub create_model : Pydantic → List FieldInfo → Input → Option (CreatePayload Value)
unfolding id_or_none validate
create_model p fields input =
    payload_from (id_or_none p (input (codes "id"))) (validate fields input)

-- expected_version: int | None = Field(default=None, ge=1)
unfoldable pub expected_field : Pydantic → Option (Option Value) → Option (Option ℕ)
unfolding version_of_int
expected_field p none = some none
expected_field p (some none) = some none
expected_field p (some (some v)) = elim (version_type p (some v)) [
  | none ↦ none
  | some n ↦ some (some n)
]

abbrev pub changes_from : List Text → Option (Option ℕ) → Option Values → Option (Changes Value)
changes_from sent (some version) (some values) =
    some (record { expected_version = version; fields_set = sent; values = values })
changes_from sent _ _ = none

-- A *Update model, a VersionedUpdate: model_fields_set are the declared fields that were sent.
unfoldable pub update_model : Pydantic → List FieldInfo → Input → Option (Changes Value)
unfolding expected_field validate
update_model p fields input =
    changes_from (keep (λ n. is_some (input n)) (codes "expected_version" ∷ names_of fields))
      (expected_field p (input (codes "expected_version"))) (validate fields input)
