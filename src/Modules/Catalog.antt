-- ===== src/Modules/Catalog.antt =====
-- The modules of the service: shared_data_service/app/modules/user.py, project.py and the registry
-- modules/__init__.py.
pub mod Wire
pub mod Floor
pub mod Requests
pub mod Patch
pub mod Replicates
use rabbit_speed_test.Base.{
  ℕ, Bool, true, false, not, Option, none, some, List, [], ◌∷◌, ◌++◌, map, Text, codes, ◌==◌,
  nat_eq, list_eq, keep, card, length, if◌then◌else◌,
}
use rabbit_speed_test.Outcome.{Outcome, ok, err, invalid_spec}
use rabbit_speed_test.Storable.{string, object, empty_object}
use rabbit_speed_test.Modules.State.{State}
use rabbit_speed_test.Modules.Spec.{ModuleSpec}
use rabbit_speed_test.Modules.Events.{Changes, is_some}
use rabbit_speed_test.Routes.{CreatePayload, Scope}
use rabbit_speed_test.Modules.Fields.{
  Value, uuid, plain, Pydantic, Check, FieldInfo, Input, names_of, valid_name_type,
  floor_email_type, strict_email_type, description_type, attributes_type, uuid_type, or_none,
}
use rabbit_speed_test.Modules.Fields.Models.{data_model, create_model, update_model, attributes_of}

pub data Entity : Type 0 where
  user project : Entity

abbrev pub required : Text → Check → FieldInfo
required name check = record { name = name; check = check; default = none }

-- With a default that is a value, or None.
abbrev pub optional : Text → Check → Option Value → FieldInfo
optional name check default = record { name = name; check = check; default = some default }

-- Of an Update schema: None, sent or not, leaves the field as it is.
abbrev pub changeable : Text → Check → FieldInfo
changeable name check = optional name (or_none check) none

abbrev pub no_attributes : Option Value
no_attributes = some (plain (object empty_object))

-- UserData and ProjectData, less id and version
abbrev pub user_data : Pydantic → List FieldInfo
user_data p =
    optional (codes "project_id") (or_none (uuid_type p)) none
    ∷ required (codes "name") (valid_name_type p)
    ∷ required (codes "email") floor_email_type
    ∷ optional (codes "attributes") attributes_type no_attributes
    ∷ []

abbrev pub project_data : Pydantic → List FieldInfo
project_data p =
    required (codes "name") (valid_name_type p)
    ∷ optional (codes "description") description_type (some (plain (string [])))
    ∷ required (codes "owner_email") floor_email_type
    ∷ optional (codes "attributes") attributes_type no_attributes
    ∷ []

unfoldable pub data_fields : Pydantic → Entity → List FieldInfo
data_fields p user = user_data p
data_fields p project = project_data p

-- UserCreate and ProjectCreate, less id
abbrev pub user_create : Pydantic → List FieldInfo
user_create p =
    required (codes "name") (valid_name_type p)
    ∷ required (codes "email") (strict_email_type p)
    ∷ optional (codes "attributes") attributes_type no_attributes
    ∷ []

abbrev pub project_create : Pydantic → List FieldInfo
project_create p =
    required (codes "name") (valid_name_type p)
    ∷ optional (codes "description") description_type (some (plain (string [])))
    ∷ required (codes "owner_email") (strict_email_type p)
    ∷ optional (codes "attributes") attributes_type no_attributes
    ∷ []

unfoldable pub create_fields : Pydantic → Entity → List FieldInfo
create_fields p user = user_create p
create_fields p project = project_create p

-- UserUpdate and ProjectUpdate, less expected_version
abbrev pub user_update : Pydantic → List FieldInfo
user_update p =
    changeable (codes "name") (valid_name_type p)
    ∷ changeable (codes "email") (strict_email_type p)
    ∷ changeable (codes "attributes") attributes_type
    ∷ []

abbrev pub project_update : Pydantic → List FieldInfo
project_update p =
    changeable (codes "name") (valid_name_type p)
    ∷ changeable (codes "description") description_type
    ∷ changeable (codes "owner_email") (strict_email_type p)
    ∷ changeable (codes "attributes") attributes_type
    ∷ []

unfoldable pub update_fields : Pydantic → Entity → List FieldInfo
update_fields p user = user_update p
update_fields p project = project_update p

-- The columns of the ORM classes, with their q() tags, after those of VersionedBase.
pub record Column : Type 0 where
  pub name : Text
  pub filter : Bool
  pub sort : Bool

abbrev pub column : Text → Bool → Bool → Column
column name filter sort = record { name = name; filter = filter; sort = sort }

unfoldable pub base_columns : List Column
base_columns =
    column (codes "id") false false
    ∷ column (codes "version") false false
    ∷ column (codes "created_at") false false
    ∷ column (codes "updated_at") false false
    ∷ []

abbrev pub user_columns : List Column
user_columns =
    column (codes "project_id") true false
    ∷ column (codes "name") true true
    ∷ column (codes "email") true true
    ∷ column (codes "attributes") false false
    ∷ []

abbrev pub project_columns : List Column
project_columns =
    column (codes "name") true true
    ∷ column (codes "description") false false
    ∷ column (codes "owner_email") true true
    ∷ column (codes "attributes") false false
    ∷ []

unfoldable pub columns_of : Entity → List Column
columns_of user = user_columns
columns_of project = project_columns

-- The classes of one module are told apart by number.
abbrev pub name_of : Entity → Text
name_of user = codes "user"
name_of project = codes "project"

abbrev pub mutable_of : Entity → List Text
mutable_of user = codes "project_id" ∷ codes "name" ∷ codes "email" ∷ codes "attributes" ∷ []
mutable_of project =
    codes "name" ∷ codes "description" ∷ codes "owner_email" ∷ codes "attributes" ∷ []

abbrev pub parent_of : Entity → Option Text
parent_of user = some (codes "project")
parent_of project = none

abbrev pub unscoped_too : Entity → Bool
unscoped_too user = true
unscoped_too project = false

-- UserData.model_validate and ProjectData.model_validate
unfoldable pub data_of_entity : Pydantic → Entity → Input → Option (State Value)
unfolding data_model data_fields
data_of_entity p k = data_model p (data_fields p k)

-- The validation of a request's body.
unfoldable pub create_of_entity : Pydantic → Entity → Input → Option (CreatePayload Value)
unfolding create_model create_fields
create_of_entity p k = create_model p (create_fields p k)

unfoldable pub update_of_entity : Pydantic → Entity → Input → Option (Changes Value)
unfolding update_model update_fields
update_of_entity p k = update_model p (update_fields p k)

-- USER_SPEC and PROJECT_SPEC
unfoldable pub spec_of : Pydantic → Entity → ModuleSpec Value
unfolding columns_of base_columns data_fields data_of_entity attributes_of
spec_of p k = record {
  name = name_of k;
  data_class = 1;
  create_class = 2;
  update_class = 3;
  out_class = 4;
  data_fields = codes "id" ∷ codes "version" ∷ names_of (data_fields p k);
  data_floor = λ m. is_some (data_of_entity p k (attributes_of m));
  columns = map (λ c. c.name) (base_columns ++ columns_of k);
  filter_columns = map (λ c. c.name) (keep (λ c. c.filter) (columns_of k));
  sort_columns = map (λ c. c.name) (keep (λ c. c.sort) (columns_of k));
  mutable_fields = mutable_of k;
  default_sort = record { field = codes "created_at"; descending = true };
  field_validators = [];
  scope_parent = parent_of k;
  also_unscoped = unscoped_too k;
}

-- The check of modules/__init__.py on the names of ALL_SPECS: a duplicate raises at import.
unfoldable pub names_guard : {V : Type 0} → List (ModuleSpec V) → Outcome (Unit {0})
names_guard specs =
    let names = map (λ s. s.name) specs in
    if not (card names == length names) then err invalid_spec else ok tt

unfoldable pub all_specs : Pydantic → List (ModuleSpec Value)
unfolding spec_of
all_specs p = spec_of p user ∷ spec_of p project ∷ []

-- _scope_dependency: the parent's id in the path, if there is one, confines the route to that parent.
unfoldable pub scope_dependency : Pydantic → ModuleSpec Value → Option ℕ → Option (Scope Value)
scope_dependency p spec none = none
scope_dependency p spec (some parent_id) = elim spec.scope_parent [
  | none ↦ none
  | some parent ↦ some (record {
    column = parent ++ codes "_id";
    value = uuid parent_id;
    printed = p.print_uuid parent_id;
  })
]
