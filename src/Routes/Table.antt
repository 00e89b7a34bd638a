-- ===== src/Routes/Table.antt =====
-- The routes of the API in their order: register, register_scoped, unscoped_router and _mount of
-- shared_data_service/app/modules/shared/routes.py, and create_app of
-- shared_data_service/app/api/app.py. How a path is matched is FastAPI's.
use rabbit_speed_test.Base.{
  ◌≡◌, ◌≢◌, ◌↔◌, Bool, true, false, ◌&&◌, Option, none, some, List, [], ◌∷◌, ◌++◌, Text, codes,
  ◌==◌, nat_eq, list_eq, if◌then◌else◌,
}
use rabbit_speed_test.Modules.Spec.{ModuleSpec}
use rabbit_speed_test.Modules.Fields.{Pydantic}
use rabbit_speed_test.Modules.Catalog.{all_specs}

-- A path template between slashes: a word, or `{name}`.
pub data Segment : Type 0 where
  word parameter : Text → Segment

-- The four methods of ModuleRoutes, and the endpoints of health.py.
pub data Endpoint : Type 0 where
  create_endpoint get_endpoint update_endpoint list_endpoint health_endpoint ready_endpoint :
      Endpoint

-- A route of the module `owner`, confined to a parent or not.
pub record Route : Type 0 where
  pub method : Text
  pub path : List Segment
  pub endpoint : Endpoint
  pub owner : Text
  pub scoped : Bool

abbrev pub route : Text → List Segment → Endpoint → Text → Bool → Route
route method path endpoint owner scoped = record {
  method = method;
  path = path;
  endpoint = endpoint;
  owner = owner;
  scoped = scoped;
}

-- _mount: the collection at `base`, one row at `id_path`
unfoldable pub mount : Text → List Segment → List Segment → Bool → List Route
mount owner base id_path scoped =
    route (codes "POST") base create_endpoint owner scoped
    ∷ route (codes "GET") id_path get_endpoint owner scoped
    ∷ route (codes "PATCH") id_path update_endpoint owner scoped
    ∷ route (codes "GET") base list_endpoint owner scoped
    ∷ []

abbrev id_of : Text → Text
id_of name = name ++ codes "_id"

module _ {V : Type 0} where
  -- register on a router with this prefix
  unfoldable pub register : Text → ModuleSpec V → List Route
  unfolding mount
  register prefix spec =
      mount spec.name (word prefix ∷ []) (word prefix ∷ parameter (id_of spec.name) ∷ []) false

  -- register_scoped, under this parent
  unfoldable pub register_scoped : Text → ModuleSpec V → List Route
  unfolding mount
  register_scoped parent spec =
      let base = parameter (id_of parent) ∷ word spec.name ∷ [] in
      mount spec.name base (base ++ parameter (id_of spec.name) ∷ []) true

  -- The prefix of unscoped_router, the plural.
  abbrev pub plural : ModuleSpec V → Text
  plural spec = spec.name ++ codes "s"

  abbrev pub routes_of : ModuleSpec V → Option Text → List Route
  routes_of spec none = register spec.name spec
  routes_of spec (some parent) =
      register_scoped parent spec
      ++ (if spec.also_unscoped then register (plural spec) spec else [])

  -- The loop of create_app over the specs.
  unfoldable pub mount_all : List (ModuleSpec V) → List Route
  unfolding register register_scoped
  mount_all [] = []
  mount_all (spec ∷ specs) = routes_of spec spec.scope_parent ++ mount_all specs

-- build_health_router
unfoldable pub health_routes : List Route
health_routes =
    route (codes "GET") (word (codes "health") ∷ []) health_endpoint [] false
    ∷ route (codes "GET") (word (codes "ready") ∷ []) ready_endpoint [] false
    ∷ []

-- create_app
unfoldable pub app_routes : Pydantic → List Route
unfolding health_routes mount_all all_specs
app_routes p = health_routes ++ mount_all (all_specs p)

-- A parameter takes one segment that is not empty.
abbrev pub Fits : List Segment → List Text → Type 0
Fits [] [] = Unit
Fits (word a ∷ path) (b ∷ asked) = (a ≡ b) × Fits path asked
Fits (parameter n ∷ path) (b ∷ asked) = (b ≢ []) × Fits path asked
Fits _ _ = ⊥

pub record Matcher : Type 0 where
  pub matches : List Segment → List Text → Bool
  pub matches_iff :
      (path : List Segment) (asked : List Text) → (matches path asked ≡ true) ↔ Fits path asked

-- The first route that matches answers the request.
unfoldable pub dispatch : Matcher → List Route → Text → List Text → Option Route
dispatch m [] method asked = none
dispatch m (r ∷ routes) method asked =
    if (r.method == method) && m.matches r.path asked
    then some r
    else dispatch m routes method asked
