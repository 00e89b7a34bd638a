-- ===== src/Tests/Data.antt =====
-- The data of the tests: a module of users under projects, with numbers as values.
use rabbit_speed_test.Base.{
  ℕ, true, false, none, some, List, [], ◌∷◌, Text, codes, ◌==◌, nat_eq, list_eq, if◌then◌else◌,
}
use rabbit_speed_test.Storage.Uow.{acked, delivered, queue_publisher, Env}
use rabbit_speed_test.Modules.State.{State}
use rabbit_speed_test.Modules.Spec.{ModuleSpec}
use rabbit_speed_test.Modules.Events.{Db, StateEventItem, Changes, World, Moment}
use rabbit_speed_test.Modules.Service.{Service}

abbrev pub user_columns : List Text
user_columns =
    codes "id"
    ∷ codes "version"
    ∷ codes "created_at"
    ∷ codes "updated_at"
    ∷ codes "name"
    ∷ codes "project_id"
    ∷ []

abbrev pub user_spec : ModuleSpec ℕ
user_spec = record {
  name = codes "user";
  data_class = 1;
  create_class = 2;
  update_class = 3;
  out_class = 4;
  data_fields = codes "id" ∷ codes "version" ∷ codes "name" ∷ codes "project_id" ∷ [];
  data_floor = λ s. true;
  columns = user_columns;
  filter_columns = codes "name" ∷ codes "project_id" ∷ [];
  sort_columns = codes "name" ∷ [];
  mutable_fields = codes "name" ∷ [];
  default_sort = record { field = codes "id"; descending = false };
  field_validators = [];
  scope_parent = some (codes "project");
  also_unscoped = true;
}

abbrev pub project_spec : ModuleSpec ℕ
project_spec = record user_spec { name = codes "project"; scope_parent = none }

abbrev pub users : Service ℕ
users = record { spec = user_spec; publisher = queue_publisher; event_source = codes "svc" }

-- A user of project 7.
abbrev pub user_at : ℕ → ℕ → ℕ → State ℕ
user_at id version name = record {
  id = id;
  version = version;
  values = λ c.
      if c == codes "name" then some name else if c == codes "project_id" then some 7 else none;
}

abbrev pub stored : Db ℕ
stored = record { rows = user_at 1 3 10 ∷ []; inbox = (codes "svc", codes "e1") ∷ [] }

abbrev pub world : World ℕ
world = record { db = stored; queue = []; alerts = [] }

abbrev pub quiet_env : Env
quiet_env = record { commit_ends = acked; publish_ends = λ i. delivered }

abbrev pub quiet : Moment
quiet = record { event_id = 9; correlationid = codes "c"; env = quiet_env }

abbrev pub renamed : ℕ → Changes ℕ
renamed name = record {
  expected_version = none;
  fields_set = codes "name" ∷ [];
  values = λ c. if c == codes "name" then some name else none;
}

-- An announcement that the inbox holds, and two that it does not.
abbrev pub announced : List (StateEventItem ℕ)
announced =
    record { event_id = codes "e1"; source = codes "svc"; payload = user_at 1 9 90 }
    ∷ record { event_id = codes "e2"; source = codes "svc"; payload = user_at 1 4 40 }
    ∷ record { event_id = codes "e3"; source = codes "svc"; payload = user_at 2 1 20 }
    ∷ []
