-- ===== src/Modules/Events.antt =====
-- The data that the service and its consumer share: CloudEvent and StateEventItem, the Update schema
-- of shared_data_service/app/modules/shared/schemas.py, the database and what outlives a call.
use rabbit_speed_test.Base.{
  ℕ, Bool, true, false, Option, none, some, List, [], ◌∷◌, ◌++◌, Text, pair_eq, list_eq,
}
use rabbit_speed_test.Outcome.{ok, Call}
use rabbit_speed_test.Storage.Uow.{Publisher, Alert, Uow, Env, with_uow}
use rabbit_speed_test.Modules.State.{State}

-- The table of one module, and the inbox.
pub record Db (V : Type 0) : Type 0 where
  pub rows : List (State V)
  pub inbox : List (Text × Text)

pub record CloudEvent (V : Type 0) : Type 0 where
  pub id : ℕ
  pub source : Text
  pub event_type : Text
  pub payload : State V
  pub correlationid : Text

pub record StateEventItem (V : Type 0) : Type 0 where
  pub event_id : Text
  pub source : Text
  pub payload : State V

-- An *Update model: the concurrency guard, the fields that were sent, and their values.
pub record Changes (V : Type 0) : Type 0 where
  pub expected_version : Option ℕ
  pub fields_set : List Text
  pub values : Text → Option V

-- What outlives one unit of work: the database, the outbound queue, the alerts of the log.
pub record World (V : Type 0) : Type 0 where
  pub db : Db V
  pub queue : List (CloudEvent V)
  pub alerts : List (Alert (CloudEvent V))

-- What the surroundings decide during one call: uuid4, the correlation id, commit and publishes.
pub record Moment : Type 0 where
  pub event_id : ℕ
  pub correlationid : Text
  pub env : Env

abbrev pub is_some {ℓ} : {A : Type ℓ} → Option A → Bool
is_some none = false
is_some (some a) = true

abbrev pub or_else {ℓ} : {A : Type ℓ} → Option A → Option A → Option A
or_else none b = b
or_else (some a) b = some a

abbrev pub is_empty {ℓ} : {A : Type ℓ} → List A → Bool
is_empty [] = true
is_empty (x ∷ xs) = false

abbrev pub Body : Type 0 → Type 0 → Type 0
Body V A = Call (Uow (Db V) (CloudEvent V)) A

module _ {V : Type 0} where
  -- A unit of work in the world: its committed database and what it published stay.
  unfoldable pub in_uow : {A : Type 0} → Publisher → Body V A → Call (World V) A
  unfolding with_uow
  in_uow p body w =
      let (r, u) = with_uow p w.db body in
      (r, record { db = u.stored; queue = w.queue ++ u.published; alerts = w.alerts ++ u.alerts })

  abbrev pub set_rows : List (State V) → Body V (Unit {0})
  set_rows rows u = (ok tt, record u { working = record { rows = rows; inbox = u.working.inbox } })

  abbrev pub get_rows : Body V (List (State V))
  get_rows u = (ok (u.working.rows), u)
