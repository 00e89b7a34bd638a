-- ===== src/Routes.antt =====
-- The logic of ModuleRoutes, shared_data_service/app/modules/shared/routes.py, and the statuses of
-- shared_data_service/app/api/errors.py. A query string is a dict, in its order.
pub mod Scoping
pub mod Table
pub mod Dispatch
pub mod Correlation
use rabbit_speed_test.Base.{
  ℕ, ◌≡◌, Bool, true, false, not, ◌&&◌, Option, none, some, List, [], ◌∷◌, ◌++◌, Text, codes, ◌==◌,
  nat_eq, list_eq, Eq, contains, keep, if◌then◌else◌,
}
use rabbit_speed_test.Outcome.{
  Outcome, ok, err, unwound, Error, not_found, conflict, invalid_input, invalid_query, other_domain,
  validation, database, invalid_spec, Call, pure, raise, ◌>>=◌, and_then,
}
use rabbit_speed_test.Modules.State.{State}
use rabbit_speed_test.Modules.Spec.{ModuleSpec}
use rabbit_speed_test.Modules.Events.{World, Moment, Changes}
use rabbit_speed_test.Modules.Service.{Service, payload_of, passes, create, update, get}
use rabbit_speed_test.Modules.Listing.{Sql, PageResult, list_page}
use rabbit_speed_test.Query.{ℤ, partition}

-- A scope confines the routes to the rows whose column has this value; `printed` is str(value).
pub record Scope (V : Type 0) : Type 0 where
  pub column : Text
  pub value : V
  pub printed : Text

-- A validated *Create model: the client's id, if it sent one, and the other values.
pub record CreatePayload (V : Type 0) : Type 0 where
  pub id : Option ℕ
  pub values : Text → Option V

pub record Pagination : Type 0 where
  pub limit : ℤ
  pub offset : ℤ
  pub sort : Option Text

abbrev pub pagination_params : List Text
pagination_params = codes "limit" ∷ codes "offset" ∷ codes "sort" ∷ []

-- handle_domain_error: `none` is an exception that is no DomainError.
unfoldable pub status_of : Error → Option ℕ
status_of not_found = some 404
status_of conflict = some 409
status_of invalid_input = some 400
status_of invalid_query = some 400
status_of other_domain = some 500
status_of _ = none

-- The filters of a request: what is no pagination parameter, and, under a scope, the scope's own
-- filter in place of the client's filters on that column.
unfoldable pub raw_filters :
    {V : Type 0} → Option (Scope V) → List (Text × Text) → List (Text × Text)
unfolding partition
raw_filters none params = keep (λ p. not (contains (partition p.0).0 pagination_params)) params
raw_filters (some scope) params =
    keep (λ p. not ((partition p.0).0 == scope.column))
      (keep (λ p. not (contains (partition p.0).0 pagination_params)) params)
    ++ (scope.column, scope.printed) ∷ []

module _ {V : Type 0} where
  abbrev pub scope_value : Option (Scope V) → (Text → Option V) → Text → Option V
  scope_value none values name = values name
  scope_value (some scope) values name =
      if name == scope.column then some scope.value else values name

  -- The full state that a create announces: the client's id or a new one, version 1.
  unfoldable pub data_of : Option (Scope V) → ℕ → CreatePayload V → State V
  data_of scope fresh payload = record {
    id = elim payload.id [ none ↦ fresh | some id ↦ id ];
    version = 1;
    values = scope_value scope payload.values;
  }

  abbrev pub guard_of : Option (Scope V) → Option (Text × Option V)
  guard_of none = none
  guard_of (some scope) = some (scope.column, some scope.value)

module _ {V : Type 0} ⦃e : Eq V⦄ where
  -- create, with its HTTP status
  unfoldable pub create_route :
      Service V → Moment → ℕ → Option (Scope V) → CreatePayload V → Call (World V) (ℕ × State V)
  unfolding data_of
  create_route s now fresh scope payload =
      let d = payload_of s.spec (data_of scope fresh payload) in
      if not (s.spec.data_floor d)
      then raise invalid_input
      else do answer ← create s now d; pure (if answer.1 then 201 else 200, answer.0)

  -- get_one and _check_scope
  unfoldable pub get_one : Service V → Option (Scope V) → ℕ → Call (World V) (State V)
  get_one s scope id = do
    m ← get s id
    if passes (guard_of scope) m then pure m else raise not_found

  unfoldable pub update_route :
      Service V → Moment → Option (Scope V) → ℕ → Changes V → Call (World V) (State V)
  update_route s now scope id changes = update s now id changes none (guard_of scope)

module _ {V W : Type 0} (sql : Sql V W) (spec : ModuleSpec V) where
  unfoldable pub list_route :
      ℕ
      → Option (Scope V)
      → Pagination
      → List (Text × Text)
      → List (State V)
      → Outcome (PageResult V)
  unfolding raw_filters
  list_route max_page_size scope page params rows =
      list_page sql spec max_page_size page.limit page.offset page.sort (raw_filters scope params)
        rows
