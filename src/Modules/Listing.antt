-- ===== src/Modules/Listing.antt =====
-- list_page of shared_data_service/app/modules/shared/service.py and VersionedRepository.list of
-- repository.py. How PostgreSQL evaluates a condition and orders rows is a parameter.
pub mod Laws
use rabbit_speed_test.Base.{
  ℕ, ◌≡◌, Bool, true, false, not, ◌&&◌, ◌||◌, Option, none, some, List, [], ◌∷◌, Text, codes, ◌==◌,
  nat_eq, list_eq, contains, keep, all_of, length, take, drop, In, if◌then◌else◌,
}
use rabbit_speed_test.Outcome.{Outcome, ok, err, invalid_query, and_then}
use rabbit_speed_test.Modules.State.{State}
use rabbit_speed_test.Modules.Spec.{ModuleSpec, SortSpec}
use rabbit_speed_test.Query.{
  ℤ, PageRequest, FilterClause, ListQuery, make_page_request, parse_sort, parse_filter_params,
}
use rabbit_speed_test.Query.Filter.{ColumnType, Condition, apply_filter}

abbrev pub always_sortable : List Text
always_sortable = codes "id" ∷ codes "version" ∷ codes "created_at" ∷ codes "updated_at" ∷ []

pub record PageResult (V : Type 0) : Type 0 where
  pub items : List (State V)
  pub total : ℕ
  pub limit : ℕ
  pub offset : ℕ

-- The statement that list sends: the conjunction of the conditions, the order (ties by id), and
-- the window.
pub record Select (W : Type 0) : Type 0 where
  pub conditions : List (Condition W)
  pub order_field : Text
  pub descending : Bool
  pub limit : ℕ
  pub offset : ℕ

-- The surroundings of a list query: the column types, Python's strip/lower and parsers, and the
-- database's evaluation of a condition and of ORDER BY, which loses and invents no row.
pub record Sql (V W : Type 0) : Type 0 where
  pub column_type : Text → ColumnType
  pub clean : Text → Text
  pub parse : ColumnType → Text → Option W
  pub holds : Condition W → State V → Bool
  pub order : Text → Bool → List (State V) → List (State V)
  pub order-In :
      (field : Text) (descending : Bool) (m : State V) (rows : List (State V))
      → In m (order field descending rows)
      → In m rows
  pub length-order :
      (field : Text) (descending : Bool) (rows : List (State V))
      → length (order field descending rows) ≡ length rows

module _ {V : Type 0} where
  -- query_columns: the names of the filterable and of the sortable columns
  unfoldable pub filterable : ModuleSpec V → List Text
  filterable spec = keep (λ c. contains c spec.filter_columns) spec.columns

  unfoldable pub sortable : ModuleSpec V → List Text
  sortable spec =
      keep (λ c. contains c spec.sort_columns || contains c always_sortable) spec.columns

module _ {V W : Type 0} (sql : Sql V W) (spec : ModuleSpec V) where
  -- The loop over query.filters.
  unfoldable pub conditions_of : List FilterClause → Outcome (List (Condition W))
  unfolding filterable
  conditions_of [] = ok []
  conditions_of (clause ∷ rest) =
      let later = conditions_of rest in
      if not (contains clause.field (filterable spec))
      then err invalid_query
      else and_then (apply_filter sql.clean sql.parse (sql.column_type clause.field) clause)
          (λ c. and_then later (λ cs. ok (c ∷ cs)))

  unfoldable pub select_of : ListQuery → Outcome (Select W)
  unfolding conditions_of sortable
  select_of query = and_then (conditions_of query.filters) (λ cs.
      if contains query.sort.field (sortable spec)
      then ok (record {
        conditions = cs;
        order_field = query.sort.field;
        descending = query.sort.descending;
        limit = query.page.limit;
        offset = query.page.offset;
      })
      else err invalid_query)

  -- The rows that meet every condition.
  unfoldable pub matching : List (Condition W) → List (State V) → List (State V)
  matching cs = keep (λ m. all_of (λ c. sql.holds c m) cs)

  -- Both statements of VersionedRepository.list, on the rows of the table.
  unfoldable pub run_select : Select W → List (State V) → List (State V) × ℕ
  unfolding matching
  run_select q rows =
      let found = matching q.conditions rows in
      (take q.limit (drop q.offset (sql.order q.order_field q.descending found)), length found)

  unfoldable pub query_of : ℕ → ℤ → ℤ → Option Text → List (Text × Text) → Outcome ListQuery
  unfolding make_page_request parse_sort parse_filter_params
  query_of max_page_size limit offset sort filters =
      and_then (make_page_request limit offset max_page_size) (λ page.
        and_then (parse_sort sort (sortable spec) spec.default_sort) (λ s.
          and_then (parse_filter_params filters (filterable spec))
            (λ clauses. ok (record { page = page; sort = s; filters = clauses }))))

  unfoldable pub list_page :
      ℕ → ℤ → ℤ → Option Text → List (Text × Text) → List (State V) → Outcome (PageResult V)
  unfolding query_of select_of run_select
  list_page max_page_size limit offset sort filters rows =
      and_then (query_of max_page_size limit offset sort filters) (λ query.
        and_then (select_of query) (λ q.
          let (items, total) = run_select q rows in
          ok (record {
            items = items;
            total = total;
            limit = query.page.limit;
            offset = query.page.offset;
          })))
