-- ===== src/Routes/Scoping.antt =====
-- A scoped route reads and writes no row of another parent.
use rabbit_speed_test.Base.{
  ℕ, ◌≡◌, refl, sym, inl, inr, Bool, true, none, some, List, [], ◌∷◌, ◌++◌, Text, codes, nat_eq,
  list_eq, Eq, all_of, In, arith, Option-cases, option_eq, option_beq_iff,
}
use rabbit_speed_test.Outcome.{Outcome, ok, err, unwound}
use rabbit_speed_test.Modules.State.{State}
use rabbit_speed_test.Modules.Spec.{ModuleSpec}
use rabbit_speed_test.Modules.Events.{World, Moment, Changes}
use rabbit_speed_test.Modules.Table.{find, write}
use rabbit_speed_test.Modules.Service.{Service, get}
use rabbit_speed_test.Modules.Service.Update.{update-ok}
use rabbit_speed_test.Modules.Listing.{Sql, PageResult}
use rabbit_speed_test.Modules.Listing.Laws.{
  list_page-ok, and_then-ok, query_of-filters, conditions_of-In,
}
use rabbit_speed_test.Query.{FilterClause, partition, parse_param, parse_filter_params, push_clause}
use rabbit_speed_test.Query.Filter.{Condition, Value, compare_with, eq, apply_filter, coerce}
use rabbit_speed_test.Routes.{Scope, Pagination, raw_filters, get_one, update_route, list_route}

module _ {V : Type 0} ⦃e : Eq V⦄ where
  -- get_one under a scope returns only a row of the scope's parent.
  get_one-scoped :
      (s : Service V) (scope : Scope V) (id : ℕ) (w : World V) {m : State V}
      → (get_one s (some scope) id w).0 ≡ ok m
      → (find id w.db.rows ≡ some m) × (m.values scope.column ≡ some scope.value)
  unfolding get_one get
  get_one-scoped s scope id w {m} h = elim (Option-cases (find id w.db.rows)) [
    | inl absent ↦ absurd (ground arith)
    | inr (r, found) ↦ ground (arith, option_beq_iff (r.values scope.column) (some scope.value))
  ]

  -- An update under a scope that returns has changed a row of the scope's parent and no other row.
  update_route-scoped :
      (s : Service V) (now : Moment) (scope : Scope V) (id : ℕ) (changes : Changes V) (w : World V)
      {m' : State V}
      → (update_route s now (some scope) id changes w).0 ≡ ok m'
      → (m : State V) × (find id w.db.rows ≡ some m)
        × (m.values scope.column ≡ some scope.value)
        × ((update_route s now (some scope) id changes w).1.db.rows ≡ write m' w.db.rows)
  unfolding update_route
  update_route-scoped s now scope id changes w {m'} h =
      let (m, found, fits, passed, same, rows) =
        update-ok s now id changes none (some (scope.column, some scope.value)) w {m' = m'} h in
      (m, found, (option_beq_iff (m.values scope.column) (some scope.value)).0 passed, rows)

push_clause-ok :
    (m : Outcome FilterClause) (r : Outcome (List FilterClause)) {cs : List FilterClause}
    → push_clause m r ≡ ok cs
    → (c : FilterClause) × (rest : List FilterClause) × (m ≡ ok c) × (r ≡ ok rest) × (c ∷ rest ≡ cs)
push_clause-ok (ok c) (ok rest) h = (c, rest, refl, refl, ground arith)
push_clause-ok (ok c) (err x) h = absurd (ground arith)
push_clause-ok (ok c) unwound h = absurd (ground arith)
push_clause-ok (err x) r h = absurd (ground arith)
push_clause-ok unwound r h = absurd (ground arith)

-- A parameter with no operator is an exact filter.
parse_param-exact :
    (allowed : List Text) (column value : Text) {c : FilterClause}
    → partition column ≡ (column, [])
    → parse_param allowed column value ≡ ok c
    → record { field = column; op = codes "exact"; value = value } ≡ c
unfolding parse_param
parse_param-exact allowed column value plain h = ground arith

parse-last :
    (front : List (Text × Text)) (column value : Text) (allowed : List Text)
    {clauses : List FilterClause}
    → partition column ≡ (column, [])
    → parse_filter_params (front ++ (column, value) ∷ []) allowed ≡ ok clauses
    → In (record { field = column; op = codes "exact"; value = value }) clauses
unfolding parse_filter_params
parse-last [] column value allowed {clauses} plain h =
    let (c, rest, made, none_left, same) =
      push_clause-ok (parse_param allowed column value) (parse_filter_params [] allowed) h in
    rw (← same) (inl (sym (parse_param-exact allowed column value {c = c} plain made)))
parse-last ((k, v) ∷ front) column value allowed {clauses} plain h =
    let (c, rest, made, later, same) =
      push_clause-ok (parse_param allowed k v)
        (parse_filter_params (front ++ (column, value) ∷ []) allowed) h in
    rw (← same) (inr (parse-last front column value allowed {clauses = rest} plain later))

pub all_of-In :
    {A : Type 0} (p : A → Bool) (a : A) (xs : List A) → all_of p xs ≡ true → In a xs → p a ≡ true
all_of-In p a [] h m = absurd m
all_of-In p a (x ∷ xs) h (inl e) = rw (← e) (ground arith)
all_of-In p a (x ∷ xs) h (inr m) = all_of-In p a xs (ground arith) m

module _ {V W : Type 0} (sql : Sql V W) (spec : ModuleSpec V) where
  apply_filter-exact :
      (column value : Text) {c : Condition W}
      → apply_filter sql.clean sql.parse
          (sql.column_type column)
          (record { field = column; op = codes "exact"; value = value })
        ≡ ok c
      → (x : Value W) × (coerce sql.clean sql.parse value (sql.column_type column) ≡ ok x)
        × (compare_with eq column x ≡ c)
  unfolding apply_filter
  apply_filter-exact column value {c} h =
      let (x, made, same) =
        and_then-ok (coerce sql.clean sql.parse value (sql.column_type column)) _ {b = c} h in
      (x, made, ground arith)

  -- The list under a scope: whatever filters the client sends, every row of the page meets the
  -- equality of the scope's column with the scope's value, as the database evaluates it.
  pub list_route-scoped :
      (max_page_size : ℕ) (scope : Scope V) (page : Pagination) (params : List (Text × Text))
      (rows : List (State V)) {answer : PageResult V}
      → partition scope.column ≡ (scope.column, [])
      → list_route sql spec max_page_size (some scope) page params rows ≡ ok answer
      → (x : Value W) × (coerce sql.clean sql.parse scope.printed (sql.column_type scope.column)
          ≡ ok x)
        × ((m : State V)
            → In m answer.items
            → In m rows × (sql.holds (compare_with eq scope.column x) m ≡ true))
  unfolding list_route
  list_route-scoped max_page_size scope page params rows {answer} plain h =
      let filters = raw_filters (some scope) params in
      let (q, cs, asked, built, low, high, short, total, items) =
        list_page-ok sql spec max_page_size page.limit page.offset page.sort filters rows
          {page = answer} h in
      let parsed =
        query_of-filters sql spec max_page_size page.limit page.offset page.sort filters {q = q}
          asked in
      let (c, made, among) =
        conditions_of-In sql spec
          (record { field = scope.column; op = codes "exact"; value = scope.printed }) q.filters
          {cs = cs} built
          (parse-last _ scope.column scope.printed _ {clauses = q.filters} plain parsed) in
      let (x, coerced, same) = apply_filter-exact scope.column scope.printed {c = c} made in
      (
        x,
        coerced,
        λ m h.
            let (row, meets) = items m h in
            (row, rw same (all_of-In (λ c. sql.holds c m) c cs meets among)),
      )
