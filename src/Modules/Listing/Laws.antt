-- ===== src/Modules/Listing/Laws.antt =====
-- What a page of the list endpoint holds.
use rabbit_speed_test.Base.{
  ℕ, ◌≡◌, ◌≤◌, refl, ◌∙◌, inl, inr, zero, suc, Bool, true, Option, List, [], ◌∷◌, Text, nat_eq,
  list_eq, contains, keep, all_of, length, take, drop, In, arith, Bool-cases,
}
use rabbit_speed_test.Outcome.{Outcome, ok, err, and_then, unwound}
use rabbit_speed_test.Modules.State.{State}
use rabbit_speed_test.Modules.Spec.{ModuleSpec}
use rabbit_speed_test.Query.{
  ℤ, PageRequest, FilterClause, ListQuery, make_page_request, parse_sort, parse_filter_params,
}
use rabbit_speed_test.Query.Filter.{Condition, apply_filter}
use rabbit_speed_test.Modules.Listing.{
  PageResult, Select, Sql, conditions_of, select_of, matching, run_select, query_of, list_page,
  sortable, filterable,
}

module _ {A B : Type 0} where
  pub and_then-ok :
      (m : Outcome A) (f : A → Outcome B) {b : B}
      → and_then m f ≡ ok b
      → (a : A) × (m ≡ ok a) × (f a ≡ ok b)
  and_then-ok (ok a) f h = (a, refl, h)
  and_then-ok (err x) f h = absurd (ground arith)
  and_then-ok unwound f h = absurd (ground arith)

module _ {A : Type 0} where
  In-take : (a : A) (n : ℕ) (xs : List A) → In a (take n xs) → In a xs
  In-take a zero xs h = absurd h
  In-take a (suc n) [] h = h
  In-take a (suc n) (x ∷ xs) (inl e) = inl e
  In-take a (suc n) (x ∷ xs) (inr h) = inr (In-take a n xs h)

  In-drop : (a : A) (n : ℕ) (xs : List A) → In a (drop n xs) → In a xs
  In-drop a zero xs h = h
  In-drop a (suc n) [] h = h
  In-drop a (suc n) (x ∷ xs) h = inr (In-drop a n xs h)

  length-take_le : (n : ℕ) (xs : List A) → length (take n xs) ≤ n
  length-take_le zero xs = omega arith
  length-take_le (suc n) [] = omega arith
  length-take_le (suc n) (x ∷ xs) = omega (arith, length-take_le n xs)

  In-keep_head :
      (p : A → Bool) (a x : A) (xs : List A)
      → p x ≡ true
      → (In a (keep p xs) → (p a ≡ true) × In a xs)
      → In a (x ∷ keep p xs)
      → (p a ≡ true) × In a (x ∷ xs)
  In-keep_head p a x xs good later (inl e) = (rw (← e) good, inl e)
  In-keep_head p a x xs good later (inr m) = let (t, n) = later m in (t, inr n)

  In-keep : (p : A → Bool) (a : A) (xs : List A) → In a (keep p xs) → (p a ≡ true) × In a xs
  In-keep p a [] h = absurd h
  In-keep p a (x ∷ xs) h = elim (Bool-cases (p x)) [
    | inl good ↦ In-keep_head p a x xs good (In-keep p a xs) (rw good at h)
    | inr bad ↦ (let (e, m) = In-keep p a xs (rw bad at h) in (e, inr m))
  ]

module _ {V W : Type 0} (sql : Sql V W) (spec : ModuleSpec V) where
  -- The condition of the first clause, or of one of the others.
  here_or_later :
      (clause d : FilterClause) (ds : List FilterClause) (c : Condition W)
      (later : List (Condition W))
      → apply_filter sql.clean sql.parse (sql.column_type d.field) d ≡ ok c
      → In clause (d ∷ ds)
      → (In clause ds
          → (x : Condition W) × (apply_filter sql.clean sql.parse
                (sql.column_type clause.field)
                clause
              ≡ ok x)
            × In x later)
      → (x : Condition W) × (apply_filter sql.clean sql.parse (sql.column_type clause.field) clause
          ≡ ok x)
        × In x (c ∷ later)
  here_or_later clause d ds c later made (inl same) rest = (c, rw (← same) made, inl refl)
  here_or_later clause d ds c later made (inr m) rest = let (x, e, n) = rest m in (x, e, inr n)

  make_page_request-ok :
      (limit offset : ℤ) (max_limit : ℕ) {p : PageRequest}
      → make_page_request limit offset max_limit ≡ ok p
      → (1 ≤ p.limit) × (p.limit ≤ max_limit)
  unfolding make_page_request
  make_page_request-ok limit offset max_limit h = ground arith

  query_of-page :
      (max_page_size : ℕ) (limit offset : ℤ) (sort : Option Text) (filters : List (Text × Text))
      {q : ListQuery}
      → query_of sql spec max_page_size limit offset sort filters ≡ ok q
      → (1 ≤ q.page.limit) × (q.page.limit ≤ max_page_size)
  unfolding query_of
  query_of-page max_page_size limit offset sort filters {q} h =
      let (p, bounded, h₁) = and_then-ok (make_page_request limit offset max_page_size) _ h in
      let (s, sorted, h₂) = and_then-ok (parse_sort sort (sortable spec) spec.default_sort) _ h₁ in
      let (cs, parsed, h₃) = and_then-ok (parse_filter_params filters (filterable spec)) _ h₂ in
      ground (arith, make_page_request-ok limit offset max_page_size bounded)

  pub query_of-filters :
      (max_page_size : ℕ) (limit offset : ℤ) (sort : Option Text) (filters : List (Text × Text))
      {q : ListQuery}
      → query_of sql spec max_page_size limit offset sort filters ≡ ok q
      → parse_filter_params filters (filterable spec) ≡ ok q.filters
  unfolding query_of
  query_of-filters max_page_size limit offset sort filters {q} h =
      let (p, bounded, h₁) = and_then-ok (make_page_request limit offset max_page_size) _ h in
      let (s, sorted, h₂) = and_then-ok (parse_sort sort (sortable spec) spec.default_sort) _ h₁ in
      let (cs, parsed, h₃) = and_then-ok (parse_filter_params filters (filterable spec)) _ h₂ in
      ground arith

  -- Each clause of the query has its condition among those of the statement.
  pub conditions_of-In :
      (clause : FilterClause) (clauses : List FilterClause) {cs : List (Condition W)}
      → conditions_of sql spec clauses ≡ ok cs
      → In clause clauses
      → (c : Condition W) × (apply_filter sql.clean sql.parse (sql.column_type clause.field) clause
          ≡ ok c)
        × In c cs
  unfolding conditions_of
  conditions_of-In clause [] h m = absurd m
  conditions_of-In clause (d ∷ ds) {cs} h m =
      elim (Bool-cases (contains d.field (filterable spec))) [
        | inl known ↦
            (let (c, made, h₁) =
                and_then-ok (apply_filter sql.clean sql.parse (sql.column_type d.field) d) _
                  (rw known at h) in
              let (later, rest, h₂) = and_then-ok (conditions_of sql spec ds) _ h₁ in
              let same : c ∷ later ≡ cs = ground arith in
              rw (← same) (
                here_or_later clause d ds c later made m
                  (λ n. conditions_of-In clause ds {cs = later} rest n)))
        | inr unknown ↦ absurd (ground arith)
      ]

  select_of-ok :
      (q : ListQuery) {s : Select W}
      → select_of sql spec q ≡ ok s
      → (conditions_of sql spec q.filters ≡ ok s.conditions) × (s.limit ≡ q.page.limit)
  unfolding select_of
  select_of-ok q {s} h =
      let (cs, built, h₁) = and_then-ok (conditions_of sql spec q.filters) _ h in ground arith

  run_select-items :
      (q : Select W) (rows : List (State V)) (m : State V)
      → In m (run_select sql spec q rows).0
      → In m rows × (all_of (λ c. sql.holds c m) q.conditions ≡ true)
  unfolding run_select
  run_select-items q rows m h =
      let found = matching sql spec q.conditions rows in
      let ordered = sql.order q.order_field q.descending found in
      let (meets, row) =
        In-keep (λ m. all_of (λ c. sql.holds c m) q.conditions) m rows
          (sql.order-In q.order_field q.descending m found
            (In-drop m q.offset ordered (In-take m q.limit (drop q.offset ordered) h))) in
      (row, meets)

  run_select-length :
      (q : Select W) (rows : List (State V)) → length (run_select sql spec q rows).0 ≤ q.limit
  unfolding run_select
  run_select-length q rows = length-take_le q.limit _

  run_select-total :
      (q : Select W) (rows : List (State V))
      → (run_select sql spec q rows).1 ≡ length (matching sql spec q.conditions rows)
  unfolding run_select
  run_select-total q rows = refl

  -- A page that is returned: the limit is between 1 and the maximum, the page has at most limit
  -- rows, the total counts the rows that meet the conditions of all filters, and every row of the
  -- page is a row of the table that meets them.
  pub list_page-ok :
      (max_page_size : ℕ) (limit offset : ℤ) (sort : Option Text) (filters : List (Text × Text))
      (rows : List (State V)) {page : PageResult V}
      → list_page sql spec max_page_size limit offset sort filters rows ≡ ok page
      → (q : ListQuery) × (cs : List (Condition W)) × (query_of sql spec max_page_size limit offset
            sort filters
          ≡ ok q)
        × (conditions_of sql spec q.filters ≡ ok cs)
        × (1 ≤ page.limit)
        × (page.limit ≤ max_page_size)
        × (length page.items ≤ page.limit)
        × (page.total ≡ length (matching sql spec cs rows))
        × ((m : State V) → In m page.items → In m rows × (all_of (λ c. sql.holds c m) cs ≡ true))
  unfolding list_page
  list_page-ok max_page_size limit offset sort filters rows {page} h =
      let (q, asked, h₁) =
        and_then-ok (query_of sql spec max_page_size limit offset sort filters) _ h in
      let (s, built, h₂) = and_then-ok (select_of sql spec q) _ h₁ in
      let (conditions, same) = select_of-ok q built in
      let (low, high) = query_of-page max_page_size limit offset sort filters asked in
      let items : (run_select sql spec s rows).0 ≡ page.items = ground arith in
      let window : page.limit ≡ q.page.limit = ground arith in
      let total : page.total ≡ (run_select sql spec s rows).1 = ground arith in
      (
        q,
        s.conditions,
        asked,
        conditions,
        ground arith,
        ground arith,
        rw (← items) (omega (arith, run_select-length s rows, same, window)),
        total ∙ run_select-total s rows,
        λ m h. run_select-items s rows m (rw (← items) at h),
      )
