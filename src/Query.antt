-- ===== src/Query.antt =====
-- shared_data_service/app/modules/shared/filters.py and query.py: the list query of a request, from
-- its parameters. A text is the list of its code points; str(value), strip and lower, and the
-- parsers of Python's types are parameters where they are used.
pub mod Like
pub mod Filter
pub mod Matches
use rabbit_speed_test.Base.{
  ℕ, ◌≡◌, ◌-◌, Bool, true, false, not, ◌&&◌, Option, none, some, List, [], ◌∷◌, ◌++◌, Text, codes,
  ◌==◌, nat_eq, list_eq, contains, if◌then◌else◌, ltb,
}
use rabbit_speed_test.Outcome.{Outcome, ok, err, invalid_query}
use rabbit_speed_test.Modules.Spec.{SortSpec}
use rabbit_speed_test.Modules.Events.{is_empty}

-- An int of Python. `negsuc n` is -(n + 1).
pub data ℤ : Type 0 where
  pos : ℕ → ℤ
  negsuc : ℕ → ℤ

pub record PageRequest : Type 0 where
  pub limit : ℕ
  pub offset : ℕ

pub record FilterClause : Type 0 where
  pub field : Text
  pub op : Text
  pub value : Text

pub record ListQuery : Type 0 where
  pub page : PageRequest
  pub sort : SortSpec
  pub filters : List FilterClause

abbrev pub text_lookups : List Text
text_lookups =
    codes "iexact"
    ∷ codes "contains"
    ∷ codes "icontains"
    ∷ codes "startswith"
    ∷ codes "istartswith"
    ∷ codes "endswith"
    ∷ codes "iendswith"
    ∷ []

abbrev pub lookups : List Text
lookups =
    text_lookups
    ++ codes "exact"
      ∷ codes "gt"
      ∷ codes "gte"
      ∷ codes "lt"
      ∷ codes "lte"
      ∷ codes "in"
      ∷ codes "not_in"
      ∷ codes "isnull"
      ∷ codes "not_isnull"
      ∷ codes "range"
      ∷ []

-- make_page_request
unfoldable pub make_page_request : ℤ → ℤ → ℕ → Outcome PageRequest
make_page_request (negsuc n) offset max_limit = err invalid_query
make_page_request (pos limit) (negsuc m) max_limit = err invalid_query
make_page_request (pos limit) (pos offset) max_limit =
    if ltb limit 1
    then err invalid_query
    else if ltb max_limit limit
    then err invalid_query
    else ok (record { limit = limit; offset = offset })

-- parse_sort: a missing or empty parameter is the default, "-field" is descending.
unfoldable pub parse_sort : Option Text → List Text → SortSpec → Outcome SortSpec
parse_sort none allowed default = ok default
parse_sort (some []) allowed default = ok default
parse_sort (some (c ∷ raw)) allowed default =
    let descending = c == b'-' in
    let field = if descending then raw else c ∷ raw in
    if contains field allowed
    then ok (record { field = field; descending = descending })
    else err invalid_query

-- str.partition("__"), without the separator
unfoldable pub partition : Text → Text × Text
partition [] = ([], [])
partition (c ∷ []) = (c ∷ [], [])
partition (c ∷ d ∷ rest) =
    let later = partition (d ∷ rest) in
    if (c == b'_') && (d == b'_') then ([], rest) else (c ∷ later.0, later.1)

-- str.split(",")
abbrev pub on_head : ℕ → List Text → List Text
on_head c [] = (c ∷ []) ∷ []
on_head c (t ∷ ts) = (c ∷ t) ∷ ts

unfoldable pub split_comma : Text → List Text
split_comma [] = [] ∷ []
split_comma (c ∷ rest) =
    let later = split_comma rest in if c == b',' then [] ∷ later else on_head c later

-- The clause of one parameter: the field must be allowed, and the operator known.
unfoldable pub parse_param : List Text → Text → Text → Outcome FilterClause
unfolding partition
parse_param allowed key value =
    let (field, rest) = partition key in
    let op = if is_empty rest then codes "exact" else rest in
    if not (contains field allowed)
    then err invalid_query
    else if not (contains op lookups)
    then err invalid_query
    else ok (record { field = field; op = op; value = value })

-- parse_filter_params
abbrev pub push_clause :
    Outcome FilterClause → Outcome (List FilterClause) → Outcome (List FilterClause)
push_clause (ok c) (ok cs) = ok (c ∷ cs)
push_clause (ok c) r = r
push_clause (err x) r = err x
push_clause Outcome.unwound r = Outcome.unwound

unfoldable pub parse_filter_params : List (Text × Text) → List Text → Outcome (List FilterClause)
unfolding parse_param
parse_filter_params [] allowed = ok []
parse_filter_params ((key, value) ∷ raw) allowed =
    push_clause (parse_param allowed key value) (parse_filter_params raw allowed)
