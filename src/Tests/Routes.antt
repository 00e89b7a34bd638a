-- ===== src/Tests/Routes.antt =====
-- The routes and the list on the users, with a database that compares whole values.
use rabbit_speed_test.Base.{
  ℕ, ◌+◌, ◌&&◌, leb, ◌≡◌, ◌≤◌, refl, Bool, true, false, Option, none, some, List, [], ◌∷◌, Text,
  codes, length, In, all_of, ◌==◌, nat_eq, list_eq, option_eq, if◌then◌else◌, arith,
}
use rabbit_speed_test.Outcome.{ok}
use rabbit_speed_test.Modules.State.{State}
use rabbit_speed_test.Modules.Listing.{
  Sql, PageResult, conditions_of, matching, query_of, list_page,
}
use rabbit_speed_test.Modules.Listing.Laws.{list_page-ok}
use rabbit_speed_test.Query.{pos, ListQuery, partition}
use rabbit_speed_test.Query.Filter.{
  text, Value, raw, Condition, compare_with, eq, coerce, apply_filter,
}
use rabbit_speed_test.Query.Like.{Same, is_nil, any_suffix, after, first_is, IsLike, like}
use rabbit_speed_test.Query.Matches.{Finds, apply_filter-Finds}
use rabbit_speed_test.Routes.{Scope, Pagination, list_route}
use rabbit_speed_test.Routes.Scoping.{list_route-scoped}
use rabbit_speed_test.Tests.Data.{user_spec, user_at}

-- The value 7 prints as "7"; the database compares the number with the printed text.
abbrev in_project : Scope ℕ
in_project = record { column = codes "project_id"; value = 7; printed = codes "7" }

abbrev printed : Option ℕ → Text
printed none = []
printed (some n) = if n == 7 then codes "7" else codes "other"

abbrev compares : Condition ℕ → State ℕ → Bool
compares (compare_with eq column (raw t)) m = printed (m.values column) == t
compares _ m = true

abbrev sql : Sql ℕ ℕ
sql = record {
  column_type = λ c. text;
  clean = λ t. t;
  parse = λ c t. none;
  holds = compares;
  order = λ field descending rows. rows;
  order-In = λ field descending m rows h. h;
  length-order = λ field descending rows. refl;
}

abbrev first_page : Pagination
first_page = record { limit = pos 10; offset = pos 0; sort = none }

-- A user of no project beside that of project 7.
abbrev two_users : List (State ℕ)
two_users = user_at 1 3 10 ∷ record { id = 2; version = 1; values = λ c. none } ∷ []

abbrev one_user : PageResult ℕ
one_user = record { items = user_at 1 3 10 ∷ []; total = 1; limit = 10; offset = 0 }

list_route-scoped_example :
    (x : Value ℕ) × (coerce sql.clean sql.parse (codes "7") text ≡ ok x)
    × ((m : State ℕ)
        → In m one_user.items
        → In m two_users × (compares (compare_with eq (codes "project_id") x) m ≡ true))
unfolding list_route list_page partition apply_filter
list_route-scoped_example =
    list_route-scoped sql user_spec 50 in_project first_page [] two_users {answer = one_user} refl
      refl

list_page-ok_example :
    (q : ListQuery) × (cs : List (Condition ℕ)) × (query_of sql user_spec 50
        (pos 10)
        (pos 0)
        none
        ((codes "project_id", codes "7") ∷ [])
      ≡ ok q)
    × (conditions_of sql user_spec q.filters ≡ ok cs)
    × (1 ≤ one_user.limit)
    × (one_user.limit ≤ 50)
    × (length one_user.items ≤ one_user.limit)
    × (one_user.total ≡ length (matching sql user_spec cs two_users))
    × ((m : State ℕ)
        → In m one_user.items
        → In m two_users × (all_of (λ c. sql.holds c m) cs ≡ true))
unfolding list_page apply_filter
list_page-ok_example =
    list_page-ok sql user_spec 50 (pos 10) (pos 0) none ((codes "project_id", codes "7") ∷ [])
      two_users {page = one_user} refl

abbrev any_one : (Text → Bool) → Text → Bool
any_one f [] = false
any_one f (x ∷ t) = f t

-- LIKE and ILIKE with the escape character; the Boolean tells that the character before was one.
abbrev like_from : Same → Bool → Text → Text → Bool
like_from same e [] t = is_nil t
like_from same true (c ∷ p) t = first_is same c (like_from same false p) t
like_from same false (c ∷ p) t =
    if c == b'\\'
    then like_from same true p t
    else if c == b'%'
    then any_suffix (like_from same false p) t
    else if c == b'_'
    then any_one (like_from same false p) t
    else first_is same c (like_from same false p) t

like_from-IsLike : (same : Same) → IsLike same (like_from same false)
like_from-IsLike same = record {
  at_end = λ t. refl;
  escaped = λ c p t. refl;
  literal = λ c p t h. ground (arith, h);
  percent = λ p t. refl;
}

-- A to Z as a to z.
abbrev lower : ℕ → ℕ
lower c = if leb 65 c && leb c 90 then c + 32 else c

abbrev as_it_is : Same
as_it_is x c = x == c

abbrev without_case : Same
without_case x c = lower x == lower c

abbrev FindsHere : Text → (Text → Text → Bool) → Type 0
FindsHere =
    Finds {W = ℕ} (λ t. t) (λ c t. none) (like_from as_it_is false) (like_from without_case false)

apply_filter-Finds_example :
    FindsHere (codes "contains") (λ v. any_suffix (after as_it_is v (λ _. true)))
    × FindsHere (codes "startswith") (λ v. after as_it_is v (λ _. true))
    × FindsHere (codes "endswith") (λ v. any_suffix (after as_it_is v is_nil))
    × FindsHere (codes "iexact") (λ v. after without_case v is_nil)
    × FindsHere (codes "icontains") (λ v. any_suffix (after without_case v (λ _. true)))
    × FindsHere (codes "istartswith") (λ v. after without_case v (λ _. true))
    × FindsHere (codes "iendswith") (λ v. any_suffix (after without_case v is_nil))
apply_filter-Finds_example =
    apply_filter-Finds (λ t. t) (λ c t. none) (like_from as_it_is false)
      (like_from without_case false) without_case (like_from-IsLike as_it_is)
      (like_from-IsLike without_case)

-- name__iexact=carol finds Carol, and a percent sign in a value stands for itself.
carol_found :
    (after without_case (codes "carol") is_nil (codes "Carol") ≡ true)
    × (like_from as_it_is false (like (codes "a%")) (codes "abc") ≡ false)
unfolding like
carol_found = (refl, refl)
