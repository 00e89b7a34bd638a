-- ===== src/Query/Filter.antt =====
-- apply_filter of shared_data_service/app/modules/shared/filters.py: the WHERE condition of one
-- clause. `clean` is str.strip followed by str.lower, and `parse` the constructors of _COERCERS that
-- may fail (uuid.UUID, fromisoformat, int, float), with `none` for ValueError and TypeError.
use rabbit_speed_test.Base.{
  ◌≡◌, ◌≢◌, refl, Bool, true, false, not, ◌&&◌, ◌||◌, Option, none, some, List, [], ◌∷◌, Text,
  codes, ◌==◌, nat_eq, list_eq, contains, map, all_of, all_of-contains, inl, inr, Bool-cases,
  list_beq_iff, if◌then◌else◌,
}
use rabbit_speed_test.Outcome.{Outcome, ok, err, and_then, is_ok, invalid_query}
use rabbit_speed_test.Query.{FilterClause, text_lookups, lookups, split_comma}
use rabbit_speed_test.Query.Like.{pattern_of}

-- The Python type of a column.
pub data ColumnType : Type 0 where
  text flag uuid datetime date int float other : ColumnType

-- A value that is compared with a column; `W` are the values of the other types.
pub data Value (W : Type 0) : Type 0 where
  raw : Text → Value W
  flag_value : Bool → Value W
  parsed : W → Value W

pub data Comparison : Type 0 where
  eq gt gte lt lte : Comparison

pub data Condition (W : Type 0) : Type 0 where
  like_pattern : Text → Text → Condition W
  ilike_pattern : Text → Text → Condition W
  compare_with : Comparison → Text → Value W → Condition W
  in_list : Text → List (Value W) → Condition W
  not_in_list : Text → List (Value W) → Condition W
  is_null : Text → Condition W
  is_not_null : Text → Condition W
  between : Text → Value W → Value W → Condition W

abbrev pub is_text : ColumnType → Bool
is_text text = true
is_text _ = false

-- _COMPARATORS
unfoldable pub comparator_of : Text → Option Comparison
comparator_of op =
    if op == codes "exact"
    then some eq
    else if op == codes "gt"
    then some gt
    else if op == codes "gte"
    then some gte
    else if op == codes "lt"
    then some lt
    else if op == codes "lte"
    then some lte
    else none

abbrev pub begins_with_i : Text → Bool
begins_with_i [] = false
begins_with_i (c ∷ op) = c == b'i'

module _ {W : Type 0} (clean : Text → Text) (parse : ColumnType → Text → Option W) where
  -- v.strip().lower() in _TRUTHY
  unfoldable pub truthy : Text → Bool
  truthy v = contains (clean v) (codes "true" ∷ codes "1" ∷ codes "yes" ∷ [] ∷ [])

  abbrev parsed_or_raise : Option W → Outcome (Value W)
  parsed_or_raise none = err invalid_query
  parsed_or_raise (some w) = ok (parsed w)

  -- _coerce, with the table _COERCERS: text and other types pass through
  unfoldable pub coerce : Text → ColumnType → Outcome (Value W)
  unfolding truthy
  coerce v text = ok (raw v)
  coerce v other = ok (raw v)
  coerce v flag = ok (flag_value (truthy v))
  coerce v t = parsed_or_raise (parse t v)

  unfoldable pub coerce_all : List Text → ColumnType → Outcome (List (Value W))
  unfolding coerce
  coerce_all [] t = ok []
  coerce_all (v ∷ vs) t =
      and_then (coerce v t) (λ x. and_then (coerce_all vs t) (λ xs. ok (x ∷ xs)))

  abbrev range_of : Text → ColumnType → List Text → Outcome (Condition W)
  range_of column t (a ∷ b ∷ []) =
      and_then (coerce a t) (λ x. and_then (coerce b t) (λ y. ok (between column x y)))
  range_of column t parts = err invalid_query

  abbrev null_test : Bool → Text → Condition W
  null_test true column = is_null column
  null_test false column = is_not_null column

  abbrev other_condition : Text → ColumnType → Text → Text → Outcome (Condition W)
  other_condition column t op v =
      if op == codes "in"
      then and_then (coerce_all (split_comma v) t) (λ xs. ok (in_list column xs))
      else if op == codes "not_in"
      then and_then (coerce_all (split_comma v) t) (λ xs. ok (not_in_list column xs))
      else if op == codes "isnull"
      then ok (null_test (truthy v) column)
      else if op == codes "not_isnull"
      then ok (null_test (not (truthy v)) column)
      else if op == codes "range"
      then range_of column t (split_comma v)
      else err invalid_query

  abbrev matched_condition :
      Text → ColumnType → Text → Text → Option Text → Option Comparison → Outcome (Condition W)
  matched_condition column t op v (some pattern) c =
      ok (if begins_with_i op then ilike_pattern column pattern else like_pattern column pattern)
  matched_condition column t op v none (some c) =
      and_then (coerce v t) (λ x. ok (compare_with c column x))
  matched_condition column t op v none none = other_condition column t op v

  unfoldable pub apply_filter : ColumnType → FilterClause → Outcome (Condition W)
  unfolding coerce coerce_all truthy pattern_of comparator_of split_comma
  apply_filter t clause =
      if contains clause.op text_lookups && not (is_text t)
      then err invalid_query
      else matched_condition clause.field t clause.op clause.value
          (pattern_of clause.op clause.value) (comparator_of clause.op)

  coerce_all-text : (vs : List Text) → coerce_all vs text ≡ ok (map raw vs)
  unfolding coerce_all
  coerce_all-text [] = refl
  coerce_all-text (v ∷ vs) = rw (coerce_all-text vs)

  abbrev accepts : Text → Text → Text → Bool
  accepts field v op =
      (op == codes "range")
      || is_ok (apply_filter text (record { field = field; op = op; value = v }))

  accepts_all : (field v : Text) → all_of (accepts field v) lookups ≡ true
  unfolding apply_filter
  accepts_all field v = rw (coerce_all-text (split_comma v)) refl

  -- On a text column every known operator but range, with any value, gives a condition: the error
  -- at the end of apply_filter is not reached.
  apply_filter-text :
      (clause : FilterClause)
      → contains clause.op lookups ≡ true
      → clause.op ≢ codes "range"
      → is_ok (apply_filter text clause) ≡ true
  apply_filter-text clause known no_range =
      let accepted =
        all_of-contains (accepts clause.field clause.value) clause.op lookups
          (accepts_all clause.field clause.value) known in
      elim (Bool-cases (clause.op == codes "range")) [
        | inl range ↦ absurd (no_range ((list_beq_iff clause.op (codes "range")).0 range))
        | inr more ↦ rw more at accepted
      ]
