-- ===== src/Query/Matches.antt =====
-- What the text operators of shared_data_service/app/modules/shared/filters.py find.
use rabbit_speed_test.Base.{◌≡◌, refl, Bool, true, Option, Text, codes, ◌==◌, nat_eq}
use rabbit_speed_test.Outcome.{ok, err, unwound}
use rabbit_speed_test.Query.Like.{Same, after, any_suffix, is_nil, IsLike, patterns}
use rabbit_speed_test.Query.Filter.{
  ColumnType, text, Condition, like_pattern, ilike_pattern, apply_filter,
}

-- The condition is of LIKE or ILIKE on the column, and the database evaluates it so on its text.
abbrev pub Evaluates :
    {W : Type 0} (sql_like sql_ilike : Text → Text → Bool)
    → Text
    → Condition W
    → Text
    → Bool
    → Type 0
Evaluates sql_like sql_ilike field (like_pattern column p) t b =
    (column ≡ field) × (sql_like p t ≡ b)
Evaluates sql_like sql_ilike field (ilike_pattern column p) t b =
    (column ≡ field) × (sql_ilike p t ≡ b)
Evaluates sql_like sql_ilike field c t b = ⊥

module _ {W : Type 0} (clean : Text → Text) (parse : ColumnType → Text → Option W)
    (sql_like sql_ilike : Text → Text → Bool) where
  -- On a text column the operator gives a condition, which holds of the texts of which `meaning` does.
  abbrev pub Finds : Text → (Text → Text → Bool) → Type 0
  Finds op meaning =
      (field v t : Text)
      → elim (apply_filter clean parse text (record { field = field; op = op; value = v })) [
        | ok condition ↦ Evaluates sql_like sql_ilike field condition t (meaning v t)
        | err e ↦ ⊥
        | unwound ↦ ⊥
      ]

  -- The condition of each text operator on a text column holds exactly of the texts that it names,
  -- whatever characters the value has: those that contain it, begin with it or end with it; and for
  -- the operators with an i, those that are equal to it, contain it, begin with it or end with it when
  -- letters are compared as ILIKE does, without their case.
  pub apply_filter-Finds :
      (same_letter : Same)
      → IsLike (λ x c. x == c) sql_like
      → IsLike same_letter sql_ilike
      → Finds (codes "contains") (λ v. any_suffix (after (λ x c. x == c) v (λ _. true)))
        × Finds (codes "startswith") (λ v. after (λ x c. x == c) v (λ _. true))
        × Finds (codes "endswith") (λ v. any_suffix (after (λ x c. x == c) v is_nil))
        × Finds (codes "iexact") (λ v. after same_letter v is_nil)
        × Finds (codes "icontains") (λ v. any_suffix (after same_letter v (λ _. true)))
        × Finds (codes "istartswith") (λ v. after same_letter v (λ _. true))
        × Finds (codes "iendswith") (λ v. any_suffix (after same_letter v is_nil))
  unfolding apply_filter
  apply_filter-Finds same_letter like_laws ilike_laws =
      let exact = patterns (λ x c. x == c) sql_like like_laws in
      let folded = patterns same_letter sql_ilike ilike_laws in
      (
        λ field v t. (refl, (exact v t).1),
        λ field v t. (refl, (exact v t).2),
        λ field v t. (refl, (exact v t).3),
        λ field v t. (refl, (folded v t).0),
        λ field v t. (refl, (folded v t).1),
        λ field v t. (refl, (folded v t).2),
        λ field v t. (refl, (folded v t).3),
      )
