-- ===== src/Query/Like.antt =====
-- _like of shared_data_service/app/modules/shared/filters.py: the text of a user in a LIKE pattern.
use rabbit_speed_test.Base.{
  ℕ, ◌≡◌, refl, ap, sym, ◌∙◌, Bool, true, false, ◌&&◌, ◌||◌, Option, none, some, [], ◌∷◌, ◌++◌,
  Text, codes, ◌==◌, nat_eq, list_eq, if◌then◌else◌, inl, inr, Bool-cases,
}
use mathlib.Core.List.{append-nil}
use mathlib.Core.Path.{fun_ext}

abbrev is_meta : ℕ → Bool
is_meta c = (c == b'\\') || ((c == b'%') || (c == b'_'))

-- value.translate(_LIKE_ESCAPE)
unfoldable pub like : Text → Text
like [] = []
like (c ∷ v) = if is_meta c then b'\\' ∷ c ∷ like v else c ∷ like v

-- _PATTERNS: the pattern of a text operator, before LIKE or ILIKE
unfoldable pub pattern_of : Text → Text → Option Text
unfolding like
pattern_of op v =
    if op == codes "iexact"
    then some (like v)
    else if (op == codes "contains") || (op == codes "icontains")
    then some (codes "%" ++ (like v ++ codes "%"))
    else if (op == codes "startswith") || (op == codes "istartswith")
    then some (like v ++ codes "%")
    else if (op == codes "endswith") || (op == codes "iendswith")
    then some (codes "%" ++ like v)
    else none

-- When two characters are taken for one: LIKE compares them as they are, ILIKE without their case.
abbrev pub Same : Type 0
Same = ℕ → ℕ → Bool

abbrev pub first_is : Same → ℕ → (Text → Bool) → Text → Bool
first_is same c f [] = false
first_is same c f (x ∷ t) = same x c && f t

abbrev pub any_suffix : (Text → Bool) → Text → Bool
any_suffix f [] = f []
any_suffix f (x ∷ t) = f (x ∷ t) || any_suffix f t

-- The text begins with v, and f holds of the rest.
abbrev pub after : Same → Text → (Text → Bool) → Text → Bool
after same [] f t = f t
after same (c ∷ v) f t = first_is same c (after same v f) t

abbrev pub is_nil : Text → Bool
is_nil [] = true
is_nil (x ∷ t) = false

-- What PostgreSQL documents of LIKE and of ILIKE with the default escape: the pattern covers the whole
-- text, a backslash makes the next character literal, % stands for any text.
pub record IsLike (same : Same) (sql_like : Text → Text → Bool) : Type 0 where
  pub at_end : (t : Text) → sql_like [] t ≡ is_nil t
  pub escaped : (c : ℕ) (p t : Text) → sql_like (b'\\' ∷ c ∷ p) t ≡ first_is same c (sql_like p) t
  pub literal :
      (c : ℕ) (p t : Text) → is_meta c ≡ false → sql_like (c ∷ p) t ≡ first_is same c (sql_like p) t
  pub percent : (p t : Text) → sql_like (b'%' ∷ p) t ≡ any_suffix (sql_like p) t

any_suffix-true : (t : Text) → any_suffix is_nil t ≡ true
any_suffix-true [] = refl
any_suffix-true (x ∷ t) = any_suffix-true t

module _ (same : Same) (sql_like : Text → Text → Bool) (laws : IsLike same sql_like) where
  -- The escaped text matches itself, character by character, and nothing else.
  like-append : (v p t : Text) → sql_like (like v ++ p) t ≡ after same v (sql_like p) t
  unfolding like
  like-append [] p t = refl
  like-append (c ∷ v) p t =
      let later : sql_like (like v ++ p) ≡ after same v (sql_like p) = fun_ext (like-append v p) in
      elim (Bool-cases (is_meta c)) [
        | inl meta ↦ rw meta (laws.escaped c (like v ++ p) t ∙ ap (λ f. first_is same c f t) later)
        | inr plain ↦
            rw plain (laws.literal c (like v ++ p) t plain ∙ ap (λ f. first_is same c f t) later)
      ]

  percent_end : (t : Text) → sql_like (b'%' ∷ []) t ≡ true
  percent_end t =
      laws.percent [] t ∙ ap (λ f. any_suffix f t) (fun_ext laws.at_end) ∙ any_suffix-true t

  pub patterns :
      (v t : Text)
      → (sql_like (like v) t ≡ after same v is_nil t)
        × (sql_like (codes "%" ++ (like v ++ codes "%")) t
            ≡ any_suffix (after same v (λ _. true)) t)
        × (sql_like (like v ++ codes "%") t ≡ after same v (λ _. true) t)
        × (sql_like (codes "%" ++ like v) t ≡ any_suffix (after same v is_nil) t)
  patterns v t =
      let rest : sql_like [] ≡ is_nil = fun_ext laws.at_end in
      let any : sql_like (b'%' ∷ []) ≡ (λ _. true) = fun_ext percent_end in
      let exact = λ (s : Text).
        ap (λ p. sql_like p s) (sym (append-nil (like v)))
        ∙ like-append v [] s
        ∙ ap (λ f. after same v f s) rest in
      let prefix = λ (s : Text). like-append v (b'%' ∷ []) s ∙ ap (λ f. after same v f s) any in
      (
        exact t,
        laws.percent (like v ++ codes "%") t ∙ ap (λ f. any_suffix f t) (fun_ext prefix),
        prefix t,
        laws.percent (like v) t ∙ ap (λ f. any_suffix f t) (fun_ext exact),
      )
