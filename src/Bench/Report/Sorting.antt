-- ===== src/Bench/Report/Sorting.antt =====
-- The sort of the clients and the list of them in the executive summary.
use mathlib.Core.Path.{subst}
use rabbit_speed_test.Base.{
  ◌≡◌, refl, ◌∙◌, Bool, true, false, ◌||◌, List, [], ◌∷◌, ◌++◌, keep, contains, contains-head,
  contains-tail, contains-append, any_of, Text, ◌==◌, nat_eq, list_eq, list_beq_iff, Bool-cases,
  inl, inr, ◌⊎◌, arith, if◌then◌else◌,
}
use rabbit_speed_test.Bench.Report.{Result, insert, sorted, clients_from}

-- What a list of ranked texts and the texts that were ranked have to do with each other: the first is
-- one of them, and none of them comes before it.
abbrev pub Leads : (Text → Text → Bool) → List Text → List Text → Type 0
Leads before [] xs = xs ≡ []
Leads before (h ∷ t) xs =
    (contains h xs ≡ true) × ((c : Text) → contains c xs ≡ true → before c h ≡ false)

-- The comparison of a sort: floats that are no NaN, compared by <.
pub record IsOrder {A : Type 0} (before : A → A → Bool) : Type 0 where
  pub asym : (a b : A) → before a b ≡ true → before b a ≡ false
  pub behind : (a b c : A) → before a b ≡ false → before b c ≡ false → before a c ≡ false

module _ (before : Text → Text → Bool) (order : IsOrder before) where
  irrefl : (a : Text) → before a a ≡ false
  irrefl a = elim (Bool-cases (before a a)) [ inl h ↦ order.asym a a h | inr h ↦ h ]

  in_cons :
      (c x : Text) (xs : List Text) → contains c (x ∷ xs) ≡ true → (x ≡ c) ⊎ (contains c xs ≡ true)
  in_cons c x xs h = elim (Bool-cases (x == c)) [
    | inl e ↦ inl ((list_beq_iff x c).0 e)
    | inr e ↦ inr (ground (arith, e, h))
  ]

  insert-Leads :
      (x : Text) (ys xs : List Text)
      → Leads before ys xs
      → Leads before (insert before x ys) (x ∷ xs)
  unfolding insert
  insert-Leads x [] xs h = (
    contains-head x xs,
    λ c m. elim (in_cons c x xs m) [
      | inl e ↦ subst (λ a. before a x ≡ false) e (irrefl x)
      | inr k ↦ let n = subst (λ l. contains c l ≡ true) h k in absurd (ground (arith, n))
    ],
  )
  insert-Leads x (y ∷ ys) xs (m, h) = elim (Bool-cases (before y x)) [
    | inl e ↦ rw e (
      contains-tail y x xs m,
      λ c k. elim (in_cons c x xs k) [
        | inl same ↦ subst (λ a. before a y ≡ false) same (order.asym y x e)
        | inr n ↦ h c n
      ],
    )
    | inr e ↦ rw e (
      contains-head x xs,
      λ c k. elim (in_cons c x xs k) [
        | inl same ↦ subst (λ a. before a x ≡ false) same (irrefl x)
        | inr n ↦ order.behind c y x (h c n) e
      ],
    )
  ]

  pub sorted-Leads : (xs : List Text) → Leads before (sorted before xs) xs
  unfolding sorted
  sorted-Leads [] = refl
  sorted-Leads (x ∷ xs) = insert-Leads x (sorted before xs) xs (sorted-Leads xs)

module _ {A : Type 0} (p : A → Bool) where
  pub keep-none : (xs : List A) → any_of p xs ≡ false → keep p xs ≡ []
  keep-none [] h = refl
  keep-none (x ∷ xs) h =
      let no_x : p x ≡ false = ground (arith, h) in
      let none_after : any_of p xs ≡ false = ground (arith, h) in rw no_x (keep-none xs none_after)

  pub keep-some :
      (xs : List A) → any_of p xs ≡ true → (x : A) × (rest : List A) × (keep p xs ≡ x ∷ rest)
  keep-some [] h = absurd (ground (arith, h))
  keep-some (x ∷ xs) h = elim (Bool-cases (p x)) [
    | inl e ↦ rw e (x, keep p xs, refl)
    | inr e ↦ let later : any_of p xs ≡ true = ground (arith, e, h) in rw e (keep-some xs later)
  ]

module _ {F : Type 0} where
  abbrev pub appears : Text → List (Result F) → Bool
  appears c results = any_of (λ r. r.client == c) results

  seen :
      (c : Text) (r : Result F) (rest : List (Result F)) (clients : List Text)
      → contains r.client clients ≡ true
      → (contains c clients || appears c rest) ≡ (contains c clients || appears c (r ∷ rest))
  seen c r rest clients e = elim (Bool-cases (r.client == c)) [
    | inl same ↦
        let k : contains c clients ≡ true =
          subst (λ a. contains a clients ≡ true) ((list_beq_iff r.client c).0 same) e in
        rw k refl
    | inr other ↦ rw other refl
  ]

  pub contains-clients_from :
      (c : Text) (clients : List Text) (results : List (Result F))
      → contains c (clients_from clients results) ≡ (contains c clients || appears c results)
  unfolding clients_from
  contains-clients_from c clients [] = ground arith
  contains-clients_from c clients (r ∷ rest) =
      contains-clients_from c
        (if contains r.client clients then clients else clients ++ r.client ∷ []) rest
      ∙ elim (Bool-cases (contains r.client clients)) [
        | inl e ↦ rw e (seen c r rest clients e)
        | inr e ↦ rw e (rw (contains-append c clients (r.client ∷ [])) (ground arith))
      ]
