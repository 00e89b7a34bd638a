-- ===== src/Modules/Spec.antt =====
-- ModuleSpec of shared_data_service/app/modules/shared/spec.py. A class is known by a number; the
-- tables of the ORM and of pydantic are the lists of their column and field names.
use rabbit_speed_test.Base.{
  ℕ, ◌≡◌, ◌≢◌, Bool, true, false, not, Option, List, [], ◌∷◌, ◌++◌, Text, codes, ◌==◌, nat_eq,
  list_eq, contains, card, all_of, all_of-contains, if◌then◌else◌, arith,
}
use rabbit_speed_test.Outcome.{Outcome, ok, err, invalid_spec}
use rabbit_speed_test.Modules.State.{State}

pub record SortSpec : Type 0 where
  pub field : Text
  pub descending : Bool

pub record ModuleSpec (V : Type 0) : Type 0 where
  pub name : Text
  pub data_class : ℕ
  pub create_class : ℕ
  pub update_class : ℕ
  pub out_class : ℕ
  -- the model fields of `data`, and pydantic's validation of a full state (the floor)
  pub data_fields : List Text
  pub data_floor : State V → Bool
  -- the columns of `model`, and those tagged by q(filter=True) and q(sort=True)
  pub columns : List Text
  pub filter_columns : List Text
  pub sort_columns : List Text
  pub mutable_fields : List Text
  pub default_sort : SortSpec
  pub field_validators : List (Text × (Option V → Option V))
  pub scope_parent : Option Text
  pub also_unscoped : Bool

abbrev pub required_columns : List Text
required_columns = codes "id" ∷ codes "version" ∷ codes "created_at" ∷ codes "updated_at" ∷ []

-- Of four classes no two are the same.
abbrev pub Distinct : ℕ → ℕ → ℕ → ℕ → Type 0
Distinct a b c d = (a ≢ b) × (a ≢ c) × (a ≢ d) × (b ≢ c) × (b ≢ d) × (c ≢ d)

card_four : (a b c d : ℕ) → (card (a ∷ b ∷ c ∷ d ∷ []) == 4) ≡ true → Distinct a b c d
card_four a b c d h = ground arith

module _ {V : Type 0} where
  -- __post_init__: a wrong declaration raises ValueError when it is made.
  unfoldable pub post_init : ModuleSpec V → Outcome (Unit {0})
  post_init s =
      if not (card (s.data_class ∷ s.create_class ∷ s.update_class ∷ s.out_class ∷ []) == 4)
      then err invalid_spec
      else if contains (codes "expected_version") s.mutable_fields
      then err invalid_spec
      else if not (all_of (λ name. contains name s.data_fields) s.mutable_fields)
      then err invalid_spec
      else if not (all_of (λ name. contains name s.columns) required_columns)
      then err invalid_spec
      else ok tt

  unfoldable pub created_event_type : ModuleSpec V → Text
  created_event_type s = s.name ++ codes ".created"

  unfoldable pub updated_event_type : ModuleSpec V → Text
  updated_event_type s = s.name ++ codes ".updated"

  -- A declaration that is accepted has four distinct classes, keeps the name of the concurrency
  -- guard free, and every mutable field is a field of its data model; the columns that the
  -- repository relies on are there.
  post_init-ok :
      (s : ModuleSpec V)
      → post_init s ≡ ok tt
      → Distinct s.data_class s.create_class s.update_class s.out_class
        × (contains (codes "expected_version") s.mutable_fields ≡ false)
        × ((name : Text)
            → contains name s.mutable_fields ≡ true
            → contains name s.data_fields ≡ true)
        × ((name : Text) → contains name required_columns ≡ true → contains name s.columns ≡ true)
  unfolding post_init
  post_init-ok s h = (
    card_four s.data_class s.create_class s.update_class s.out_class (ground arith),
    ground arith,
    λ name c.
        all_of-contains (λ n. contains n s.data_fields) name s.mutable_fields (ground arith) c,
    λ name c. all_of-contains (λ n. contains n s.columns) name required_columns (ground arith) c,
  )
