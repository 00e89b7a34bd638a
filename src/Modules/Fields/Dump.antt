-- ===== src/Modules/Fields/Dump.antt =====
-- A validated *Data model is validated again, from its own attributes and from its dump to JSON.
use rabbit_speed_test.Base.{
  ℕ, ◌≡◌, ◌≤◌, refl, true, false, Option, none, some, List, [], ◌∷◌, Text, codes, nat_eq, list_eq,
  list_beq_iff, beq_refl, contains, All, arith, if◌then◌else◌, suc, zero,
}
use rabbit_speed_test.Storable.{Json, string, integer, Entries, empty_object, entry}
use rabbit_speed_test.Query.{ℤ, pos, negsuc}
use rabbit_speed_test.Modules.State.{State}
use rabbit_speed_test.Modules.Fields.{
  Value, uuid, plain, Pydantic, FieldInfo, names_of, Input, Values, validated,
}
use rabbit_speed_test.Modules.Fields.Models.{
  version_of_int, version_field, state_from, lookup, given, input_of, dump_value, dump_fields, dump,
}
use rabbit_speed_test.Modules.Fields.Accepts.{AreDistinct, Kept}

-- Whatever the field keeps, it keeps again, also from the value's dump.
abbrev pub Steady : Pydantic → FieldInfo → Type 0
Steady p f =
    (v : Option (Option Value)) (w : Option Value)
    → validated f v ≡ some w
    → (f.check w ≡ some w) × (f.check (given (dump_value p w)) ≡ some w)

-- A declaration of fields beside id and version.
pub record IsSchema (p : Pydantic) (fields : List FieldInfo) : Type 0 where
  pub distinct : AreDistinct fields
  pub beside_id : contains (codes "id") (names_of fields) ≡ false
  pub beside_version : contains (codes "version") (names_of fields) ≡ false
  pub steady : All (Steady p) fields

pub state_from-some :
    (a b : Option ℕ) (c : Option Values) {d : State Value}
    → state_from a b c ≡ some d
    → (a ≡ some d.id) × (b ≡ some d.version) × (c ≡ some d.values)
state_from-some (some a) (some b) (some c) h = ground arith
state_from-some (some a) (some b) none h = absurd (ground arith)
state_from-some (some a) none c h = absurd (ground arith)
state_from-some none b c h = absurd (ground arith)

version_of_int-positive : (z : Option ℤ) {n : ℕ} → version_of_int z ≡ some n → 1 ≤ n
unfolding version_of_int
version_of_int-positive (some (pos (suc n))) h = ground arith
version_of_int-positive (some (pos zero)) h = absurd (ground arith)
version_of_int-positive (some (negsuc n)) h = absurd (ground arith)
version_of_int-positive none h = absurd (ground arith)

pub version_field-positive :
    (p : Pydantic) (v : Option (Option Value)) {n : ℕ} → version_field p v ≡ some n → 1 ≤ n
unfolding version_field
version_field-positive p none h = ground arith
version_field-positive p (some none) h = absurd (ground arith)
version_field-positive p (some (some (uuid u))) h = absurd (ground arith)
version_field-positive p (some (some (plain j))) {n} h =
    version_of_int-positive (p.parse_int j) {n = n} h

pub version_field-integer :
    (p : Pydantic) (n : ℕ) → 1 ≤ n → version_field p (some (some (plain (integer n)))) ≡ some n
unfolding version_field version_of_int
version_field-integer p zero h = absurd (omega arith)
version_field-integer p (suc n) h = rw (p.parse_int-integer (suc n)) refl

lookup-dump_fields :
    (p : Pydantic) (k : Text) (fields : List FieldInfo) (values : Values) (tail : Entries)
    → lookup k tail ≡ none
    → lookup k (dump_fields p fields values tail)
      ≡ (if contains k (names_of fields) then some (dump_value p (values k)) else none)
unfolding lookup dump_fields
lookup-dump_fields p k [] values tail h = h
lookup-dump_fields p k (f ∷ fields) values tail h =
    rw (lookup-dump_fields p k fields values tail h) (ground (arith, list_beq_iff f.name k))

lookup-tail :
    (p : Pydantic) (k : Text) (fields : List FieldInfo) (values : Values) (tail : Entries)
    {j : Json}
    → lookup k tail ≡ some j
    → lookup k (dump_fields p fields values tail) ≡ some j
unfolding lookup dump_fields
lookup-tail p k [] values tail h = h
lookup-tail p k (f ∷ fields) values tail h = rw (lookup-tail p k fields values tail h) refl

-- The dump at each key.
abbrev dumped : Pydantic → List FieldInfo → State Value → Input
dumped p fields d = input_of (dump p fields d)

pub dump-id :
    (p : Pydantic) (fields : List FieldInfo) (d : State Value)
    → contains (codes "id") (names_of fields) ≡ false
    → dumped p fields d (codes "id") ≡ some (some (plain (string (p.print_uuid d.id))))
unfolding input_of dump lookup
dump-id p fields d h =
    rw
      (
        input_of,
        lookup,
        dump,
        lookup-dump_fields p (codes "id") fields d.values
            (entry (codes "version") (integer d.version) empty_object) refl,
      )
      (rw h refl)

pub dump-version :
    (p : Pydantic) (fields : List FieldInfo) (d : State Value)
    → dumped p fields d (codes "version") ≡ some (some (plain (integer d.version)))
unfolding input_of dump lookup
dump-version p fields d =
    rw
      (
        input_of,
        lookup,
        dump,
        lookup-tail p (codes "version") fields d.values
            (entry (codes "version") (integer d.version) empty_object) refl,
      )
      refl

pub dump-field :
    (p : Pydantic) (fields : List FieldInfo) (d : State Value) (k : Text)
    → contains (codes "id") (names_of fields) ≡ false
    → contains (codes "version") (names_of fields) ≡ false
    → contains k (names_of fields) ≡ true
    → dumped p fields d k ≡ some (given (dump_value p (d.values k)))
unfolding input_of dump lookup
dump-field p fields d k i v h =
    rw
      (
        input_of,
        lookup,
        dump,
        lookup-dump_fields p k fields d.values
            (entry (codes "version") (integer d.version) empty_object)
            (ground (arith, list_beq_iff (codes "version") k)),
      )
      (rw h refl)

module _ (p : Pydantic) (input : Input) where
  -- What every field keeps again makes the same model.
  pub dumped-Kept :
      (fields : List FieldInfo) (from : Input) (g : Values)
      → All (Steady p) fields
      → Kept fields input g
      → ((k : Text)
          → contains k (names_of fields) ≡ true
          → from k ≡ some (given (dump_value p (g k))))
      → Kept fields from g
  unfolding validated
  dumped-Kept [] from g steady kept h = tt
  dumped-Kept (f ∷ fields) from g steady kept h = (
    rw (h f.name (ground (arith, beq_refl f.name))) (steady.0 (input f.name) (g f.name) kept.0).1,
    dumped-Kept fields from g steady.1 kept.1 (λ k c. h k (ground arith)),
  )

  pub same-Kept :
      (fields : List FieldInfo) (from : Input) (g : Values)
      → All (Steady p) fields
      → Kept fields input g
      → ((k : Text) → contains k (names_of fields) ≡ true → from k ≡ some (g k))
      → Kept fields from g
  unfolding validated
  same-Kept [] from g steady kept h = tt
  same-Kept (f ∷ fields) from g steady kept h = (
    rw (h f.name (ground (arith, beq_refl f.name))) (steady.0 (input f.name) (g f.name) kept.0).0,
    same-Kept fields from g steady.1 kept.1 (λ k c. h k (ground arith)),
  )
