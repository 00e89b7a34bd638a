-- ===== src/Modules/Fields.antt =====
-- The Annotated types of shared_data_service/app/modules/shared/validation.py, and a pydantic model
-- as the list of its declared fields. pydantic's own coercions and Python's strip are parameters.
pub mod Models
pub mod Accepts
pub mod Stable
pub mod Dump
pub mod RoundTrip
use rabbit_speed_test.Base.{
  ℕ, ◌≡◌, ◌≤◌, Bool, true, false, ◌&&◌, Option, none, some, List, [], ◌∷◌, map, Text, codes, ◌==◌,
  nat_eq, list_eq, length, leb, contains, if◌then◌else◌, suc,
}
use rabbit_speed_test.Storable.{
  Json, string, integer, null, object, Entries, empty_object, entry, storable_text, scan_entries,
  attribute_fits, valid_name, email_floor,
}
use rabbit_speed_test.Query.{ℤ, pos}

-- A value of a field: a UUID, or what json.loads gives. None is `none`.
pub data Value : Type 0 where
  uuid : ℕ → Value
  plain : Json → Value

-- pydantic's coercions of a value of JSON, EmailStr's validate_email(...)[1], str(UUID), str.strip;
-- a printed UUID is read back and has 1 to 255 storable characters, an integer is an int, and a normalised address has the form
-- local@domain with neither part empty.
pub record Pydantic : Type 0 where
  pub parse_uuid : Json → Option ℕ
  pub print_uuid : ℕ → Text
  pub parse_int : Json → Option ℤ
  pub validate_email : Text → Option Text
  pub strip : Text → Text
  pub parse-print : (u : ℕ) → parse_uuid (string (print_uuid u)) ≡ some u
  pub print_uuid-fits : (u : ℕ) → attribute_fits 1 (print_uuid u) ≡ true
  pub parse_int-integer : (n : ℕ) → parse_int (integer n) ≡ some (pos n)
  pub validate_email-shape :
      (t a : Text) → validate_email t ≡ some a → (contains b'@' a ≡ true) × (3 ≤ length a)

-- A validator: the value or None, and the value that the model keeps; `none` is an error.
abbrev pub Check : Type 0
Check = Option Value → Option (Option Value)

abbrev pub then_keep {ℓ} : {A : Type ℓ} → (A → Value) → Option A → Option (Option Value)
then_keep wrap none = none
then_keep wrap (some a) = some (some (wrap a))

abbrev pub text_value : Text → Value
text_value t = plain (string t)

-- Annotated[str, Field(min_length, max_length), AfterValidator(rule)]
unfoldable pub text_type : ℕ → ℕ → (Text → Option Text) → Check
text_type low high rule (some (plain (string t))) =
    if leb low (length t) && leb (length t) high then then_keep text_value (rule t) else none
text_type low high rule _ = none

-- storable_text as an AfterValidator
unfoldable pub stored_text : Text → Option Text
unfolding storable_text
stored_text t = if storable_text t then some t else none

unfoldable pub valid_name_type : Pydantic → Check
unfolding text_type valid_name
valid_name_type p = text_type 1 200 (valid_name p.strip)

unfoldable pub floor_email_type : Check
unfolding text_type email_floor
floor_email_type = text_type 3 320 email_floor

abbrev pub then_check : Option Text → Check → Option (Option Value)
then_check none check = none
then_check (some a) check = check (some (text_value a))

unfoldable pub strict_email_type : Pydantic → Check
unfolding text_type stored_text
strict_email_type p (some (plain (string t))) =
    then_check (p.validate_email t) (text_type 0 320 stored_text)
strict_email_type p _ = none

-- ProjectDescription of project.py
unfoldable pub description_type : Check
unfolding text_type stored_text
description_type = text_type 0 2000 stored_text

unfoldable pub attributes_type : Check
unfolding scan_entries
attributes_type (some (plain (object members))) =
    if scan_entries members then some (some (plain (object members))) else none
attributes_type _ = none

unfoldable pub uuid_type : Pydantic → Check
uuid_type p none = none
uuid_type p (some (uuid u)) = some (some (uuid u))
uuid_type p (some (plain j)) = then_keep uuid (p.parse_uuid j)

-- `T | None`
unfoldable pub or_none : Check → Check
or_none check none = some none
or_none check (some v) = check (some v)

-- One declared field; with no default it is required.
pub record FieldInfo : Type 0 where
  pub name : Text
  pub check : Check
  pub default : Option (Option Value)

abbrev pub names_of : List FieldInfo → List Text
names_of fields = map (λ f. f.name) fields

-- What a model is made from: a key that is missing, or its value.
abbrev pub Input : Type 0
Input = Text → Option (Option Value)

abbrev pub Values : Type 0
Values = Text → Option Value

unfoldable pub validated : FieldInfo → Option (Option Value) → Option (Option Value)
validated f none = f.default
validated f (some v) = f.check v

abbrev pub put : Text → Option (Option Value) → Option Values → Option Values
put name (some v) (some rest) = some (λ n. if n == name then v else rest n)
put name (some v) none = none
put name none rest = none

-- The declared fields of a model from its input; what is not declared is ignored.
unfoldable pub validate : List FieldInfo → Input → Option Values
unfolding validated
validate [] input = some (λ n. none)
validate (f ∷ fields) input = put f.name (validated f (input f.name)) (validate fields input)
