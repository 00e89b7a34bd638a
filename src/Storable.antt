-- ===== src/Storable.antt =====
-- What PostgreSQL can store: shared_data_service/app/database/storable.py, and the rules of
-- shared_data_service/app/modules/shared/validation.py that build on it. A text is its characters'
-- codes; `strip` is str.strip.
pub mod Scan
use rabbit_speed_test.Base.{
  ℕ, Bool, true, false, Option, none, some, List, [], ◌∷◌, Text, contains, nat_eq, if◌then◌else◌,
  ◌&&◌, leb, length,
}

-- A value of json.loads. An `integer` is an int that is not negative; a `number` is any other one, a
-- float or a bool, and finite or not; `null` is None.
mutual
  pub data Json : Type 0 where
    string : Text → Json
    integer : ℕ → Json
    number : Bool → Json
    null : Json
    array : Items → Json
    object : Entries → Json

  pub data Items : Type 0 where
    empty_array : Items
    item : Json → Items → Items

  pub data Entries : Type 0 where
    empty_object : Entries
    entry : Text → Json → Entries → Entries

-- Whether the function returns, rather than raise ValueError.
unfoldable pub storable_text : Text → Bool
storable_text value = if contains 0 value then false else true

unfoldable mutual
  unfolding storable_text

  pub scan : Json → Bool
  scan (string value) = storable_text value
  scan (integer n) = true
  scan (number finite) = finite
  scan null = true
  scan (array items) = scan_items items
  scan (object entries) = scan_entries entries

  pub scan_items : Items → Bool
  scan_items empty_array = true
  scan_items (item child rest) = let later = scan_items rest in if scan child then later else false

  pub scan_entries : Entries → Bool
  scan_entries empty_object = true
  scan_entries (entry key child rest) =
      let later = scan_entries rest in
      let fine = scan child in if storable_text key then (if fine then later else false) else false

-- valid_name and email_floor: the value as it is, or ValueError.
unfoldable pub valid_name : (Text → Text) → Text → Option Text
unfolding storable_text
valid_name strip value = elim (strip value) [
  | [] ↦ none
  | c ∷ rest ↦ if storable_text value then some value else none
]

unfoldable pub email_floor : Text → Option Text
unfolding storable_text
email_floor value =
    if contains b'@' value then (if storable_text value then some value else none) else none

-- Field(min_length=low, max_length=255) and _storable of CloudEvent, messaging/cloudevents.py: as wide
-- as the columns of the inbox.
unfoldable pub attribute_fits : ℕ → Text → Bool
unfolding storable_text
attribute_fits low t = leb low (length t) && (leb (length t) 255 && storable_text t)
