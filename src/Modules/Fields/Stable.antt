-- ===== src/Modules/Fields/Stable.antt =====
-- What the validators let through they let through again, and after a dump to JSON; what the strict
-- rule of the API lets through the floor lets through.
use rabbit_speed_test.Base.{
  ℕ, ◌≡◌, refl, sym, true, ◌&&◌, Option, none, some, Text, nat_eq, length, leb, arith, Option-cases,
  inl, inr,
}
use mathlib.Core.Path.{subst}
use rabbit_speed_test.Storable.{
  string, integer, number, null, array, object, Entries, scan_entries, valid_name, email_floor,
}
use rabbit_speed_test.Modules.Fields.{
  Value, uuid, plain, Pydantic, Check, text_value, text_type, stored_text, valid_name_type,
  floor_email_type, strict_email_type, description_type, attributes_type, uuid_type, or_none,
}
use rabbit_speed_test.Modules.Fields.Models.{given, dump_value}

-- A value that was let through is let through as it is, and so is its dump.
abbrev pub IsStable : Pydantic → Check → Type 0
IsStable p check =
    (v w : Option Value)
    → check v ≡ some w
    → (check w ≡ some w) × (check (given (dump_value p w)) ≡ some w)

-- What the first lets through the second takes.
abbrev pub Implies : Check → Check → Type 0
Implies strong weak = (v w : Option Value) → strong v ≡ some w → weak w ≡ some w

IsVerbatim : (Text → Option Text) → Type 0
IsVerbatim rule = (t a : Text) → rule t ≡ some a → a ≡ t

text_type-some :
    (low high : ℕ) (rule : Text → Option Text) (v w : Option Value)
    → text_type low high rule v ≡ some w
    → (t : Text) × (a : Text) × ((leb low (length t) && leb (length t) high) ≡ true)
      × (rule t ≡ some a)
      × (w ≡ some (text_value a))
unfolding text_type
text_type-some low high rule none w h = absurd (ground arith)
text_type-some low high rule (some (uuid u)) w h = absurd (ground arith)
text_type-some low high rule (some (plain (string t))) w h = elim (Option-cases (rule t)) [
  | inl refused ↦ absurd (ground arith)
  | inr (a, read) ↦ (t, a, ground arith, read, ground arith)
]
text_type-some low high rule (some (plain (integer n))) w h = absurd (ground arith)
text_type-some low high rule (some (plain (number f))) w h = absurd (ground arith)
text_type-some low high rule (some (plain null)) w h = absurd (ground arith)
text_type-some low high rule (some (plain (array items))) w h = absurd (ground arith)
text_type-some low high rule (some (plain (object members))) w h = absurd (ground arith)

text_type-IsStable :
    (p : Pydantic) (low high : ℕ) (rule : Text → Option Text)
    → IsVerbatim rule
    → IsStable p (text_type low high rule)
unfolding text_type IsVerbatim
text_type-IsStable p low high rule verbatim v w h =
    let (t, a, fits, kept, made) = text_type-some low high rule v w h in
    let again : text_type low high rule (some (text_value a)) ≡ some (some (text_value a)) =
      ground (arith, verbatim t a kept) in
    subst
      (λ w.
        (text_type low high rule w ≡ some w)
        × (text_type low high rule (given (dump_value p w)) ≡ some w))
      (sym made) (again, again)

valid_name-IsVerbatim : (strip : Text → Text) → IsVerbatim (valid_name strip)
unfolding IsVerbatim valid_name
valid_name-IsVerbatim strip t a h = ground arith

email_floor-IsVerbatim : IsVerbatim email_floor
unfolding IsVerbatim email_floor
email_floor-IsVerbatim t a h = ground arith

stored_text-IsVerbatim : IsVerbatim stored_text
unfolding IsVerbatim stored_text
stored_text-IsVerbatim t a h = ground arith

pub valid_name_type-IsStable : (p : Pydantic) → IsStable p (valid_name_type p)
unfolding valid_name_type
valid_name_type-IsStable p =
    text_type-IsStable p 1 200 (valid_name p.strip) (valid_name-IsVerbatim p.strip)

pub floor_email_type-IsStable : (p : Pydantic) → IsStable p floor_email_type
unfolding floor_email_type
floor_email_type-IsStable p = text_type-IsStable p 3 320 email_floor email_floor-IsVerbatim

pub description_type-IsStable : (p : Pydantic) → IsStable p description_type
unfolding description_type
description_type-IsStable p = text_type-IsStable p 0 2000 stored_text stored_text-IsVerbatim

attributes_type-some :
    (v w : Option Value)
    → attributes_type v ≡ some w
    → (members : Entries) × (scan_entries members ≡ true) × (w ≡ some (plain (object members)))
unfolding attributes_type
attributes_type-some none w h = absurd (ground arith)
attributes_type-some (some (uuid u)) w h = absurd (ground arith)
attributes_type-some (some (plain (object members))) w h = (members, ground arith, ground arith)
attributes_type-some (some (plain (string t))) w h = absurd (ground arith)
attributes_type-some (some (plain (integer n))) w h = absurd (ground arith)
attributes_type-some (some (plain (number f))) w h = absurd (ground arith)
attributes_type-some (some (plain null)) w h = absurd (ground arith)
attributes_type-some (some (plain (array items))) w h = absurd (ground arith)

pub attributes_type-IsStable : (p : Pydantic) → IsStable p attributes_type
unfolding attributes_type
attributes_type-IsStable p v w h =
    let (members, fine, made) = attributes_type-some v w h in
    let again : attributes_type (some (plain (object members)))
        ≡ some (some (plain (object members))) =
      rw fine refl in
    subst (λ w. (attributes_type w ≡ some w) × (attributes_type (given (dump_value p w)) ≡ some w))
      (sym made) (again, again)

uuid_type-some :
    (p : Pydantic) (v w : Option Value) → uuid_type p v ≡ some w → (u : ℕ) × (w ≡ some (uuid u))
unfolding uuid_type
uuid_type-some p none w h = absurd (ground arith)
uuid_type-some p (some (uuid u)) w h = (u, ground arith)
uuid_type-some p (some (plain j)) w h = elim (Option-cases (p.parse_uuid j)) [
  | inl refused ↦ absurd (ground arith)
  | inr (u, read) ↦ (u, ground arith)
]

pub uuid_type-IsStable : (p : Pydantic) → IsStable p (uuid_type p)
unfolding uuid_type
uuid_type-IsStable p v w h =
    let (u, made) = uuid_type-some p v w h in
    subst (λ w. (uuid_type p w ≡ some w) × (uuid_type p (given (dump_value p w)) ≡ some w))
      (sym made) (refl, rw (p.parse-print u) refl)

or_none-some :
    (check : Check) (v w : Option Value)
    → check none ≡ none
    → check v ≡ some w
    → or_none check v ≡ some w
unfolding or_none
or_none-some check none w strict h = absurd (ground arith)
or_none-some check (some v) w strict h = h

-- None is dumped as null and read as None.
pub or_none-IsStable :
    (p : Pydantic) (check : Check)
    → check none ≡ none
    → IsStable p check
    → IsStable p (or_none check)
unfolding or_none
or_none-IsStable p check strict stable none w h = ground arith
or_none-IsStable p check strict stable (some v) w h =
    let (again, wire) = stable (some v) w h in
    (or_none-some check w w strict again, or_none-some check (given (dump_value p w)) w strict wire)

-- EmailStr is stronger than the floor of the events.
pub strict_email_type-floor : (p : Pydantic) → Implies (strict_email_type p) floor_email_type
unfolding strict_email_type floor_email_type text_type stored_text email_floor
strict_email_type-floor p none w h = absurd (ground arith)
strict_email_type-floor p (some (uuid u)) w h = absurd (ground arith)
strict_email_type-floor p (some (plain (string t))) w h = elim (Option-cases (p.validate_email t)) [
  | inl refused ↦ absurd (ground arith)
  | inr (a, read) ↦ ground (arith, p.validate_email-shape t a read)
]
strict_email_type-floor p (some (plain (integer n))) w h = absurd (ground arith)
strict_email_type-floor p (some (plain (number f))) w h = absurd (ground arith)
strict_email_type-floor p (some (plain null)) w h = absurd (ground arith)
strict_email_type-floor p (some (plain (array items))) w h = absurd (ground arith)
strict_email_type-floor p (some (plain (object members))) w h = absurd (ground arith)

pub IsStable-Implies : (p : Pydantic) (check : Check) → IsStable p check → Implies check check
IsStable-Implies p check stable v w h = (stable v w h).0
