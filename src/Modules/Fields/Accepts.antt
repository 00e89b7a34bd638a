-- ===== src/Modules/Fields/Accepts.antt =====
-- What a validated model holds: for every declared field a value that its validator let through.
use rabbit_speed_test.Base.{
  ◌≡◌, refl, false, Option, none, some, List, [], ◌∷◌, Text, ◌==◌, nat_eq, list_eq, list_beq_iff,
  beq_refl, contains, All, arith, if◌then◌else◌,
}
use mathlib.Core.Path.{fun_ext, ap, subst}
use rabbit_speed_test.Modules.Fields.{
  Value, FieldInfo, names_of, Input, Values, put, validated, validate,
}

-- The names of the fields differ.
abbrev pub AreDistinct : List FieldInfo → Type 0
AreDistinct [] = Unit
AreDistinct (f ∷ fields) = (contains f.name (names_of fields) ≡ false) × AreDistinct fields

-- Every field has what validation makes of the input.
abbrev pub Kept : List FieldInfo → Input → Values → Type 0
Kept fields input values = All (λ f. validated f (input f.name) ≡ some (values f.name)) fields

-- Nothing is there but the fields.
abbrev pub OnlyThese : List FieldInfo → Values → Type 0
OnlyThese fields values = (n : Text) → contains n (names_of fields) ≡ false → values n ≡ none

put-some :
    (name : Text) (v : Option (Option Value)) (rest : Option Values) {g : Values}
    → put name v rest ≡ some g
    → (w : Option Value) × (h : Values) × (v ≡ some w)
      × (rest ≡ some h)
      × ((λ n. if n == name then w else h n) ≡ g)
put-some name (some w) (some h) e = (w, h, refl, refl, ground arith)
put-some name (some w) none e = absurd (ground arith)
put-some name none rest e = absurd (ground arith)

-- A further field leaves the others.
beside-Kept :
    (f : FieldInfo) (w : Option Value) (fields : List FieldInfo) (input : Input) (h : Values)
    → contains f.name (names_of fields) ≡ false
    → Kept fields input h
    → Kept fields input (λ n. if n == f.name then w else h n)
beside-Kept f w [] input h fresh kept = tt
beside-Kept f w (u ∷ fields) input h fresh kept = (
  ground (arith, kept.0, list_beq_iff u.name f.name, beq_refl f.name),
  beside-Kept f w fields input h (ground arith) kept.1,
)

pub validate-Kept :
    (fields : List FieldInfo) (input : Input) {g : Values}
    → AreDistinct fields
    → validate fields input ≡ some g
    → Kept fields input g × OnlyThese fields g
unfolding validate
validate-Kept [] input {g} d h = (tt, λ n c. ground arith)
validate-Kept (f ∷ fields) input {g} d h =
    let (w, r, made, rest, same) =
      put-some f.name (validated f (input f.name)) (validate fields input) {g = g} h in
    let (kept, only) = validate-Kept fields input {g = r} d.1 rest in
    subst (λ g. Kept (f ∷ fields) input g × OnlyThese (f ∷ fields) g) same
      (
        (ground (arith, made, beq_refl f.name), beside-Kept f w fields input r d.0 kept),
        λ n c. ground (arith, only n, list_beq_iff n f.name, beq_refl f.name),
      )

Kept-validate :
    (fields : List FieldInfo) (input : Input) (g : Values)
    → Kept fields input g
    → (h : Values) × (validate fields input ≡ some h)
      × ((n : Text) → h n ≡ (if contains n (names_of fields) then g n else none))
unfolding validate
Kept-validate [] input g kept = (λ n. none, refl, λ n. refl)
Kept-validate (f ∷ fields) input g kept =
    let (h, made, same) = Kept-validate fields input g kept.1 in
    (
      λ n. if n == f.name then g f.name else h n,
      rw kept.0 (rw made refl),
      λ n. ground (arith, same n, list_beq_iff n f.name, list_beq_iff f.name n),
    )

-- A model that holds what validation makes of an input, and nothing else, is the result.
pub Kept-OnlyThese-validate :
    (fields : List FieldInfo) (input : Input) (g : Values)
    → Kept fields input g
    → OnlyThese fields g
    → validate fields input ≡ some g
Kept-OnlyThese-validate fields input g kept only =
    let (h, made, same) = Kept-validate fields input g kept in
    rw made (ap {B = Option Values} some (fun_ext (λ n. ground (arith, same n, only n))))
