-- ===== src/Modules/Catalog/Floor.antt =====
-- The floor of a row: what its data model of user.py or project.py asks of a stored row.
use rabbit_speed_test.Base.{
  ℕ, zero, suc, ◌≡◌, ◌≤◌, ◌↔◌, ◌∙◌, sym, ap, refl, ◌⊎◌, inl, inr, true, ◌&&◌, Option, none, some,
  List, [], ◌∷◌, Text, codes, nat_eq, list_eq, All, arith,
}
use rabbit_speed_test.Storable.{integer}
use rabbit_speed_test.Modules.State.{State}
use rabbit_speed_test.Modules.Events.{is_some}
use rabbit_speed_test.Modules.Service.{payload_of}
use rabbit_speed_test.Modules.Fields.{
  Value, plain, Pydantic, Check, FieldInfo, Input, Values, put, validated, validate, uuid_type,
  or_none,
}
use rabbit_speed_test.Modules.Fields.Models.{
  version_of_int, version_field, id_field, state_from, data_model, attributes_of,
}
use rabbit_speed_test.Modules.Fields.Stable.{Implies}
use rabbit_speed_test.Modules.Fields.Dump.{version_field-integer}
use rabbit_speed_test.Modules.Catalog.{
  Entity, user, project, required, optional, changeable, data_fields, data_of_entity, spec_of,
}

-- The validator takes the value.
abbrev pub Takes : Check → Option Value → Type 0
Takes check v = is_some (check v) ≡ true

some-Takes : (check : Check) (w : Option Value) → check w ≡ some w → Takes check w
some-Takes check w h = rw h refl

pub required-Takes :
    (name : Text) (strong weak : Check) (v : Option (Option Value)) (w : Option Value)
    → Implies strong weak
    → validated (required name strong) v ≡ some w
    → Takes weak w
unfolding validated
required-Takes name strong weak none w implies h = absurd (ground arith)
required-Takes name strong weak (some v) w implies h = some-Takes weak w (implies v w h)

pub optional-Takes :
    (name : Text) (strong weak : Check) (default : Option Value) (v : Option (Option Value))
    (w : Option Value)
    → Implies strong weak
    → Takes weak default
    → validated (optional name strong default) v ≡ some w
    → Takes weak w
unfolding validated
optional-Takes name strong weak default none w implies fine h = ground (arith, fine)
optional-Takes name strong weak default (some v) w implies fine h =
    some-Takes weak w (implies v w h)

-- A value that an Update schema lets through is None or taken.
pub changeable-Takes :
    (name : Text) (strong weak : Check) (v : Option (Option Value)) (w : Option Value)
    → Implies strong weak
    → validated (changeable name strong) v ≡ some w
    → (w ≡ none) ⊎ Takes weak w
unfolding validated or_none
changeable-Takes name strong weak none w implies h = inl (ground arith)
changeable-Takes name strong weak (some none) w implies h = inl (ground arith)
changeable-Takes name strong weak (some (some v)) w implies h =
    inr (some-Takes weak w (implies (some v) w h))

-- The floor of a row: a positive version, and every field taken.
abbrev pub IsFloor : List FieldInfo → State Value → Type 0
IsFloor fields m = (1 ≤ m.version) × All (λ f. Takes f.check (m.values f.name)) fields

put-is_some :
    (name : Text) (v : Option (Option Value)) (rest : Option Values)
    → is_some (put name v rest) ≡ (is_some v && is_some rest)
put-is_some name (some v) (some rest) = refl
put-is_some name (some v) none = refl
put-is_some name none rest = refl

state_from-is_some :
    (a b : Option ℕ) (c : Option Values)
    → is_some (state_from a b c) ≡ (is_some a && (is_some b && is_some c))
state_from-is_some (some a) (some b) (some c) = refl
state_from-is_some (some a) (some b) none = refl
state_from-is_some (some a) none c = refl
state_from-is_some none b c = refl

-- The input gives every field the value that the row has.
abbrev Gives : List FieldInfo → Input → State Value → Type 0
Gives fields input m = All (λ f. input f.name ≡ some (m.values f.name)) fields

validate-Takes :
    (fields : List FieldInfo) (input : Input) (m : State Value)
    → Gives fields input m
    → is_some (validate fields input) ≡ true
    → All (λ f. Takes f.check (m.values f.name)) fields
unfolding validate validated
validate-Takes [] input m g h = tt
validate-Takes (f ∷ fields) input m g h =
    let both = put-is_some f.name (validated f (input f.name)) (validate fields input) in
    (ground (arith, both, g.0), validate-Takes fields input m g.1 (ground (arith, both)))

Takes-validate :
    (fields : List FieldInfo) (input : Input) (m : State Value)
    → Gives fields input m
    → All (λ f. Takes f.check (m.values f.name)) fields
    → is_some (validate fields input) ≡ true
unfolding validate validated
Takes-validate [] input m g h = refl
Takes-validate (f ∷ fields) input m g h =
    rw (put-is_some f.name (validated f (input f.name)) (validate fields input))
      (rw g.0 (rw h.0 (Takes-validate fields input m g.1 h.1)))

-- The row that build_state_event validates.
abbrev seen_row : Pydantic → Entity → State Value → Input
seen_row p k m = attributes_of (payload_of (spec_of p k) m)

seen_row-Gives :
    (p : Pydantic) (k : Entity) (m : State Value) → Gives (data_fields p k) (seen_row p k m) m
unfolding attributes_of payload_of spec_of data_fields
seen_row-Gives p user m = (refl, (refl, (refl, (refl, tt))))
seen_row-Gives p project m = (refl, (refl, (refl, (refl, tt))))

seen_row-id :
    (p : Pydantic) (k : Entity) (m : State Value)
    → id_field p (seen_row p k m (codes "id")) ≡ some m.id
unfolding attributes_of payload_of id_field uuid_type
seen_row-id p k m = refl

seen_row-version :
    (p : Pydantic) (k : Entity) (m : State Value)
    → seen_row p k m (codes "version") ≡ some (some (plain (integer m.version)))
unfolding attributes_of payload_of
seen_row-version p k m = refl

version-positive :
    (p : Pydantic) (n : ℕ) (v : Option (Option Value))
    → v ≡ some (some (plain (integer n)))
    → is_some (version_field p v) ≡ true
    → 1 ≤ n
unfolding version_field version_of_int
version-positive p zero v e h =
    let refused : version_field p v ≡ none = rw e (rw (p.parse_int-integer zero) refl) in
    absurd (ground (arith, refused, h))
version-positive p (suc n) v e h = omega arith

floor-parts :
    (p : Pydantic) (k : Entity) (m : State Value)
    → (spec_of p k).data_floor (payload_of (spec_of p k) m) ≡ (
        is_some (version_field p (seen_row p k m (codes "version")))
        && is_some (validate (data_fields p k) (seen_row p k m)))
unfolding spec_of data_of_entity data_model
floor-parts p k m =
    state_from-is_some (id_field p (seen_row p k m (codes "id")))
      (version_field p (seen_row p k m (codes "version")))
      (validate (data_fields p k) (seen_row p k m))
    ∙ ap
        (λ o.
          is_some o
          && (is_some (version_field p (seen_row p k m (codes "version")))
              && is_some (validate (data_fields p k) (seen_row p k m))))
        (seen_row-id p k m)

pub data_floor-IsFloor :
    (p : Pydantic) (k : Entity) (m : State Value)
    → ((spec_of p k).data_floor (payload_of (spec_of p k) m) ≡ true) ↔ IsFloor (data_fields p k) m
data_floor-IsFloor p k m = (
  λ h.
      let parts = sym (floor-parts p k m) ∙ h in
      (
        version-positive p m.version (seen_row p k m (codes "version")) (seen_row-version p k m)
            (ground (arith, parts)),
        validate-Takes (data_fields p k) (seen_row p k m) m (seen_row-Gives p k m)
            (ground (arith, parts)),
      ),
  λ (positive, taken). rw (floor-parts p k m) (
      rw (seen_row-version p k m) (
        rw (version_field-integer p m.version positive)
          (Takes-validate (data_fields p k) (seen_row p k m) m (seen_row-Gives p k m) taken))),
)
