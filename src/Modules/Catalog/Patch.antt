-- ===== src/Modules/Catalog/Patch.antt =====
-- A PATCH body against the floor of the row that it changes.
use rabbit_speed_test.Base.{
  ℕ, ◌≡◌, refl, ◌⊎◌, inl, inr, Bool, true, false, ◌&&◌, Option, none, some, List, [], ◌∷◌, Text,
  codes, nat_eq, list_eq, list_beq_iff, contains, keep, arith, Bool-cases,
}
use rabbit_speed_test.Modules.State.{State}
use rabbit_speed_test.Modules.Events.{Changes, is_some}
use rabbit_speed_test.Modules.Service.{
  payload_of, apply_changes, sent_fields, prepared, validator_of,
}
use rabbit_speed_test.Modules.Service.Update.{updated}
use rabbit_speed_test.Modules.Fields.{
  Value, Pydantic, Check, Input, Values, validated, validate, valid_name_type, floor_email_type,
  strict_email_type, description_type, attributes_type, uuid_type, or_none, names_of,
}
use rabbit_speed_test.Modules.Fields.Models.{update_model, expected_field, changes_from}
use rabbit_speed_test.Modules.Fields.Accepts.{AreDistinct, Kept, OnlyThese, validate-Kept}
use rabbit_speed_test.Modules.Fields.Stable.{strict_email_type-floor}
use rabbit_speed_test.Modules.Catalog.{
  Entity, user, project, changeable, data_fields, update_fields, update_of_entity, spec_of,
}
use rabbit_speed_test.Modules.Catalog.Floor.{Takes, IsFloor, data_floor-IsFloor, changeable-Takes}
use rabbit_speed_test.Modules.Catalog.Requests.{
  name-Implies, attributes-Implies, description-Implies,
}

changes_from-some :
    (sent : List Text) (version : Option (Option ℕ)) (values : Option Values)
    {changes : Changes Value}
    → changes_from sent version values ≡ some changes
    → values ≡ some changes.values
changes_from-some sent (some version) (some values) h = ground arith
changes_from-some sent (some version) none h = absurd (ground arith)
changes_from-some sent none values h = absurd (ground arith)

contains-keep :
    (q : Text → Bool) (n : Text) (names : List Text) → contains n (keep q names) ≡ true → q n ≡ true
contains-keep q n [] h = absurd (ground arith)
contains-keep q n (x ∷ names) h = ground (arith, contains-keep q n names, list_beq_iff x n)

module _ (p : Pydantic) (k : Entity) (changes : Changes Value) (m : State Value) where
  sent-is_some :
      (name : Text)
      → contains name (sent_fields (spec_of p k) changes) ≡ true
      → is_some (changes.values name) ≡ true
  unfolding sent_fields
  sent-is_some name h = ground (
    arith,
    contains-keep (λ n. contains n changes.fields_set && is_some (changes.values n)) name
        (spec_of p k).mutable_fields h,
  )

  -- A field of the changed row is as it was, or what was sent.
  patched-cases :
      (name : Text)
      → ((updated (spec_of p k) changes m).values name ≡ m.values name)
        ⊎ (((updated (spec_of p k) changes m).values name ≡ changes.values name)
            × (is_some (changes.values name) ≡ true))
  unfolding apply_changes prepared validator_of spec_of
  patched-cases name = elim (Bool-cases (contains name (sent_fields (spec_of p k) changes))) [
    | inl sent ↦ inr (rw sent refl, sent-is_some name sent)
    | inr kept ↦ inl (rw kept refl)
  ]

  patched-Takes :
      (name : Text) (check : Check)
      → Takes check (m.values name)
      → (changes.values name ≡ none) ⊎ Takes check (changes.values name)
      → Takes check ((updated (spec_of p k) changes m).values name)
  patched-Takes name check before (inl unsent) = elim (patched-cases name) [
    | inl same ↦ rw same before
    | inr (same, sent) ↦ absurd (ground (arith, unsent, sent))
  ]
  patched-Takes name check before (inr after) = elim (patched-cases name) [
    | inl same ↦ rw same before
    | inr (same, sent) ↦ rw same after
  ]

module _ (p : Pydantic) where
  name_sent :
      (v : Option (Option Value)) (w : Option Value)
      → validated (changeable (codes "name") (valid_name_type p)) v ≡ some w
      → (w ≡ none) ⊎ Takes (valid_name_type p) w
  name_sent v w h =
      changeable-Takes (codes "name") (valid_name_type p) (valid_name_type p) v w (name-Implies p) h

  email_sent :
      (name : Text) (v : Option (Option Value)) (w : Option Value)
      → validated (changeable name (strict_email_type p)) v ≡ some w
      → (w ≡ none) ⊎ Takes floor_email_type w
  email_sent name v w h =
      changeable-Takes name (strict_email_type p) floor_email_type v w (strict_email_type-floor p) h

  attributes_sent :
      (v : Option (Option Value)) (w : Option Value)
      → validated (changeable (codes "attributes") attributes_type) v ≡ some w
      → (w ≡ none) ⊎ Takes attributes_type w
  attributes_sent v w h =
      changeable-Takes (codes "attributes") attributes_type attributes_type v w
        (attributes-Implies p) h

  description_sent :
      (v : Option (Option Value)) (w : Option Value)
      → validated (changeable (codes "description") description_type) v ≡ some w
      → (w ≡ none) ⊎ Takes description_type w
  description_sent v w h =
      changeable-Takes (codes "description") description_type description_type v w
        (description-Implies p) h

  patched-IsFloor :
      (k : Entity) (input : Input) (changes : Changes Value) (m : State Value)
      → Kept (update_fields p k) input changes.values
      → OnlyThese (update_fields p k) changes.values
      → IsFloor (data_fields p k) m
      → IsFloor (data_fields p k) (updated (spec_of p k) changes m)
  unfolding data_fields update_fields
  patched-IsFloor user input changes m (name, (email, (attributes, _))) only
        (v, (in_project, (named, (mailed, (attributed, _))))) =
      (
        omega arith,
        (
          patched-Takes p user changes m (codes "project_id") (or_none (uuid_type p)) in_project
              (inl (only (codes "project_id") refl)),
          (
            patched-Takes p user changes m (codes "name") (valid_name_type p) named
                (name_sent (input (codes "name")) (changes.values (codes "name")) name),
            (
              patched-Takes p user changes m (codes "email") floor_email_type mailed (
                  email_sent (codes "email") (input (codes "email"))
                    (changes.values (codes "email")) email),
              (
                patched-Takes p user changes m (codes "attributes") attributes_type attributed (
                    attributes_sent (input (codes "attributes"))
                      (changes.values (codes "attributes")) attributes),
                tt,
              ),
            ),
          ),
        ),
      )
  patched-IsFloor project input changes m (name, (description, (email, (attributes, _)))) only
        (v, (named, (described, (mailed, (attributed, _))))) =
      (
        omega arith,
        (
          patched-Takes p project changes m (codes "name") (valid_name_type p) named
              (name_sent (input (codes "name")) (changes.values (codes "name")) name),
          (
            patched-Takes p project changes m (codes "description") description_type described (
                description_sent (input (codes "description"))
                  (changes.values (codes "description")) description),
            (
              patched-Takes p project changes m (codes "owner_email") floor_email_type mailed (
                  email_sent (codes "owner_email") (input (codes "owner_email"))
                    (changes.values (codes "owner_email")) email),
              (
                patched-Takes p project changes m (codes "attributes") attributes_type attributed (
                    attributes_sent (input (codes "attributes"))
                      (changes.values (codes "attributes")) attributes),
                tt,
              ),
            ),
          ),
        ),
      )

  update_distinct : (k : Entity) → AreDistinct (update_fields p k)
  unfolding update_fields
  update_distinct user = (refl, (refl, (refl, tt)))
  update_distinct project = (refl, (refl, (refl, (refl, tt))))

  unscoped-names :
      (k : Entity) → contains (codes "project_id") (names_of (update_fields p k)) ≡ false
  unfolding update_fields
  unscoped-names user = refl
  unscoped-names project = refl

  -- A row that meets the floor of its data model meets it after any update that the Update schema
  -- takes, so that the announcement is never refused for its payload; and no such update changes
  -- the project that a row belongs to.
  pub update_of_entity-floor :
      (k : Entity) (input : Input) (m : State Value) {changes : Changes Value}
      → update_of_entity p k input ≡ some changes
      → (spec_of p k).data_floor (payload_of (spec_of p k) m) ≡ true
      → ((spec_of p k).data_floor (payload_of (spec_of p k) (updated (spec_of p k) changes m))
          ≡ true)
        × ((updated (spec_of p k) changes m).values (codes "project_id")
            ≡ m.values (codes "project_id"))
  unfolding update_of_entity update_model
  update_of_entity-floor k input m {changes} h before =
      let made =
        changes_from-some _ (expected_field p (input (codes "expected_version")))
          (validate (update_fields p k) input) {changes = changes} h in
      let (kept, only) =
        validate-Kept (update_fields p k) input {g = changes.values} (update_distinct k) made in
      (
        (data_floor-IsFloor p k (updated (spec_of p k) changes m)).1
            (patched-IsFloor k input changes m kept only ((data_floor-IsFloor p k m).0 before)),
        elim (patched-cases p k changes m (codes "project_id")) [
          | inl same ↦ same
          | inr (same, sent) ↦
              absurd (ground (arith, sent, only (codes "project_id") (unscoped-names k)))
        ],
      )
