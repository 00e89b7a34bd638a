-- ===== src/Modules/Catalog/Requests.antt =====
-- A POST body against the floor of the row that it creates.
use rabbit_speed_test.Base.{
  ℕ, ◌≡◌, refl, sym, true, Option, none, some, [], Text, codes, nat_eq, list_eq, arith,
}
use mathlib.Core.Path.{subst}
use rabbit_speed_test.Storable.{storable_text, scan_entries}
use rabbit_speed_test.Modules.Service.{payload_of}
use rabbit_speed_test.Routes.{CreatePayload, data_of}
use rabbit_speed_test.Modules.Fields.{
  Value, text_value, Pydantic, Input, Values, validated, validate, valid_name_type,
  floor_email_type, strict_email_type, description_type, attributes_type, uuid_type, or_none,
  text_type, stored_text,
}
use rabbit_speed_test.Modules.Fields.Models.{create_model, payload_from}
use rabbit_speed_test.Modules.Fields.Accepts.{AreDistinct, Kept, OnlyThese, validate-Kept}
use rabbit_speed_test.Modules.Fields.Stable.{
  Implies, valid_name_type-IsStable, description_type-IsStable, attributes_type-IsStable,
  strict_email_type-floor, IsStable-Implies,
}
use rabbit_speed_test.Modules.Catalog.{
  Entity, user, project, required, optional, no_attributes, data_fields, create_fields,
  create_of_entity, spec_of, scope_dependency,
}
use rabbit_speed_test.Modules.Catalog.Floor.{
  Takes, IsFloor, data_floor-IsFloor, required-Takes, optional-Takes,
}

payload_from-some :
    (id : Option (Option ℕ)) (values : Option Values) {payload : CreatePayload Value}
    → payload_from id values ≡ some payload
    → values ≡ some payload.values
payload_from-some (some id) (some values) h = ground arith
payload_from-some (some id) none h = absurd (ground arith)
payload_from-some none values h = absurd (ground arith)

pub name-Implies : (p : Pydantic) → Implies (valid_name_type p) (valid_name_type p)
name-Implies p = IsStable-Implies p (valid_name_type p) (valid_name_type-IsStable p)

pub attributes-Implies : (p : Pydantic) → Implies attributes_type attributes_type
attributes-Implies p = IsStable-Implies p attributes_type (attributes_type-IsStable p)

pub description-Implies : (p : Pydantic) → Implies description_type description_type
description-Implies p = IsStable-Implies p description_type (description_type-IsStable p)

module _ (p : Pydantic) where
  name_taken :
      (v : Option (Option Value)) (w : Option Value)
      → validated (required (codes "name") (valid_name_type p)) v ≡ some w
      → Takes (valid_name_type p) w
  name_taken v w h =
      required-Takes (codes "name") (valid_name_type p) (valid_name_type p) v w (name-Implies p) h

  email_taken :
      (name : Text) (v : Option (Option Value)) (w : Option Value)
      → validated (required name (strict_email_type p)) v ≡ some w
      → Takes floor_email_type w
  email_taken name v w h =
      required-Takes name (strict_email_type p) floor_email_type v w (strict_email_type-floor p) h

  attributes_taken :
      (v : Option (Option Value)) (w : Option Value)
      → validated (optional (codes "attributes") attributes_type no_attributes) v ≡ some w
      → Takes attributes_type w
  unfolding attributes_type scan_entries
  attributes_taken v w h =
      optional-Takes (codes "attributes") attributes_type attributes_type no_attributes v w
        (attributes-Implies p) refl h

  description_taken :
      (v : Option (Option Value)) (w : Option Value)
      → validated (optional (codes "description") description_type (some (text_value []))) v
        ≡ some w
      → Takes description_type w
  unfolding description_type text_type stored_text storable_text
  description_taken v w h =
      optional-Takes (codes "description") description_type description_type (some (text_value []))
        v w (description-Implies p) refl h

  root_scope : (parent : Option ℕ) → scope_dependency p (spec_of p project) parent ≡ none
  unfolding scope_dependency spec_of
  root_scope none = refl
  root_scope (some u) = refl

  user_distinct : AreDistinct (create_fields p user)
  unfolding create_fields
  user_distinct = (refl, (refl, (refl, tt)))

  project_distinct : AreDistinct (create_fields p project)
  unfolding create_fields
  project_distinct = (refl, (refl, (refl, (refl, tt))))

  module _ (input : Input) (values : Values) (id : Option ℕ) (n : ℕ) where
    -- The project of a user is that of the path, if there is one.
    create_user-IsFloor :
        (parent : Option ℕ)
        → Kept (create_fields p user) input values
        → OnlyThese (create_fields p user) values
        → IsFloor (data_fields p user) (
            data_of
              (scope_dependency p (spec_of p user) parent)
              n
              (record { id = id; values = values }))
    unfolding data_of scope_dependency spec_of data_fields create_fields or_none uuid_type
    create_user-IsFloor none (name, (email, (attributes, _))) only = (
      omega arith,
      (
        rw (only (codes "project_id") refl) refl,
        (
          name_taken (input (codes "name")) (values (codes "name")) name,
          (
            email_taken (codes "email") (input (codes "email")) (values (codes "email")) email,
            (
              attributes_taken (input (codes "attributes")) (values (codes "attributes"))
                  attributes,
              tt,
            ),
          ),
        ),
      ),
    )
    create_user-IsFloor (some u) (name, (email, (attributes, _))) only = (
      omega arith,
      (
        refl,
        (
          name_taken (input (codes "name")) (values (codes "name")) name,
          (
            email_taken (codes "email") (input (codes "email")) (values (codes "email")) email,
            (
              attributes_taken (input (codes "attributes")) (values (codes "attributes"))
                  attributes,
              tt,
            ),
          ),
        ),
      ),
    )

    create_project-IsFloor :
        (parent : Option ℕ)
        → Kept (create_fields p project) input values
        → IsFloor (data_fields p project) (
            data_of
              (scope_dependency p (spec_of p project) parent)
              n
              (record { id = id; values = values }))
    unfolding data_of scope_dependency spec_of data_fields create_fields
    create_project-IsFloor parent (name, (description, (email, (attributes, _)))) =
        let taken : IsFloor (data_fields p project)
            (record { id = n; version = 1; values = values }) =
          (
            omega arith,
            (
              name_taken (input (codes "name")) (values (codes "name")) name,
              (
                description_taken (input (codes "description")) (values (codes "description"))
                    description,
                (
                  email_taken (codes "owner_email") (input (codes "owner_email"))
                      (values (codes "owner_email")) email,
                  (
                    attributes_taken (input (codes "attributes")) (values (codes "attributes"))
                        attributes,
                    tt,
                  ),
                ),
              ),
            ),
          ) in
        subst
          (λ scope.
            IsFloor (data_fields p project) (data_of scope n (record { id = id; values = values })))
          (sym (root_scope parent)) taken

  -- Whatever body a create takes, with or without a parent in the path: the state that the route
  -- builds from it meets the floor of the data model, so the guard of the route on an
  -- invalid input is never reached.
  pub create_of_entity-floor :
      (k : Entity) (input : Input) (parent : Option ℕ) (n : ℕ) {payload : CreatePayload Value}
      → create_of_entity p k input ≡ some payload
      → (spec_of p k).data_floor
          (payload_of (spec_of p k) (data_of (scope_dependency p (spec_of p k) parent) n payload))
        ≡ true
  unfolding create_of_entity create_model
  create_of_entity-floor user input parent n {payload} h =
      let made =
        payload_from-some _ (validate (create_fields p user) input) {payload = payload} h in
      let (kept, only) =
        validate-Kept (create_fields p user) input {g = payload.values} user_distinct made in
      (data_floor-IsFloor p user (data_of (scope_dependency p (spec_of p user) parent) n payload)).1
        (create_user-IsFloor input payload.values payload.id n parent kept only)
  create_of_entity-floor project input parent n {payload} h =
      let made =
        payload_from-some _ (validate (create_fields p project) input) {payload = payload} h in
      let (kept, only) =
        validate-Kept (create_fields p project) input {g = payload.values} project_distinct made in
      (data_floor-IsFloor p project
          (data_of (scope_dependency p (spec_of p project) parent) n payload)).1
        (create_project-IsFloor input payload.values payload.id n parent kept)
