-- ===== src/Modules/Fields/RoundTrip.antt =====
-- A *Data model that was validated once is validated again, from its own attributes, as
-- build_state_event does with a row, and from its dump to JSON, as a consumer does with an event.
use rabbit_speed_test.Base.{
  ℕ, ◌≡◌, ◌≤◌, refl, true, some, List, Text, codes, nat_eq, list_eq, list_beq_iff, contains, arith,
}
use rabbit_speed_test.Storable.{string}
use rabbit_speed_test.Modules.State.{State}
use rabbit_speed_test.Modules.Fields.{
  Value, uuid, plain, Pydantic, FieldInfo, names_of, Input, validate, uuid_type,
}
use rabbit_speed_test.Modules.Fields.Models.{
  version_field, id_field, data_model, attributes_of, input_of, dump,
}
use rabbit_speed_test.Modules.Fields.Accepts.{
  Kept, OnlyThese, validate-Kept, Kept-OnlyThese-validate,
}
use rabbit_speed_test.Modules.Fields.Dump.{
  IsSchema, state_from-some, version_field-positive, version_field-integer, dump-id, dump-version,
  dump-field, dumped-Kept, same-Kept,
}

id_field-uuid : (p : Pydantic) (u : ℕ) → id_field p (some (some (uuid u))) ≡ some u
unfolding id_field uuid_type
id_field-uuid p u = refl

id_field-print :
    (p : Pydantic) (u : ℕ) → id_field p (some (some (plain (string (p.print_uuid u))))) ≡ some u
unfolding id_field uuid_type
id_field-print p u = rw (p.parse-print u) refl

module _ (p : Pydantic) (fields : List FieldInfo) (schema : IsSchema p fields) where
  -- What a model holds, and that its version is positive.
  parts :
      (input : Input) {d : State Value}
      → data_model p fields input ≡ some d
      → (1 ≤ d.version) × Kept fields input d.values × OnlyThese fields d.values
  unfolding data_model
  parts input {d} h =
      let (i, v, c) =
        state_from-some (id_field p (input (codes "id")))
          (version_field p (input (codes "version"))) (validate fields input) {d = d} h in
      let (kept, only) = validate-Kept fields input {g = d.values} schema.distinct c in
      (version_field-positive p (input (codes "version")) {n = d.version} v, kept, only)

  made_of :
      (from : Input) (d : State Value)
      → id_field p (from (codes "id")) ≡ some d.id
      → version_field p (from (codes "version")) ≡ some d.version
      → validate fields from ≡ some d.values
      → data_model p fields from ≡ some d
  unfolding data_model
  made_of from d i v c = rw i (rw v (rw c refl))

  pub data_model-dump :
      (input : Input) {d : State Value}
      → data_model p fields input ≡ some d
      → data_model p fields (input_of (dump p fields d)) ≡ some d
  data_model-dump input {d} h =
      let (positive, kept, only) = parts input {d = d} h in
      let from = input_of (dump p fields d) in
      made_of from d (rw (dump-id p fields d schema.beside_id) (id_field-print p d.id))
        (rw (dump-version p fields d) (version_field-integer p d.version positive))
        (Kept-OnlyThese-validate fields from d.values
          (dumped-Kept p input fields from d.values schema.steady kept
            (λ k c. dump-field p fields d k schema.beside_id schema.beside_version c))
          only)

  attributes-field :
      (d : State Value) (k : Text)
      → contains k (names_of fields) ≡ true
      → attributes_of d k ≡ some (d.values k)
  unfolding attributes_of
  attributes-field d k c = ground (
    arith,
    list_beq_iff k (codes "id"),
    list_beq_iff k (codes "version"),
    schema.beside_id,
    schema.beside_version,
  )

  pub data_model-attributes :
      (input : Input) {d : State Value}
      → data_model p fields input ≡ some d
      → data_model p fields (attributes_of d) ≡ some d
  unfolding attributes_of
  data_model-attributes input {d} h =
      let (positive, kept, only) = parts input {d = d} h in
      made_of (attributes_of d) d (id_field-uuid p d.id)
        (version_field-integer p d.version positive)
        (Kept-OnlyThese-validate fields (attributes_of d) d.values
          (same-Kept p input fields (attributes_of d) d.values schema.steady kept
            (attributes-field d))
          only)
