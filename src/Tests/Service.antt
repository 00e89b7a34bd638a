-- ===== src/Tests/Service.antt =====
-- The module service and the replica on the users.
use rabbit_speed_test.Base.{
  ℕ, arith, ◌≡◌, refl, ◌⊎◌, none, some, List, [], ◌∷◌, ◌++◌, Text, codes, pair_eq, list_eq, nat_eq,
  if◌then◌else◌,
}
use rabbit_speed_test.Outcome.{err, conflict, validation, invalid_input}
use rabbit_speed_test.Modules.State.{merge}
use rabbit_speed_test.Modules.Table.{find, newest_of}
use rabbit_speed_test.Modules.Spec.{updated_event_type}
use rabbit_speed_test.Modules.Events.{StateEventItem, is_empty, or_else}
use rabbit_speed_test.Modules.Service.{new_module, create, update, sent_fields}
use rabbit_speed_test.Modules.Service.Create.{expected, create-outcome, create-atomic}
use rabbit_speed_test.Modules.Service.Update.{outcome, update-outcome, update-update}
use rabbit_speed_test.Modules.Replica.{apply_batch}
use rabbit_speed_test.Modules.Replica.Newest.{
  unseen, map_state, apply_batches, find-apply_batch, find-apply_batch_again,
}
use rabbit_speed_test.Tests.Data.{
  user_spec, users, user_at, stored, world, quiet, renamed, announced,
}

find-apply_batch_example :
    find 1 (apply_batch user_spec announced stored).rows
    ≡ merge
        (find 1 stored.rows)
        (map_state (λ d. new_module user_spec d none) (newest_of 1 (unseen stored.inbox announced)))
find-apply_batch_example = find-apply_batch user_spec announced stored 1

-- Another event between an announcement and its redelivery.
abbrev in_between : List (StateEventItem ℕ)
in_between =
    record { source = codes "urn:other"; event_id = codes "e9"; payload = user_at 1 40 7 } ∷ []

abbrev batches : List (List (StateEventItem ℕ))
batches = announced ∷ in_between ∷ []

find-apply_batch_again_example :
    find 1 (apply_batch user_spec announced (apply_batches user_spec batches stored)).rows
    ≡ find 1 (apply_batches user_spec batches stored).rows
find-apply_batch_again_example =
    find-apply_batch_again user_spec batches announced stored 1 (λ p h. ground (arith, h))

create-outcome_example :
    create users quiet (user_at 1 1 50) world
    ≡ expected users quiet (user_at 1 1 50) world (find 1 world.db.rows)
create-outcome_example = create-outcome users quiet (refl, refl) refl (user_at 1 1 50) world

create-atomic_example :
    let (r, w') = create users quiet (user_at 5 1 50) world in
    ((w'.db.rows ≡ world.db.rows)
      ⊎ ((find 5 world.db.rows ≡ none)
          × (w'.db.rows ≡ world.db.rows ++ new_module user_spec (user_at 5 1 50) (some 1) ∷ [])))
    × ((r ≡ err conflict) ⊎ (r ≡ err validation) → w' ≡ world)
create-atomic_example = create-atomic users quiet (user_at 5 1 50) world

update-outcome_example : update users quiet 1 (renamed 60) (some 3) none world ≡ (
    if is_empty (sent_fields user_spec (renamed 60))
    then (err invalid_input, world)
    else outcome users quiet (renamed 60) (or_else (some 3) none) none world (find 1 world.db.rows))
update-outcome_example =
    update-outcome users quiet 1 (renamed 60) (some 3) none world (refl, refl) refl

update-update_example :
    let w' = (update users quiet 1 (renamed 60) (some 3) none world).1 in
    update users quiet 1 (renamed 70) (some 3) none w' ≡ (err conflict, w')
unfolding update find sent_fields updated_event_type
update-update_example =
    update-update users quiet quiet 1 3 (renamed 60) (renamed 70) world refl refl (refl, refl) refl

abbrev seen : List Text
seen = codes "e1" ∷ []

abbrev batch : List Text
batch = codes "e1" ∷ codes "e2" ∷ []
