-- ===== src/Modules/Replica.antt =====
-- apply_state_events of shared_data_service/app/modules/shared/service.py: the consumer path.
pub mod Newest
use rabbit_speed_test.Base.{
  List, [], ◌∷◌, Text, ◌==◌, pair_eq, list_eq, nat_eq, contains, none, map, if◌then◌else◌,
}
use rabbit_speed_test.Outcome.{ok, Call, ◌>>=◌, ◌>>◌}
use rabbit_speed_test.Storage.Uow.{commit}
use rabbit_speed_test.Storage.Inbox.{mark_events_processed}
use rabbit_speed_test.Modules.State.{State}
use rabbit_speed_test.Modules.Table.{put_newer, upsert_if_newer_many}
use rabbit_speed_test.Modules.Spec.{ModuleSpec}
use rabbit_speed_test.Modules.Events.{Db, StateEventItem, World, Moment, in_uow}
use rabbit_speed_test.Modules.Service.{Service, new_module}

module _ {V : Type 0} where
  abbrev pub pair_of : StateEventItem V → Text × Text
  pair_of i = (i.source, i.event_id)

  -- The loop of apply_state_events: the fresh item of the highest version wins, for each id.
  unfoldable pub winners :
      List (Text × Text) → List (StateEventItem V) → List (State V) → List (State V)
  unfolding put_newer
  winners fresh [] ws = ws
  winners fresh (i ∷ items) ws =
      winners fresh items (if contains (pair_of i) fresh then put_newer i.payload ws else ws)

  -- The transaction of apply_state_events.
  unfoldable pub apply_batch : ModuleSpec V → List (StateEventItem V) → Db V → Db V
  unfolding winners mark_events_processed upsert_if_newer_many new_module
  apply_batch spec items db =
      let (fresh, inbox) = mark_events_processed db.inbox (map pair_of items) in
      record {
        rows =
            upsert_if_newer_many (map (λ d. new_module spec d none) (winners fresh items []))
              db.rows;
        inbox = inbox;
      }

  unfoldable pub apply_state_events :
      Service V → Moment → List (StateEventItem V) → Call (World V) (Unit {0})
  unfolding apply_batch in_uow commit
  apply_state_events s now items =
      in_uow s.publisher (do
        (λ u. (ok tt, record u { working = apply_batch s.spec items u.working }))
        commit now.env)
