-- ===== src/Storage/Uow.antt =====
-- SqlAlchemyUnitOfWork of shared_data_service/app/database/unit_of_work.py, with the publishers of
-- shared_data_service/app/messaging/publisher.py. The database is any type `D`, an event any `E`.
pub mod Delivery
use rabbit_speed_test.Base.{ℕ, suc, Bool, true, false, List, [], ◌∷◌, ◌++◌, if◌then◌else◌}
use rabbit_speed_test.Outcome.{Outcome, ok, err, unwound, database, Call, is_ok}

-- How session.commit() ends: with its ack, refused, applied with the ack lost, or cut short by a
-- cancellation before or after the database applied it.
pub data CommitOutcome : Type 0 where
  acked refused ack_lost cut_before cut_after : CommitOutcome

-- How one bus.publish() ends.
pub data PublishOutcome : Type 0 where
  delivered failed cancelled : PublishOutcome

-- QueueEventPublisher (API graph) and NullEventPublisher (consumer graph).
pub data Publisher : Type 0 where
  queue_publisher null_publisher : Publisher

-- What is logged at CRITICAL or as an exception about events.
pub data Alert (E : Type 0) : Type 0 where
  commit_failed : List E → Alert E
  publish_failed : E → Alert E
  publish_cancelled : List E → Alert E

pub record Uow (D E : Type 0) : Type 0 where
  -- the committed database, and the transaction's view of it
  pub stored : D
  pub working : D
  pub staged : List E
  pub committed : Bool
  pub publisher : Publisher
  -- what the queue has confirmed, oldest first
  pub published : List E
  pub alerts : List (Alert E)
  -- do the instances that were read belong to the session; has a rollback expired them
  pub attached : Bool
  pub expired : Bool
  pub closed : Bool

-- What the surroundings decide during one commit: its end, and that of the i-th publish.
pub record Env : Type 0 where
  pub commit_ends : CommitOutcome
  pub publish_ends : ℕ → PublishOutcome

module _ {E : Type 0} where
  -- publish_event of both publishers: how it ends, and the queue after it.
  unfoldable pub publish_event : Publisher → PublishOutcome → E → List E → PublishOutcome × List E
  publish_event queue_publisher delivered e sent = (delivered, sent ++ e ∷ [])
  publish_event queue_publisher o e sent = (o, sent)
  publish_event null_publisher o e sent = (delivered, sent)

  -- The log record of a commit that raised: none if nothing was staged.
  abbrev pub warn_staged : List E → List (Alert E) → List (Alert E)
  warn_staged [] alerts = alerts
  warn_staged (e ∷ es) alerts = alerts ++ commit_failed (e ∷ es) ∷ []

module _ {D E : Type 0} where
  -- __init__ and __aenter__
  unfoldable pub enter : Publisher → D → Uow D E
  enter p db = record {
    stored = db;
    working = db;
    staged = [];
    committed = false;
    publisher = p;
    published = [];
    alerts = [];
    attached = true;
    expired = false;
    closed = false;
  }

  unfoldable pub stage_event : E → Call (Uow D E) (Unit {0})
  stage_event e u = (ok tt, record u { staged = u.staged ++ e ∷ [] })

  -- The loop of commit() over the staged events, from index i.
  unfoldable pub publish_staged : (ℕ → PublishOutcome) → ℕ → List E → Call (Uow D E) (Unit {0})
  unfolding publish_event
  publish_staged ends i [] u = (ok tt, u)
  publish_staged ends i (e ∷ rest) u =
      let (how, sent) = publish_event u.publisher (ends i) e u.published in
      elim how [
        | delivered ↦ publish_staged ends (suc i) rest (record u { published = sent })
        | failed ↦
            publish_staged ends (suc i) rest
              (record u { alerts = u.alerts ++ publish_failed e ∷ [] })
        | cancelled ↦ (unwound, record u { alerts = u.alerts ++ publish_cancelled (e ∷ rest) ∷ [] })
      ]

  unfoldable pub commit : Env → Call (Uow D E) (Unit {0})
  unfolding publish_staged
  commit env u = elim env.commit_ends [
    | acked ↦
        publish_staged env.publish_ends 0 u.staged
          (record u { stored = u.working; committed = true; staged = [] })
    | refused ↦ (err database, record u { alerts = warn_staged u.staged u.alerts })
    | ack_lost ↦
        (err database, record u { stored = u.working; alerts = warn_staged u.staged u.alerts })
    | cut_before ↦ (unwound, u)
    | cut_after ↦ (unwound, record u { stored = u.working })
  ]

  -- __aexit__: `clean` says that the block raised nothing.
  unfoldable pub exit : Bool → Uow D E → Uow D E
  exit clean u =
      if u.committed
      then record u { closed = true }
      else let attached = if clean then false else u.attached in
        record u {
          working = u.stored;
          attached = attached;
          expired = if attached then true else u.expired;
          closed = true;
        }

  -- `async with self._uow_factory() as uow: body`
  unfoldable pub with_uow : {A : Type 0} → Publisher → D → Call (Uow D E) A → Outcome A × Uow D E
  unfolding enter exit
  with_uow p db body = let (r, u) = body (enter p db) in (r, exit (is_ok r) u)
