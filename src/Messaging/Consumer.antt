-- ===== src/Messaging/Consumer.antt =====
-- EventConsumer of shared_data_service/app/messaging/consumer.py: what becomes of one message, and
-- is_permanent_data_error of shared_data_service/app/database/errors.py. The parser of CloudEvents
-- is a parameter, and so are the handlers; both may be any function.
pub mod Dispatch
use rabbit_speed_test.Base.{
  ℕ, zero, suc, Bool, true, false, ◌||◌, Option, none, some, List, [], ◌∷◌, Text, codes, take, ◌==◌,
  nat_eq, list_eq, if◌then◌else◌,
}
use rabbit_speed_test.Outcome.{Error}
use rabbit_speed_test.Messaging.Registry.{Registry, get}

-- The exceptions that a handler raises. A DBAPIError carries its driver exception and that one's
-- causes, each with the SQLSTATE it has (sqlstate or else pgcode; an empty one counts as none).
pub data Raised : Type 0 where
  validation_error : Raised
  data_error : Raised
  dbapi_error : List (Option Text) → Raised
  domain_error : Error → Raised
  batcher_closed : Raised
  other_exception : Raised
  -- CancelledError, and any BaseException
  base_exception : Raised

-- How a handler or the dispatch ends.
pub data Ending : Type 0 where
  done : Ending
  raises : Raised → Ending

pub record Envelope (B : Type 0) : Type 0 where
  pub id : Text
  pub event_type : Text
  pub correlationid : Option Text
  pub body : B

-- The loop over the causes: the first SQLSTATE decides by its class.
unfoldable pub permanent_cause : List (Option Text) → Bool
permanent_cause [] = false
permanent_cause (none ∷ causes) = permanent_cause causes
permanent_cause (some [] ∷ causes) = permanent_cause causes
permanent_cause (some (c ∷ code) ∷ causes) = take 2 (c ∷ code) == codes "22"

unfoldable pub is_permanent_data_error : Raised → Bool
unfolding permanent_cause
is_permanent_data_error data_error = true
is_permanent_data_error (dbapi_error causes) = permanent_cause causes
is_permanent_data_error _ = false

-- The except clauses of the dispatch, around the handler.
unfoldable pub classify : Ending → Ending
unfolding is_permanent_data_error
classify done = done
classify (raises validation_error) = done
classify (raises base_exception) = raises base_exception
classify (raises x) = if is_permanent_data_error x then done else raises x

abbrev pub Handler : Type 0 → Type 0 → Type 0
Handler B S = Envelope B → S → Ending × S

module _ {B : Type 0} where
  -- set_correlation_id(event.correlationid or event.id)
  unfoldable pub correlation_of : Envelope B → Text
  correlation_of event = elim event.correlationid [
    | none ↦ event.id
    | some t ↦ elim t [ [] ↦ event.id | c ∷ rest ↦ c ∷ rest ]
  ]

module _ {B S : Type 0} where
  unfoldable pub call_handler : Option (Handler B S) → Envelope B → S → Ending × S
  unfolding classify
  call_handler none event s = (done, s)
  call_handler (some handler) event s = let (e, s') = handler event s in (classify e, s')

  -- handle(body): `parse` is CloudEvent.from_bytes, with `none` for InvalidCloudEvent, and
  -- `set_correlation` writes the context variable.
  unfoldable pub handle :
      {M : Type 0}
      → (M → Option (Envelope B))
      → (Text → S → S)
      → Registry (Handler B S)
      → M
      → S
      → Ending × S
  unfolding call_handler get correlation_of
  handle parse set_correlation registry body s = elim (parse body) [
    | none ↦ (done, s)
    | some event ↦
        call_handler (get registry event.event_type) event
          (set_correlation (correlation_of event) s)
  ]

-- How one bus.consume() of a queue ends, and what _consume_forever does then: stop on a return,
-- unwind on a cancellation, wait and consume again on an exception.
pub data ConsumeEnds : Type 0 where
  stops cancelled fails : ConsumeEnds

pub data Supervised : Type 0 where
  stopped unwound retrying : Supervised

-- The ends of the successive consume calls: where the queue's task stands after them, and how many
-- times it paused before a retry.
unfoldable pub consume_forever : List ConsumeEnds → Supervised × ℕ
consume_forever [] = (retrying, zero)
consume_forever (stops ∷ rest) = (stopped, zero)
consume_forever (cancelled ∷ rest) = (unwound, zero)
consume_forever (fails ∷ rest) = let (s, n) = consume_forever rest in (s, suc n)
