-- ===== src/Tests/Messaging.antt =====
-- The batcher, the registry and the dispatch on small runs.
use rabbit_speed_test.Base.{
  ℕ, suc, ◌≡◌, ◌≢◌, ◌<◌, refl, true, Option, none, some, List, [], ◌∷◌, Text, codes,
}
use rabbit_speed_test.Modules.Spec.{ModuleSpec}
use rabbit_speed_test.Messaging.Batcher.{
  returned, raised, init, close, Step, submits, starts, wakes, ends, step, run,
}
use rabbit_speed_test.Messaging.Batcher.Settles.{holds}
use rabbit_speed_test.Messaging.Batcher.Closed.{close_settles, committed_applied}
use rabbit_speed_test.Messaging.Registry.{Registry}
use rabbit_speed_test.Messaging.Consumer.{Raised, dbapi_error, raises, Envelope, Handler}
use rabbit_speed_test.Tests.Data.{user_spec, project_spec}

-- Three entries, batches of two: the first batch fails as a whole, its first entry is applied alone.
abbrev steps : List (Step ℕ)
steps = submits 7 ∷ submits 8 ∷ submits 9 ∷ starts ∷ wakes ∷ ends raised ∷ ends returned ∷ []

close_settles_example :
    let b = close (run steps (init 2)) in (1 < b.made → b.futures 1 ≢ none) × (b.queue ≡ [])
close_settles_example = close_settles 2 1 steps

committed_applied_example : holds 0 (run steps (init 2)).applied ≡ true
unfolding run init step
committed_applied_example = committed_applied 2 0 steps refl

abbrev modules : List (ModuleSpec ℕ × ℕ)
modules = (project_spec, 1) ∷ (user_spec, 2) ∷ []

abbrev unique_violation : Raised
unique_violation = dbapi_error (none ∷ some (codes "23505") ∷ [])

abbrev event : Envelope ℕ
event = record {
  id = codes "e1";
  event_type = codes "user.created";
  correlationid = none;
  body = 3;
}

-- A handler that always raises, and counts how often.
abbrev raising : Raised → Handler ℕ ℕ
raising x v s = (raises x, suc s)

abbrev parse_all : ℕ → Option (Envelope ℕ)
parse_all m = some event

abbrev note : Text → ℕ → ℕ
note t s = s

abbrev with_handler : Raised → Registry (Handler ℕ ℕ)
with_handler x = (codes "user.created", raising x) ∷ []

abbrev too_long : Raised
too_long = dbapi_error (some (codes "22001") ∷ [])
