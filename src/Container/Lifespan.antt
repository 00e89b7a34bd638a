-- ===== src/Container/Lifespan.antt =====
-- The two processes around a container: the lifespan of create_app in
-- shared_data_service/app/api/app.py, and run_consumer of
-- shared_data_service/app/bootstrap/consumer_runner.py, with _on_consumer_done. That stop itself is
-- cancelled at one of its awaits is left out.
pub mod Shutdown
use rabbit_speed_test.Base.{
  Bool, true, false, Option, none, some, List, [], ◌∷◌, ◌++◌, map, if◌then◌else◌,
}
use rabbit_speed_test.Outcome.{Outcome, ok, err, unwound, Error}
use rabbit_speed_test.Container.{
  Ends, ServiceMode, api, consumer, both, Task, running, done, Container, start, start_consumer,
  stop,
}

-- Where the consumer's task stands as the process ends: it runs, it returned or raised, or it was
-- cancelled.
pub data ConsumerEnd : Type 0 where
  still_running by_itself was_cancelled : ConsumerEnd

-- _on_consumer_done: whether the end of the task is logged as critical.
unfoldable pub on_consumer_done : ConsumerEnd → Bool
on_consumer_done still_running = false
on_consumer_done by_itself = true
on_consumer_done was_cancelled = false

abbrev pub task_of : ConsumerEnd → Task
task_of still_running = running
task_of by_itself = done
task_of was_cancelled = done

-- The task that was started, at the end of the process.
abbrev pub at_end : ConsumerEnd → Option Task → Option Task
at_end e none = none
at_end e (some t) = some (task_of e)

abbrev pub runs_consumer : ServiceMode → Bool
runs_consumer api = false
runs_consumer consumer = true
runs_consumer both = true

-- A `finally`: an exception of its block takes the place of an earlier end.
abbrev pub finally_ends :
    Outcome (Unit {0}) → Outcome (Unit {0}) × Container → Outcome (Unit {0}) × Container
finally_ends body (ok u, c) = (body, c)
finally_ends body (e, c) = (e, c)

-- The lifespan; `connects` tells whether the bus connects, `ends` how the awaits of stop end, `body` how
-- the yield ends, and `e` what has become of the consumer by then.
abbrev pub started_up :
    ConsumerEnd
    → Ends
    → Outcome (Unit {0})
    → Outcome (Unit {0}) × Container
    → Outcome (Unit {0}) × Container
started_up e ends body (ok u, c) =
    let s = if runs_consumer c.service_mode then start_consumer c else c in
    finally_ends body (stop ends (record s { consumer_task = at_end e s.consumer_task }))
started_up e ends body (x, c) = (x, c)

unfoldable pub lifespan :
    Bool → ConsumerEnd → Ends → Outcome (Unit {0}) → Container → Outcome (Unit {0}) × Container
unfolding start start_consumer stop
lifespan connects e ends body c = started_up e ends body (start connects c)

-- How the await of the consumer's task ends; a task that runs on is awaited until it is cancelled.
abbrev pub awaited : ConsumerEnd → Outcome (Unit {0}) → Outcome (Unit {0})
awaited by_itself ended = ended
awaited e ended = unwound

abbrev pub consumer_started :
    ConsumerEnd
    → Ends
    → Outcome (Unit {0})
    → Outcome (Unit {0}) × Container
    → Outcome (Unit {0}) × Container
consumer_started e ends ended (ok u, c) =
    let s = start_consumer c in
    finally_ends (awaited e ended)
      (stop ends (record s { consumer_task = at_end e s.consumer_task }))
consumer_started e ends ended (x, c) = (x, c)

unfoldable pub run_consumer :
    Bool → ConsumerEnd → Ends → Outcome (Unit {0}) → Container → Outcome (Unit {0}) × Container
unfolding start start_consumer stop
run_consumer connects e ends ended c = consumer_started e ends ended (start connects c)
