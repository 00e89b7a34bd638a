-- ===== src/Tests/Container.antt =====
-- A container that serves the API and consumes until it is shut down, with a bus that raises as it
-- closes.
use rabbit_speed_test.Base.{not, ◌==◌, nat_eq, ◌≡◌, refl, true, false, none, some, [], ◌∷◌}
use rabbit_speed_test.Outcome.{ok}
use rabbit_speed_test.Container.{
  Ends, both, Container, running, start, cancel_consumer, close_batcher, close_bus, dispose_engine,
}
use rabbit_speed_test.Container.Lifespan.{
  still_running, at_end, runs_consumer, lifespan, run_consumer,
}
use rabbit_speed_test.Container.Lifespan.Shutdown.{IsDown, task_at_end, lifespan-IsDown}

abbrev new : Container
new = record {
  service_mode = both;
  batchers = false ∷ false ∷ [];
  connected = false;
  consumer_task = none;
  actions = [];
}

abbrev bus_raises : Ends
bus_raises i = not (i == 2)

lifespan-IsDown_example :
    let s = (start true new).1 in
    IsDown bus_raises
      (record s { consumer_task = task_at_end (runs_consumer s.service_mode) still_running s })
      (lifespan true still_running bus_raises (ok tt) new).1
    × IsDown bus_raises
        (record s { consumer_task = at_end still_running (some running) })
        (run_consumer true still_running bus_raises (ok tt) new).1
unfolding start
lifespan-IsDown_example = lifespan-IsDown true bus_raises still_running (ok tt) new refl

actions_there :
    (lifespan true still_running (λ i. true) (ok tt) new).1.actions
    ≡ cancel_consumer ∷ close_batcher ∷ close_batcher ∷ close_bus ∷ dispose_engine ∷ []
unfolding lifespan
actions_there = refl
