-- ===== src/Container.antt =====
-- The life cycle of the process: start, start_consumer, stop and readiness of
-- shared_data_service/app/bootstrap/container.py, and GET /ready of shared_data_service/app/api/health.py.
-- How the bus, the database and the consumer's task end is an argument.
pub mod Restart
pub mod Lifespan
use rabbit_speed_test.Base.{
  ℕ, zero, suc, length, Bool, true, false, not, ◌||◌, ◌&&◌, Option, none, some, List, [], ◌∷◌, ◌++◌,
  map, any_of, all_of, Text, codes, if◌then◌else◌,
}
use rabbit_speed_test.Outcome.{Outcome, ok, err, database}

-- settings.service_mode
pub data ServiceMode : Type 0 where
  api consumer both : ServiceMode

-- The consumer's task, as far as stop and readiness tell it: it runs, or it is done.
pub data Task : Type 0 where
  running done : Task

-- What stop does to the outside, in its order.
pub data Action : Type 0 where
  cancel_consumer close_batcher close_bus dispose_engine : Action

pub record Container : Type 0 where
  pub service_mode : ServiceMode
  -- one for each module: is the batcher closed
  pub batchers : List Bool
  pub connected : Bool
  pub consumer_task : Option Task
  pub actions : List Action

-- _build_consumer_graph: new batchers for the same modules
unfoldable pub build_consumer_graph : Container → Container
build_consumer_graph c = record c { batchers = map (λ b. false) c.batchers }

-- start(); the argument tells whether bus.connect() returns
unfoldable pub start : Bool → Container → Outcome (Unit {0}) × Container
unfolding build_consumer_graph
start connects c =
    let c' = if any_of (λ b. b) c.batchers then build_consumer_graph c else c in
    if connects then (ok tt, record c' { connected = true }) else (err database, c')

unfoldable pub start_consumer : Container → Container
start_consumer c = record c { consumer_task = some running }

-- The first part of stop: a task that is not done is cancelled and awaited.
abbrev pub stop_consumer : Option Task → Container → Container
stop_consumer (some running) c = record c {
  consumer_task = some done;
  actions = c.actions ++ cancel_consumer ∷ [];
}
stop_consumer _ c = c

-- Whether each await of stop returns or raises, by its number: those of the batchers, then that of
-- bus.close() and that of engine.dispose().
abbrev pub Ends : Type 0
Ends = ℕ → Bool

-- What the loop over the batchers leaves: whether it ran to its end, the batchers and the calls.
pub record Closing : Type 0 where
  pub finished : Bool
  pub batchers : List Bool
  pub actions : List Action

-- Batcher.close sets its flag before its await, so a batcher whose close raises is closed.
unfoldable pub close_batchers : Ends → ℕ → List Bool → Closing
close_batchers ends i [] = record { finished = true; batchers = []; actions = [] }
close_batchers ends i (b ∷ bs) =
    let rest = close_batchers ends (suc i) bs in
    if ends i
    then record {
      finished = rest.finished;
      batchers = true ∷ rest.batchers;
      actions = close_batcher ∷ rest.actions;
    }
    else record { finished = false; batchers = true ∷ bs; actions = close_batcher ∷ [] }

-- engine.dispose(), that after bus.close(), and both after the loop.
abbrev pub disposed : Bool → Container → Outcome (Unit {0}) × Container
disposed true c = (ok tt, record c { actions = c.actions ++ dispose_engine ∷ [] })
disposed false c = (err database, record c { actions = c.actions ++ dispose_engine ∷ [] })

abbrev pub bus_closed : Bool → Bool → Container → Outcome (Unit {0}) × Container
bus_closed true disposes c =
    disposed disposes (record c { connected = false; actions = c.actions ++ close_bus ∷ [] })
bus_closed false disposes c = (err database, record c { actions = c.actions ++ close_bus ∷ [] })

abbrev pub loop_ended : Bool → Bool → Bool → Container → Outcome (Unit {0}) × Container
loop_ended true closes disposes c = bus_closed closes disposes c
loop_ended false closes disposes c = (err database, c)

-- stop() after its first part.
abbrev pub stop_rest : Ends → Container → Outcome (Unit {0}) × Container
stop_rest ends s =
    let n = length s.batchers in
    let b = close_batchers ends zero s.batchers in
    loop_ended b.finished (ends n) (ends (suc n))
      (record s { batchers = b.batchers; actions = s.actions ++ b.actions })

-- stop()
unfoldable pub stop : Ends → Container → Outcome (Unit {0}) × Container
unfolding close_batchers
stop ends c = stop_rest ends (stop_consumer c.consumer_task c)

abbrev pub is_running : Option Task → Bool
is_running (some running) = true
is_running _ = false

-- readiness(); the argument tells whether SELECT 1 answers in time
unfoldable pub readiness : Bool → Container → List (Text × Bool)
readiness db_ok c =
    let checks = (codes "database", db_ok) ∷ (codes "rabbitmq", c.connected) ∷ [] in
    elim c.service_mode [
      | api ↦ checks
      | consumer ↦ checks ++ (codes "consumer", is_running c.consumer_task) ∷ []
      | both ↦ checks ++ (codes "consumer", is_running c.consumer_task) ∷ []
    ]

-- GET /ready
unfoldable pub ready : Bool → Container → ℕ
unfolding readiness
ready db_ok c = if all_of (λ p. p.1) (readiness db_ok c) then 200 else 503
