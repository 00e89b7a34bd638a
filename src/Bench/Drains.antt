-- ===== src/Bench/Drains.antt =====
-- The push drains of the benchmark clients: _consume_many_sync of
-- rabbit-benchmark/benchmark/clients/pika_client.py, consume_many of aio_pika_client.py, which has the
-- same loop, and consume_many of rabbit_client_bench.py with its quota.
pub mod Quotas
use rabbit_speed_test.Base.{
  ℕ, zero, suc, Bool, true, false, ◌&&◌, List, [], ◌∷◌, ◌++◌, length, leb, nat_eq, ◌==◌,
  if◌then◌else◌,
}

-- The loop over the deliveries that arrive before the queue is silent for too long: the tags that it
-- acks, one by one.
unfoldable pub drain_from : ℕ → ℕ → List ℕ → List ℕ
drain_from count consumed [] = []
drain_from count consumed (tag ∷ rest) =
    let more = drain_from count (suc consumed) rest in
    if leb count (suc consumed) then tag ∷ [] else tag ∷ more

-- The tags that are acked; the result is their number.
unfoldable pub consume_many : ℕ → List ℕ → List ℕ
unfolding drain_from
consume_many count deliveries = if count == 0 then [] else drain_from count zero deliveries

-- The variables of RabbitClientBench.consume_many; `accepted` and `refused` are the deliveries for
-- which the handler returned and raised.
pub record Drain : Type 0 where
  pub count : ℕ
  pub n : ℕ
  pub before : ℕ
  pub done : Bool
  pub waiting : Bool
  pub accepted : List ℕ
  pub refused : List ℕ

unfoldable pub drain_init : ℕ → Drain
drain_init count = record {
  count = count;
  n = zero;
  before = zero;
  done = false;
  waiting = true;
  accepted = [];
  refused = [];
}

-- The handler, which has no await. A raise lets RabbitClient requeue the delivery.
unfoldable pub handler : ℕ → Drain → Drain
handler tag d = if leb d.count d.n then record d { refused = d.refused ++ tag ∷ [] } else record d {
  n = suc d.n;
  accepted = d.accepted ++ tag ∷ [];
  done = if leb d.count (suc d.n) then true else d.done;
}

pub data Event : Type 0 where
  deliver : ℕ → Event
  -- wait_for returns as the event is set, or its timeout passes
  woken timed_out : Event
  -- the task that drains is cancelled
  cancelled : Event

-- The loop after a wait; where it ends, the consumer is cancelled.
unfoldable pub after_wait : Drain → Drain
after_wait d = if d.done then record d { waiting = false } else record d { before = d.n }

unfoldable pub step : Event → Drain → Drain
unfolding handler after_wait
step (deliver tag) d = handler tag d
step woken d = if d.waiting && d.done then after_wait d else d
step timed_out d =
    if d.waiting
    then (if d.n == d.before then record d { waiting = false } else after_wait d)
    else d
step cancelled d = record d { waiting = false }

unfoldable pub run_events : List Event → Drain → Drain
unfolding step
run_events [] d = d
run_events (e ∷ events) d = run_events events (step e d)
