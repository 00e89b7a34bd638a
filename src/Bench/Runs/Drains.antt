-- ===== src/Bench/Runs/Drains.antt =====
-- Over FakeClient every measured drain succeeds, and concurrent workers share out every message.
use native.Mathlib.Nat.{mul-suc, div-mul-le_self}
use rabbit_speed_test.Base.{
  ℕ, zero, suc, ◌+◌, ◌*◌, ◌/◌, ◌≡◌, ◌≤◌, refl, ap, ◌∙◌, max, Bool, true, false, List, [], ◌∷◌, ◌++◌,
  length, length-append, length-replicate, length-drop, replicate, Text, nat_eq, nat_beq_iff, arith,
}
use rabbit_speed_test.Bench.Fake.{
  Queues, with_queue, take_many, purge_queue, publish_many, consume_many, queue_depth,
}
use rabbit_speed_test.Bench.Fake.Drain.{take_many-drop, own_queue}
use rabbit_speed_test.Bench.Harness.{Attempt, Collected, collect, measure, recorded, timed, warm}
use rabbit_speed_test.Bench.Runs.{
  Config, Bench, preload, drain_all, on_queues, ticking, run_drain, per_worker, total_messages,
  drain_workers, one_run,
}

-- The queue after a preload.
loaded :
    (name : Text) (bodies : List Text) (q : Queues)
    → publish_many name bodies (purge_queue name q) name ≡ bodies
unfolding publish_many purge_queue
loaded name bodies q =
    own_queue name (with_queue name [] q name ++ bodies) (with_queue name [] q)
    ∙ ap (λ l. l ++ bodies) (own_queue name [] q)

-- With one name for the queue and the routing key, the preload succeeds.
preload-ok :
    (config : Config) (bodies : List Text) (q : Queues)
    → config.routing_key ≡ config.queue_name
    → ((preload config bodies q).0 ≡ true)
      × ((preload config bodies q).1 config.queue_name ≡ bodies)
unfolding preload queue_depth
preload-ok config bodies q same =
    let held : publish_many config.routing_key bodies (purge_queue config.queue_name q)
          config.queue_name
        ≡ bodies =
      ap (λ key. publish_many key bodies (purge_queue config.queue_name q) config.queue_name) same
      ∙ loaded config.queue_name bodies q in
    (rw held (ground arith), held)

-- A drain of as many as the queue holds.
drain_all-ok :
    (config : Config) (count : ℕ) (q : Queues)
    → length (q config.queue_name) ≡ count
    → (drain_all config count q).0 ≡ true
unfolding drain_all consume_many
drain_all-ok config count q h = ground (arith, (take_many-drop count (q config.queue_name)).0, h)

module _ {S : Type 0} (setup op : Attempt S) (clock : S → ℕ × S) where
  timed-true :
      (s : S)
      → (setup s).0 ≡ true
      → (op (clock (setup s).1).1).0 ≡ true
      → (timed setup op clock s).0 ≡ true
  unfolding timed
  timed-true s ready done = rw (timed, ready) (rw (timed, done) refl)

  recorded-true :
      (i : ℕ) (r : Bool × ℕ × S) (c : Collected S)
      → r.0 ≡ true
      → ((recorded setup op clock i r c).n_failed ≡ c.n_failed)
        × (length (recorded setup op clock i r c).values ≡ suc (length c.values))
  recorded-true i (true, elapsed, s) c h =
      (refl, length-append c.values (elapsed ∷ []) ∙ omega arith)
  recorded-true i (false, elapsed, s) c h = absurd (ground arith)

  measure-true :
      ((s : S) → (timed setup op clock s).0 ≡ true)
      → (i left : ℕ) (c : Collected S)
      → ((measure setup op clock i left c).n_failed ≡ c.n_failed)
        × (length (measure setup op clock i left c).values ≡ length c.values + left)
  unfolding measure
  measure-true always i zero c = (refl, omega arith)
  measure-true always i (suc left) c =
      let (failed, more) = recorded-true i (timed setup op clock c.state) c (always c.state) in
      let (failed', more') =
        measure-true always (suc i) left
          (recorded setup op clock i (timed setup op clock c.state) c) in
      (failed' ∙ failed, omega (arith, more, more'))

  collect-true :
      ((s : S) → (timed setup op clock s).0 ≡ true)
      → (warmup measured : ℕ) (s : S)
      → ((collect setup op clock warmup measured s).n_failed ≡ 0)
        × (length (collect setup op clock warmup measured s).values ≡ measured)
  unfolding collect
  collect-true always warmup measured s =
      let (failed, more) = measure-true always 0 measured (record {
        samples = [];
        values = [];
        n_failed = 0;
        state = warm setup op clock warmup s;
      }) in
      (failed, more ∙ omega arith)

-- run_drain over FakeClient, with the queue as the routing key: whatever the queues hold before and
-- whatever the clock says, every measured iteration succeeds, so there are as many values as
-- iterations and no failure.
run_drain-ok :
    {T : Type 0} (clock : T → ℕ × T) (config : Config) (body : Text) (b : Bench T)
    → config.routing_key ≡ config.queue_name
    → ((run_drain clock config body b).n_failed ≡ 0)
      × (length (run_drain clock config body b).values ≡ config.iterations)
unfolding run_drain
run_drain-ok clock config body b same =
    let bodies = replicate config.message_count body in
    let setup = on_queues (preload config bodies) in
    let op = on_queues (drain_all config config.message_count) in
    collect-true setup op (ticking clock)
      (λ (q, t).
        let (ready, held) = preload-ok config bodies q same in
        timed-true setup op (ticking clock) (q, t) ready
          (drain_all-ok config config.message_count (preload config bodies q).1
            (ap length held ∙ length-replicate config.message_count body)))
      config.warmup_iterations config.iterations b

-- n workers that take `per` each from a queue of per * n.
drain_workers-sum :
    (name : Text) (per n : ℕ) (q : Queues)
    → length (q name) ≡ per * n
    → ((drain_workers name per n q).0 ≡ per * n)
      × (length ((drain_workers name per n q).1 name) ≡ 0)
unfolding drain_workers consume_many
drain_workers-sum name per zero q h = (omega arith, omega (arith, h))
drain_workers-sum name per (suc n) q h =
    let (taken, left) = take_many-drop per (q name) in
    let q' = with_queue name (take_many per (q name)).1 q in
    let rest : length (q' name) ≡ per * n =
      ap length (own_queue name (take_many per (q name)).1 q ∙ left)
      ∙ length-drop per (q name)
      ∙ omega (arith, h, mul-suc per n) in
    let (sum, empty) = drain_workers-sum name per n q' rest in
    (omega (arith, taken, sum, h, mul-suc per n), empty)

shared_bound : (m n count : ℕ) → m * n ≤ count → max 1 m * n ≤ max n count
shared_bound zero n count h = omega arith
shared_bound (suc k) n count h =
    let larger : max 1 (suc k) ≡ suc k = omega arith in rw larger (omega (arith, h))

-- concurrent_consume over FakeClient, with the queue as the routing key and n workers: no run is
-- under-drained, whether or not n divides the message count or exceeds it, nothing is left in the
-- queue, and the run uses no more messages than the larger of n and the message count.
one_run-ok :
    (config : Config) (body : Text) (n : ℕ) (q : Queues)
    → config.routing_key ≡ config.queue_name
    → 1 ≤ n
    → ((one_run config body n q).0 ≡ true)
      × (length ((one_run config body n q).1 config.queue_name) ≡ 0)
      × (total_messages config.message_count n ≤ max n config.message_count)
unfolding one_run total_messages per_worker
one_run-ok config body n q same some_worker =
    let total = total_messages config.message_count n in
    let (ready, held) = preload-ok config (replicate total body) q same in
    let (sum, empty) =
      drain_workers-sum config.queue_name (per_worker config.message_count n) n
        (preload config (replicate total body) q).1
        (ap length held ∙ length-replicate total body) in
    (
      rw (one_run, ready) ((nat_beq_iff _ _).1 sum),
      rw (one_run, ready) empty,
      shared_bound (config.message_count / n) n config.message_count
          (div-mul-le_self config.message_count n),
    )
