-- ===== src/Bench/Runs.antt =====
-- Benchmark runs over FakeClient: rabbit-benchmark/benchmark/benchmarks/preload.py,
-- consume_throughput.py and concurrent_consume.py. The clock is a parameter.
pub mod Drains
use rabbit_speed_test.Base.{
  ℕ, zero, suc, ◌+◌, ◌*◌, ◌/◌, max, Bool, true, false, List, [], ◌∷◌, length, replicate, Text, ◌==◌,
  nat_eq, leb, if◌then◌else◌,
}
use rabbit_speed_test.Bench.Fake.{Queues, purge_queue, publish_many, consume_many, queue_depth}
use rabbit_speed_test.Bench.Harness.{Attempt, Collected, collect}

-- What a run of the benchmarks reads of the configuration.
pub record Config : Type 0 where
  pub queue_name : Text
  pub routing_key : Text
  pub message_count : ℕ
  pub iterations : ℕ
  pub warmup_iterations : ℕ

-- The queues, and the state of the clock.
abbrev pub Bench : Type 0 → Type 0
Bench T = Queues × T

-- preload: purge, publish, and wait for the depth. Nobody else fills a queue of FakeClient, so the
-- first look at the depth decides: a shortfall ends at the deadline with an exception.
unfoldable pub preload : Config → List Text → Queues → Bool × Queues
unfolding purge_queue publish_many queue_depth
preload config bodies q =
    let q' = publish_many config.routing_key bodies (purge_queue config.queue_name q) in
    (leb (length bodies) (queue_depth config.queue_name q'), q')

-- The operation that run_drain times: a short drain raises.
unfoldable pub drain_all : Config → ℕ → Queues → Bool × Queues
unfolding consume_many
drain_all config count q =
    let (drained, q') = consume_many config.queue_name count q in (drained == count, q')

abbrev pub on_queues : {T : Type 0} → (Queues → Bool × Queues) → Attempt (Bench T)
on_queues f (q, t) = let (done, q') = f q in (done, (q', t))

abbrev pub ticking : {T : Type 0} → (T → ℕ × T) → Bench T → ℕ × Bench T
ticking clock (q, t) = let (now, t') = clock t in (now, (q, t'))

-- run_drain for one size of message, with consume_many.
unfoldable pub run_drain :
    {T : Type 0} → (T → ℕ × T) → Config → Text → Bench T → Collected (Bench T)
unfolding preload drain_all collect
run_drain clock config body b =
    let count = config.message_count in
    collect (on_queues (preload config (replicate count body))) (on_queues (drain_all config count))
      (ticking clock) config.warmup_iterations config.iterations b

-- concurrent_consume: what one of n workers takes, and all of them.
unfoldable pub per_worker : ℕ → ℕ → ℕ
per_worker count n = max 1 (count / n)

unfoldable pub total_messages : ℕ → ℕ → ℕ
unfolding per_worker
total_messages count n = per_worker count n * n

-- The workers of FakeClient are the client itself, and consume_many has no await, so that they drain
-- one after the other; the sum of their counts.
unfoldable pub drain_workers : Text → ℕ → ℕ → Queues → ℕ × Queues
unfolding consume_many
drain_workers name per zero q = (zero, q)
drain_workers name per (suc n) q =
    let (drained, q₁) = consume_many name per q in
    let (rest, q₂) = drain_workers name per n q₁ in (drained + rest, q₂)

-- _one_run of concurrent_consume with n workers, less its clock; `false` is an exception.
unfoldable pub one_run : Config → Text → ℕ → Queues → Bool × Queues
unfolding preload drain_workers per_worker total_messages
one_run config body n q =
    let total = total_messages config.message_count n in
    let (ready, q₁) = preload config (replicate total body) q in
    let (sum, q₂) = drain_workers config.queue_name (per_worker config.message_count n) n q₁ in
    if ready then (sum == total, q₂) else (false, q₁)
