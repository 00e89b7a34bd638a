-- ===== src/Bench/Statistics.antt =====
-- summarize of rabbit-benchmark/benchmark/statistics.py, and the measurements of
-- rabbit-benchmark/benchmark/harness.py that end in it, less the labels of their results. numpy and the
-- arithmetic on floats are a parameter.
pub mod Flags
use rabbit_speed_test.Base.{
  ℕ, zero, suc, Bool, true, false, ◌&&◌, Option, none, some, List, [], ◌∷◌, length, ltb,
  if◌then◌else◌,
}
use rabbit_speed_test.Bench.Harness.{IterationSample, Collected, Attempt, collect}

-- `per_second n ns` is n messages in ns nanoseconds, and `mean_ns` is int(sum(values) / len(values)).
pub record Numpy (F : Type 0) : Type 0 where
  pub zero_float : F
  pub per_second : ℕ → ℕ → F
  pub mean_ns : List ℕ → ℕ
  pub mean : List ℕ → F
  pub median : List ℕ → F
  pub least : List ℕ → F
  pub greatest : List ℕ → F
  pub std : List ℕ → F
  pub percentile : List ℕ → ℕ → F

pub record StatSummary (F : Type 0) : Type 0 where
  pub avg_ns : F
  pub median_ns : F
  pub min_ns : F
  pub max_ns : F
  pub stddev_ns : F
  pub p95_ns : F
  pub p99_ns : F
  pub n_success : ℕ
  pub n_failed : ℕ
  pub messages_per_sec : Option F
  pub total_duration_ns : Option ℕ
  pub failed : Bool

pub record BenchmarkResult (F : Type 0) : Type 0 where
  pub summary : StatSummary F
  pub samples : List IterationSample

module _ {F : Type 0} (np : Numpy F) where
  abbrev pub throughput : Option ℕ → Option ℕ → Option F
  throughput none message_count = none
  throughput (some ns) none = none
  throughput (some ns) (some n) = if ltb 0 ns then some (np.per_second n ns) else none

  unfoldable pub summarize : List ℕ → ℕ → Option ℕ → Option ℕ → StatSummary F
  summarize [] n_failed total_duration_ns message_count = record {
    avg_ns = np.zero_float;
    median_ns = np.zero_float;
    min_ns = np.zero_float;
    max_ns = np.zero_float;
    stddev_ns = np.zero_float;
    p95_ns = np.zero_float;
    p99_ns = np.zero_float;
    n_success = zero;
    n_failed = n_failed;
    messages_per_sec = throughput total_duration_ns message_count;
    total_duration_ns = total_duration_ns;
    failed = true;
  }
  summarize (v ∷ values) n_failed total_duration_ns message_count = record {
    avg_ns = np.mean (v ∷ values);
    median_ns = np.median (v ∷ values);
    min_ns = np.least (v ∷ values);
    max_ns = np.greatest (v ∷ values);
    stddev_ns = np.std (v ∷ values);
    p95_ns = np.percentile (v ∷ values) 95;
    p99_ns = np.percentile (v ∷ values) 99;
    n_success = length (v ∷ values);
    n_failed = n_failed;
    messages_per_sec = throughput total_duration_ns message_count;
    total_duration_ns = total_duration_ns;
    failed = false;
  }

  -- int(sum(values) / len(values)) if values else None
  unfoldable pub mean_duration : List ℕ → Option ℕ
  mean_duration [] = none
  mean_duration (v ∷ values) = some (np.mean_ns (v ∷ values))

  module _ {S : Type 0} (clock : S → ℕ × S) where
    abbrev pub no_setup : Attempt S
    no_setup s = (true, s)

    unfoldable pub timed_iterations : Attempt S → ℕ → ℕ → S → BenchmarkResult F
    unfolding collect summarize
    timed_iterations op warmup measured s =
        let c = collect no_setup op clock warmup measured s in
        record { summary = summarize c.values c.n_failed none none; samples = c.samples }

    unfoldable pub timed_bulk_with_setup : Attempt S → Attempt S → ℕ → ℕ → ℕ → S → BenchmarkResult F
    unfolding collect summarize mean_duration
    timed_bulk_with_setup setup op message_count warmup measured s =
        let c = collect setup op clock warmup measured s in
        record {
          summary = summarize c.values c.n_failed (mean_duration c.values) (some message_count);
          samples = c.samples;
        }

    unfoldable pub timed_bulk : Attempt S → ℕ → ℕ → ℕ → S → BenchmarkResult F
    unfolding timed_bulk_with_setup
    timed_bulk op message_count warmup measured s =
        timed_bulk_with_setup no_setup op message_count warmup measured s
