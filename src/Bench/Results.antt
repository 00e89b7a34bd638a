-- ===== src/Bench/Results.antt =====
-- The results of rabbit-benchmark/benchmark/results.py as JSON: asdict of a suite. The
-- fields of a dataclass hold any value, as Python checks no type.
pub mod Load
pub mod Rows
use rabbit_speed_test.Base.{
  ℕ, ◌≡◌, Bool, true, false, ◌&&◌, ◌||◌, Option, none, some, List, [], ◌∷◌, ◌++◌, Text, codes,
  contains, ◌==◌, nat_eq, list_eq, if◌then◌else◌,
}

-- The values of JSON. `negative n` is -(n + 1), and a float is its bit pattern.
mutual
  pub data Json : Type 0 where
    null : Json
    boolean : Bool → Json
    integer : ℕ → Json
    negative : ℕ → Json
    float : ℕ → Json
    string : Text → Json
    array : Items → Json
    object : Entries → Json

  pub data Items : Type 0 where
    end_items : Items
    item : Json → Items → Items

  pub data Entries : Type 0 where
    end_entries : Entries
    entry : Text → Json → Entries → Entries

pub record IterationSample : Type 0 where
  pub client : Json
  pub benchmark : Json
  pub iteration : Json
  pub value_ns : Json
  pub success : Json
  pub error : Json
  pub params : Json

pub record EnvironmentInfo : Type 0 where
  pub python_version : Json
  pub os_platform : Json
  pub cpu_model : Json
  pub cpu_count : Json
  pub total_memory_bytes : Json
  pub rabbitmq_version : Json

-- StatSummary of rabbit-benchmark/benchmark/statistics.py
pub record StatSummary : Type 0 where
  pub avg_ns : Json
  pub median_ns : Json
  pub min_ns : Json
  pub max_ns : Json
  pub stddev_ns : Json
  pub p95_ns : Json
  pub p99_ns : Json
  pub n_success : Json
  pub n_failed : Json
  pub messages_per_sec : Json
  pub total_duration_ns : Json
  pub failed : Json

pub record BenchmarkResult : Type 0 where
  pub client : Json
  pub benchmark : Json
  pub params : Json
  pub summary : StatSummary
  pub samples : List IterationSample

pub record BenchmarkSuiteResult : Type 0 where
  pub timestamp : Json
  pub config : Json
  pub environment : EnvironmentInfo
  pub results : List BenchmarkResult

-- asdict
unfoldable pub sample_dict : IterationSample → Json
sample_dict s = object (
    entry (codes "client") s.client (
      entry (codes "benchmark") s.benchmark (
        entry (codes "iteration") s.iteration (
          entry (codes "value_ns") s.value_ns (
            entry (codes "success") s.success
              (entry (codes "error") s.error (entry (codes "params") s.params end_entries)))))))

unfoldable pub environment_dict : EnvironmentInfo → Json
environment_dict e = object (
    entry (codes "python_version") e.python_version (
      entry (codes "os_platform") e.os_platform (
        entry (codes "cpu_model") e.cpu_model (
          entry (codes "cpu_count") e.cpu_count (
            entry (codes "total_memory_bytes") e.total_memory_bytes
              (entry (codes "rabbitmq_version") e.rabbitmq_version end_entries))))))

-- The entries of a summary before its flag.
unfoldable pub stats_before : StatSummary → Entries → Entries
stats_before s rest = entry (codes "avg_ns") s.avg_ns (
    entry (codes "median_ns") s.median_ns (
      entry (codes "min_ns") s.min_ns (
        entry (codes "max_ns") s.max_ns (
          entry (codes "stddev_ns") s.stddev_ns (
            entry (codes "p95_ns") s.p95_ns (
              entry (codes "p99_ns") s.p99_ns (
                entry (codes "n_success") s.n_success (
                  entry (codes "n_failed") s.n_failed (
                    entry (codes "messages_per_sec") s.messages_per_sec
                      (entry (codes "total_duration_ns") s.total_duration_ns rest))))))))))

unfoldable pub summary_dict : StatSummary → Json
unfolding stats_before
summary_dict s = object (stats_before s (entry (codes "failed") s.failed end_entries))

unfoldable pub sample_dicts : List IterationSample → Items
unfolding sample_dict
sample_dicts [] = end_items
sample_dicts (s ∷ rest) = item (sample_dict s) (sample_dicts rest)

-- A result with the dict of its summary.
unfoldable pub result_dict : (StatSummary → Json) → BenchmarkResult → Json
unfolding sample_dicts
result_dict summary r = object (
    entry (codes "client") r.client (
      entry (codes "benchmark") r.benchmark (
        entry (codes "params") r.params (
          entry (codes "summary") (summary r.summary)
            (entry (codes "samples") (array (sample_dicts r.samples)) end_entries)))))

unfoldable pub result_dicts : (StatSummary → Json) → List BenchmarkResult → Items
unfolding result_dict
result_dicts summary [] = end_items
result_dicts summary (r ∷ rest) = item (result_dict summary r) (result_dicts summary rest)

unfoldable pub suite_dict : (StatSummary → Json) → BenchmarkSuiteResult → Json
unfolding environment_dict result_dicts
suite_dict summary s = object (
    entry (codes "timestamp") s.timestamp (
      entry (codes "config") s.config (
        entry (codes "environment") (environment_dict s.environment)
          (entry (codes "results") (array (result_dicts summary s.results)) end_entries))))
