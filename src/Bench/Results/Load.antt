-- ===== src/Bench/Results/Load.antt =====
-- load_json and save_json of rabbit-benchmark/benchmark/results.py. The text of JSON is a parameter.
pub mod RoundTrip
use rabbit_speed_test.Base.{
  ℕ, ◌≡◌, Bool, true, false, ◌&&◌, ◌||◌, Option, none, some, List, [], ◌∷◌, Text, codes, contains,
  ◌==◌, nat_eq, list_eq, if◌then◌else◌,
}
use rabbit_speed_test.Bench.Results.{
  Json, null, boolean, integer, negative, float, string, array, object, Items, end_items, item,
  Entries, end_entries, entry, IterationSample, EnvironmentInfo, StatSummary, BenchmarkResult,
  BenchmarkSuiteResult, suite_dict, summary_dict,
}

-- `none` is an exception.
infixl 5 ◌>>=◌
abbrev pub ◌>>=◌ : {A B : Type 0} → Option A → (A → Option B) → Option B
none >>= f = none
some a >>= f = f a

-- d[key]
abbrev pub get : Text → Entries → Option Json
get key end_entries = none
get key (entry k v rest) = if k == key then some v else get key rest

abbrev pub get_or : Text → Json → Entries → Json
get_or key d e = elim (get key e) [ none ↦ d | some v ↦ v ]

-- The keys are keywords of the class.
abbrev pub takes : List Text → Entries → Bool
takes names end_entries = true
takes names (entry k v rest) = contains k names && takes names rest

abbrev pub entries_of : Json → Option Entries
entries_of (object e) = some e
entries_of j = none

-- The characters of a text and the keys of a dict, when they are iterated over.
abbrev pub chars : Text → List Json
chars [] = []
chars (c ∷ rest) = string (c ∷ []) ∷ chars rest

abbrev pub keys : Entries → List Json
keys end_entries = []
keys (entry k v rest) = string k ∷ keys rest

abbrev pub elements : Items → List Json
elements end_items = []
elements (item j rest) = j ∷ elements rest

abbrev pub iterated : Json → Option (List Json)
iterated (array items) = some (elements items)
iterated (object e) = some (keys e)
iterated (string t) = some (chars t)
iterated j = none

abbrev pub each : {A : Type 0} → (Json → Option A) → List Json → Option (List A)
each f [] = some []
each f (j ∷ rest) = f j >>= λ a. each f rest >>= λ others. some (a ∷ others)

-- IterationSample(**s)
unfoldable pub sample_from : Json → Option IterationSample
sample_from j = entries_of j >>= λ e. get (codes "client") e >>= λ client.
    get (codes "benchmark") e >>= λ benchmark. get (codes "iteration") e >>= λ iteration.
    get (codes "value_ns") e >>= λ value_ns. get (codes "success") e >>= λ success.
    get (codes "error") e >>= λ error.
    if takes
      (codes "client"
        ∷ codes "benchmark"
        ∷ codes "iteration"
        ∷ codes "value_ns"
        ∷ codes "success"
        ∷ codes "error"
        ∷ codes "params"
        ∷ [])
      e
    then some (record {
      client = client;
      benchmark = benchmark;
      iteration = iteration;
      value_ns = value_ns;
      success = success;
      error = error;
      params = get_or (codes "params") (object end_entries) e;
    })
    else none

-- EnvironmentInfo(**data["environment"])
unfoldable pub environment_from : Json → Option EnvironmentInfo
environment_from j = entries_of j >>= λ e. get (codes "python_version") e >>= λ python_version.
    get (codes "os_platform") e >>= λ os_platform. get (codes "cpu_model") e >>= λ cpu_model.
    get (codes "cpu_count") e >>= λ cpu_count.
    get (codes "total_memory_bytes") e >>= λ total_memory_bytes.
    get (codes "rabbitmq_version") e >>= λ rabbitmq_version.
    if takes
      (codes "python_version"
        ∷ codes "os_platform"
        ∷ codes "cpu_model"
        ∷ codes "cpu_count"
        ∷ codes "total_memory_bytes"
        ∷ codes "rabbitmq_version"
        ∷ [])
      e
    then some (record {
      python_version = python_version;
      os_platform = os_platform;
      cpu_model = cpu_model;
      cpu_count = cpu_count;
      total_memory_bytes = total_memory_bytes;
      rabbitmq_version = rabbitmq_version;
    })
    else none

-- v == 0; both zeros of the floats are, and so is False.
abbrev pub equals_zero : Json → Bool
equals_zero (integer n) = n == 0
equals_zero (float bits) = bits == 0 || bits == 9223372036854775808
equals_zero (boolean b) = if b then false else true
equals_zero j = false

-- StatSummary(**sd), after sd.setdefault("failed", sd.get("n_success", 0) == 0). A summary that is no
-- object is refused; Python's dict() would also take a list of pairs.
unfoldable pub summary_from : Json → Option StatSummary
summary_from j = entries_of j >>= λ e. get (codes "avg_ns") e >>= λ avg_ns.
    get (codes "median_ns") e >>= λ median_ns. get (codes "min_ns") e >>= λ min_ns.
    get (codes "max_ns") e >>= λ max_ns. get (codes "stddev_ns") e >>= λ stddev_ns.
    get (codes "p95_ns") e >>= λ p95_ns. get (codes "p99_ns") e >>= λ p99_ns.
    get (codes "n_success") e >>= λ n_success. get (codes "n_failed") e >>= λ n_failed.
    if takes
      (codes "avg_ns"
        ∷ codes "median_ns"
        ∷ codes "min_ns"
        ∷ codes "max_ns"
        ∷ codes "stddev_ns"
        ∷ codes "p95_ns"
        ∷ codes "p99_ns"
        ∷ codes "n_success"
        ∷ codes "n_failed"
        ∷ codes "messages_per_sec"
        ∷ codes "total_duration_ns"
        ∷ codes "failed"
        ∷ [])
      e
    then some (record {
      avg_ns = avg_ns;
      median_ns = median_ns;
      min_ns = min_ns;
      max_ns = max_ns;
      stddev_ns = stddev_ns;
      p95_ns = p95_ns;
      p99_ns = p99_ns;
      n_success = n_success;
      n_failed = n_failed;
      messages_per_sec = get_or (codes "messages_per_sec") null e;
      total_duration_ns = get_or (codes "total_duration_ns") null e;
      failed = get_or (codes "failed") (boolean (equals_zero n_success)) e;
    })
    else none

-- One turn of the loop over data["results"].
unfoldable pub result_from : Json → Option BenchmarkResult
unfolding summary_from sample_from
result_from j = entries_of j >>= λ e. (get (codes "summary") e >>= summary_from) >>= λ summary.
    (get (codes "samples") e >>= iterated) >>= λ list. each sample_from list >>= λ samples.
    get (codes "client") e >>= λ client. get (codes "benchmark") e >>= λ benchmark.
    get (codes "params") e >>= λ params. some (record {
      client = client;
      benchmark = benchmark;
      params = params;
      summary = summary;
      samples = samples;
    })

unfoldable pub suite_from : Json → Option BenchmarkSuiteResult
unfolding environment_from result_from
suite_from j = entries_of j >>= λ e.
    (get (codes "environment") e >>= environment_from) >>= λ environment.
    (get (codes "results") e >>= iterated) >>= λ list. each result_from list >>= λ results.
    get (codes "timestamp") e >>= λ timestamp. get (codes "config") e >>= λ config. some (record {
      timestamp = timestamp;
      config = config;
      environment = environment;
      results = results;
    })

-- json.dump and json.load over the contents of a file: the values of Python have each key once.
pub record Codec (B : Type 0) : Type 0 where
  pub dump : Json → B
  pub parse : B → Option Json
  pub parse-dump : (j : Json) → parse (dump j) ≡ some j

-- The contents that save_json writes, and load_json on it.
unfoldable pub save_json : {B : Type 0} → Codec B → BenchmarkSuiteResult → B
unfolding suite_dict summary_dict
save_json codec suite = codec.dump (suite_dict summary_dict suite)

unfoldable pub load_json : {B : Type 0} → Codec B → B → Option BenchmarkSuiteResult
unfolding suite_from
load_json codec content = codec.parse content >>= suite_from
