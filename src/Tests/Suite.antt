-- ===== src/Tests/Suite.antt =====
-- A suite of two clients of which the second raises in its second benchmark, a saved suite, a load on
-- two processes, and a drain.
use rabbit_speed_test.Base.{
  ℕ, ◌+◌, ◌≡◌, ◌↔◌, refl, Bool, true, false, none, some, List, [], ◌∷◌, length, Text, codes, ◌==◌,
  nat_eq, list_eq, ◌&&◌, arith, if◌then◌else◌,
}
use rabbit_speed_test.Bench.Suite.{Ended, returned, raised, World, run_suite}
use rabbit_speed_test.Bench.Suite.Brackets.{open_after, run_suite-IsOpen}
use rabbit_speed_test.Bench.Suite.Plan.{Follows, planned, ran_of, results_of}
use rabbit_speed_test.Bench.Suite.Stages.{run_suite-Follows}
use rabbit_speed_test.Bench.Results.{
  Json, null, boolean, integer, float, string, object, end_entries, BenchmarkSuiteResult,
}
use rabbit_speed_test.Bench.Results.Load.{Codec, save_json, load_json}
use rabbit_speed_test.Bench.Results.Load.RoundTrip.{load_json-save_json}
use rabbit_speed_test.Bench.Statistics.{Numpy, timed_bulk_with_setup}
use rabbit_speed_test.Bench.Statistics.Flags.{timed_bulk_with_setup-IsHonest}
use rabbit_speed_test.Bench.Harness.Counts.{succeeded}
use rabbit_speed_test.Loadgen.{create, post_user, phase_requests, Response}
use rabbit_speed_test.Loadgen.Shares.{phase_requests-made_for}
use rabbit_speed_test.Bench.Drains.{deliver, woken, timed_out, run_events, drain_init}
use rabbit_speed_test.Bench.Drains.Quotas.{IsQuota, run_events-IsQuota}

-- The world counts the calls; a result is the number of its call.
abbrev quiet_call : Text → ℕ → Ended (Unit {0}) × ℕ
quiet_call name n = (returned tt, n + 1)

abbrev two_clients : List Text
two_clients = codes "a" ∷ codes "b" ∷ []

abbrev two_benchmarks : List Text
two_benchmarks = codes "x" ∷ codes "y" ∷ []

abbrev suite_world : World ℕ ℕ
suite_world = record {
  make = quiet_call;
  connect_client = quiet_call;
  delete_client_queue = quiet_call;
  version_of = λ name n. (returned (some (codes "4.0")), n + 1);
  run_fn = λ b name n.
      if (b == codes "y") && (name == codes "b")
      then (raised 7, n + 1)
      else (returned (n ∷ []), n + 1);
  close_client = quiet_call;
}

run_suite-IsOpen_example :
    open_after none (run_suite suite_world two_benchmarks two_clients 0).1.calls ≡ some none
run_suite-IsOpen_example = run_suite-IsOpen suite_world two_benchmarks two_clients 0

run_suite-Follows_example :
    let (r, s) = run_suite suite_world two_benchmarks two_clients 0 in
    Follows (planned two_benchmarks two_clients) r [] (ran_of s.calls)
    × (s.all_results ≡ results_of s.calls)
    × (s.done ≡ length (ran_of s.calls))
run_suite-Follows_example = run_suite-Follows suite_world two_benchmarks two_clients 0

suite_done : (run_suite suite_world two_benchmarks two_clients 0).1.done ≡ 3
unfolding run_suite
suite_done = refl

-- A file that holds its value.
abbrev plain_file : Codec Json
plain_file = record { dump = λ j. j; parse = λ j. some j; parse-dump = λ j. refl }

abbrev saved : BenchmarkSuiteResult
saved = record {
  timestamp = string (codes "2026-07-11");
  config = object end_entries;
  environment = record {
    python_version = string (codes "3.12");
    os_platform = string (codes "Linux");
    cpu_model = string (codes "x");
    cpu_count = integer 8;
    total_memory_bytes = null;
    rabbitmq_version = string (codes "4.0");
  };
  results =
      record {
        client = string (codes "pika");
        benchmark = string (codes "round_trip");
        params = object end_entries;
        summary = record {
          avg_ns = float 5;
          median_ns = float 5;
          min_ns = float 5;
          max_ns = float 5;
          stddev_ns = float 0;
          p95_ns = float 5;
          p99_ns = float 5;
          n_success = integer 1;
          n_failed = integer 0;
          messages_per_sec = null;
          total_duration_ns = null;
          failed = boolean false;
        };
        samples =
            record {
              client = string (codes "pika");
              benchmark = string (codes "round_trip");
              iteration = integer 0;
              value_ns = integer 5;
              success = boolean true;
              error = null;
              params = object end_entries;
            }
            ∷ [];
      }
      ∷ [];
}

load_json-save_json_example : load_json plain_file (save_json plain_file saved) ≡ some saved
load_json-save_json_example = load_json-save_json plain_file saved

-- Floats that are numbers.
abbrev whole_numbers : Numpy ℕ
whole_numbers = record {
  zero_float = 0;
  per_second = λ n ns. n;
  mean_ns = λ values. 1;
  mean = λ values. 1;
  median = λ values. 1;
  least = λ values. 1;
  greatest = λ values. 1;
  std = λ values. 0;
  percentile = λ values p. 1;
}

-- The operation fails at its third call, the clock ticks at every look.
abbrev ticking : ℕ → ℕ × ℕ
ticking s = (s, s + 1)

abbrev prepared : ℕ → Bool × ℕ
prepared s = (true, s + 1)

abbrev attempted : ℕ → Bool × ℕ
attempted s = (s == 9, s + 1)

timed_bulk_with_setup-IsHonest_example :
    let r = timed_bulk_with_setup whole_numbers ticking prepared attempted 5 1 3 0 in
    (length r.samples ≡ 3)
    × (r.summary.n_success + r.summary.n_failed ≡ 3)
    × (r.summary.n_success ≡ length (succeeded r.samples))
    × ((r.summary.failed ≡ true) ↔ (r.summary.n_success ≡ 0))
    × ((r.summary.n_success ≡ 0) → r.summary.messages_per_sec ≡ none)
timed_bulk_with_setup-IsHonest_example =
    timed_bulk_with_setup-IsHonest whole_numbers ticking prepared attempted 5 1 3 0

abbrev five_ids : List Text
five_ids = codes "a" ∷ codes "b" ∷ codes "c" ∷ codes "d" ∷ codes "e" ∷ []

phase_requests-made_for_example :
    phase_requests create five_ids 5 2 50
    ≡ some (
        post_user (codes "a")
        ∷ post_user (codes "b")
        ∷ post_user (codes "c")
        ∷ post_user (codes "d")
        ∷ [])
phase_requests-made_for_example = phase_requests-made_for create refl five_ids 2 50

run_events-IsQuota_example :
    IsQuota 1 2 (run_events (deliver 4 ∷ deliver 5 ∷ woken ∷ timed_out ∷ []) (drain_init 1))
run_events-IsQuota_example =
    run_events-IsQuota 1 (deliver 4 ∷ deliver 5 ∷ woken ∷ timed_out ∷ []) (omega arith)

abbrev answers : List Response
answers =
    record { status_code = 201; text = [] }
    ∷ record { status_code = 503; text = codes "busy" }
    ∷ record { status_code = 200; text = [] }
    ∷ record { status_code = 503; text = codes "again" }
    ∷ []
