-- ===== src/Bench/Suite.antt =====
-- The orchestration of rabbit-benchmark/benchmark/runner.py: run_suite over any clients and benchmarks,
-- which are a parameter, as client_factory and BENCHMARKS are. The calls that are made of the clients
-- are kept in their order.
pub mod Brackets
pub mod Plan
pub mod Stages
pub mod Progress
use rabbit_speed_test.Base.{
  ℕ, zero, suc, ◌+◌, ◌-◌, ◌*◌, ◌/◌, Bool, true, false, Option, none, some, List, [], ◌∷◌, ◌++◌,
  length, replicate, Text, codes, ◌==◌, nat_eq, if◌then◌else◌,
}

-- How a call ends; an exception is a number.
pub data Ended (A : Type 0) : Type 0 where
  returned : A → Ended A
  raised : ℕ → Ended A

abbrev pub is_returned : {A : Type 0} → Ended A → Bool
is_returned (returned a) = true
is_returned (raised e) = false

-- A call of a client, with what the proofs look at of its answer.
pub data Call (R : Type 0) : Type 0 where
  connect : Text → Bool → Call R
  delete_queue : Text → Call R
  server_version : Text → Call R
  run : Text → Text → Ended (List R) → Call R
  close : Text → Call R

-- The clients by their names, the broker behind them, and the benchmarks by theirs.
pub record World (W R : Type 0) : Type 0 where
  pub make : Text → W → Ended (Unit {0}) × W
  pub connect_client : Text → W → Ended (Unit {0}) × W
  pub delete_client_queue : Text → W → Ended (Unit {0}) × W
  pub version_of : Text → W → Ended (Option Text) × W
  pub run_fn : Text → Text → W → Ended (List R) × W
  pub close_client : Text → W → Ended (Unit {0}) × W

-- The variables of run_suite; `done` is that of _Progress.
pub record Suite (W R : Type 0) : Type 0 where
  pub calls : List (Call R)
  pub all_results : List R
  pub rabbitmq_version : Option Text
  pub done : ℕ
  pub world : W

-- The names of BENCHMARKS.
abbrev pub benchmarks : List Text
benchmarks =
    codes "publish_latency"
    ∷ codes "consume_latency"
    ∷ codes "publish_throughput"
    ∷ codes "consume_throughput"
    ∷ codes "consume_throughput_get"
    ∷ codes "round_trip"
    ∷ codes "concurrent_publish"
    ∷ codes "concurrent_consume"
    ∷ []

-- _Progress.end: the bar after `done` stages.
unfoldable pub filled : ℕ → ℕ → ℕ
filled done total = if total == 0 then 22 else 22 * done / total

unfoldable pub bar : ℕ → ℕ → Text
unfolding filled
bar done total = replicate (filled done total) b'#' ++ replicate (22 - filled done total) b'.'

abbrev pub Step : Type 0 → Type 0 → Type 0 → Type 0
Step W R A = Suite W R → Ended A × Suite W R

module _ {W R A : Type 0} where
  infixl 10 ◌>>◌
  abbrev pub next : Ended (Unit {0}) → Step W R A → Step W R A
  next (returned u) n s = n s
  next (raised e) n s = (raised e, s)

  abbrev pub ◌>>◌ : Step W R (Unit {0}) → Step W R A → Step W R A
  ◌>>◌ m n s = let (r, s') = m s in next r n s'

module _ {W R : Type 0} (w : World W R) where
  -- A call of a client that is entered as `c`.
  abbrev pub entered : Call R → Ended (Unit {0}) × W → Suite W R → Ended (Unit {0}) × Suite W R
  entered c (r, world) s = (r, record s { calls = s.calls ++ c ∷ []; world = world })

  abbrev pub made : Text → Step W R (Unit {0})
  made name s = let (r, world) = w.make name s.world in (r, record s { world = world })

  abbrev pub connected : Text → Step W R (Unit {0})
  connected name s =
      let a = w.connect_client name s.world in entered (connect name (is_returned a.0)) a s

  abbrev pub deleted : Text → Step W R (Unit {0})
  deleted name s = entered (delete_queue name) (w.delete_client_queue name s.world) s

  abbrev pub versioned : Text → Ended (Option Text) × W → Step W R (Unit {0})
  versioned name (returned v, world) s = (
    returned tt,
    record s { calls = s.calls ++ server_version name ∷ []; rabbitmq_version = v; world = world },
  )
  versioned name (raised e, world) s =
      (raised e, record s { calls = s.calls ++ server_version name ∷ []; world = world })

  -- Only until a client has told the version.
  unfoldable pub ask_version : Text → Step W R (Unit {0})
  ask_version name s = elim s.rabbitmq_version [
    | some v ↦ (returned tt, s)
    | none ↦ versioned name (w.version_of name s.world) s
  ]

  abbrev pub extended : Text → Text → Ended (List R) × W → Step W R (Unit {0})
  extended name b (returned results, world) s = (
    returned tt,
    record s {
      calls = s.calls ++ run b name (returned results) ∷ [];
      all_results = s.all_results ++ results;
      done = suc s.done;
      world = world;
    },
  )
  extended name b (raised e, world) s =
      (raised e, record s { calls = s.calls ++ run b name (raised e) ∷ []; world = world })

  unfoldable pub run_benchmarks : Text → List Text → Step W R (Unit {0})
  run_benchmarks name [] s = (returned tt, s)
  run_benchmarks name (b ∷ rest) s =
      ((λ s. extended name b (w.run_fn b name s.world) s) >> run_benchmarks name rest) s

  -- The body of the `try`.
  unfoldable pub session : List Text → Text → Step W R (Unit {0})
  unfolding ask_version run_benchmarks
  session bs name = deleted name >> ask_version name >> run_benchmarks name bs

  -- The `finally`: an exception of close takes the place of the one that was raised before.
  abbrev pub after_close :
      Ended (Unit {0}) → Ended (Unit {0}) × Suite W R → Ended (Unit {0}) × Suite W R
  after_close r (returned u, s) = (r, s)
  after_close r (raised e, s) = (raised e, s)

  abbrev pub closing : Text → Ended (Unit {0}) × Suite W R → Ended (Unit {0}) × Suite W R
  closing name (r, s) = after_close r (entered (close name) (w.close_client name s.world) s)

  unfoldable pub run_client : List Text → Text → Step W R (Unit {0})
  unfolding session
  run_client bs name = made name >> connected name >> λ s. closing name (session bs name s)

  unfoldable pub run_clients : List Text → List Text → Step W R (Unit {0})
  unfolding run_client
  run_clients bs [] s = (returned tt, s)
  run_clients bs (name ∷ rest) s = (run_client bs name >> run_clients bs rest) s

  unfoldable pub run_suite : List Text → List Text → W → Ended (Unit {0}) × Suite W R
  unfolding run_clients
  run_suite bs clients world =
      run_clients bs clients (record {
        calls = [];
        all_results = [];
        rabbitmq_version = none;
        done = zero;
        world = world;
      })
