-- ===== src/Tests/Report.antt =====
-- A report on two clients, of which one has failed in a benchmark, with whole numbers for floats.
use native.Mathlib.Nat.{div-lt_iff_lt-mul}
use rabbit_speed_test.Base.{
  ℕ, ◌+◌, ◌-◌, ◌*◌, ◌/◌, ◌≤◌, ◌<◌, ◌≡◌, refl, Bool, true, false, Option, none, some, List, [], ◌∷◌,
  ◌++◌, length, ltb, All, Text, codes, ◌==◌, nat_eq, arith, if◌then◌else◌,
}
use rabbit_speed_test.Bench.Statistics.{StatSummary}
use rabbit_speed_test.Bench.Report.{
  Floats, Result, Row, latency_cats, tp_cats, build_executive_summary,
}
use rabbit_speed_test.Bench.Report.Ranking.{
  IsFloats, IsFastest, IsHighest, AllRows, build_executive_summary-Ranks,
}

abbrev sum : List ℕ → ℕ
sum [] = 0
sum (v ∷ vs) = v + sum vs

abbrev whole : Floats ℕ
whole = record {
  zero_float = 0;
  infinity = 1000;
  less = ltb;
  is_zero = λ n. n == 0;
  mean = λ vs. sum vs / length vs;
  percent_faster = λ b w. (w - b) * 100 / w;
  percent_higher = λ b w. (b - w) * 100 / w;
}

abbrev small : ℕ → Bool
small n = ltb n 1000

sum-le : (vs : List ℕ) → All (λ x. small x ≡ true) vs → sum vs ≤ 999 * length vs
sum-le [] h = omega arith
sum-le (v ∷ vs) (h, hs) = ground (arith, h, sum-le vs hs)

small-mean :
    (v : ℕ) (vs : List ℕ) → All (λ x. small x ≡ true) (v ∷ vs) → small (whole.mean (v ∷ vs)) ≡ true
small-mean v vs h =
    let total = sum-le (v ∷ vs) h in
    let below : sum (v ∷ vs) / length (v ∷ vs) < 1000 =
      (div-lt_iff_lt-mul {k = length (v ∷ vs)} (omega arith)).1 (omega (arith, total)) in
    ground (arith, below)

whole-IsFloats : IsFloats whole small
whole-IsFloats = record {
  order = record { asym = λ a b h. ground (arith, h); behind = λ a b c h k. ground (arith, h, k) };
  finite-mean = small-mean;
  below = λ v h. h;
}

abbrev summary : ℕ → Bool → StatSummary ℕ
summary median failed = record {
  avg_ns = median;
  median_ns = median;
  min_ns = median;
  max_ns = median;
  stddev_ns = 0;
  p95_ns = median;
  p99_ns = median;
  n_success = if failed then 0 else 1;
  n_failed = if failed then 1 else 0;
  messages_per_sec = none;
  total_duration_ns = none;
  failed = failed;
}

abbrev result_of : Text → ℕ → Bool → Result ℕ
result_of client median failed = record {
  client = client;
  benchmark = codes "round_trip";
  params = codes "n=1";
  summary = summary median failed;
}

-- The zeros of a result that failed do not win.
abbrev broken : Result ℕ
broken = result_of (codes "pika") 0 true

abbrev sound : Result ℕ
sound = result_of (codes "hybrid") 7 false

build_executive_summary-Ranks_example :
    (latency throughput : List (Row ℕ)) × (build_executive_summary whole (broken ∷ sound ∷ [])
      ≡ some (latency ++ throughput))
    × AllRows whole (IsFastest whole (broken ∷ sound ∷ [])) latency_cats latency
    × AllRows whole (IsHighest whole (broken ∷ sound ∷ [])) tp_cats throughput
build_executive_summary-Ranks_example =
    build_executive_summary-Ranks whole small whole-IsFloats broken (sound ∷ []) (refl, (refl, tt))

abbrev names : List (Row ℕ) → List Text
names [] = []
names (row ∷ rest) = row.winner ∷ names rest

abbrev winners : Option (List (Row ℕ)) → List Text
winners none = []
winners (some rows) = names rows

-- Where no client has a result, the first of the suite is named.
winners_here :
    winners (build_executive_summary whole (broken ∷ sound ∷ []))
    ≡ codes "pika" ∷ codes "pika" ∷ codes "hybrid" ∷ codes "pika" ∷ codes "pika" ∷ []
unfolding build_executive_summary
winners_here = refl
