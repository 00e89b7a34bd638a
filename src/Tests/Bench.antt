-- ===== src/Tests/Bench.antt =====
-- The fake client, a measurement and the scan of a JSON value.
use rabbit_speed_test.Bench.Runs.{Config}
use rabbit_speed_test.Base.{
  ℕ, suc, ◌≡◌, ◌↔◌, not, Bool, true, false, List, [], ◌∷◌, Text, codes, nat_eq, list_eq, ◌==◌,
}
use rabbit_speed_test.Bench.Fake.{Queues}
use rabbit_speed_test.Storable.{Json, number, object, entry, empty_object, scan}
use rabbit_speed_test.Storable.Scan.{Holds, IsStorable, scan_iff}

abbrev empty_queues : Queues
empty_queues = λ name. []

abbrev bodies : List Text
bodies = codes "a" ∷ codes "b" ∷ codes "c" ∷ []

-- Every call counts; the operation fails on a count that is a multiple of 3.
abbrev ready : ℕ → Bool × ℕ
ready s = (true, suc s)

abbrev fails_at_3 : ℕ → Bool × ℕ
fails_at_3 s = (not (s == 3), suc s)

abbrev ticks : ℕ → ℕ × ℕ
ticks s = (s, suc s)

-- {"a": NaN}
abbrev not_a_number : Json
not_a_number = object (entry (codes "a") (number false) empty_object)

scan_iff_example : (scan not_a_number ≡ true) ↔ ((x : Json) → Holds not_a_number x → IsStorable x)
scan_iff_example = scan_iff not_a_number

abbrev bench_config : Config
bench_config = record {
  queue_name = codes "bench";
  routing_key = codes "bench";
  message_count = 5;
  iterations = 2;
  warmup_iterations = 1;
}

abbrev no_queues : Queues
no_queues name = []
