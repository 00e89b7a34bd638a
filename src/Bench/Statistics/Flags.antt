-- ===== src/Bench/Statistics/Flags.antt =====
-- What the summary of a measurement says of its iterations.
use rabbit_speed_test.Base.{
  ℕ, zero, suc, ◌+◌, ◌≡◌, ◌↔◌, refl, sym, ap, ◌∙◌, true, none, some, List, [], ◌∷◌, length, arith,
}
use rabbit_speed_test.Bench.Harness.{IterationSample, Attempt, collect}
use rabbit_speed_test.Bench.Harness.Counts.{succeeded, failures, numbers, count_up, collect-counts}
use rabbit_speed_test.Bench.Statistics.{
  Numpy, StatSummary, summarize, mean_duration, timed_bulk_with_setup,
}

length-numbers : (samples : List IterationSample) → length (numbers samples) ≡ length samples
length-numbers [] = refl
length-numbers (s ∷ rest) = ap suc (length-numbers rest)

length-count_up : (i n : ℕ) → length (count_up i n) ≡ n
length-count_up i zero = refl
length-count_up i (suc n) = ap suc (length-count_up (suc i) n)

succeeded-failures :
    (samples : List IterationSample)
    → length (succeeded samples) + failures samples ≡ length samples
succeeded-failures [] = omega arith
succeeded-failures (s ∷ rest) = ground (arith, succeeded-failures rest)

module _ {F : Type 0} (np : Numpy F) where
  -- The flag is set where no iteration succeeded, and then no throughput is claimed.
  abbrev pub IsHonest : StatSummary F → Type 0
  IsHonest s =
      ((s.failed ≡ true) ↔ (s.n_success ≡ 0)) × ((s.n_success ≡ 0) → s.messages_per_sec ≡ none)

  summarize-IsHonest :
      (values : List ℕ) (n_failed message_count : ℕ)
      → IsHonest (summarize np values n_failed (mean_duration np values) (some message_count))
        × ((summarize np values n_failed (mean_duration np values) (some message_count)).n_success
            ≡ length values)
        × ((summarize np values n_failed (mean_duration np values) (some message_count)).n_failed
            ≡ n_failed)
  unfolding summarize mean_duration
  summarize-IsHonest [] n_failed message_count =
      ((((λ h. refl), (λ h. refl)), (λ h. refl)), refl, refl)
  summarize-IsHonest (v ∷ values) n_failed message_count = (
    (
      ((λ h. absurd (ground (arith, h))), (λ h. absurd (omega (arith, h)))),
      (λ h. absurd (omega (arith, h))),
    ),
    refl,
    refl,
  )

  module _ {S : Type 0} (clock : S → ℕ × S) (setup op : Attempt S) where
    -- The summary of a bulk measurement accounts for every measured iteration: there is a sample for
    -- each, and the successes and the failures are that many; it is flagged as failed exactly when
    -- no iteration succeeded, and then it claims no throughput.
    pub timed_bulk_with_setup-IsHonest :
        (message_count warmup measured : ℕ) (s : S)
        → let r = timed_bulk_with_setup np clock setup op message_count warmup measured s in
          (length r.samples ≡ measured)
          × (r.summary.n_success + r.summary.n_failed ≡ measured)
          × (r.summary.n_success ≡ length (succeeded r.samples))
          × ((r.summary.failed ≡ true) ↔ (r.summary.n_success ≡ 0))
          × ((r.summary.n_success ≡ 0) → r.summary.messages_per_sec ≡ none)
    unfolding timed_bulk_with_setup
    timed_bulk_with_setup-IsHonest message_count warmup measured s =
        let c = collect setup op clock warmup measured s in
        let (numbered, values, failed) = collect-counts setup op clock warmup measured s in
        let (honest, successes, n_failed) = summarize-IsHonest c.values c.n_failed message_count in
        let all : length c.samples ≡ measured =
          sym (length-numbers c.samples) ∙ ap length numbered ∙ length-count_up 0 measured in
        let ok : length c.values ≡ length (succeeded c.samples) = ap length values in
        (
          all,
          omega (arith, all, ok, failed, successes, n_failed, succeeded-failures c.samples),
          successes ∙ ok,
          honest.0,
          honest.1,
        )
