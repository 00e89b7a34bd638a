-- ===== src/Bench/Harness/Counts.antt =====
-- What the samples and the counts of a measurement have to do with each other.
use rabbit_speed_test.Base.{
  ℕ, zero, suc, ◌+◌, ◌≡◌, refl, ap, ◌∙◌, Bool, true, false, List, [], ◌∷◌, ◌++◌, append_assoc,
  append_nil, sym, arith,
}
use rabbit_speed_test.Bench.Harness.{
  IterationSample, Collected, Attempt, timed, warm, recorded, measure, collect,
}

-- The values of the samples that succeeded, in their order, and the number of the others.
abbrev pub succeeded : List IterationSample → List ℕ
succeeded [] = []
succeeded (s ∷ rest) = elim s.success [
  | true ↦ s.value_ns ∷ succeeded rest
  | false ↦ succeeded rest
]

abbrev pub failures : List IterationSample → ℕ
failures [] = 0
failures (s ∷ rest) = elim s.success [ true ↦ failures rest | false ↦ suc (failures rest) ]

-- The samples are numbered upwards.
abbrev pub numbers : List IterationSample → List ℕ
numbers [] = []
numbers (s ∷ rest) = s.iteration ∷ numbers rest

abbrev pub count_up : ℕ → ℕ → List ℕ
count_up i zero = []
count_up i (suc n) = i ∷ count_up (suc i) n

succeeded-append :
    (xs ys : List IterationSample) → succeeded (xs ++ ys) ≡ succeeded xs ++ succeeded ys
succeeded-append [] ys = refl
succeeded-append (x ∷ xs) ys = ground (arith, succeeded-append xs ys)

failures-append : (xs ys : List IterationSample) → failures (xs ++ ys) ≡ failures xs + failures ys
failures-append [] ys = ground arith
failures-append (x ∷ xs) ys = ground (arith, failures-append xs ys)

numbers-append : (xs ys : List IterationSample) → numbers (xs ++ ys) ≡ numbers xs ++ numbers ys
numbers-append [] ys = refl
numbers-append (x ∷ xs) ys = ground (arith, numbers-append xs ys)

abbrev IsCounted : {S : Type 0} → Collected S → Type 0
IsCounted c = (c.values ≡ succeeded c.samples) × (c.n_failed ≡ failures c.samples)

module _ {S : Type 0} (setup op : Attempt S) (clock : S → ℕ × S) where
  recorded-IsCounted :
      (i : ℕ) (r : Bool × ℕ × S) (c : Collected S)
      → IsCounted c
      → IsCounted (recorded setup op clock i r c)
        × (numbers (recorded setup op clock i r c).samples ≡ numbers c.samples ++ i ∷ [])
  recorded-IsCounted i (true, elapsed, s) c h =
      let x : IterationSample = record { iteration = i; value_ns = elapsed; success = true } in
      ground (
        arith,
        h.0,
        h.1,
        succeeded-append c.samples (x ∷ []),
        failures-append c.samples (x ∷ []),
        numbers-append c.samples (x ∷ []),
        append_nil (succeeded c.samples),
      )
  recorded-IsCounted i (false, elapsed, s) c h =
      let x : IterationSample = record { iteration = i; value_ns = 0; success = false } in
      ground (
        arith,
        h.0,
        h.1,
        succeeded-append c.samples (x ∷ []),
        failures-append c.samples (x ∷ []),
        numbers-append c.samples (x ∷ []),
        append_nil (succeeded c.samples),
      )

  measure-IsCounted :
      (i left : ℕ) (c : Collected S)
      → IsCounted c
      → IsCounted (measure setup op clock i left c)
        × (numbers (measure setup op clock i left c).samples ≡ numbers c.samples ++ count_up i left)
  unfolding measure
  measure-IsCounted i zero c h = (h, sym (append_nil (numbers c.samples)))
  measure-IsCounted i (suc left) c h =
      let r = timed setup op clock c.state in
      let d = recorded setup op clock i r c in
      let (counted, one) = recorded-IsCounted i r c h in
      let (all, more) = measure-IsCounted (suc i) left d counted in
      (
        all,
        more
            ∙ ap (λ l. l ++ count_up (suc i) left) one
            ∙ append_assoc (numbers c.samples) (i ∷ []) (count_up (suc i) left),
      )

  -- A measurement aborts for no failure: it has one sample for each measured iteration, in order, and
  -- none of the warm-up; the values are those of the samples that succeeded, and n_failed counts the
  -- others.
  pub collect-counts :
      (warmup measured : ℕ) (s : S)
      → let c = collect setup op clock warmup measured s in
        (numbers c.samples ≡ count_up 0 measured)
        × (c.values ≡ succeeded c.samples)
        × (c.n_failed ≡ failures c.samples)
  unfolding collect
  collect-counts warmup measured s =
      let c : Collected S = record {
        samples = [];
        values = [];
        n_failed = 0;
        state = warm setup op clock warmup s;
      } in
      let (h, n) = measure-IsCounted 0 measured c (refl, refl) in (n, h.0, h.1)
