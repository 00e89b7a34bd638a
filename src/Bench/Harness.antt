-- ===== src/Bench/Harness.antt =====
-- _collect of rabbit-benchmark/benchmark/harness.py: warm-up and measured iterations. The setup and the
-- operation are parameters that act on any state; the clock is read from it.
pub mod Counts
use rabbit_speed_test.Base.{ℕ, zero, suc, ◌-◌, Bool, true, false, List, [], ◌∷◌, ◌++◌}

pub record IterationSample : Type 0 where
  pub iteration : ℕ
  pub value_ns : ℕ
  pub success : Bool

pub record Collected (S : Type 0) : Type 0 where
  pub samples : List IterationSample
  pub values : List ℕ
  pub n_failed : ℕ
  pub state : S

-- Whether the call returned, and the state that it left.
abbrev pub Attempt : Type 0 → Type 0
Attempt S = S → Bool × S

module _ {S : Type 0} (setup op : Attempt S) (clock : S → ℕ × S) where
  abbrev pub after_setup : Bool × S → (S → Bool × S) → Bool × S
  after_setup (true, s) f = f s
  after_setup (false, s) f = (false, s)

  -- One warm-up iteration; its failure is ignored.
  unfoldable pub warm : ℕ → S → S
  warm zero s = s
  warm (suc n) s = warm n (after_setup (setup s) op).1

  -- One measured iteration: whether it succeeded, and the elapsed time.
  unfoldable pub timed : S → Bool × ℕ × S
  timed s =
      let (ready, s₀) = setup s in
      elim ready [
        | false ↦ (false, zero, s₀)
        | true ↦
            let (start, s₁) = clock s₀ in
            let (done, s₂) = op s₁ in
            elim done [
              | false ↦ (false, zero, s₂)
              | true ↦ let (stop, s₃) = clock s₂ in (true, stop - start, s₃)
            ]
      ]

  -- What an iteration adds.
  abbrev pub recorded : ℕ → Bool × ℕ × S → Collected S → Collected S
  recorded i (true, elapsed, s) c = record {
    samples = c.samples ++ record { iteration = i; value_ns = elapsed; success = true } ∷ [];
    values = c.values ++ elapsed ∷ [];
    n_failed = c.n_failed;
    state = s;
  }
  recorded i (false, elapsed, s) c = record {
    samples = c.samples ++ record { iteration = i; value_ns = zero; success = false } ∷ [];
    values = c.values;
    n_failed = suc c.n_failed;
    state = s;
  }

  -- The measured iterations from number i on.
  unfoldable pub measure : ℕ → ℕ → Collected S → Collected S
  unfolding timed
  measure i zero c = c
  measure i (suc left) c = measure (suc i) left (recorded i (timed c.state) c)

  unfoldable pub collect : ℕ → ℕ → S → Collected S
  unfolding warm measure
  collect warmup measured s =
      measure zero measured
        (record { samples = []; values = []; n_failed = zero; state = warm warmup s })
