-- ===== src/Bench/Suite/Progress.antt =====
-- The progress bar of a run of the suite.
use native.Mathlib.Nat.{div-lt_iff_lt-mul}
use rabbit_speed_test.Base.{
  ℕ, zero, suc, ◌-◌, ◌*◌, ◌/◌, ◌≤◌, ◌<◌, ◌≡◌, ◌∙◌, length, length-append, length-replicate,
  replicate, arith,
}
use rabbit_speed_test.Bench.Suite.{filled, bar}

filled-le : (done total : ℕ) → done ≤ total → filled done total ≤ 22
unfolding filled
filled-le done zero h = omega arith
filled-le done (suc n) h =
    let below : 22 * done / suc n < 23 =
      (div-lt_iff_lt-mul {k = suc n} (omega arith)).1 (omega arith) in
    ground (arith, below)

-- The progress bar has its full width, as long as no more stages are done than there are.
bar-width : (done total : ℕ) → done ≤ total → length (bar done total) ≡ 22
unfolding bar
bar-width done total h =
    length-append (replicate (filled done total) b'#') (replicate (22 - filled done total) b'.')
    ∙ omega (
      arith,
      filled-le done total h,
      length-replicate {A = ℕ} (filled done total) b'#',
      length-replicate {A = ℕ} (22 - filled done total) b'.',
    )
