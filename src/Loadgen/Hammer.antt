-- ===== src/Loadgen/Hammer.antt =====
-- What hammer reports of the responses.
use rabbit_speed_test.Base.{
  ℕ, suc, ◌+◌, ◌<◌, ◌≡◌, List, [], ◌∷◌, length, All, nat_eq, leb, if◌then◌else◌,
}
use rabbit_speed_test.Loadgen.{
  Response, Statuses, Tally, Hammered, measured, requests_failed, total,
}

-- The responses that are errors.
abbrev pub failures : List Response → ℕ
failures [] = 0
failures (r ∷ rest) = if leb 400 r.status_code then suc (failures rest) else failures rest

abbrev IsPositive : Statuses → Type 0
IsPositive s = All (λ p. 0 < p.1) s

-- The counts after some responses, from a tally.
abbrev Counts : Tally → List Response → Tally → Type 0
Counts t rs t' =
    (t'.latencies ≡ t.latencies + length rs)
    × (total t'.fail_statuses ≡ total t.fail_statuses + failures rs)
    × IsPositive t'.fail_statuses

-- What the end of hammer says of its responses.
abbrev pub Reports : Hammered → List Response → Type 0
Reports (measured n) rs = (n ≡ length rs) × (failures rs ≡ 0)
Reports (requests_failed n statuses samples) rs = (n ≡ failures rs) × (0 < n)
