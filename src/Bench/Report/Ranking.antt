-- ===== src/Bench/Report/Ranking.antt =====
-- Who wins a category of the executive summary.
use mathlib.Core.Path.{subst}
use rabbit_speed_test.Base.{
  ◌≡◌, refl, sym, ◌∙◌, Bool, true, false, not, ◌&&◌, Option, some, List, [], ◌∷◌, ◌++◌, map, keep,
  contains, any_of, All, Text, ◌==◌, nat_eq, list_eq, list_beq_iff, Bool-cases, inl, inr, arith,
}
use rabbit_speed_test.Bench.Report.{
  Floats, Result, Row, latency_cats, tp_cats, sorted, clients_from, counts, median_for, mps_for,
  row_of, row_for, each_row, faster, higher, latency_row, throughput_row, build_executive_summary,
}
use rabbit_speed_test.Bench.Report.Sorting.{
  Leads, IsOrder, keep-none, keep-some, sorted-Leads, appears, contains-clients_from,
}

-- The values that take part: `finite` is any set of floats below infinity whose means are in it.
pub record IsFloats {F : Type 0} (fl : Floats F) (finite : F → Bool) : Type 0 where
  pub order : IsOrder fl.less
  pub finite-mean :
      (v : F) (vs : List F) → All (λ x. finite x ≡ true) (v ∷ vs) → finite (fl.mean (v ∷ vs)) ≡ true
  pub below : (v : F) → finite v ≡ true → fl.less v fl.infinity ≡ true

module _ {F : Type 0} (fl : Floats F) where
  -- The client has a result in the benchmark that did not fail.
  abbrev pub has_result : Text → Text → List (Result F) → Bool
  has_result bench c results =
      any_of (λ r. (r.client == c) && ((r.benchmark == bench) && not r.summary.failed)) results

  -- The row of a category of latencies.
  abbrev pub IsFastest : List (Result F) → Text × Text → Row F → Type 0
  IsFastest results (label, bench) row =
      (row.category ≡ label)
      × (appears row.winner results ≡ true)
      × ((c : Text)
          → appears c results ≡ true
          → fl.less (median_for fl results bench c) (median_for fl results bench row.winner)
            ≡ false)
      × ((c : Text)
          → has_result bench c results ≡ true
          → has_result bench row.winner results ≡ true)

  -- The row of a category of throughputs.
  abbrev pub IsHighest : List (Result F) → Text × Text → Row F → Type 0
  IsHighest results (label, bench) row =
      (row.category ≡ label)
      × (appears row.winner results ≡ true)
      × ((c : Text)
          → appears c results ≡ true
          → fl.less (mps_for fl results bench row.winner) (mps_for fl results bench c) ≡ false)

  abbrev pub AllRows : (Text × Text → Row F → Type 0) → List (Text × Text) → List (Row F) → Type 0
  AllRows P [] [] = true ≡ true
  AllRows P (cat ∷ cats) (row ∷ rows) = P cat row × AllRows P cats rows
  AllRows P _ _ = true ≡ false

module _ {F : Type 0} (fl : Floats F) (finite : F → Bool) (laws : IsFloats fl finite) where
  kept_finite :
      (results : List (Result F)) (bench c : Text)
      → All (λ r. finite r.summary.median_ns ≡ true) results
      → All (λ x. finite x ≡ true) (map (λ r. r.summary.median_ns) (keep (counts c bench) results))
  kept_finite [] bench c h = tt
  kept_finite (r ∷ rest) bench c (h, hs) = elim (Bool-cases (counts c bench r)) [
    | inl e ↦ rw e (h, kept_finite rest bench c hs)
    | inr e ↦ rw e (kept_finite rest bench c hs)
  ]

  appears-has_result :
      (results : List (Result F)) (bench c : Text)
      → has_result fl bench c results ≡ true
      → appears c results ≡ true
  appears-has_result [] bench c h = h
  appears-has_result (r ∷ rest) bench c h = elim (Bool-cases (r.client == c)) [
    | inl e ↦ rw e refl
    | inr e ↦
        let later : any_of (counts c bench) rest ≡ true = ground (arith, e, h) in
        rw e (appears-has_result rest bench c later)
  ]

  median_for-failed :
      (results : List (Result F)) (bench c : Text)
      → has_result fl bench c results ≡ false
      → median_for fl results bench c ≡ fl.infinity
  unfolding median_for
  median_for-failed results bench c h = rw (keep-none (counts c bench) results h) refl

  median_for-below :
      (results : List (Result F)) (bench c : Text)
      → All (λ r. finite r.summary.median_ns ≡ true) results
      → has_result fl bench c results ≡ true
      → fl.less (median_for fl results bench c) fl.infinity ≡ true
  unfolding median_for
  median_for-below results bench c all_finite h =
      let (r, rest, e) = keep-some (counts c bench) results h in
      let kept =
        subst (λ l. All (λ x. finite x ≡ true) (map {B = F} (λ r. r.summary.median_ns) l)) e
          (kept_finite results bench c all_finite) in
      rw e (
        laws.below (fl.mean (r.summary.median_ns ∷ map (λ r. r.summary.median_ns) rest))
          (laws.finite-mean r.summary.median_ns (map (λ r. r.summary.median_ns) rest) kept))

  each_row-AllRows :
      (f : Text × Text → Option (Row F)) (P : Text × Text → Row F → Type 0)
      (cats : List (Text × Text))
      → ((cat : Text × Text) → (row : Row F) × (f cat ≡ some row) × P cat row)
      → (rows : List (Row F)) × (each_row fl f cats ≡ some rows) × AllRows fl P cats rows
  each_row-AllRows f P [] h = ([], refl, refl)
  each_row-AllRows f P (cat ∷ cats) h =
      let (row, e, p) = h cat in
      let (rows, d, ps) = each_row-AllRows f P cats h in (row ∷ rows, rw e (rw d refl), (p, ps))

  clients-appear :
      (c : Text) (results : List (Result F))
      → contains c (clients_from [] results) ≡ appears c results
  clients-appear c results = contains-clients_from c [] results

  some_client :
      (r : Result F) (rest : List (Result F)) (before : Text → Text → Bool)
      → Leads before [] (clients_from [] (r ∷ rest))
      → true ≡ false
  some_client r rest before h =
      let k : contains r.client (clients_from [] (r ∷ rest)) ≡ true =
        clients-appear r.client (r ∷ rest) ∙ rw ((list_beq_iff r.client r.client).1 refl) refl in
      sym (subst (λ l. contains r.client l ≡ true) h k)

  by_key : (value : Text → F) → IsOrder (λ a b. fl.less (value a) (value b))
  by_key value = record {
    asym = λ a b h. laws.order.asym (value a) (value b) h;
    behind = λ a b c h k. laws.order.behind (value a) (value b) (value c) h k;
  }

  by_key_down : (value : Text → F) → IsOrder (λ a b. fl.less (value b) (value a))
  by_key_down value = record {
    asym = λ a b h. laws.order.asym (value b) (value a) h;
    behind = λ a b c h k. laws.order.behind (value c) (value b) (value a) k h;
  }

  -- The row that any of the sorts gives: no client comes before the winner.
  row_for-first :
      (r : Result F) (rest : List (Result F)) (before : Text → Text → Bool) (label : Text)
      (percent : F → F → F) (value : Text → F)
      → IsOrder before
      → (row : Row F) × (row_for fl label percent value (sorted before (clients_from [] (r ∷ rest)))
          ≡ some row)
        × (row.category ≡ label)
        × (appears row.winner (r ∷ rest) ≡ true)
        × ((c : Text) → appears c (r ∷ rest) ≡ true → before c row.winner ≡ false)
  row_for-first r rest before label percent value order =
      go (sorted before clients) (sorted-Leads before order clients)
    where
      clients : List Text
      clients = clients_from [] (r ∷ rest)

      go :
          (l : List Text)
          → Leads before l clients
          → (row : Row F) × (row_for fl label percent value l ≡ some row)
            × (row.category ≡ label)
            × (appears row.winner (r ∷ rest) ≡ true)
            × ((c : Text) → appears c (r ∷ rest) ≡ true → before c row.winner ≡ false)
      go [] h = let impossible = some_client r rest before h in absurd (ground (arith, impossible))
      go (w ∷ ws) (m, h) = (
        row_of fl label percent value w ws,
        refl,
        refl,
        sym (clients-appear w (r ∷ rest)) ∙ m,
        λ c k. h c (clients-appear c (r ∷ rest) ∙ k),
      )

  -- The winner of a category of latencies has a result, if any client has one.
  winner_has_result :
      (results : List (Result F)) (bench w : Text)
      → All (λ r. finite r.summary.median_ns ≡ true) results
      → ((c : Text) → appears c results ≡ true → faster fl results bench c w ≡ false)
      → (c : Text) → has_result fl bench c results ≡ true
      → has_result fl bench w results ≡ true
  winner_has_result results bench w all_finite h c k =
      elim (Bool-cases (has_result fl bench w results)) [
        | inl e ↦ e
        | inr e ↦
            let first = h c (appears-has_result results bench c k) in
            let ahead = median_for-below results bench c all_finite k in
            let tied =
              subst (λ v. fl.less (median_for fl results bench c) v ≡ false)
                (median_for-failed results bench w e) first in
            absurd (ground (arith, ahead, tied))
      ]

  latency_row-IsFastest :
      (r : Result F) (rest : List (Result F)) (cat : Text × Text)
      → All (λ r. finite r.summary.median_ns ≡ true) (r ∷ rest)
      → (row : Row F) × (latency_row fl (r ∷ rest) cat ≡ some row) × IsFastest fl (r ∷ rest) cat row
  unfolding latency_row
  latency_row-IsFastest r rest (label, bench) all_finite =
      let results : List (Result F) = r ∷ rest in
      let (row, e, l, m, h) =
        row_for-first r rest (faster fl results bench) label fl.percent_faster
          (median_for fl results bench) (by_key (median_for fl results bench)) in
      (row, e, (l, m, h, winner_has_result results bench row.winner all_finite h))

  throughput_row-IsHighest :
      (r : Result F) (rest : List (Result F)) (cat : Text × Text)
      → (row : Row F) × (throughput_row fl (r ∷ rest) cat ≡ some row)
        × IsHighest fl (r ∷ rest) cat row
  unfolding throughput_row
  throughput_row-IsHighest r rest (label, bench) =
      let results : List (Result F) = r ∷ rest in
      let (row, e, l, m, h) =
        row_for-first r rest (higher fl results bench) label fl.percent_higher
          (mps_for fl results bench) (by_key_down (mps_for fl results bench)) in
      (row, e, (l, m, h))

  -- The executive summary of a suite with results has a row for each category, in their order. The
  -- winner is a client of the suite; in a category of latencies no client has a lower median and the
  -- winner has a result that did not fail, if any client has one; in a category of throughputs no
  -- client has a higher throughput. The medians of the results are finite, and comparable.
  pub build_executive_summary-Ranks :
      (r : Result F) (rest : List (Result F))
      → All (λ r. finite r.summary.median_ns ≡ true) (r ∷ rest)
      → (latency throughput : List (Row F)) × (build_executive_summary fl (r ∷ rest)
          ≡ some (latency ++ throughput))
        × AllRows fl (IsFastest fl (r ∷ rest)) latency_cats latency
        × AllRows fl (IsHighest fl (r ∷ rest)) tp_cats throughput
  unfolding build_executive_summary
  build_executive_summary-Ranks r rest all_finite =
      let (latency, d, ls) =
        each_row-AllRows (latency_row fl (r ∷ rest)) (IsFastest fl (r ∷ rest)) latency_cats
          (λ cat. latency_row-IsFastest r rest cat all_finite) in
      let (throughput, e, ts) =
        each_row-AllRows (throughput_row fl (r ∷ rest)) (IsHighest fl (r ∷ rest)) tp_cats
          (throughput_row-IsHighest r rest) in
      (latency, throughput, rw d (rw e refl), ls, ts)
