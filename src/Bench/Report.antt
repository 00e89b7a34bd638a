-- ===== src/Bench/Report.antt =====
-- The executive summary and the tables of rabbit-benchmark/benchmark/reporting/report_generator.py. The
-- arithmetic on floats is a parameter, and the numbers are those that are then printed.
pub mod Sorting
pub mod Ranking
pub mod Tables
use rabbit_speed_test.Base.{
  ℕ, Bool, not, ◌&&◌, Option, none, some, List, [], ◌∷◌, ◌++◌, map, keep, contains, Text, codes,
  ◌==◌, nat_eq, list_eq, if◌then◌else◌,
}
use rabbit_speed_test.Bench.Statistics.{StatSummary}

pub record Floats (F : Type 0) : Type 0 where
  pub zero_float : F
  pub infinity : F
  pub less : F → F → Bool
  pub is_zero : F → Bool
  -- sum(vals) / len(vals)
  pub mean : List F → F
  -- (w - b) / w * 100, and (b - w) / w * 100
  pub percent_faster : F → F → F
  pub percent_higher : F → F → F

-- A result with its labels, its params printed.
pub record Result (F : Type 0) : Type 0 where
  pub client : Text
  pub benchmark : Text
  pub params : Text
  pub summary : StatSummary F

-- A row of the summary, before its numbers are printed: the best value and by how much it is ahead of
-- the worst client, and the breakdown.
pub record Row (F : Type 0) : Type 0 where
  pub category : Text
  pub winner : Text
  pub best : F
  pub percent : F
  pub worst : Text
  pub breakdown : List (Text × F)

-- What a cell shows.
pub data Cell (F : Type 0) : Type 0 where
  failed_cell dash : Cell F
  milliseconds per_second : F → Cell F

pub record TableRow (F : Type 0) : Type 0 where
  pub client : Text
  pub params : Text
  pub median : Cell F
  pub p95 : Cell F
  pub p99 : Cell F
  pub mps : Cell F
  pub failed : ℕ
  pub is_failed : Bool

abbrev pub latency_cats : List (Text × Text)
latency_cats =
    (codes "Publish latency", codes "publish_latency")
    ∷ (codes "Consume latency", codes "consume_latency")
    ∷ (codes "Round-trip latency", codes "round_trip")
    ∷ []

abbrev pub tp_cats : List (Text × Text)
tp_cats =
    (codes "Publish throughput", codes "publish_throughput")
    ∷ (codes "Consume throughput", codes "consume_throughput")
    ∷ []

-- ranked[-1] of a list that begins with x
abbrev pub last : {A : Type 0} → A → List A → A
last x [] = x
last x (y ∷ ys) = last y ys

module _ {A : Type 0} (before : A → A → Bool) where
  -- sorted, which keeps the order of equals
  unfoldable pub insert : A → List A → List A
  insert x [] = x ∷ []
  insert x (y ∷ ys) = let rest = insert x ys in if before y x then y ∷ rest else x ∷ y ∷ ys

  unfoldable pub sorted : List A → List A
  unfolding insert
  sorted [] = []
  sorted (x ∷ xs) = insert x (sorted xs)

module _ {F : Type 0} where
  -- The clients in the order in which they first appear.
  unfoldable pub clients_from : List Text → List (Result F) → List Text
  clients_from clients [] = clients
  clients_from clients (r ∷ rest) =
      clients_from (if contains r.client clients then clients else clients ++ r.client ∷ []) rest

  -- The condition of the two comprehensions.
  abbrev pub counts : Text → Text → Result F → Bool
  counts client benchmark r =
      (r.client == client) && ((r.benchmark == benchmark) && not r.summary.failed)

  -- tables.setdefault(benchmark, []).append(row)
  unfoldable pub append_row :
      Text → TableRow F → List (Text × List (TableRow F)) → List (Text × List (TableRow F))
  append_row benchmark row [] = (benchmark, row ∷ []) ∷ []
  append_row benchmark row ((b, rows) ∷ tables) =
      if b == benchmark
      then (b, rows ++ row ∷ []) ∷ tables
      else (b, rows) ∷ append_row benchmark row tables

module _ {F : Type 0} (fl : Floats F) where
  abbrev pub mean_or : F → List F → F
  mean_or default [] = default
  mean_or default (v ∷ vals) = fl.mean (v ∷ vals)

  unfoldable pub median_for : List (Result F) → Text → Text → F
  median_for results benchmark client =
      mean_or fl.infinity (map (λ r. r.summary.median_ns) (keep (counts client benchmark) results))

  -- messages_per_sec or 0.0
  abbrev pub rate_of : StatSummary F → F
  rate_of s = elim s.messages_per_sec [ none ↦ fl.zero_float | some m ↦ m ]

  unfoldable pub mps_for : List (Result F) → Text → Text → F
  mps_for results benchmark client =
      mean_or fl.zero_float (map (λ r. rate_of r.summary) (keep (counts client benchmark) results))

  -- if w else 0.0
  abbrev pub percent_of : F → F → F
  percent_of w p = if fl.is_zero w then fl.zero_float else p

  abbrev pub row_of : Text → (F → F → F) → (Text → F) → Text → List Text → Row F
  row_of label percent value best rest =
      let worst = last best rest in
      record {
        category = label;
        winner = best;
        best = value best;
        percent = percent_of (value worst) (percent (value best) (value worst));
        worst = worst;
        breakdown = map (λ c. (c, value c)) (best ∷ rest);
      }

  -- A row over the ranked clients; ranked[0] is an IndexError where there are none.
  abbrev pub row_for : Text → (F → F → F) → (Text → F) → List Text → Option (Row F)
  row_for label percent value [] = none
  row_for label percent value (best ∷ rest) = some (row_of label percent value best rest)

  -- sorted by the median, and by the throughput with reverse=True
  abbrev pub faster : List (Result F) → Text → Text → Text → Bool
  faster results bench a b = fl.less (median_for results bench a) (median_for results bench b)

  abbrev pub higher : List (Result F) → Text → Text → Text → Bool
  higher results bench a b = fl.less (mps_for results bench b) (mps_for results bench a)

  unfoldable pub latency_row : List (Result F) → Text × Text → Option (Row F)
  unfolding sorted clients_from median_for
  latency_row results (label, bench) =
      row_for label fl.percent_faster (median_for results bench)
        (sorted (faster results bench) (clients_from [] results))

  unfoldable pub throughput_row : List (Result F) → Text × Text → Option (Row F)
  unfolding sorted clients_from mps_for
  throughput_row results (label, bench) =
      row_for label fl.percent_higher (mps_for results bench)
        (sorted (higher results bench) (clients_from [] results))

  abbrev pub row_before : Option (Row F) → Option (List (Row F)) → Option (List (Row F))
  row_before (some row) (some rows) = some (row ∷ rows)
  row_before _ _ = none

  abbrev pub each_row : (Text × Text → Option (Row F)) → List (Text × Text) → Option (List (Row F))
  each_row f [] = some []
  each_row f (cat ∷ cats) = row_before (f cat) (each_row f cats)

  abbrev pub rows_before : Option (List (Row F)) → Option (List (Row F)) → Option (List (Row F))
  rows_before (some rows) (some more) = some (rows ++ more)
  rows_before _ _ = none

  unfoldable pub build_executive_summary : List (Result F) → Option (List (Row F))
  unfolding latency_row throughput_row
  build_executive_summary results =
      rows_before (each_row (latency_row results) latency_cats)
        (each_row (throughput_row results) tp_cats)

  abbrev pub mps_cell : Option F → Cell F
  mps_cell none = dash
  mps_cell (some m) = if fl.is_zero m then dash else per_second m

  unfoldable pub table_row : Result F → TableRow F
  table_row r =
      let s = r.summary in
      record {
        client = r.client;
        params = r.params;
        median = if s.failed then failed_cell else milliseconds s.median_ns;
        p95 = if s.failed then failed_cell else milliseconds s.p95_ns;
        p99 = if s.failed then failed_cell else milliseconds s.p99_ns;
        mps = if s.failed then failed_cell else mps_cell s.messages_per_sec;
        failed = s.n_failed;
        is_failed = s.failed;
      }

  unfoldable pub tables_from :
      List (Text × List (TableRow F)) → List (Result F) → List (Text × List (TableRow F))
  unfolding table_row append_row
  tables_from tables [] = tables
  tables_from tables (r ∷ rest) = tables_from (append_row r.benchmark (table_row r) tables) rest
