-- ===== src/Bench/Report/Tables.antt =====
-- The tables of the report.
use mathlib.Core.List.{append-nil}
use rabbit_speed_test.Base.{
  ◌≡◌, refl, sym, ap, ◌∙◌, List, [], ◌∷◌, ◌++◌, map, keep, Text, ◌==◌, nat_eq, list_eq,
  list_beq_iff, append_assoc, Bool-cases, inl, inr, arith, if◌then◌else◌,
}
use rabbit_speed_test.Bench.Report.{Floats, Result, TableRow, table_row, append_row, tables_from}

module _ {F : Type 0} where
  -- The rows of a benchmark's table.
  abbrev rows_at : Text → List (Text × List (TableRow F)) → List (TableRow F)
  rows_at b [] = []
  rows_at b ((k, rows) ∷ tables) = if k == b then rows else rows_at b tables

  rows_at-append_row :
      (b k : Text) (row : TableRow F) (tables : List (Text × List (TableRow F)))
      → rows_at b (append_row k row tables) ≡ rows_at b tables ++ (if k == b then row ∷ [] else [])
  unfolding append_row
  rows_at-append_row b k row [] = refl
  rows_at-append_row b k row ((a, rows) ∷ tables) = ground (
    arith,
    rows_at-append_row b k row tables,
    list_beq_iff a k,
    list_beq_iff a b,
    list_beq_iff k b,
    append-nil rows,
    append-nil (rows_at b tables),
  )

module _ {F : Type 0} (fl : Floats F) where
  rows_at-tables_from :
      (b : Text) (results : List (Result F)) (tables : List (Text × List (TableRow F)))
      → rows_at b (tables_from fl tables results)
        ≡ rows_at b tables ++ map (table_row fl) (keep (λ r. r.benchmark == b) results)
  unfolding tables_from
  rows_at-tables_from b [] tables = sym (append-nil (rows_at b tables))
  rows_at-tables_from b (r ∷ rest) tables =
      rows_at-tables_from b rest (append_row r.benchmark (table_row fl r) tables)
      ∙ ap (λ l. l ++ map (table_row fl) (keep (λ r. r.benchmark == b) rest))
          (rows_at-append_row b r.benchmark (table_row fl r) tables)
      ∙ elim (Bool-cases (r.benchmark == b)) [
        | inl e ↦ rw e (
            append_assoc (rows_at b tables) (table_row fl r ∷ [])
              (map (table_row fl) (keep (λ r. r.benchmark == b) rest)))
        | inr e ↦ rw e (
            append_assoc (rows_at b tables) []
              (map (table_row fl) (keep (λ r. r.benchmark == b) rest)))
      ]

  -- The table of a benchmark has the rows of its results, each once and in their order.
  tables_from-rows :
      (b : Text) (results : List (Result F))
      → rows_at b (tables_from fl [] results)
        ≡ map (table_row fl) (keep (λ r. r.benchmark == b) results)
  tables_from-rows b results = rows_at-tables_from b results []
