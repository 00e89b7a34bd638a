-- ===== src/Bench/Results/Rows.antt =====
-- The rows of save_csv in rabbit-benchmark/benchmark/results.py, before pandas writes them.
use mathlib.Core.Path.{subst}
use rabbit_speed_test.Base.{
  ◌≡◌, refl, ap, ◌∙◌, sym, true, false, Option, none, some, List, [], ◌∷◌, ◌++◌, map, map-append,
  Text, codes, ◌==◌, nat_eq, list_eq, list_beq_iff, All, arith, if◌then◌else◌,
}
use rabbit_speed_test.Bench.Results.{
  Json, object, Entries, end_entries, entry, IterationSample, BenchmarkResult,
}
use rabbit_speed_test.Bench.Results.Load.{◌>>=◌, get, entries_of}

-- row[key] = value
unfoldable pub put : Text → Json → Entries → Entries
put key value end_entries = entry key value end_entries
put key value (entry k v rest) =
    if k == key then entry k value rest else entry k v (put key value rest)

abbrev pub base_row : IterationSample → Entries
base_row s = entry (codes "client") s.client (
    entry (codes "benchmark") s.benchmark (
      entry (codes "iteration") s.iteration (
        entry (codes "value_ns") s.value_ns
          (entry (codes "success") s.success (entry (codes "error") s.error end_entries)))))

-- The loop over params.items().
unfoldable pub with_params : Entries → Entries → Entries
unfolding put
with_params end_entries row = row
with_params (entry k v rest) row = with_params rest (put (codes "param_" ++ k) v row)

-- Params that are no dict have no items.
unfoldable pub row_of : IterationSample → Option Entries
unfolding with_params
row_of s = entries_of s.params >>= λ params. some (with_params params (base_row s))

unfoldable pub sample_rows : List IterationSample → Option (List Entries)
unfolding row_of
sample_rows [] = some []
sample_rows (s ∷ rest) = row_of s >>= λ row. sample_rows rest >>= λ rows. some (row ∷ rows)

unfoldable pub csv_rows : List BenchmarkResult → Option (List Entries)
unfolding sample_rows
csv_rows [] = some []
csv_rows (r ∷ rest) =
    sample_rows r.samples >>= λ first. csv_rows rest >>= λ rows. some (first ++ rows)

abbrev pub all_samples : List BenchmarkResult → List IterationSample
all_samples [] = []
all_samples (r ∷ rest) = r.samples ++ all_samples rest

-- The six columns that every row has.
abbrev pub columns_of : Entries → List (Option Json)
columns_of row =
    get (codes "client") row
    ∷ get (codes "benchmark") row
    ∷ get (codes "iteration") row
    ∷ get (codes "value_ns") row
    ∷ get (codes "success") row
    ∷ get (codes "error") row
    ∷ []

get-put :
    (key name : Text) (value : Json) (row : Entries)
    → (name == key) ≡ false
    → get key (put name value row) ≡ get key row
unfolding put
get-put key name value end_entries h = rw h refl
get-put key name value (entry k v rest) h =
    ground (arith, h, get-put key name value rest h, list_beq_iff k name, list_beq_iff k key)

columns_of-put :
    (k : Text) (value : Json) (row : Entries)
    → columns_of (put (codes "param_" ++ k) value row) ≡ columns_of row
columns_of-put k value row =
    let name = codes "param_" ++ k in
    rw (get-put (codes "client") name value row refl) (
      rw (get-put (codes "benchmark") name value row refl) (
        rw (get-put (codes "iteration") name value row refl) (
          rw (get-put (codes "value_ns") name value row refl) (
            rw (get-put (codes "success") name value row refl)
              (rw (get-put (codes "error") name value row refl) refl)))))

columns_of-with_params :
    (params row : Entries) → columns_of (with_params params row) ≡ columns_of row
unfolding with_params
columns_of-with_params end_entries row = refl
columns_of-with_params (entry k v rest) row =
    columns_of-with_params rest (put (codes "param_" ++ k) v row) ∙ columns_of-put k v row

-- What a sample has in those columns.
abbrev pub columns_for : IterationSample → List (Option Json)
columns_for s =
    some s.client
    ∷ some s.benchmark
    ∷ some s.iteration
    ∷ some s.value_ns
    ∷ some s.success
    ∷ some s.error
    ∷ []

abbrev HasColumns : Option (List Entries) → List IterationSample → Type 0
HasColumns none samples = true ≡ true
HasColumns (some rows) samples = map columns_of rows ≡ map columns_for samples

row_of-columns :
    (s : IterationSample) (params : Entries)
    → columns_of (with_params params (base_row s)) ≡ columns_for s
row_of-columns s params = columns_of-with_params params (base_row s) ∙ refl

sample_rows-HasColumns : (samples : List IterationSample) → HasColumns (sample_rows samples) samples
unfolding sample_rows
sample_rows-HasColumns [] = refl
sample_rows-HasColumns (s ∷ rest) =
    go (entries_of s.params) (sample_rows rest) (sample_rows-HasColumns rest)
  where
    go :
        (e : Option Entries) (o : Option (List Entries))
        → HasColumns o rest
        → HasColumns
            ((e >>= λ params. some (with_params params (base_row s))) >>= λ row.
              o >>= λ rows. some (row ∷ rows))
            (s ∷ rest)
    go none o h = refl
    go (some e) none h = refl
    go (some e) (some rows) h =
        ap (λ c. c ∷ map columns_of rows) (row_of-columns s e) ∙ ap (λ l. columns_for s ∷ l) h

csv_rows-HasColumns :
    (results : List BenchmarkResult) → HasColumns (csv_rows results) (all_samples results)
unfolding csv_rows
csv_rows-HasColumns [] = refl
csv_rows-HasColumns (r ∷ rest) =
    go (sample_rows r.samples) (csv_rows rest) (sample_rows-HasColumns r.samples)
      (csv_rows-HasColumns rest)
  where
    go :
        (a b : Option (List Entries))
        → HasColumns a r.samples
        → HasColumns b (all_samples rest)
        → HasColumns
            (a >>= λ first. b >>= λ rows. some (first ++ rows))
            (r.samples ++ all_samples rest)
    go none b h k = refl
    go (some first) none h k = refl
    go (some first) (some rows) h k =
        map-append columns_of first rows
        ∙ ap (λ l. l ++ map columns_of rows) h
        ∙ ap (λ l. map columns_for r.samples ++ l) k
        ∙ sym (map-append columns_for r.samples (all_samples rest))

-- The params of the sample are a dict.
abbrev pub HasParams : IterationSample → Type 0
HasParams s = (e : Entries) × (s.params ≡ object e)

sample_rows-some :
    (samples : List IterationSample)
    → All HasParams samples
    → (rows : List Entries) × (sample_rows samples ≡ some rows)
unfolding sample_rows
sample_rows-some [] h = ([], refl)
sample_rows-some (s ∷ rest) ((e, h), hs) =
    let (rows, k) = sample_rows-some rest hs in
    (with_params e (base_row s) ∷ rows, rw h (rw k refl))

csv_rows-some :
    (results : List BenchmarkResult)
    → All (λ r. All HasParams r.samples) results
    → (rows : List Entries) × (csv_rows results ≡ some rows)
unfolding csv_rows
csv_rows-some [] h = ([], refl)
csv_rows-some (r ∷ rest) (h, hs) =
    let (first, k) = sample_rows-some r.samples h in
    let (rows, n) = csv_rows-some rest hs in (first ++ rows, rw k (rw n refl))

-- Where the params of the samples are dicts, the table has one row for each sample, in the order of
-- the results and of their samples, and no parameter of a benchmark, whatever its name is, takes the
-- place of one of the six other columns.
pub csv_rows-columns :
    (results : List BenchmarkResult)
    → All (λ r. All HasParams r.samples) results
    → (rows : List Entries) × (csv_rows results ≡ some rows)
      × (map columns_of rows ≡ map columns_for (all_samples results))
csv_rows-columns results h =
    let (rows, k) = csv_rows-some results h in
    (rows, k, subst (λ o. HasColumns o (all_samples results)) k (csv_rows-HasColumns results))
