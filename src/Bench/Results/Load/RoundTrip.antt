-- ===== src/Bench/Results/Load/RoundTrip.antt =====
-- What load_json reads back of a saved suite.
use rabbit_speed_test.Base.{◌≡◌, refl, sym, ap, ◌∙◌, some, List, [], ◌∷◌, All}
use rabbit_speed_test.Bench.Results.{
  Json, boolean, object, end_entries, IterationSample, EnvironmentInfo, StatSummary,
  BenchmarkResult, BenchmarkSuiteResult, sample_dict, sample_dicts, environment_dict, stats_before,
  summary_dict, result_dict, result_dicts, suite_dict,
}
use rabbit_speed_test.Bench.Results.Load.{
  ◌>>=◌, elements, each, equals_zero, sample_from, environment_from, summary_from, result_from,
  suite_from, Codec, save_json, load_json,
}

sample_from-sample_dict : (s : IterationSample) → sample_from (sample_dict s) ≡ some s
unfolding sample_from sample_dict
sample_from-sample_dict s = refl

samples_from-dicts :
    (ss : List IterationSample) → each sample_from (elements (sample_dicts ss)) ≡ some ss
unfolding sample_dicts
samples_from-dicts [] = refl
samples_from-dicts (s ∷ rest) =
    ap
      (λ o.
        o >>= λ a. each sample_from (elements (sample_dicts rest)) >>= λ others. some (a ∷ others))
      (sample_from-sample_dict s)
    ∙ ap (λ o. o >>= λ others. some (s ∷ others)) (samples_from-dicts rest)

environment_from-environment_dict :
    (e : EnvironmentInfo) → environment_from (environment_dict e) ≡ some e
unfolding environment_from environment_dict
environment_from-environment_dict e = refl

summary_from-summary_dict : (s : StatSummary) → summary_from (summary_dict s) ≡ some s
unfolding summary_from summary_dict
summary_from-summary_dict s = refl

-- A summary as it was written before the flag existed.
unfoldable pub unflagged_dict : StatSummary → Json
unfolding stats_before
unflagged_dict s = object (stats_before s end_entries)

summary_from-unflagged_dict :
    (s : StatSummary)
    → s.failed ≡ boolean (equals_zero s.n_success)
    → summary_from (unflagged_dict s) ≡ some s
unfolding summary_from unflagged_dict
summary_from-unflagged_dict s h = ap (λ f. some (record s { failed = f })) (sym h)

module _ (summary : StatSummary → Json) where
  -- The summary of the result is read back.
  abbrev Reads : BenchmarkResult → Type 0
  Reads r = summary_from (summary r.summary) ≡ some r.summary

  result_from-result_dict :
      (r : BenchmarkResult) → Reads r → result_from (result_dict summary r) ≡ some r
  unfolding result_from result_dict
  result_from-result_dict r h =
      ap
        (λ o. o >>= λ (s : StatSummary).
          each sample_from (elements (sample_dicts r.samples)) >>= λ samples.
          some (record r { summary = s; samples = samples }))
        h
      ∙ ap (λ o. o >>= λ samples. some (record r { samples = samples }))
          (samples_from-dicts r.samples)

  results_from-dicts :
      (rs : List BenchmarkResult)
      → All Reads rs
      → each result_from (elements (result_dicts summary rs)) ≡ some rs
  unfolding result_dicts
  results_from-dicts [] h = refl
  results_from-dicts (r ∷ rest) (h, hs) =
      ap
        (λ o. o >>= λ a.
          each result_from (elements (result_dicts summary rest)) >>= λ others. some (a ∷ others))
        (result_from-result_dict r h)
      ∙ ap (λ o. o >>= λ others. some (r ∷ others)) (results_from-dicts rest hs)

  suite_from-suite_dict :
      (s : BenchmarkSuiteResult) → All Reads s.results → suite_from (suite_dict summary s) ≡ some s
  unfolding suite_from suite_dict
  suite_from-suite_dict s h =
      ap
        (λ o. o >>= λ e. each result_from (elements (result_dicts summary s.results)) >>= λ results.
          some (record s { environment = e; results = results }))
        (environment_from-environment_dict s.environment)
      ∙ ap (λ o. o >>= λ results. some (record s { results = results }))
          (results_from-dicts s.results h)

summaries_read : (rs : List BenchmarkResult) → All (Reads summary_dict) rs
summaries_read [] = tt
summaries_read (r ∷ rest) = (summary_from-summary_dict r.summary, summaries_read rest)

-- The flag of the summary says whether there is no success.
abbrev pub IsFlagged : BenchmarkResult → Type 0
IsFlagged r = r.summary.failed ≡ boolean (equals_zero r.summary.n_success)

summaries_read_unflagged :
    (rs : List BenchmarkResult) → All IsFlagged rs → All (Reads unflagged_dict) rs
summaries_read_unflagged [] h = tt
summaries_read_unflagged (r ∷ rest) (h, hs) =
    (summary_from-unflagged_dict r.summary h, summaries_read_unflagged rest hs)

-- load_json gives back every suite that save_json has written.
pub load_json-save_json :
    {B : Type 0} (codec : Codec B) (s : BenchmarkSuiteResult)
    → load_json codec (save_json codec s) ≡ some s
unfolding load_json save_json
load_json-save_json codec s =
    ap (λ o. o >>= suite_from) (codec.parse-dump (suite_dict summary_dict s))
    ∙ suite_from-suite_dict summary_dict s (summaries_read s.results)

-- From a file that was written before summaries had the flag `failed`, load_json gives back the suite
-- with the flag of every result that had no success set, and no other.
pub load_json-unflagged :
    {B : Type 0} (codec : Codec B) (s : BenchmarkSuiteResult)
    → All IsFlagged s.results
    → load_json codec (codec.dump (suite_dict unflagged_dict s)) ≡ some s
unfolding load_json
load_json-unflagged codec s h =
    ap (λ o. o >>= suite_from) (codec.parse-dump (suite_dict unflagged_dict s))
    ∙ suite_from-suite_dict unflagged_dict s (summaries_read_unflagged s.results h)
