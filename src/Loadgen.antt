-- ===== src/Loadgen.antt =====
-- The load on the API in shared_data_service/scripts/benchmark.py: how bench_api shares the ids out to
-- its load generators, the requests of request_factory, and the count of the failures in hammer.
pub mod Shares
pub mod Hammer
use rabbit_speed_test.Base.{
  ℕ, zero, suc, ◌+◌, ◌-◌, ◌*◌, ◌/◌, max, Bool, true, false, Option, none, some, List, [], ◌∷◌, ◌++◌,
  length, take, drop, Text, nat_eq, leb, ◌==◌, if◌then◌else◌,
}

-- PHASES
pub data Phase : Type 0 where
  create get patch list_users : Phase

-- A request, less the address of its server and what it sends beside the id.
pub data Request : Type 0 where
  post_user get_user patch_user : Text → Request
  get_users : Request

-- The spec of a generator, less the address of its server.
pub record Spec : Type 0 where
  pub phase : Phase
  pub n : ℕ
  pub concurrency : ℕ
  pub ids : List Text

abbrev pub get_elem? : {A : Type 0} → List A → ℕ → Option A
get_elem? [] i = none
get_elem? (x ∷ xs) zero = some x
get_elem? (x ∷ xs) (suc i) = get_elem? xs i

-- xs[i:j]
abbrev pub slice : {A : Type 0} → ℕ → ℕ → List A → List A
slice i j xs = take (j - i) (drop i xs)

abbrev pub request_of : (Text → Request) → Option Text → Option Request
request_of f none = none
request_of f (some uid) = some (f uid)

-- request_factory; `none` is an IndexError.
unfoldable pub request : Phase → List Text → ℕ → Option Request
request create ids i = request_of post_user (get_elem? ids i)
request get ids i = request_of get_user (get_elem? ids i)
request patch ids i = request_of patch_user (get_elem? ids i)
request list_users ids i = some get_users

abbrev pub joined : Option Request → Option (List Request) → Option (List Request)
joined (some r) (some rs) = some (r ∷ rs)
joined _ _ = none

-- The requests that hammer makes for i in range(n), from number i on.
unfoldable pub requests_from : Phase → List Text → ℕ → ℕ → Option (List Request)
unfolding request
requests_from phase ids i zero = some []
requests_from phase ids i (suc left) =
    joined (request phase ids i) (requests_from phase ids (suc i) left)

-- run_loadgen
unfoldable pub run_loadgen : Spec → Option (List Request)
unfolding requests_from
run_loadgen spec = requests_from spec.phase spec.ids zero spec.n

abbrev pub is_list : Phase → Bool
is_list list_users = true
is_list phase = false

-- How many requests a generator makes in a phase, of `n` for `k` generators; k is positive, as Python
-- does not divide by 0.
unfoldable pub per_gen : Phase → ℕ → ℕ → ℕ
per_gen phase n k = (if is_list phase then max (n / 4) 100 else n) / k

-- The spec of generator gi.
unfoldable pub spec_of : Phase → List Text → ℕ → ℕ → ℕ → ℕ → Spec
unfolding per_gen
spec_of phase ids n k concurrency gi =
    let chunk = n / k in
    let mine = slice (gi * chunk) (suc gi * chunk) ids in
    record {
      phase = phase;
      n = per_gen phase n k;
      concurrency = max (concurrency / k) 1;
      ids = if is_list phase then take 1 ids else take (per_gen phase n k) mine;
    }

-- The specs of the generators from number gi on.
unfoldable pub specs_from : Phase → List Text → ℕ → ℕ → ℕ → ℕ → ℕ → List Spec
unfolding spec_of
specs_from phase ids n k concurrency gi zero = []
specs_from phase ids n k concurrency gi (suc left) =
    spec_of phase ids n k concurrency gi ∷ specs_from phase ids n k concurrency (suc gi) left

abbrev pub and_also : Option (List Request) → Option (List Request) → Option (List Request)
and_also (some rs) (some more) = some (rs ++ more)
and_also _ _ = none

abbrev pub all_loads : List Spec → Option (List Request)
all_loads [] = some []
all_loads (spec ∷ rest) = and_also (run_loadgen spec) (all_loads rest)

-- The requests of all generators in a phase of bench_api, one generator after the other.
unfoldable pub phase_requests : Phase → List Text → ℕ → ℕ → ℕ → Option (List Request)
unfolding specs_from run_loadgen
phase_requests phase ids n k concurrency = all_loads (specs_from phase ids n k concurrency zero k)

-- A response, and the start of its text.
pub record Response : Type 0 where
  pub status_code : ℕ
  pub text : Text

abbrev pub Statuses : Type 0
Statuses = List (ℕ × ℕ)

-- fail_statuses[code] = fail_statuses.get(code, 0) + 1
unfoldable pub bump : ℕ → Statuses → Statuses
bump code [] = (code, 1) ∷ []
bump code ((c, n) ∷ rest) = if c == code then (c, suc n) ∷ rest else (c, n) ∷ bump code rest

-- fail_sample.setdefault(code, text)
unfoldable pub set_default : ℕ → Text → List (ℕ × Text) → List (ℕ × Text)
set_default code text [] = (code, text) ∷ []
set_default code text ((c, t) ∷ rest) =
    if c == code then (c, t) ∷ rest else (c, t) ∷ set_default code text rest

-- The variables of hammer, less the times.
pub record Tally : Type 0 where
  pub latencies : ℕ
  pub fail_statuses : Statuses
  pub fail_sample : List (ℕ × Text)

abbrev pub failing : Response → Bool
failing r = leb 400 r.status_code

unfoldable pub answered : Response → Tally → Tally
unfolding bump set_default
answered r t =
    if failing r
    then record {
      latencies = suc t.latencies;
      fail_statuses = bump r.status_code t.fail_statuses;
      fail_sample = set_default r.status_code r.text t.fail_sample;
    }
    else record t { latencies = suc t.latencies }

-- The responses in the order in which they arrive.
unfoldable pub tally : List Response → Tally → Tally
unfolding answered
tally [] t = t
tally (r ∷ rest) t = tally rest (answered r t)

abbrev pub total : Statuses → ℕ
total [] = 0
total ((c, n) ∷ rest) = n + total rest

-- hammer returns the latencies, or raises with the number of the failures.
pub data Hammered : Type 0 where
  measured : ℕ → Hammered
  requests_failed : ℕ → Statuses → List (ℕ × Text) → Hammered

abbrev pub judged : Tally → Statuses → Hammered
judged t [] = measured t.latencies
judged t (s ∷ rest) = requests_failed (total (s ∷ rest)) (s ∷ rest) t.fail_sample

unfoldable pub hammer : List Response → Hammered
unfolding tally
hammer responses =
    let t = tally responses (record { latencies = 0; fail_statuses = []; fail_sample = [] }) in
    judged t t.fail_statuses
