-- ===== src/Loadgen/Shares.antt =====
-- Which ids the load generators use.
use native.Mathlib.Nat.{div-mul-le_self, suc-mul, zero-mul, mul_comm}
use rabbit_speed_test.Base.{
  ℕ, zero, suc, ◌+◌, ◌-◌, ◌*◌, ◌/◌, ◌≤◌, ◌<◌, ◌≡◌, refl, sym, ap, ◌∙◌, false, some, List, [], ◌∷◌,
  ◌++◌, map, map-append, length, length-drop, length-take, take, take_twice, drop, Text, arith,
  if◌then◌else◌,
}
use rabbit_speed_test.Loadgen.{
  Phase, create, get, patch, list_users, Request, post_user, get_user, patch_user, get_elem?, slice,
  request_of, joined, request, requests_from, run_loadgen, is_list, per_gen, spec_of, specs_from,
  and_also, all_loads, phase_requests,
}

abbrev pub made_for : Phase → Text → Request
made_for create = post_user
made_for get = get_user
made_for patch = patch_user
made_for list_users = λ uid. Request.get_users

slice_width : (g c : ℕ) → suc g * c - g * c ≡ c
slice_width g c = omega (arith, suc-mul g c)

suc_plus : (p q : ℕ) → suc p + q ≡ suc (p + q)
suc_plus p q = omega arith

module _ {A : Type 0} where
  abbrev nothing : List A
  nothing = []

  take-nil : (q : ℕ) → take q nothing ≡ nothing
  take-nil zero = refl
  take-nil (suc q) = refl

  drop-nil : (q : ℕ) → drop q nothing ≡ nothing
  drop-nil zero = refl
  drop-nil (suc q) = refl

  take-add : (p q : ℕ) (xs : List A) → take (p + q) xs ≡ take p xs ++ take q (drop p xs)
  take-add zero q xs = ap (λ n. take n xs) (omega arith)
  take-add (suc p) q [] = ap (λ n. take n []) (suc_plus p q) ∙ sym (take-nil q)
  take-add (suc p) q (x ∷ xs) =
      ap (λ n. take n (x ∷ xs)) (suc_plus p q) ∙ ap (λ l. x ∷ l) (take-add p q xs)

  drop-drop : (p q : ℕ) (xs : List A) → drop q (drop p xs) ≡ drop (p + q) xs
  drop-drop zero q xs = ap (λ n. drop n xs) (omega arith)
  drop-drop (suc p) q [] = drop-nil q ∙ sym (drop-nil (suc p + q))
  drop-drop (suc p) q (x ∷ xs) = drop-drop p q xs ∙ ap (λ n. drop n (x ∷ xs)) (sym (suc_plus p q))

module _ (phase : Phase) (single : is_list phase ≡ false) where
  request-made_for :
      (ids : List Text) (i : ℕ)
      → request phase ids i ≡ request_of (made_for phase) (get_elem? ids i)
  unfolding request
  request-made_for ids i = go phase single
    where
      go :
          (p : Phase)
          → is_list p ≡ false
          → request p ids i ≡ request_of (made_for p) (get_elem? ids i)
      go create h = refl
      go get h = refl
      go patch h = refl
      go list_users h = absurd (ground arith)

  get_elem?-drop :
      {A : Type 0} (xs : List A) (i : ℕ)
      → i < length xs
      → (x : A) × (get_elem? xs i ≡ some x) × (drop i xs ≡ x ∷ drop (suc i) xs)
  get_elem?-drop [] i h = absurd (omega arith)
  get_elem?-drop (x ∷ xs) zero h = (x, refl, refl)
  get_elem?-drop (x ∷ xs) (suc i) h = get_elem?-drop xs i (omega arith)

  requests_from-made_for :
      (ids : List Text) (i left : ℕ)
      → i + left ≤ length ids
      → requests_from phase ids i left ≡ some (map (made_for phase) (take left (drop i ids)))
  unfolding requests_from
  requests_from-made_for ids i zero h = refl
  requests_from-made_for ids i (suc left) h =
      let (x, at, step) = get_elem?-drop ids i (omega arith) in
      ap (λ r. joined r (requests_from phase ids (suc i) left))
        (request-made_for ids i ∙ ap (request_of (made_for phase)) at)
      ∙ ap (joined (some (made_for phase x)))
          (requests_from-made_for ids (suc i) left (omega arith))
      ∙ ap (λ l. some (map (made_for phase) (take (suc left) l))) (sym step)

  per_gen-single : (n k : ℕ) → per_gen phase n k ≡ n / k
  unfolding per_gen
  per_gen-single n k = rw single refl

  -- The ids of a generator, which it uses each once.
  run_loadgen-spec_of :
      (ids : List Text) (n k concurrency gi : ℕ)
      → gi * (n / k) + n / k ≤ length ids
      → run_loadgen (spec_of phase ids n k concurrency gi)
        ≡ some (map (made_for phase) (take (n / k) (drop (gi * (n / k)) ids)))
  unfolding run_loadgen spec_of
  run_loadgen-spec_of ids n k concurrency gi h =
      let chunk = n / k in
      let rest = drop (gi * chunk) ids in
      let mine = take chunk rest in
      let long : chunk ≤ length rest = omega (arith, length-drop (gi * chunk) ids) in
      let same : take (per_gen phase n k) (slice (gi * chunk) (suc gi * chunk) ids) ≡ mine =
        ap (λ p. take p (slice (gi * chunk) (suc gi * chunk) ids)) (per_gen-single n k)
        ∙ ap (λ d. take chunk (take d rest)) (slice_width gi chunk)
        ∙ take_twice chunk rest in
      let held : length mine ≡ chunk = length-take chunk rest long in
      ap
        (λ b.
          requests_from phase
            (if b
              then take 1 ids
              else take (per_gen phase n k) (slice (gi * chunk) (suc gi * chunk) ids))
            zero (per_gen phase n k))
        single
      ∙ ap (λ l. requests_from phase l zero (per_gen phase n k)) same
      ∙ ap (requests_from phase mine zero) (per_gen-single n k)
      ∙ requests_from-made_for mine zero chunk (omega (arith, held))
      ∙ ap (λ l. some (map (made_for phase) l)) (take_twice chunk rest)

  all_loads-specs_from :
      (ids : List Text) (n k concurrency gi left : ℕ)
      → gi * (n / k) + left * (n / k) ≤ length ids
      → all_loads (specs_from phase ids n k concurrency gi left)
        ≡ some (map (made_for phase) (take (left * (n / k)) (drop (gi * (n / k)) ids)))
  unfolding specs_from
  all_loads-specs_from ids n k concurrency gi zero h =
      ap (λ p. some (map (made_for phase) (take p (drop (gi * (n / k)) ids))))
        (sym (zero-mul (n / k)))
  all_loads-specs_from ids n k concurrency gi (suc left) h =
      let chunk = n / k in
      let rest = drop (gi * chunk) ids in
      let more : suc left * chunk ≡ chunk + left * chunk = omega (arith, suc-mul left chunk) in
      let later : suc gi * chunk ≡ gi * chunk + chunk = suc-mul gi chunk in
      let first = run_loadgen-spec_of ids n k concurrency gi (omega (arith, more)) in
      let others =
        all_loads-specs_from ids n k concurrency (suc gi) left (omega (arith, more, later)) in
      let next : drop (suc gi * chunk) ids ≡ drop chunk rest =
        ap (λ p. drop p ids) later ∙ sym (drop-drop (gi * chunk) chunk ids) in
      ap (λ a. and_also a (all_loads (specs_from phase ids n k concurrency (suc gi) left))) first
      ∙ ap (and_also (some (map (made_for phase) (take chunk rest)))) others
      ∙ ap
          (λ l. some (
            map (made_for phase) (take chunk rest) ++ map (made_for phase) (take (left * chunk) l)))
          next
      ∙ ap some (
          sym
            (map-append (made_for phase) (take chunk rest) (take (left * chunk) (drop chunk rest))))
      ∙ ap (λ l. some (map (made_for phase) l)) (sym (take-add chunk (left * chunk) rest))
      ∙ ap (λ p. some (map (made_for phase) (take p rest))) (sym more)

  -- In a phase on single users, with as many ids as requests are wanted, no generator reaches past its
  -- ids, and the requests of all k generators are, for the first k * (n / k) ids in their order, one
  -- request for each.
  pub phase_requests-made_for :
      (ids : List Text) (k concurrency : ℕ)
      → phase_requests phase ids (length ids) k concurrency
        ≡ some (map (made_for phase) (take (k * (length ids / k)) ids))
  unfolding phase_requests
  phase_requests-made_for ids k concurrency =
      let n = length ids in
      all_loads-specs_from ids n k concurrency zero k
        (omega (arith, zero-mul (n / k), div-mul-le_self n k, mul_comm k (n / k)))
      ∙ ap (λ p. some (map (made_for phase) (take (k * (n / k)) (drop p ids)))) (zero-mul (n / k))
