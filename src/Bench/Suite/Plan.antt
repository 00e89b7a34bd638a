-- ===== src/Bench/Suite/Plan.antt =====
-- The stages of a run of the suite: what follows the plan, and what the variables tell.
use rabbit_speed_test.Base.{
  ℕ, ◌≡◌, refl, sym, ap, ◌∙◌, List, [], ◌∷◌, ◌++◌, length, Text, append_nil, append_assoc,
}
use rabbit_speed_test.Bench.Suite.{Ended, returned, raised, Call, run, Suite, Step, next}

abbrev pub Stage : Type 0
Stage = Text × Text

module _ {R : Type 0} where
  -- The stages that ended with a result, and their results.
  abbrev pub ran_by : Call R → List Stage
  ran_by (run b name (returned rs)) = (name, b) ∷ []
  ran_by _ = []

  abbrev pub given_by : Call R → List R
  given_by (run b name (returned rs)) = rs
  given_by _ = []

  abbrev pub ran_of : List (Call R) → List Stage
  ran_of [] = []
  ran_of (c ∷ calls) = ran_by c ++ ran_of calls

  abbrev pub results_of : List (Call R) → List R
  results_of [] = []
  results_of (c ∷ calls) = given_by c ++ results_of calls

  pub ran_of-append :
      (calls : List (Call R)) (c : Call R) → ran_of (calls ++ c ∷ []) ≡ ran_of calls ++ ran_by c
  ran_of-append [] c = append_nil (ran_by c)
  ran_of-append (d ∷ calls) c =
      ap (λ l. ran_by d ++ l) (ran_of-append calls c)
      ∙ sym (append_assoc (ran_by d) (ran_of calls) (ran_by c))

  pub results_of-append :
      (calls : List (Call R)) (c : Call R)
      → results_of (calls ++ c ∷ []) ≡ results_of calls ++ given_by c
  results_of-append [] c = append_nil (given_by c)
  results_of-append (d ∷ calls) c =
      ap (λ l. given_by d ++ l) (results_of-append calls c)
      ∙ sym (append_assoc (given_by d) (results_of calls) (given_by c))

-- The stages of the suite in their order.
abbrev pub planned_for : List Text → Text → List Stage
planned_for [] name = []
planned_for (b ∷ bs) name = (name, b) ∷ planned_for bs name

abbrev pub planned : List Text → List Text → List Stage
planned bs [] = []
planned bs (name ∷ clients) = planned_for bs name ++ planned bs clients

-- All of the plan was done, or, where an exception was raised, its first stages.
abbrev pub Follows : List Stage → Ended (Unit {0}) → List Stage → List Stage → Type 0
Follows plan (returned u) before after = after ≡ before ++ plan
Follows plan (raised e) before after =
    (first : List Stage) × (rest : List Stage) × (plan ≡ first ++ rest) × (after ≡ before ++ first)

pub nothing_done :
    (plan : List Stage) (e : ℕ) (before : List Stage) → Follows plan (raised e) before before
nothing_done plan e before = ([], plan, refl, sym (append_nil before))

module _ {W R : Type 0} where
  -- The variables agree with the calls.
  abbrev pub IsTold : Suite W R → Type 0
  IsTold s = (s.all_results ≡ results_of s.calls) × (s.done ≡ length (ran_of s.calls))

  -- A step that follows a plan and keeps the variables in agreement.
  abbrev pub Runs : List Stage → Step W R (Unit {0}) → Type 0
  Runs plan m =
      (s : Suite W R)
      → IsTold s
      → Follows plan (m s).0 (ran_of s.calls) (ran_of (m s).1.calls) × IsTold (m s).1

  -- A call that is no stage.
  pub silent :
      (c : Call R) (r : Ended (Unit {0})) (s s' : Suite W R)
      → ran_by c ≡ []
      → given_by c ≡ []
      → s'.calls ≡ s.calls ++ c ∷ []
      → s'.all_results ≡ s.all_results
      → s'.done ≡ s.done
      → IsTold s
      → Follows [] r (ran_of s.calls) (ran_of s'.calls) × IsTold s'
  silent c r s s' quiet bare calls results done told =
      let same : ran_of s'.calls ≡ ran_of s.calls =
        ap ran_of calls
        ∙ ran_of-append s.calls c
        ∙ ap (λ l. ran_of s.calls ++ l) quiet
        ∙ append_nil (ran_of s.calls) in
      let kept : results_of s'.calls ≡ results_of s.calls =
        ap results_of calls
        ∙ results_of-append s.calls c
        ∙ ap (λ l. results_of s.calls ++ l) bare
        ∙ append_nil (results_of s.calls) in
      (go r same, (results ∙ told.0 ∙ sym kept, done ∙ told.1 ∙ ap length (sym same)))
    where
      go :
          (r : Ended (Unit {0}))
          → ran_of s'.calls ≡ ran_of s.calls
          → Follows [] r (ran_of s.calls) (ran_of s'.calls)
      go (returned u) e = e ∙ sym (append_nil (ran_of s.calls))
      go (raised x) e = ([], [], refl, e ∙ sym (append_nil (ran_of s.calls)))

  pub next-Runs :
      (p q : List Stage) (n : Step W R (Unit {0})) (s : Suite W R)
      (a : Ended (Unit {0}) × Suite W R)
      → Follows p a.0 (ran_of s.calls) (ran_of a.1.calls) × IsTold a.1
      → Runs q n
      → Follows (p ++ q) (next a.0 n a.1).0 (ran_of s.calls) (ran_of (next a.0 n a.1).1.calls)
        × IsTold (next a.0 n a.1).1
  next-Runs p q n s (raised e, s') ((first, rest, plan, after), told) k =
      ((first, rest ++ q, ap (λ l. l ++ q) plan ∙ append_assoc first rest q, after), told)
  next-Runs p q n s (returned u, s') (after, told) k =
      let (f, told') = k s' told in (go (n s').0 f, told')
    where
      go :
          (r : Ended (Unit {0}))
          → Follows q r (ran_of s'.calls) (ran_of (n s').1.calls)
          → Follows (p ++ q) r (ran_of s.calls) (ran_of (n s').1.calls)
      go (returned u) f = f ∙ ap (λ l. l ++ q) after ∙ append_assoc (ran_of s.calls) p q
      go (raised e) (first, rest, plan, done) = (
        p ++ first,
        rest,
        ap (λ l. p ++ l) plan ∙ sym (append_assoc p first rest),
        done ∙ ap (λ l. l ++ first) after ∙ append_assoc (ran_of s.calls) p first,
      )
