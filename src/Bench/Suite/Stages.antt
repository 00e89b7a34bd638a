-- ===== src/Bench/Suite/Stages.antt =====
-- What a run of the suite reports of its stages.
use rabbit_speed_test.Base.{
  ℕ, suc, ◌≡◌, refl, sym, ap, ◌∙◌, Option, none, some, List, [], ◌∷◌, ◌++◌, length, length-append,
  Text, append_nil, arith,
}
use rabbit_speed_test.Bench.Suite.{
  Ended, returned, raised, is_returned, Call, connect, delete_queue, server_version, run, close,
  World, Suite, next, entered, connected, deleted, versioned, ask_version, extended, run_benchmarks,
  session, after_close, closing, run_client, run_clients, run_suite,
}
use rabbit_speed_test.Bench.Suite.Plan.{
  Stage, ran_by, given_by, ran_of, results_of, ran_of-append, results_of-append, planned_for,
  planned, Follows, nothing_done, IsTold, Runs, silent, next-Runs,
}

module _ {W R : Type 0} where
  module _ (w : World W R) (bs : List Text) where
    entered-Runs :
        (c : Call R) (f : W → Ended (Unit {0}) × W)
        → ran_by c ≡ []
        → given_by c ≡ []
        → Runs [] (λ s. entered w c (f s.world) s)
    entered-Runs c f quiet bare s told =
        silent c (f s.world).0 s (entered w c (f s.world) s).1 quiet bare refl refl refl told

    ask_version-Runs : (name : Text) → Runs [] (ask_version w name)
    unfolding ask_version
    ask_version-Runs name s told = go s.rabbitmq_version
      where
        asked :
            (a : Ended (Option Text) × W)
            → Follows []
                (versioned w name a s).0
                (ran_of s.calls)
                (ran_of (versioned w name a s).1.calls)
              × IsTold (versioned w name a s).1
        asked (returned v, world) =
            silent (server_version name) (returned tt) s (versioned w name (returned v, world) s).1
              refl refl refl refl refl told
        asked (raised e, world) =
            silent (server_version name) (raised e) s (versioned w name (raised e, world) s).1 refl
              refl refl refl refl told

        go :
            (v : Option Text)
            → let r : Ended (Unit {0}) × Suite W R = elim v [
              | some v ↦ (returned tt, s)
              | none ↦ versioned w name (w.version_of name s.world) s
            ] in
              Follows [] r.0 (ran_of s.calls) (ran_of r.1.calls) × IsTold r.1
        go (some v) = (sym (append_nil (ran_of s.calls)), told)
        go none = asked (w.version_of name s.world)

    extended-Runs :
        (name b : Text) → Runs ((name, b) ∷ []) (λ s. extended w name b (w.run_fn b name s.world) s)
    extended-Runs name b s told = go (w.run_fn b name s.world)
      where
        go :
            (a : Ended (List R) × W)
            → Follows
                ((name, b) ∷ [])
                (extended w name b a s).0
                (ran_of s.calls)
                (ran_of (extended w name b a s).1.calls)
              × IsTold (extended w name b a s).1
        go (returned rs, world) =
            let c : Call R = run b name (returned rs) in
            (
              ran_of-append s.calls c,
              (
                ap (λ l. l ++ rs) told.0 ∙ sym (results_of-append s.calls c),
                ap suc told.1
                    ∙ sym (
                        ap length (ran_of-append s.calls c)
                        ∙ length-append (ran_of s.calls) ((name, b) ∷ [])
                        ∙ omega arith),
              ),
            )
        go (raised e, world) =
            let c : Call R = run b name (raised e) in
            (
              ([], (name, b) ∷ [], refl, ran_of-append s.calls c),
              (
                told.0 ∙ sym (results_of-append s.calls c ∙ append_nil (results_of s.calls)),
                told.1
                    ∙ sym (
                        ap length (ran_of-append s.calls c)
                        ∙ ap length (append_nil (ran_of s.calls))),
              ),
            )

    run_benchmarks-Runs :
        (name : Text) (rest : List Text) → Runs (planned_for rest name) (run_benchmarks w name rest)
    unfolding run_benchmarks
    run_benchmarks-Runs name [] s told = (sym (append_nil (ran_of s.calls)), told)
    run_benchmarks-Runs name (b ∷ rest) s told =
        next-Runs ((name, b) ∷ []) (planned_for rest name) (run_benchmarks w name rest) s
          (extended w name b (w.run_fn b name s.world) s) (extended-Runs name b s told)
          (run_benchmarks-Runs name rest)

    session-Runs : (name : Text) → Runs (planned_for bs name) (session w bs name)
    unfolding session
    session-Runs name s told =
        let d = deleted w name s in
        let v = next d.0 (ask_version w name) d.1 in
        next-Runs [] (planned_for bs name) (run_benchmarks w name bs) s v
          (next-Runs [] [] (ask_version w name) s d
            (entered-Runs (delete_queue name) (w.delete_client_queue name) refl refl s told)
            (ask_version-Runs name))
          (run_benchmarks-Runs name bs)

    closing-Runs :
        (name : Text) (plan before : List Stage) (a : Ended (Unit {0}) × Suite W R)
        → Follows plan a.0 before (ran_of a.1.calls) × IsTold a.1
        → Follows plan (closing w name a).0 before (ran_of (closing w name a).1.calls)
          × IsTold (closing w name a).1
    closing-Runs name plan before (r, s) (follows, told) = go (w.close_client name s.world)
      where
        same : (c : Ended (Unit {0}) × W) → ran_of (s.calls ++ close name ∷ []) ≡ ran_of s.calls
        same c = ran_of-append s.calls (close name) ∙ append_nil (ran_of s.calls)

        kept :
            (r : Ended (Unit {0})) (after : List Stage)
            → after ≡ ran_of s.calls
            → Follows plan r before (ran_of s.calls)
            → Follows plan r before after
        kept (returned u) after e f = e ∙ f
        kept (raised x) after e (first, rest, p, f) = (first, rest, p, e ∙ f)

        failed :
            (r : Ended (Unit {0})) (e : ℕ) (after : List Stage)
            → after ≡ ran_of s.calls
            → Follows plan r before (ran_of s.calls)
            → Follows plan (raised e) before after
        failed (returned u) x after e f = (plan, [], sym (append_nil plan), e ∙ f)
        failed (raised y) x after e (first, rest, p, f) = (first, rest, p, e ∙ f)

        go :
            (c : Ended (Unit {0}) × W)
            → let a = after_close w r (entered w (close name) c s) in
              Follows plan a.0 before (ran_of a.1.calls) × IsTold a.1
        go (returned u, world) =
            let c : Ended (Unit {0}) × W = (returned u, world) in
            (
              kept r (ran_of (s.calls ++ close name ∷ [])) (same c) follows,
              (entered-Runs (close name) (λ x. c) refl refl s told).1,
            )
        go (raised e, world) =
            let c : Ended (Unit {0}) × W = (raised e, world) in
            (
              failed r e (ran_of (s.calls ++ close name ∷ [])) (same c) follows,
              (entered-Runs (close name) (λ x. c) refl refl s told).1,
            )

    run_client-Runs : (name : Text) → Runs (planned_for bs name) (run_client w bs name)
    unfolding run_client
    run_client-Runs name s told = go (w.make name s.world)
      where
        go :
            (m : Ended (Unit {0}) × W)
            → let s' = record s { world = m.1 } in
              let e = next m.0 (connected w name) s' in
              let a = next e.0 (λ s. closing w name (session w bs name s)) e.1 in
              Follows (planned_for bs name) a.0 (ran_of s.calls) (ran_of a.1.calls) × IsTold a.1
        go (raised e, world) = (nothing_done (planned_for bs name) e (ran_of s.calls), told)
        go (returned u, world) =
            let c = w.connect_client name world in
            let s' = record s { world = world } in
            next-Runs [] (planned_for bs name) (λ s. closing w name (session w bs name s)) s
              (entered w (connect name (is_returned c.0)) c s')
              (silent (connect name (is_returned c.0)) c.0 s
                (entered w (connect name (is_returned c.0)) c s').1 refl refl refl refl refl told)
              (λ t told'.
                closing-Runs name (planned_for bs name) (ran_of t.calls) (session w bs name t)
                  (session-Runs name t told'))

    run_clients-Runs : (clients : List Text) → Runs (planned bs clients) (run_clients w bs clients)
    unfolding run_clients
    run_clients-Runs [] s told = (sym (append_nil (ran_of s.calls)), told)
    run_clients-Runs (name ∷ rest) s told =
        next-Runs (planned_for bs name) (planned bs rest) (run_clients w bs rest) s
          (run_client w bs name s) (run_client-Runs name s told) (run_clients-Runs rest)

    -- The stages that end with a result are, for a run of the suite that returns, all benchmarks of the
    -- first client in their order, then those of the next, and for one that raises the first of these;
    -- in both cases the results are theirs in that order, and the count of the progress is theirs.
    pub run_suite-Follows :
        (clients : List Text) (world : W)
        → let (r, s) = run_suite w bs clients world in
          Follows (planned bs clients) r [] (ran_of s.calls)
          × (s.all_results ≡ results_of s.calls)
          × (s.done ≡ length (ran_of s.calls))
    unfolding run_suite
    run_suite-Follows clients world =
        let (f, told) = run_clients-Runs clients _ (refl, refl) in (f, told.0, told.1)
