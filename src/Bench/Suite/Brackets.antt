-- ===== src/Bench/Suite/Brackets.antt =====
-- The order of the calls that a run of the suite makes of its clients.
use rabbit_speed_test.Base.{
  ◌≡◌, refl, ap, ◌∙◌, true, false, Option, none, some, List, [], ◌∷◌, ◌++◌, Text, ◌==◌, list_eq,
  nat_eq, beq_refl, if◌then◌else◌,
}
use rabbit_speed_test.Bench.Suite.{
  Ended, returned, raised, is_returned, Call, connect, delete_queue, server_version, run, close,
  World, Suite, Step, next, entered, connected, deleted, versioned, ask_version, extended,
  run_benchmarks, session, after_close, closing, run_client, run_clients, run_suite,
}

-- The client that is connected after a call, if the call is in order: a client connects while none
-- is, and every other call is of the client that is connected.
abbrev pub open_next : {R : Type 0} → Option Text → Call R → Option (Option Text)
open_next none (connect name true) = some (some name)
open_next none (connect name false) = some none
open_next (some m) (delete_queue name) = if m == name then some (some m) else none
open_next (some m) (server_version name) = if m == name then some (some m) else none
open_next (some m) (run b name r) = if m == name then some (some m) else none
open_next (some m) (close name) = if m == name then some none else none
open_next _ _ = none

abbrev pub and_open : {A : Type 0} → Option A → (A → Option (Option Text)) → Option (Option Text)
and_open none f = none
and_open (some a) f = f a

abbrev pub open_after : {R : Type 0} → Option Text → List (Call R) → Option (Option Text)
open_after o [] = some o
open_after o (c ∷ calls) = and_open (open_next o c) (λ o'. open_after o' calls)

and_open-some : (a : Option (Option Text)) → and_open a (λ o'. some o') ≡ a
and_open-some none = refl
and_open-some (some a) = refl

and_open-and_open :
    (f g h : Option Text → Option (Option Text)) (a : Option (Option Text))
    → ((o : Option Text) → f o ≡ and_open (g o) h)
    → and_open a f ≡ and_open (and_open a g) h
and_open-and_open f g h none e = refl
and_open-and_open f g h (some a) e = e a

open_after-append :
    {R : Type 0} (o : Option Text) (calls : List (Call R)) (c : Call R)
    → open_after o (calls ++ c ∷ []) ≡ and_open (open_after o calls) (λ o'. open_next o' c)
open_after-append o [] c = and_open-some (open_next o c)
open_after-append o (d ∷ calls) c =
    and_open-and_open _ _ _ (open_next o d) (λ o'. open_after-append o' calls c)

-- After one more call.
one_more :
    {R : Type 0} {o o' : Option Text} (calls : List (Call R)) (c : Call R)
    → open_after none calls ≡ some o
    → open_next o c ≡ some o'
    → open_after none (calls ++ c ∷ []) ≡ some o'
one_more {o} calls c h n =
    open_after-append none calls c ∙ ap (λ a. and_open a (λ o'. open_next o' c)) h ∙ n

own : (name : Text) → (if name == name then some (some name) else none) ≡ some (some name)
own name = rw (beq_refl name) refl

module _ {W R : Type 0} where
  -- The calls so far are in order, and `o` is connected.
  abbrev pub IsOpen : Option Text → Suite W R → Type 0
  IsOpen o s = open_after none s.calls ≡ some o

  next-IsOpen :
      {o o' : Option Text} (a : Ended (Unit {0}) × Suite W R) (n : Step W R (Unit {0}))
      → IsOpen o a.1
      → (o ≡ o')
      → ((s : Suite W R) → IsOpen o s → IsOpen o' (n s).1)
      → IsOpen o' (next a.0 n a.1).1
  next-IsOpen (returned u, s) n h same k = k s h
  next-IsOpen (raised e, s) n h same k = h ∙ ap some same

  module _ (w : World W R) (bs : List Text) (name : Text) where
    abbrev Held : Suite W R → Type 0
    Held s = IsOpen (some name) s

    versioned-IsOpen :
        (a : Ended (Option Text) × W) (s : Suite W R) → Held s → Held (versioned w name a s).1
    versioned-IsOpen (returned v, world) s h = one_more s.calls (server_version name) h (own name)
    versioned-IsOpen (raised e, world) s h = one_more s.calls (server_version name) h (own name)

    ask_version-IsOpen : (s : Suite W R) → Held s → Held (ask_version w name s).1
    unfolding ask_version
    ask_version-IsOpen s h = go s.rabbitmq_version
      where
        go :
            (v : Option Text)
            → Held
                (let r : Ended (Unit {0}) × Suite W R = elim v [
                  | some v ↦ (returned tt, s)
                  | none ↦ versioned w name (w.version_of name s.world) s
                ] in
                  r).1
        go (some v) = h
        go none = versioned-IsOpen (w.version_of name s.world) s h

    extended-IsOpen :
        (b : Text) (a : Ended (List R) × W) (s : Suite W R)
        → Held s
        → Held (extended w name b a s).1
    extended-IsOpen b (returned rs, world) s h =
        one_more s.calls (run b name (returned rs)) h (own name)
    extended-IsOpen b (raised e, world) s h = one_more s.calls (run b name (raised e)) h (own name)

    run_benchmarks-IsOpen :
        (rest : List Text) (s : Suite W R) → Held s → Held (run_benchmarks w name rest s).1
    unfolding run_benchmarks
    run_benchmarks-IsOpen [] s h = h
    run_benchmarks-IsOpen (b ∷ rest) s h =
        next-IsOpen (extended w name b (w.run_fn b name s.world) s) (run_benchmarks w name rest)
          (extended-IsOpen b (w.run_fn b name s.world) s h) refl (run_benchmarks-IsOpen rest)

    session-IsOpen : (s : Suite W R) → Held s → Held (session w bs name s).1
    unfolding session
    session-IsOpen s h =
        let d = deleted w name s in
        let v = next d.0 (ask_version w name) d.1 in
        next-IsOpen v (run_benchmarks w name bs)
          (next-IsOpen d (ask_version w name) (one_more s.calls (delete_queue name) h (own name))
            refl ask_version-IsOpen)
          refl (run_benchmarks-IsOpen bs)

    closing-IsOpen :
        (a : Ended (Unit {0}) × Suite W R) → Held a.1 → IsOpen none (closing w name a).1
    closing-IsOpen (r, s) h = go (w.close_client name s.world)
      where
        go :
            (c : Ended (Unit {0}) × W)
            → IsOpen none (after_close w r (entered w (close name) c s)).1
        go (returned u, world) = one_more s.calls (close name) h (rw (beq_refl name) refl)
        go (raised e, world) = one_more s.calls (close name) h (rw (beq_refl name) refl)

    run_client-IsOpen : (s : Suite W R) → IsOpen none s → IsOpen none (run_client w bs name s).1
    unfolding run_client
    run_client-IsOpen s h = go (w.make name s.world)
      where
        held :
            (c : Ended (Unit {0}) × W) (world : W)
            → let e = entered w (connect name (is_returned c.0)) c (record s { world = world }) in
              IsOpen none (next e.0 (λ s. closing w name (session w bs name s)) e.1).1
        held (returned u, world') world =
            let s' = record s { calls = s.calls ++ connect name true ∷ []; world = world' } in
            closing-IsOpen (session w bs name s')
              (session-IsOpen s' (one_more s.calls (connect name true) h refl))
        held (raised e, world') world = one_more s.calls (connect name false) h refl

        go :
            (m : Ended (Unit {0}) × W)
            → let s' = record s { world = m.1 } in
              let e = next m.0 (connected w name) s' in
              IsOpen none (next e.0 (λ s. closing w name (session w bs name s)) e.1).1
        go (raised e, world) = h
        go (returned u, world) = held (w.connect_client name world) world

  run_clients-IsOpen :
      (w : World W R) (bs clients : List Text) (s : Suite W R)
      → IsOpen none s
      → IsOpen none (run_clients w bs clients s).1
  unfolding run_clients
  run_clients-IsOpen w bs [] s h = h
  run_clients-IsOpen w bs (name ∷ rest) s h =
      let a = run_client w bs name s in
      next-IsOpen a (run_clients w bs rest) (run_client-IsOpen w bs name s h) refl
        (run_clients-IsOpen w bs rest)

  -- However a run of the suite ends, by a client or a benchmark that raises or by its return, its calls
  -- are in order and no client is left open: a client connects only while none is connected, the
  -- queue, version and benchmark calls are of the client that is connected, and close is
  -- called once for each client that connected.
  pub run_suite-IsOpen :
      (w : World W R) (bs clients : List Text) (world : W)
      → open_after none (run_suite w bs clients world).1.calls ≡ some none
  unfolding run_suite
  run_suite-IsOpen w bs clients world = run_clients-IsOpen w bs clients _ refl
