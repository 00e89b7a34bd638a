-- ===== src/Container/Lifespan/Shutdown.antt =====
-- What a process leaves behind.
use mathlib.Core.Path.{subst}
use mathlib.Core.List.{append-nil}
use rabbit_speed_test.Base.{
  ℕ, zero, suc, length, ◌&&◌, Bool-cases, inl, inr, ◌≡◌, refl, sym, ap, ◌∙◌, Bool, true, false,
  Option, none, some, List, [], ◌∷◌, ◌++◌, map, All, append_assoc, if◌then◌else◌,
}
use rabbit_speed_test.Outcome.{Outcome, ok, err, unwound}
use rabbit_speed_test.Container.{
  Ends, close_batchers, loop_ended, stop_rest, Task, running, done, Action, cancel_consumer,
  close_batcher, close_bus, dispose_engine, Container, start, start_consumer, stop, is_running,
}
use rabbit_speed_test.Container.Lifespan.{
  ConsumerEnd, at_end, runs_consumer, finally_ends, started_up, lifespan, awaited, consumer_started,
  run_consumer,
}

abbrev pub cancels : Option Task → List Action
cancels (some running) = cancel_consumer ∷ []
cancels t = []

abbrev pub closings : List Bool → List Action
closings bs = map (λ b. close_batcher) bs

-- The order that the comment in stop asks for.
abbrev pub shutdown : Container → List Action
shutdown c = cancels c.consumer_task ++ (closings c.batchers ++ (close_bus ∷ dispose_engine ∷ []))

abbrev pub all_return : Ends → ℕ → ℕ → Bool
all_return ends i zero = true
all_return ends i (suc n) = ends i && all_return ends (suc i) n

-- Whether every await of stop returns, for a number of batchers.
abbrev pub stop_returns : Ends → ℕ → Bool
stop_returns ends n = all_return ends zero n && (ends n && ends (suc n))

-- Where everything returned, nothing is left to do and the batchers are closed.
abbrev pub IsWhole : Bool → List Action → List Bool → Type 0
IsWhole true left bs = (left ≡ []) × All (λ b. b ≡ true) bs
IsWhole false left bs = Unit

-- From c to d a shutdown has kept its order: no consumer runs, and what was done, with what is left of
-- it, is the shutdown.
abbrev pub IsDown : Ends → Container → Container → Type 0
IsDown ends c d =
    (is_running d.consumer_task ≡ false)
    × (left : List Action) × (d.actions ++ left ≡ c.actions ++ shutdown c)
    × IsWhole (stop_returns ends (length c.batchers)) left d.batchers

close_batchers-IsWhole :
    (ends : Ends) (i : ℕ) (bs : List Bool)
    → let b = close_batchers ends i bs in
      (b.finished ≡ all_return ends i (length bs))
      × (left : List Action) × (b.actions ++ left ≡ closings bs)
      × IsWhole b.finished left b.batchers
unfolding close_batchers
close_batchers-IsWhole ends i [] = (refl, [], refl, (refl, tt))
close_batchers-IsWhole ends i (b ∷ bs) =
    let (e, left, k, w) = close_batchers-IsWhole ends (suc i) bs in
    elim (Bool-cases (ends i)) [
      | inl h ↦ rw h (
        e,
        left,
        ap (λ l. close_batcher ∷ l) k,
        one_more (close_batchers ends (suc i) bs).finished left
            (close_batchers ends (suc i) bs).batchers w,
      )
      | inr h ↦ rw h (refl, closings bs, refl, tt)
    ]
  where
    one_more :
        (f : Bool) (left : List Action) (bs : List Bool)
        → IsWhole f left bs
        → IsWhole f left (true ∷ bs)
    one_more true left bs (l, h) = (l, (refl, h))
    one_more false left bs h = tt

abbrev ends_with : List Action
ends_with = close_bus ∷ dispose_engine ∷ []

closed_both :
    (a : List Action) → ((a ++ close_bus ∷ []) ++ dispose_engine ∷ []) ++ [] ≡ a ++ ends_with
closed_both a =
    append-nil ((a ++ close_bus ∷ []) ++ dispose_engine ∷ [])
    ∙ append_assoc a (close_bus ∷ []) (dispose_engine ∷ [])

-- The calls after the loop, each in its turn.
loop_ended-IsWhole :
    (f closes disposes : Bool) (c : Container) (left : List Action)
    → IsWhole f left c.batchers
    → let d = (loop_ended f closes disposes c).1 in
      (d.consumer_task ≡ c.consumer_task)
      × (rest : List Action) × (d.actions ++ rest ≡ c.actions ++ (left ++ ends_with))
      × IsWhole (f && (closes && disposes)) rest d.batchers
loop_ended-IsWhole true true true c left (l, h) =
    (refl, [], closed_both c.actions ∙ ap (λ k. c.actions ++ (k ++ ends_with)) (sym l), (refl, h))
loop_ended-IsWhole true true false c left (l, h) =
    (refl, [], closed_both c.actions ∙ ap (λ k. c.actions ++ (k ++ ends_with)) (sym l), tt)
loop_ended-IsWhole true false disposes c left (l, h) = (
  refl,
  dispose_engine ∷ [],
  append_assoc c.actions (close_bus ∷ []) (dispose_engine ∷ [])
      ∙ ap (λ k. c.actions ++ (k ++ ends_with)) (sym l),
  tt,
)
loop_ended-IsWhole false closes disposes c left h = (refl, left ++ ends_with, refl, tt)

stop_rest-IsWhole :
    (ends : Ends) (s : Container)
    → let d = (stop_rest ends s).1 in
      (d.consumer_task ≡ s.consumer_task)
      × (rest : List Action) × (d.actions ++ rest ≡ s.actions ++ (closings s.batchers ++ ends_with))
      × IsWhole (stop_returns ends (length s.batchers)) rest d.batchers
stop_rest-IsWhole ends s =
    let n = length s.batchers in
    let b = close_batchers ends zero s.batchers in
    let (e, left, k, w) = close_batchers-IsWhole ends zero s.batchers in
    let (same, rest, done_so, whole) =
      loop_ended-IsWhole b.finished (ends n) (ends (suc n))
        (record s { batchers = b.batchers; actions = s.actions ++ b.actions }) left w in
    (
      same,
      rest,
      done_so
          ∙ append_assoc s.actions b.actions (left ++ ends_with)
          ∙ ap (λ l. s.actions ++ l)
              (sym (append_assoc b.actions left ends_with) ∙ ap (λ l. l ++ ends_with) k),
      subst
          (λ f.
            IsWhole (f && (ends n && ends (suc n))) rest
              (loop_ended b.finished (ends n) (ends (suc n))
                (record s { batchers = b.batchers; actions = s.actions ++ b.actions })).1.batchers)
          e whole,
    )

stop-IsDown :
    (t : Option Task) (ends : Ends) (c : Container)
    → IsDown ends (record c { consumer_task = t }) (stop ends (record c { consumer_task = t })).1
unfolding stop
stop-IsDown none ends c =
    let (same, rest, e, w) = stop_rest-IsWhole ends (record c { consumer_task = none }) in
    (ap is_running same, rest, e, w)
stop-IsDown (some done) ends c =
    let (same, rest, e, w) = stop_rest-IsWhole ends (record c { consumer_task = some done }) in
    (ap is_running same, rest, e, w)
stop-IsDown (some running) ends c =
    let (same, rest, e, w) =
      stop_rest-IsWhole ends
        (record c { consumer_task = some done; actions = c.actions ++ cancel_consumer ∷ [] }) in
    (
      ap is_running same,
      rest,
      e ∙ append_assoc c.actions (cancel_consumer ∷ []) (closings c.batchers ++ ends_with),
      w,
    )

finally_ends-state :
    (body : Outcome (Unit {0})) (a : Outcome (Unit {0}) × Container) → (finally_ends body a).1 ≡ a.1
finally_ends-state body (ok u, c) = refl
finally_ends-state body (err x, c) = refl
finally_ends-state body (unwound, c) = refl

-- The task at the end of a process that runs, or does not run, a consumer.
abbrev pub task_at_end : Bool → ConsumerEnd → Container → Option Task
task_at_end true e c = at_end e (some running)
task_at_end false e c = at_end e c.consumer_task

started_up-IsDown :
    (e : ConsumerEnd) (ends : Ends) (body : Outcome (Unit {0})) (c : Container) (runs : Bool)
    → runs_consumer c.service_mode ≡ runs
    → IsDown ends
        (record c { consumer_task = task_at_end runs e c })
        (started_up e ends body (ok tt, c)).1
unfolding start_consumer
started_up-IsDown e ends body c true h =
    let s = record c { consumer_task = at_end e (some running) } in
    subst (λ (d : Container). IsDown ends s d)
      (sym (
        ap
          (λ b.
            (finally_ends body (
              stop ends (
                let k = if b then start_consumer c else c in
                record k { consumer_task = at_end e k.consumer_task }))).1)
          h
        ∙ finally_ends-state body (stop ends s)))
      (stop-IsDown (at_end e (some running)) ends c)
started_up-IsDown e ends body c false h =
    let s = record c { consumer_task = at_end e c.consumer_task } in
    subst (λ (d : Container). IsDown ends s d)
      (sym (
        ap
          (λ b.
            (finally_ends body (
              stop ends (
                let k = if b then start_consumer c else c in
                record k { consumer_task = at_end e k.consumer_task }))).1)
          h
        ∙ finally_ends-state body (stop ends s)))
      (stop-IsDown (at_end e c.consumer_task) ends c)

consumer_started-IsDown :
    (e : ConsumerEnd) (ends : Ends) (ended : Outcome (Unit {0})) (c : Container)
    → IsDown ends
        (record c { consumer_task = at_end e (some running) })
        (consumer_started e ends ended (ok tt, c)).1
unfolding start_consumer
consumer_started-IsDown e ends ended c =
    let s = record c { consumer_task = at_end e (some running) } in
    subst (λ (d : Container). IsDown ends s d)
      (sym (finally_ends-state (awaited e ended) (stop ends s)))
      (stop-IsDown (at_end e (some running)) ends c)

-- After a start that returned, however the API's process or the consumer's ends: once stop is over, no
-- consumer runs; of the shutdown, which is to cancel a consumer that runs, to close each batcher, then
-- the bus, then to dispose the engine, nothing was done before its turn; and if each of these calls
-- returned, all of it was done and every batcher is closed. That stop itself is cancelled is left out.
pub lifespan-IsDown :
    (connects : Bool) (ends : Ends) (e : ConsumerEnd) (body : Outcome (Unit {0})) (c : Container)
    → (start connects c).0 ≡ ok tt
    → let s = (start connects c).1 in
      IsDown ends
        (record s { consumer_task = task_at_end (runs_consumer s.service_mode) e s })
        (lifespan connects e ends body c).1
      × IsDown ends
          (record s { consumer_task = at_end e (some running) })
          (run_consumer connects e ends body c).1
unfolding lifespan run_consumer
lifespan-IsDown connects ends e body c h =
    let s = (start connects c).1 in
    (
      subst
          (λ (r : Outcome (Unit {0})).
            IsDown ends
              (record s { consumer_task = task_at_end (runs_consumer s.service_mode) e s })
              (started_up e ends body (r, s)).1)
          (sym h) (started_up-IsDown e ends body s (runs_consumer s.service_mode) refl),
      subst
          (λ (r : Outcome (Unit {0})).
            IsDown ends (record s { consumer_task = at_end e (some running) })
              (consumer_started e ends body (r, s)).1)
          (sym h) (consumer_started-IsDown e ends body s),
    )
