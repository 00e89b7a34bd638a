-- ===== src/Messaging/Batcher/Closed.antt =====
-- What close() of the batcher guarantees, and what a committed future means.
use rabbit_speed_test.Base.{
  ℕ, ◌≡◌, ◌≢◌, ◌<◌, refl, ◌∙◌, true, none, some, List, [], ◌∷◌, nat_eq, arith,
}
use rabbit_speed_test.Messaging.Batcher.{
  committed, Applied, returned, Runner, absent, fresh, waiting, finished, applying, retrying,
  Batcher, init, drain_queue, submit, start_at, wake_at, interrupt, ends_at, cancel_at, close, Step,
  submits, starts, wakes, closes, ends, abandon, step, run,
}
use rabbit_speed_test.Messaging.Batcher.Settles.{
  holds, in_flight, close-IsTracked, run-IsTracked, init-IsTracked,
}

module _ {A : Type 0} where
  -- The runner is gone: there never was one, or its task is done.
  abbrev pub IsGone : Runner A → Type 0
  IsGone absent = Unit
  IsGone finished = Unit
  IsGone _ = ⊥

  cancel_at-IsGone : (q : Runner A) (b : Batcher A) → b.runner ≡ q → IsGone (cancel_at q b).runner
  unfolding cancel_at interrupt drain_queue
  cancel_at-IsGone absent b e = rw e tt
  cancel_at-IsGone finished b e = rw e tt
  cancel_at-IsGone _ b e = tt

  flight-IsGone : (r : Runner A) → IsGone r → in_flight r ≡ []
  flight-IsGone absent h = refl
  flight-IsGone finished h = refl
  flight-IsGone fresh h = absurd h
  flight-IsGone waiting h = absurd h
  flight-IsGone (applying batch) h = absurd h
  flight-IsGone (retrying batch rest) h = absurd h

  cancel_at-closed : (q : Runner A) (b : Batcher A) → (cancel_at q b).closed ≡ b.closed
  unfolding cancel_at interrupt drain_queue
  cancel_at-closed absent b = refl
  cancel_at-closed _ b = refl

  close-IsGone :
      (b : Batcher A) → IsGone (close b).runner × ((close b).queue ≡ []) × ((close b).closed ≡ true)
  unfolding close drain_queue
  close-IsGone b = (
    cancel_at-IsGone b.runner (record b { closed = true }) refl,
    refl,
    cancel_at-closed b.runner (record b { closed = true }),
  )

  -- A closing batcher settles every future: whatever has happened, after close() each future that
  -- submit made is done and the queue is empty.
  pub close_settles :
      (m i : ℕ) (steps : List (Step A))
      → let b = close (run steps (init m)) in (i < b.made → b.futures i ≢ none) × (b.queue ≡ [])
  close_settles m i steps =
      let b = run steps (init m) in
      let h = close-IsTracked i b (run-IsTracked i steps (init m) (init-IsTracked i m)) in
      let (gone, empty, shut) = close-IsGone b in
      (
        λ made pending.
            absurd (ground (arith, h.kept made pending, flight-IsGone (close b).runner gone)),
        empty,
      )

  -- Acked only after the commit: whatever has happened, a future that is settled as committed is
  -- that of an entry whose apply has returned.
  pub committed_applied :
      (m i : ℕ) (steps : List (Step A))
      → (run steps (init m)).futures i ≡ some committed
      → holds i (run steps (init m)).applied ≡ true
  committed_applied m i steps e = (run-IsTracked i steps (init m) (init-IsTracked i m)).backed e

  -- Closed and at rest.
  abbrev pub IsDown : Batcher A → Type 0
  IsDown b = (b.closed ≡ true) × IsGone b.runner × (b.queue ≡ [])

  idle_steps :
      (q : Runner A) (r : Applied) (b : Batcher A)
      → IsGone q
      → (start_at q b ≡ b) × (wake_at q b.queue b ≡ b) × (ends_at q r b ≡ b) × (cancel_at q b ≡ b)
  unfolding start_at wake_at ends_at cancel_at
  idle_steps absent r b g = (refl, refl, refl, refl)
  idle_steps finished r b g = (refl, refl, refl, refl)
  idle_steps fresh r b g = absurd g
  idle_steps waiting r b g = absurd g
  idle_steps (applying batch) r b g = absurd g
  idle_steps (retrying batch rest) r b g = absurd g

  step-IsDown :
      (s : Step A) (b : Batcher A) → IsDown b → IsDown (step s b) × ((step s b).made ≡ b.made)
  unfolding step drain_queue
  step-IsDown (submits a) b h = ground (arith, h)
  step-IsDown starts b h = rw (idle_steps b.runner returned b h.1).0 (h, refl)
  step-IsDown wakes b h = rw (idle_steps b.runner returned b h.1).1 (h, refl)
  step-IsDown (ends r) b h = rw (idle_steps b.runner r b h.1).2 (h, refl)
  step-IsDown closes b h =
      rw (idle_steps b.runner returned (record b { closed = true }) h.1).3 ((refl, h.1, refl), refl)
  step-IsDown (abandon j) b h = (h, refl)

  run-IsDown :
      (steps : List (Step A)) (b : Batcher A)
      → IsDown b
      → IsDown (run steps b) × ((run steps b).made ≡ b.made)
  unfolding run
  run-IsDown [] b h = (h, refl)
  run-IsDown (s ∷ steps) b h =
      let (down, same) = step-IsDown s b h in
      let (down', same') = run-IsDown steps (step s b) down in (down', same' ∙ same)

  -- A late submit cannot bring a closed batcher back: whatever happens after close(), the runner is
  -- gone, the queue is empty, no future is made, and a submit is refused.
  close_final :
      (steps : List (Step A)) (b : Batcher A) (a : A)
      → let later = run steps (close b) in
        IsGone later.runner
        × (later.queue ≡ [])
        × (later.made ≡ (close b).made)
        × ((submit a later).0 ≡ none)
  unfolding submit
  close_final steps b a =
      let (gone, empty, shut) = close-IsGone b in
      let (down, same) = run-IsDown steps (close b) (shut, gone, empty) in
      (down.1, down.2, same, ground (arith, down.0))
