-- ===== src/Messaging/Batcher/Settles.antt =====
-- Every future of the batcher is settled, and as committed only after its entry was applied.
use rabbit_speed_test.Base.{
  ℕ, zero, suc, ◌≡◌, ◌<◌, ◌-◌, refl, Bool, true, false, ◌||◌, Option, none, some, List, [], ◌∷◌,
  ◌++◌, take, drop, max, nat_eq, ◌==◌, if◌then◌else◌, arith,
}
use rabbit_speed_test.Modules.Events.{or_else}
use rabbit_speed_test.Messaging.Batcher.{
  Resolution, committed, failed, closed_error, Applied, returned, raised, interrupted, Entry,
  Runner, fresh, waiting, applying, retrying, Batcher, init, settle_all, drain_queue, submit,
  start_at, wake_at, interrupt, flushed, retried, ends_at, cancel_at, close, Step, submits, starts,
  wakes, closes, ends, abandon, step, run,
}

module _ {A : Type 0} where
  -- The future i belongs to one of the entries.
  abbrev pub holds : ℕ → List (Entry A) → Bool
  holds i [] = false
  holds i ((a, j) ∷ es) = (j == i) || holds i es

  abbrev pub in_flight : Runner A → List (Entry A)
  in_flight (applying batch) = batch
  in_flight (retrying batch rest) = rest
  in_flight _ = []

  abbrev pub InBatch : ℕ → Runner A → Type 0
  InBatch i (retrying batch rest) = holds i rest ≡ true → holds i batch ≡ true
  InBatch i _ = Unit

  settle_all-eq :
      (r : Resolution) (es : List (Entry A)) (f : ℕ → Option Resolution) (i : ℕ)
      → settle_all r es f i ≡ (if holds i es then or_else (f i) (some r) else f i)
  unfolding settle_all
  settle_all-eq r [] f i = refl
  settle_all-eq r ((a, j) ∷ es) f i =
      ground (arith, settle_all-eq r es (λ k. if j == k then or_else (f k) (some r) else f k) i)

  holds-append : (i : ℕ) (xs ys : List (Entry A)) → holds i (xs ++ ys) ≡ (holds i xs || holds i ys)
  holds-append i [] ys = refl
  holds-append i ((a, j) ∷ xs) ys = ground (arith, holds-append i xs ys)

  holds-take-drop :
      (i n : ℕ) (xs : List (Entry A)) → holds i xs ≡ (holds i (take n xs) || holds i (drop n xs))
  holds-take-drop i zero xs = refl
  holds-take-drop i (suc n) [] = refl
  holds-take-drop i (suc n) ((a, j) ∷ xs) = ground (arith, holds-take-drop i n xs)

  -- What holds of the future i: while it is pending it is queued or in flight; it is committed only
  -- if its entry was applied.
  pub record IsTracked (i : ℕ) (b : Batcher A) : Type 0 where
    pub kept :
        i < b.made → b.futures i ≡ none → (holds i b.queue || holds i (in_flight b.runner)) ≡ true
    pub nested : InBatch i b.runner
    pub backed : b.futures i ≡ some committed → holds i b.applied ≡ true

  submit-IsTracked : (i : ℕ) (a : A) (b : Batcher A) → IsTracked i b → IsTracked i (submit a b).1
  unfolding submit
  submit-IsTracked i a b h = ground (arith, holds-append i b.queue ((a, b.made) ∷ []), h.kept)

  wake_at-IsTracked :
      (i : ℕ) (r : Runner A) (q : List (Entry A)) (b : Batcher A)
      → b.runner ≡ r
      → b.queue ≡ q
      → IsTracked i b
      → IsTracked i (wake_at r q b)
  unfolding wake_at
  wake_at-IsTracked i waiting (x ∷ rest) b er eq h =
      ground (arith, h.kept, h.backed, holds-take-drop i (max 1 b.max_batch - 1) rest)
  wake_at-IsTracked i _ _ b er eq h = h

  interrupt-IsTracked :
      (i : ℕ) (batch : List (Entry A)) (b : Batcher A)
      → IsTracked i b
      → (holds i (in_flight b.runner) ≡ true → holds i batch ≡ true)
      → IsTracked i (interrupt batch b)
  unfolding interrupt
  interrupt-IsTracked i batch b h covers = ground (
    arith,
    h.kept,
    h.backed,
    settle_all-eq closed_error batch b.futures i,
    settle_all-eq closed_error b.queue (settle_all closed_error batch b.futures) i,
  )

  flushed-IsTracked :
      (i : ℕ) (r : Applied) (batch : List (Entry A)) (b : Batcher A)
      → b.runner ≡ applying batch
      → IsTracked i b
      → IsTracked i (flushed r batch b)
  unfolding flushed
  flushed-IsTracked i interrupted batch b e h = interrupt-IsTracked i batch b h (ground arith)
  flushed-IsTracked i returned batch b e h = ground (
    arith,
    h.kept,
    h.backed,
    settle_all-eq committed batch b.futures i,
    holds-append i b.applied batch,
  )
  flushed-IsTracked i raised (x ∷ []) b e h =
      ground (arith, h.kept, h.backed, settle_all-eq failed (x ∷ []) b.futures i)
  flushed-IsTracked i raised _ b e h = ground (arith, h.kept, h.backed)

  retried-IsTracked :
      (i : ℕ) (r : Applied) (batch rest : List (Entry A)) (b : Batcher A)
      → b.runner ≡ retrying batch rest
      → IsTracked i b
      → IsTracked i (retried r batch rest b)
  unfolding retried
  retried-IsTracked i r batch [] b e h = ground (arith, h.kept, h.backed)
  retried-IsTracked i interrupted batch (x ∷ rest) b e h =
      interrupt-IsTracked i batch b h (ground (arith, h.nested))
  retried-IsTracked i returned batch (x ∷ []) b e h =
      ground (arith, h.kept, h.backed, h.nested, holds-append i b.applied (x ∷ []))
  retried-IsTracked i returned batch (x ∷ y ∷ rest) b e h =
      ground (arith, h.kept, h.backed, h.nested, holds-append i b.applied (x ∷ []))
  retried-IsTracked i raised batch (x ∷ []) b e h = ground (arith, h.kept, h.backed, h.nested)
  retried-IsTracked i raised batch (x ∷ y ∷ rest) b e h = ground (arith, h.kept, h.backed, h.nested)

  ends_at-IsTracked :
      (i : ℕ) (q : Runner A) (r : Applied) (b : Batcher A)
      → b.runner ≡ q
      → IsTracked i b
      → IsTracked i (ends_at q r b)
  unfolding ends_at
  ends_at-IsTracked i (applying batch) r b e h = flushed-IsTracked i r batch b e h
  ends_at-IsTracked i (retrying batch rest) r b e h = retried-IsTracked i r batch rest b e h
  ends_at-IsTracked i _ r b e h = h

  cancel_at-IsTracked :
      (i : ℕ) (q : Runner A) (b : Batcher A)
      → b.runner ≡ q
      → IsTracked i b
      → IsTracked i (cancel_at q b)
  unfolding cancel_at
  cancel_at-IsTracked i fresh b e h = ground (arith, h.kept, h.backed)
  cancel_at-IsTracked i waiting b e h = interrupt-IsTracked i [] b h (ground arith)
  cancel_at-IsTracked i (applying batch) b e h = interrupt-IsTracked i batch b h (ground arith)
  cancel_at-IsTracked i (retrying batch rest) b e h =
      interrupt-IsTracked i batch b h (ground (arith, h.nested))
  cancel_at-IsTracked i _ b e h = h

  drain_queue-IsTracked : (i : ℕ) (b : Batcher A) → IsTracked i b → IsTracked i (drain_queue b)
  unfolding drain_queue
  drain_queue-IsTracked i b h = record {
    kept = ground (arith, h.kept, settle_all-eq closed_error b.queue b.futures i);
    nested = h.nested;
    backed = ground (arith, h.backed, settle_all-eq closed_error b.queue b.futures i);
  }

  pub close-IsTracked : (i : ℕ) (b : Batcher A) → IsTracked i b → IsTracked i (close b)
  unfolding close
  close-IsTracked i b h =
      drain_queue-IsTracked i (cancel_at b.runner (record b { closed = true })) (
        cancel_at-IsTracked i b.runner (record b { closed = true }) refl
          (record { kept = h.kept; nested = h.nested; backed = h.backed }))

  start_at-IsTracked :
      (i : ℕ) (q : Runner A) (b : Batcher A)
      → b.runner ≡ q
      → IsTracked i b
      → IsTracked i (start_at q b)
  unfolding start_at
  start_at-IsTracked i fresh b e h = ground (arith, h.kept, h.backed)
  start_at-IsTracked i _ b e h = h

  step-IsTracked : (i : ℕ) (s : Step A) (b : Batcher A) → IsTracked i b → IsTracked i (step s b)
  unfolding step
  step-IsTracked i (submits a) b h = submit-IsTracked i a b h
  step-IsTracked i starts b h = start_at-IsTracked i b.runner b refl h
  step-IsTracked i wakes b h = wake_at-IsTracked i b.runner b.queue b refl refl h
  step-IsTracked i closes b h = close-IsTracked i b h
  step-IsTracked i (ends r) b h = ends_at-IsTracked i b.runner r b refl h
  step-IsTracked i (abandon j) b h = record {
    kept = ground (arith, h.kept);
    nested = h.nested;
    backed = ground (arith, h.backed);
  }

  pub run-IsTracked :
      (i : ℕ) (steps : List (Step A)) (b : Batcher A) → IsTracked i b → IsTracked i (run steps b)
  unfolding run
  run-IsTracked i [] b h = h
  run-IsTracked i (s ∷ steps) b h = run-IsTracked i steps (step s b) (step-IsTracked i s b h)

  pub init-IsTracked : (i m : ℕ) → IsTracked i (init m)
  unfolding init
  init-IsTracked i m = record {
    kept = λ h. absurd (omega arith);
    nested = tt;
    backed = λ e. absurd (ground arith);
  }
