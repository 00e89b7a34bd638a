-- ===== src/Messaging/Batcher.antt =====
-- Batcher of shared_data_service/app/messaging/batcher.py as a state machine: each step is what the
-- event loop runs between two awaits. Futures are numbered in the order of submit.
pub mod Settles
pub mod Closed
use rabbit_speed_test.Base.{
  ℕ, suc, ◌-◌, Bool, true, false, ◌&&◌, Option, none, some, List, [], ◌∷◌, ◌++◌, map, take, drop,
  length, max, nat_eq, ◌==◌, if◌then◌else◌,
}
use rabbit_speed_test.Modules.Events.{or_else}

-- How a future is done: its batch was applied, the apply raised, BatcherClosedError, or the
-- submitting task was cancelled.
pub data Resolution : Type 0 where
  committed failed closed_error abandoned : Resolution

-- How an awaited apply_batch ends: it returns, it raises an Exception, or a BaseException (a
-- cancellation) unwinds it.
pub data Applied : Type 0 where
  returned raised interrupted : Applied

abbrev pub Entry : Type 0 → Type 0
Entry A = A × ℕ

-- Where the runner task stands: none yet; created and not yet run; at `await queue.get()`; in the
-- apply of a batch; in the apply of the first entry of the rest, in the pass over a failed batch;
-- done.
pub data Runner (A : Type 0) : Type 0 where
  absent fresh waiting finished : Runner A
  applying : List (Entry A) → Runner A
  retrying : List (Entry A) → List (Entry A) → Runner A

pub record Batcher (A : Type 0) : Type 0 where
  pub max_batch : ℕ
  pub queue : List (Entry A)
  pub runner : Runner A
  pub closed : Bool
  -- how many futures were made, and how each that is done was
  pub made : ℕ
  pub futures : ℕ → Option Resolution
  -- the entries whose apply has returned
  pub applied : List (Entry A)

module _ {A : Type 0} where
  unfoldable pub init : ℕ → Batcher A
  init max_batch = record {
    max_batch = max_batch;
    queue = [];
    runner = absent;
    closed = false;
    made = 0;
    futures = λ _. none;
    applied = [];
  }

  -- `if not future.done(): future.set_...` over the entries
  unfoldable pub settle_all :
      Resolution → List (Entry A) → (ℕ → Option Resolution) → ℕ → Option Resolution
  settle_all r [] f = f
  settle_all r ((a, i) ∷ rest) f =
      settle_all r rest (λ j. if i == j then or_else (f j) (some r) else f j)

  -- _drain_queue
  unfoldable pub drain_queue : Batcher A → Batcher A
  unfolding settle_all
  drain_queue b = record b { queue = []; futures = settle_all closed_error b.queue b.futures }

  -- The start of a runner by submit: only if there is none, or it is done.
  abbrev pub revived : Runner A → Runner A
  revived absent = fresh
  revived finished = fresh
  revived r = r

  -- submit, up to its await: `none` is BatcherClosedError, else the future.
  unfoldable pub submit : A → Batcher A → Option ℕ × Batcher A
  submit a b = if b.closed then (none, b) else (
    some b.made,
    record b { runner = revived b.runner; queue = b.queue ++ (a, b.made) ∷ []; made = suc b.made },
  )

  -- The first step of the runner's task.
  unfoldable pub start_at : Runner A → Batcher A → Batcher A
  start_at fresh b = record b { runner = waiting }
  start_at _ b = b

  unfoldable pub start : Batcher A → Batcher A
  unfolding start_at
  start b = start_at b.runner b

  -- The runner wakes at queue.get() and drains greedily, up to max_batch entries.
  unfoldable pub wake_at : Runner A → List (Entry A) → Batcher A → Batcher A
  wake_at waiting (x ∷ rest) b = record b {
    runner = applying (x ∷ take (max 1 b.max_batch - 1) rest);
    queue = drop (max 1 b.max_batch - 1) rest;
  }
  wake_at _ _ b = b

  unfoldable pub wake : Batcher A → Batcher A
  unfolding wake_at
  wake b = wake_at b.runner b.queue b

  -- A BaseException in the runner: the batch in flight fails, then `finally` drains the queue.
  unfoldable pub interrupt : List (Entry A) → Batcher A → Batcher A
  unfolding drain_queue
  interrupt batch b =
      drain_queue
        (record b { runner = finished; futures = settle_all closed_error batch b.futures })

  -- _flush, after the apply of the batch
  unfoldable pub flushed : Applied → List (Entry A) → Batcher A → Batcher A
  unfolding interrupt settle_all
  flushed returned batch b = record b {
    runner = waiting;
    futures = settle_all committed batch b.futures;
    applied = b.applied ++ batch;
  }
  flushed raised (x ∷ []) b = record b {
    runner = waiting;
    futures = settle_all failed (x ∷ []) b.futures;
  }
  flushed raised batch b = record b { runner = retrying batch batch }
  flushed interrupted batch b = interrupt batch b

  abbrev pub next_retry : List (Entry A) → List (Entry A) → Runner A
  next_retry batch [] = waiting
  next_retry batch (x ∷ rest) = retrying batch (x ∷ rest)

  -- _apply_individually, after the apply of one entry
  unfoldable pub retried : Applied → List (Entry A) → List (Entry A) → Batcher A → Batcher A
  unfolding interrupt settle_all
  retried r batch [] b = record b { runner = waiting }
  retried returned batch (x ∷ rest) b = record b {
    runner = next_retry batch rest;
    futures = settle_all committed (x ∷ []) b.futures;
    applied = b.applied ++ x ∷ [];
  }
  retried raised batch (x ∷ rest) b = record b {
    runner = next_retry batch rest;
    futures = settle_all failed (x ∷ []) b.futures;
  }
  retried interrupted batch (x ∷ rest) b = interrupt batch b

  unfoldable pub ends_at : Runner A → Applied → Batcher A → Batcher A
  unfolding flushed retried
  ends_at (applying batch) r b = flushed r batch b
  ends_at (retrying batch rest) r b = retried r batch rest b
  ends_at _ r b = b

  unfoldable pub apply_ends : Applied → Batcher A → Batcher A
  unfolding ends_at
  apply_ends r b = ends_at b.runner r b

  -- Cancelling the runner: a task that never ran skips its body, and `finally` with it.
  unfoldable pub cancel_at : Runner A → Batcher A → Batcher A
  unfolding interrupt
  cancel_at fresh b = record b { runner = finished }
  cancel_at waiting b = interrupt [] b
  cancel_at (applying batch) b = interrupt batch b
  cancel_at (retrying batch rest) b = interrupt batch b
  cancel_at _ b = b

  unfoldable pub close : Batcher A → Batcher A
  unfolding cancel_at drain_queue
  close b = drain_queue (cancel_at b.runner (record b { closed = true }))

-- What the event loop runs next. `abandon` is the cancellation of a submitting task.
pub data Step (A : Type 0) : Type 0 where
  submits : A → Step A
  starts wakes closes : Step A
  ends : Applied → Step A
  abandon : ℕ → Step A

module _ {A : Type 0} where
  unfoldable pub step : Step A → Batcher A → Batcher A
  unfolding submit start wake apply_ends close
  step (submits a) b = (submit a b).1
  step starts b = start b
  step wakes b = wake b
  step closes b = close b
  step (ends r) b = apply_ends r b
  step (abandon i) b = record b {
    futures = λ j. if i == j then or_else (b.futures j) (some abandoned) else b.futures j;
  }

  unfoldable pub run : List (Step A) → Batcher A → Batcher A
  unfolding step
  run [] b = b
  run (s ∷ rest) b = run rest (step s b)
