-- ===== src/Rabbit/Tasks.antt =====
-- The consumer tasks of RabbitClient, rabbit-client-python/src/hs_rabbit_client/client.py: consume starts
-- one, close stops them all and hangs up. The set of tasks is a list in the order in which the event
-- loop lets them run; the text of a consumer tag is a parameter.
pub mod Close
use rabbit_speed_test.Base.{
  ℕ, zero, Bool, true, false, Option, none, some, List, [], ◌∷◌, ◌++◌, Text, if◌then◌else◌,
}
use rabbit_speed_test.Rabbit.Client.{
  Client, Request, cancel_tag, hang_up, Reply, accepted, refused, Result, ok, not_connected, broken,
  establish_consumer,
}
use rabbit_speed_test.Rabbit.Watch.{cancel_consumer}

-- Where the body of _consume_forever stands: in the watchdog of a tag, or between two consumers, in
-- the backoff or in the new establishment.
pub data Stage : Type 0 where
  watching : Text → Stage
  resuming : Stage

pub record Task : Type 0 where
  pub queue : Text
  pub stage : Stage

-- The client with its tasks, and which of its connections are closed.
pub record Running : Type 0 where
  pub client : Client
  pub tasks : List Task
  pub pub_closed : Bool
  pub con_closed : Bool

module _ (reply : List Request → Request → Reply) where
  -- consume: the task joins the set once its consumer is established.
  abbrev pub started : (ℕ → Text) → Text → Result ℕ → Running → Result ℕ × Running
  started tag_of name (ok n) r = (
    ok n,
    record r { tasks = r.tasks ++ record { queue = name; stage = watching (tag_of n) } ∷ [] },
  )
  started tag_of name e r = (e, r)

  unfoldable pub consume : (ℕ → Text) → Text → Option ℕ → Running → Result ℕ × Running
  unfolding establish_consumer
  consume tag_of name prefetch r =
      let (answer, c) = establish_consumer reply name prefetch r.client in
      started tag_of name answer (record r { client = c })

  -- A cancelled task: only the watchdog has a `finally`.
  abbrev pub cancel_at : Text → Stage → Client → Client
  cancel_at name (watching tag) c = cancel_consumer reply name tag c
  cancel_at name resuming c = c

  unfoldable pub cancel_tasks : List Task → Client → Client
  unfolding cancel_consumer
  cancel_tasks [] c = c
  cancel_tasks (t ∷ tasks) c = cancel_tasks tasks (cancel_at t.queue t.stage c)

  -- One turn of the loop over the connections: nothing for one that is missing or closed.
  unfoldable pub hang_up_open : Option ℕ → Bool → Client → Result ℕ × Client
  hang_up_open none closed c = (ok zero, c)
  hang_up_open (some conn) true c = (ok zero, c)
  hang_up_open (some conn) false c =
      let c' = record c { requests = c.requests ++ hang_up conn ∷ [] } in
      elim (reply c.requests (hang_up conn)) [
        | accepted n ↦ (ok n, c')
        | refused e ↦ (broken e, c')
      ]

  abbrev pub hung_up_con : Result ℕ × Client → Running → Result ℕ × Running
  hung_up_con (ok n, c) r = (ok n, record r { client = c; con_closed = true })
  hung_up_con (e, c) r = (e, record r { client = c })

  abbrev pub hung_up_pub : Result ℕ × Client → Running → Result ℕ × Running
  hung_up_pub (ok n, c) r =
      hung_up_con (hang_up_open c.con_conn r.con_closed c)
        (record r { client = c; pub_closed = true })
  hung_up_pub (e, c) r = (e, record r { client = c })

  -- close: the tasks are stopped, then the publishing connection is closed, then the other; an
  -- exception of the first leaves the second open.
  unfoldable pub close : Running → Result ℕ × Running
  unfolding cancel_tasks hang_up_open
  close r =
      let c = cancel_tasks r.tasks r.client in
      hung_up_pub (hang_up_open c.pub_conn r.pub_closed c) (record r { client = c; tasks = [] })
