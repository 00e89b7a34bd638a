-- ===== src/Rabbit/Tasks/Close.antt =====
-- What close asks of the broker, and in which order.
use rabbit_speed_test.Base.{
  ℕ, ◌≡◌, refl, sym, ap, ◌∙◌, Bool, true, false, Option, none, some, List, [], ◌∷◌, ◌++◌, Text,
  append_assoc, append_nil, arith,
}
use rabbit_speed_test.Rabbit.Client.{
  Client, Request, cancel_tag, hang_up, Reply, Result, ok, not_connected, broken,
}
use rabbit_speed_test.Rabbit.Watch.{cancel_consumer}
use rabbit_speed_test.Rabbit.Tasks.{
  Stage, watching, resuming, Task, Running, cancel_at, cancel_tasks, hang_up_open, hung_up_con,
  hung_up_pub, close,
}

abbrev pub cancel_of : Text → Stage → List Request
cancel_of name (watching tag) = cancel_tag name tag ∷ []
cancel_of name resuming = []

-- The cancels of the tasks that watch a consumer.
abbrev pub cancels : List Task → List Request
cancels [] = []
cancels (t ∷ tasks) = cancel_of t.queue t.stage ++ cancels tasks

abbrev pub hang_up_of : Option ℕ → Bool → List Request
hang_up_of none closed = []
hang_up_of (some conn) true = []
hang_up_of (some conn) false = hang_up conn ∷ []

module _ (reply : List Request → Request → Reply) where
  cancel_consumer-requests :
      (name tag : Text) (c : Client)
      → ((cancel_consumer reply name tag c).requests ≡ c.requests ++ cancel_tag name tag ∷ [])
        × ((cancel_consumer reply name tag c).pub_conn ≡ c.pub_conn)
        × ((cancel_consumer reply name tag c).con_conn ≡ c.con_conn)
  unfolding cancel_consumer
  cancel_consumer-requests name tag c = ground arith

  cancel_at-requests :
      (name : Text) (stage : Stage) (c : Client)
      → ((cancel_at reply name stage c).requests ≡ c.requests ++ cancel_of name stage)
        × ((cancel_at reply name stage c).pub_conn ≡ c.pub_conn)
        × ((cancel_at reply name stage c).con_conn ≡ c.con_conn)
  cancel_at-requests name (watching tag) c = cancel_consumer-requests name tag c
  cancel_at-requests name resuming c = (sym (append_nil c.requests), refl, refl)

  cancel_tasks-requests :
      (tasks : List Task) (c : Client)
      → ((cancel_tasks reply tasks c).requests ≡ c.requests ++ cancels tasks)
        × ((cancel_tasks reply tasks c).pub_conn ≡ c.pub_conn)
        × ((cancel_tasks reply tasks c).con_conn ≡ c.con_conn)
  unfolding cancel_tasks
  cancel_tasks-requests [] c = (sym (append_nil c.requests), refl, refl)
  cancel_tasks-requests (t ∷ tasks) c =
      let (asked, p, k) = cancel_at-requests t.queue t.stage c in
      let (rest, p', k') = cancel_tasks-requests tasks (cancel_at reply t.queue t.stage c) in
      (
        rest
            ∙ ap (λ rs. rs ++ cancels tasks) asked
            ∙ append_assoc c.requests (cancel_of t.queue t.stage) (cancels tasks),
        p' ∙ p,
        k' ∙ k,
      )

  hang_up_open-requests :
      (conn : Option ℕ) (closed : Bool) (c : Client)
      → ((hang_up_open reply conn closed c).1.requests ≡ c.requests ++ hang_up_of conn closed)
        × ((hang_up_open reply conn closed c).1.con_conn ≡ c.con_conn)
  unfolding hang_up_open
  hang_up_open-requests none closed c = (sym (append_nil c.requests), refl)
  hang_up_open-requests (some conn) true c = (sym (append_nil c.requests), refl)
  hang_up_open-requests (some conn) false c = ground arith

  hung_up_con-ok :
      (a : Result ℕ × Client) (r : Running) {n : ℕ}
      → (hung_up_con reply a r).0 ≡ ok n
      → ((hung_up_con reply a r).1.client ≡ a.1)
        × ((hung_up_con reply a r).1.tasks ≡ r.tasks)
        × ((hung_up_con reply a r).1.pub_closed ≡ r.pub_closed)
        × ((hung_up_con reply a r).1.con_closed ≡ true)
  hung_up_con-ok (ok m, c) r h = (refl, refl, refl, refl)
  hung_up_con-ok (not_connected, c) r h = absurd (ground arith)
  hung_up_con-ok (broken e, c) r h = absurd (ground arith)

  hung_up_pub-ok :
      (a : Result ℕ × Client) (r : Running) {n : ℕ}
      → (hung_up_pub reply a r).0 ≡ ok n
      → ((hung_up_pub reply a r).1.client.requests
          ≡ a.1.requests ++ hang_up_of a.1.con_conn r.con_closed)
        × ((hung_up_pub reply a r).1.tasks ≡ r.tasks)
        × ((hung_up_pub reply a r).1.pub_closed ≡ true)
        × ((hung_up_pub reply a r).1.con_closed ≡ true)
  hung_up_pub-ok (ok m, c) r {n} h =
      let (client, tasks, p, k) =
        hung_up_con-ok (hang_up_open reply c.con_conn r.con_closed c)
          (record r { client = c; pub_closed = true }) {n = n} h in
      (
        ap (λ d. d.requests) client ∙ (hang_up_open-requests c.con_conn r.con_closed c).0,
        tasks,
        p,
        k,
      )
  hung_up_pub-ok (not_connected, c) r h = absurd (ground arith)
  hung_up_pub-ok (broken e, c) r h = absurd (ground arith)

  -- A close that returns has first cancelled, at the broker, the consumer of every task that watched
  -- one, in their order, and only then closed the connections that were open, the publishing one
  -- first; it asked for nothing else, no task is left, and of the two connections none is still open.
  pub close-requests :
      (r : Running) {n : ℕ}
      → (close reply r).0 ≡ ok n
      → ((close reply r).1.client.requests
          ≡ ((r.client.requests ++ cancels r.tasks) ++ hang_up_of r.client.pub_conn r.pub_closed)
            ++ hang_up_of r.client.con_conn r.con_closed)
        × ((close reply r).1.tasks ≡ [])
        × ((close reply r).1.pub_closed ≡ true)
        × ((close reply r).1.con_closed ≡ true)
  unfolding close
  close-requests r {n} h =
      let c = cancel_tasks reply r.tasks r.client in
      let (asked, p, k) = cancel_tasks-requests r.tasks r.client in
      let (first, same) = hang_up_open-requests c.pub_conn r.pub_closed c in
      let (second, tasks, pub_down, con_down) =
        hung_up_pub-ok (hang_up_open reply c.pub_conn r.pub_closed c)
          (record r { client = c; tasks = [] }) {n = n} h in
      (
        second
            ∙ ap
                (λ conn.
                  (hang_up_open reply c.pub_conn r.pub_closed c).1.requests
                  ++ hang_up_of conn r.con_closed)
                (same ∙ k)
            ∙ ap (λ rs. rs ++ hang_up_of r.client.con_conn r.con_closed)
                (first
                  ∙ ap (λ rs. rs ++ hang_up_of c.pub_conn r.pub_closed) asked
                  ∙ ap
                      (λ conn.
                        (r.client.requests ++ cancels r.tasks) ++ hang_up_of conn r.pub_closed)
                      p),
        tasks,
        pub_down,
        con_down,
      )
