-- ===== src/Bench/AioPika/Bulk.antt =====
-- publish_many of the aio-pika client: what it sends.
use rabbit_speed_test.Base.{
  ℕ, zero, suc, ◌≡◌, refl, sym, ap, ◌∙◌, Bool, Option, none, some, List, [], ◌∷◌, ◌++◌, map,
  map-append, length, Text, append_nil, append_assoc, arith,
}
use rabbit_speed_test.Rabbit.Client.{batches}
use rabbit_speed_test.Rabbit.Client.Pipeline.{concat, concat-batches}
use rabbit_speed_test.Bench.Suite.{returned, raised}
use rabbit_speed_test.Bench.AioPika.{
  Message, Request, send, Reply, Client, Action, then_do, message, request_all, send_batches,
  send_slices, bulk_exchange, publish_many,
}
use rabbit_speed_test.Bench.AioPika.Channels.{
  after, bind-returned, IsBulk, Prepares, bulk_exchange-Prepares,
}

module _ (reply : List Request → Request → Reply) (closed : List Request → ℕ → Bool) where
  request_all-after :
      (qs : List Request) (c : Client) → (request_all reply closed qs c).1 ≡ after c qs
  unfolding request_all
  request_all-after [] c = ap (λ l. record c { requests = l }) (sym (append_nil c.requests))
  request_all-after (q ∷ qs) c =
      request_all-after qs (after c (q ∷ []))
      ∙ ap (λ l. record c { requests = l }) (append_assoc c.requests (q ∷ []) qs)

  gathered-returned :
      (o : Option ℕ) (rest : Action ℕ) (c : Client) (n : ℕ)
      → (then_do (elim o [ none ↦ returned zero | some e ↦ raised e ]) (λ m. rest) c).0 ≡ returned n
      → then_do (elim o [ none ↦ returned zero | some e ↦ raised e ]) (λ m. rest) c ≡ rest c
  gathered-returned none rest c n h = refl
  gathered-returned (some e) rest c n h = absurd (ground arith)

  send_batches-after :
      (first : List Reply → Option ℕ) (to : Message → Request) (bs : List (List Message))
      (c : Client) (n : ℕ)
      → (send_batches reply closed first to bs c).0 ≡ returned n
      → (send_batches reply closed first to bs c).1 ≡ after c (map to (concat bs))
  unfolding send_batches
  send_batches-after first to [] c n h =
      ap (λ l. record c { requests = l }) (sym (append_nil c.requests))
  send_batches-after first to (b ∷ bs) c n h =
      let sent = request_all reply closed (map to b) c in
      let e = gathered-returned (first sent.0) (send_batches reply closed first to bs) sent.1 n h in
      ap (λ r. r.1) e
      ∙ send_batches-after first to bs sent.1 n (sym (ap (λ r. r.0) e) ∙ h)
      ∙ ap (λ d. after d (map to (concat bs))) (request_all-after (map to b) c)
      ∙ ap (λ l. record c { requests = l })
          (append_assoc c.requests (map to b) (map to (concat bs))
            ∙ ap (λ l. c.requests ++ l) (sym (map-append to b (concat bs))))

  send_slices-after :
      (first : List Reply → Option ℕ) (to : Message → Request) (messages : List Message) (size : ℕ)
      (c : Client) (n : ℕ)
      → (send_slices reply closed first to messages size c).0 ≡ returned n
      → (send_slices reply closed first to messages size c).1 ≡ after c (map to messages)
  unfolding send_slices
  send_slices-after first to messages zero c n h = absurd (ground arith)
  send_slices-after first to messages (suc size) c n h =
      send_batches-after first to (batches (length messages) (suc size) messages) c n h
      ∙ ap (λ l. after c (map to l))
          (concat-batches (length messages) (suc size) messages (omega arith) (omega arith))

  -- A publish_many that returns has sent every body once, in the order of the list, to the exchange with
  -- the routing key and as persistent as the client is durable, after requests that send nothing; and
  -- all on one channel: the main one where confirms are asked for or the client was made without, and
  -- else the plain one.
  pub publish_many-IsBulk :
      (first : List Reply → Option ℕ) (exchange routing_key : Text) (bodies : List Text)
      (confirm : Bool) (c : Client) {n : ℕ}
      → (publish_many reply closed first exchange routing_key bodies confirm c).0 ≡ returned n
      → (ch : ℕ) × (d : Client) × Prepares c d
        × IsBulk confirm d ch
        × ((publish_many reply closed first exchange routing_key bodies confirm c).1
            ≡ after d (map (send ch exchange routing_key) (map (message c.durable) bodies)))
  unfolding publish_many
  publish_many-IsBulk first exchange routing_key bodies confirm c {n} h =
      let sends = λ (ch : ℕ) (d : Client).
        send_slices reply closed first (send ch exchange routing_key)
          (map (message d.durable) bodies) d.pipeline_batch d in
      let (ch, opened, e) =
        bind-returned (bulk_exchange reply closed exchange confirm) sends c n h in
      let d = (bulk_exchange reply closed exchange confirm c).1 in
      let (bulk, prepared) = bulk_exchange-Prepares reply closed exchange confirm c ch opened in
      (
        ch,
        d,
        prepared,
        bulk,
        ap (λ r. r.1) e
            ∙ send_slices-after first (send ch exchange routing_key)
                (map (message d.durable) bodies) d.pipeline_batch d n (sym (ap (λ r. r.0) e) ∙ h)
            ∙ ap (λ b. after d (map (send ch exchange routing_key) (map (message b) bodies)))
                prepared.1,
      )
