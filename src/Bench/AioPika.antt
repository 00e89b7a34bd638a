-- ===== src/Bench/AioPika.antt =====
-- AioPikaClient of rabbit-benchmark/benchmark/clients/aio_pika_client.py: connecting, the cached
-- queues, the two channels and the publishing. The broker and aio-pika are a parameter: what they
-- answer to a request, given all earlier ones, and which channels are closed by then.
pub mod Channels
pub mod Bulk
use rabbit_speed_test.Base.{
  ℕ, zero, suc, not, Bool, true, false, ◌&&◌, ◌||◌, Option, none, some, List, [], ◌∷◌, ◌++◌, map,
  length, contains, keep, Text, list_eq, nat_eq, ◌==◌, if◌then◌else◌,
}
use rabbit_speed_test.Modules.Events.{is_empty}
use rabbit_speed_test.Rabbit.Client.{batches}
use rabbit_speed_test.Bench.Suite.{Ended, returned, raised}

pub record Message : Type 0 where
  pub body : Text
  pub persistent : Bool

pub data Request : Type 0 where
  dial hang_up : Request
  open_channel : Bool → Request
  set_qos : ℕ → Request
  declare purge delete get_one : Text → Request
  get_exchange : ℕ → Text → Request
  -- on a channel, to an exchange, with a routing key
  send : ℕ → Text → Text → Message → Request

-- A request fails with an exception, or it succeeds with a number.
pub data Reply : Type 0 where
  accepted : ℕ → Reply
  refused : ℕ → Reply

pub record Client : Type 0 where
  pub prefetch : ℕ
  pub confirms : Bool
  pub durable : Bool
  pub pipeline_batch : ℕ
  pub connected : Bool
  pub channel : Option ℕ
  pub plain_channel : Option ℕ
  -- the names in the dict of the declared queues
  pub queues : List Text
  -- the requests made so far
  pub requests : List Request

-- AttributeError of a client that is not connected, and ValueError of a range with step 0.
abbrev pub attribute_error : ℕ
attribute_error = 0

abbrev pub value_error : ℕ
value_error = 1

abbrev pub Action : Type 0 → Type 0
Action A = Client → Ended A × Client

abbrev pub then_do : {A B : Type 0} → Ended A → (A → Action B) → Action B
then_do (returned a) f c = f a c
then_do (raised e) f c = (raised e, c)

infixl 10 ◌>>=◌ ◌>>◌
abbrev pub ◌>>=◌ : {A B : Type 0} → Action A → (A → Action B) → Action B
◌>>=◌ m f c = let (r, c') = m c in then_do r f c'

abbrev pub ◌>>◌ : {A B : Type 0} → Action A → Action B → Action B
m >> n = m >>= λ _. n

abbrev pub ended_by : Reply → Ended ℕ
ended_by (accepted n) = returned n
ended_by (refused e) = raised e

-- _message
abbrev pub message : Bool → Text → Message
message durable body = record { body = body; persistent = durable }

-- A channel that is None has no attributes.
abbrev pub needed : Option ℕ → Action ℕ
needed none c = (raised attribute_error, c)
needed (some ch) c = (returned ch, c)

module _ (reply : List Request → Request → Reply) (closed : List Request → ℕ → Bool) where
  abbrev pub request : Request → Action ℕ
  request q c = (ended_by (reply c.requests q), record c { requests = c.requests ++ q ∷ [] })

  unfoldable pub connect : Action ℕ
  connect =
      request dial
      >> (λ c. request (open_channel c.confirms) (record c { connected = true }))
      >>= λ ch. (λ c. request (set_qos c.prefetch) (record c { channel = some ch })) >> λ c.
          (returned zero, record c { plain_channel = none; queues = [] })

  unfoldable pub close : Action ℕ
  close c = if c.connected then request hang_up c else (returned zero, c)

  -- _queue
  unfoldable pub queue_named : Text → Action ℕ
  queue_named name c =
      if contains name c.queues
      then (returned zero, c)
      else (((λ c. needed c.channel c) >> request (declare name) >> λ c.
            (returned zero, record c { queues = name ∷ c.queues }))
          c)

  unfoldable pub purge_queue : Text → Action ℕ
  unfolding queue_named
  purge_queue name = queue_named name >> request (purge name)

  unfoldable pub delete_queue : Text → Action ℕ
  delete_queue name = (λ c. needed c.channel c) >> request (delete name) >> λ c.
      (returned zero, record c { queues = keep (λ n. not (name == n)) c.queues })

  unfoldable pub consume_one : Text → Action ℕ
  unfolding queue_named
  consume_one name = queue_named name >> request (get_one name)

  -- The default exchange needs no request.
  unfoldable pub exchange_of : Text → ℕ → Action ℕ
  exchange_of exchange ch c =
      if is_empty exchange then (returned zero, c) else request (get_exchange ch exchange) c

  unfoldable pub publish : Text → Text → Text → Action ℕ
  unfolding exchange_of
  publish exchange routing_key body = (λ c. needed c.channel c) >>= λ ch.
      exchange_of exchange ch >> λ c.
      request (send ch exchange routing_key (message c.durable body)) c

  abbrev pub reopened : Action ℕ
  reopened c =
      if c.connected
      then ((request (open_channel false) >>= λ ch.
            λ c. (returned ch, record c { plain_channel = some ch }))
          c)
      else (raised attribute_error, c)

  abbrev pub plain_or_new : Option ℕ → Action ℕ
  plain_or_new none c = reopened c
  plain_or_new (some ch) c = if closed c.requests ch then reopened c else (returned ch, c)

  -- _bulk_channel
  unfoldable pub bulk_channel : Bool → Action ℕ
  bulk_channel confirm c =
      if confirm || not c.confirms then needed c.channel c else plain_or_new c.plain_channel c

  unfoldable pub request_all : List Request → Client → List Reply × Client
  request_all [] c = ([], c)
  request_all (q ∷ rest) c =
      let (rs, c') = request_all rest (record c { requests = c.requests ++ q ∷ [] }) in
      (reply c.requests q ∷ rs, c')

  -- asyncio.gather raises one of the exceptions, if there is one: `first` says which.
  abbrev pub gathered : (List Reply → Option ℕ) → List Reply × Client → Ended ℕ × Client
  gathered first (rs, c) = (elim (first rs) [ none ↦ returned zero | some e ↦ raised e ], c)

  unfoldable pub send_batches :
      (List Reply → Option ℕ) → (Message → Request) → List (List Message) → Action ℕ
  unfolding request_all
  send_batches first to [] c = (returned zero, c)
  send_batches first to (b ∷ rest) c =
      ((λ c. gathered first (request_all (map to b) c)) >> send_batches first to rest) c

  -- The loop of publish_many with its step.
  unfoldable pub send_slices :
      (List Reply → Option ℕ) → (Message → Request) → List Message → ℕ → Action ℕ
  unfolding send_batches batches
  send_slices first to messages zero c = (raised value_error, c)
  send_slices first to messages (suc n) c =
      send_batches first to (batches (length messages) (suc n) messages) c

  -- The channel, and the exchange on it.
  unfoldable pub bulk_exchange : Text → Bool → Action ℕ
  unfolding bulk_channel exchange_of
  bulk_exchange exchange confirm =
      bulk_channel confirm >>= λ ch. exchange_of exchange ch >> λ c. (returned ch, c)

  unfoldable pub publish_many : (List Reply → Option ℕ) → Text → Text → List Text → Bool → Action ℕ
  unfolding bulk_exchange send_slices
  publish_many first exchange routing_key bodies confirm = bulk_exchange exchange confirm >>= λ ch.
      λ c.
        send_slices first (send ch exchange routing_key) (map (message c.durable) bodies)
          c.pipeline_batch c
