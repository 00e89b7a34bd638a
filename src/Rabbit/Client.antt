-- ===== src/Rabbit/Client.antt =====
-- RabbitClient of rabbit-client-python/src/hs_rabbit_client/client.py: connecting, the declare caches,
-- publishing and the establishment of a consumer. The broker and aio-pika are a parameter: what they
-- answer to a request, given all earlier ones.
pub mod Laws
pub mod Pipeline
use rabbit_speed_test.Base.{
  ℕ, zero, suc, not, Bool, true, false, ◌&&◌, Option, none, some, List, [], ◌∷◌, ◌++◌, map, take,
  drop, length, contains, keep, Text, list_eq, nat_eq, ◌==◌, if◌then◌else◌,
}

pub data DeliveryMode : Type 0 where
  persistent_mode not_persistent : DeliveryMode

-- The optional arguments of publish and publish_many. Header tables and times are numbers here.
pub record Properties : Type 0 where
  pub persistent : Option Bool
  pub headers : Option ℕ
  pub correlation_id : Option Text
  pub message_id : Option Text
  pub content_type : Option Text
  pub expiration : Option ℕ
  pub priority : Option ℕ

pub record Message : Type 0 where
  pub body : Text
  pub delivery_mode : DeliveryMode
  pub properties : Properties

pub data Request : Type 0 where
  -- connect_robust, for the publishing and for the consuming side
  dial_pub dial_con : Request
  open_pub open_con : Request
  set_qos : ℕ → Request
  hang_up : ℕ → Request
  declare_pub declare_con : Text → Request
  delete : Text → Request
  send : Text → Message → Request
  consume_from : Text → Request
  cancel_tag : Text → Text → Request

-- A request fails, or it succeeds with a number: a connection, a channel, a tag.
pub data Reply : Type 0 where
  accepted : ℕ → Reply
  refused : ℕ → Reply

pub record Client : Type 0 where
  pub prefetch : ℕ
  pub durable : Bool
  pub pub_conn : Option ℕ
  pub con_conn : Option ℕ
  pub pub_channel : Option ℕ
  pub con_channel : Option ℕ
  pub declared_pub : List Text
  -- the names that have a queue object in the cache
  pub con_queues : List Text
  -- the requests made so far
  pub requests : List Request

pub data Result (A : Type 0) : Type 0 where
  ok : A → Result A
  not_connected : Result A
  broken : ℕ → Result A

abbrev pub Action : Type 0 → Type 0
Action A = Client → Result A × Client

abbrev pub then_do : {A B : Type 0} → Result A → (A → Action B) → Action B
then_do (ok a) f c = f a c
then_do not_connected f c = (not_connected, c)
then_do (broken e) f c = (broken e, c)

infixl 10 ◌>>=◌ ◌>>◌
abbrev pub ◌>>=◌ : {A B : Type 0} → Action A → (A → Action B) → Action B
◌>>=◌ m f c = let (r, c') = m c in then_do r f c'

abbrev pub ◌>>◌ : {A B : Type 0} → Action A → Action B → Action B
m >> n = m >>= λ _. n

abbrev pub result_of : Reply → Result ℕ
result_of (accepted n) = ok n
result_of (refused e) = broken e

-- _message
unfoldable pub message : Bool → Properties → Text → Message
message durable p body = record {
  body = body;
  delivery_mode =
      if elim p.persistent [ none ↦ durable | some b ↦ b ] then persistent_mode else not_persistent;
  properties = p;
}

-- The slices `bodies[i : i + n]` for i in range(0, len(bodies), n); the first argument bounds them.
unfoldable pub batches : {A : Type 0} → ℕ → ℕ → List A → List (List A)
batches zero n xs = []
batches (suc fuel) n [] = []
batches (suc fuel) n (x ∷ xs) = take n (x ∷ xs) ∷ batches fuel n (drop n (x ∷ xs))

module _ (reply : List Request → Request → Reply) where
  unfoldable pub request : Request → Action ℕ
  request q c = (result_of (reply c.requests q), record c { requests = c.requests ++ q ∷ [] })

  unfoldable pub request_all : List Request → Client → List Reply × Client
  request_all [] c = ([], c)
  request_all (q ∷ rest) c =
      let (rs, c') = request_all rest (record c { requests = c.requests ++ q ∷ [] }) in
      (reply c.requests q ∷ rs, c')

  -- Closing the connection that was made while the other one failed; a failure of that is ignored.
  unfoldable pub close_survivor : Reply → Client → Client
  close_survivor (accepted n) c = record c { requests = c.requests ++ hang_up n ∷ [] }
  close_survivor (refused e) c = c

  -- connect(), after the two handshakes
  unfoldable pub opened : ℕ → ℕ → Action ℕ
  unfolding request
  opened p k =
      (λ c. (ok p, record c { pub_conn = some p; con_conn = some k })) >> request open_pub >>= λ m.
      (λ c. (ok m, record c { pub_channel = some m })) >> request open_con >>= λ n.
      (λ c. (ok n, record c { con_channel = some n }))
      >> (λ c. request (set_qos c.prefetch) c)
      >> (λ c. (ok zero, record c { declared_pub = []; con_queues = [] }))

  unfoldable pub connected : Reply → Reply → Action ℕ
  unfolding opened close_survivor
  connected (accepted p) (accepted k) c = opened p k c
  connected (refused e) k c = (broken e, close_survivor k c)
  connected (accepted p) (refused e) c = (broken e, close_survivor (accepted p) c)

  unfoldable pub connect : Action ℕ
  unfolding connected
  connect c =
      connected (reply c.requests dial_pub) (reply (c.requests ++ dial_pub ∷ []) dial_con)
        (record c { requests = c.requests ++ dial_pub ∷ dial_con ∷ [] })

  -- _pub and _con, around a request on that channel
  abbrev pub on : Option ℕ → Request → Action ℕ
  unfolding request
  on none q c = (not_connected, c)
  on (some channel) q c = request q c

  unfoldable pub delete_queue : Text → Action ℕ
  unfolding request
  delete_queue name = (λ c. on c.pub_channel (delete name) c) >> λ c. (
    ok zero,
    record c {
      declared_pub = keep (λ n. not (name == n)) c.declared_pub;
      con_queues = keep (λ n. not (name == n)) c.con_queues;
    },
  )

  unfoldable pub declare_for_publish : Text → Action ℕ
  unfolding request
  declare_for_publish name c =
      if contains name c.declared_pub
      then (ok zero, c)
      else (((λ c. on c.pub_channel (declare_pub name) c) >> λ c.
            (ok zero, record c { declared_pub = name ∷ c.declared_pub }))
          c)

  -- _queue
  unfoldable pub queue_named : Text → Action ℕ
  unfolding request
  queue_named name c =
      if contains name c.con_queues
      then (ok zero, c)
      else (((λ c. on c.con_channel (declare_con name) c) >> λ c.
            (ok zero, record c { con_queues = name ∷ c.con_queues }))
          c)

  unfoldable pub publish : Text → Text → Properties → Action ℕ
  unfolding declare_for_publish request message
  publish name body p =
      declare_for_publish name >> λ c. on c.pub_channel (send name (message c.durable p body)) c

  -- asyncio.gather raises one of the exceptions, if there is one: `first` says which.
  abbrev pub gathered : (List Reply → Option ℕ) → List Reply × Client → Result ℕ × Client
  gathered first (rs, c) = (elim (first rs) [ none ↦ ok zero | some e ↦ broken e ], c)

  -- The gathers, one batch of confirms after the other.
  unfoldable pub pipeline : (List Reply → Option ℕ) → Text → List (List Message) → Action ℕ
  unfolding request_all
  pipeline first name [] c = (ok zero, c)
  pipeline first name (b ∷ rest) c =
      ((λ c. gathered first (request_all (map (send name) b) c)) >> pipeline first name rest) c

  -- The loop of publish_many on the publishing channel.
  unfoldable pub send_slices :
      (List Reply → Option ℕ) → ℕ → Text → List Text → Properties → Option ℕ → Action ℕ
  unfolding pipeline batches message
  send_slices first size name bodies p none c = (not_connected, c)
  send_slices first size name bodies p (some channel) c =
      pipeline first name (batches (length bodies) size (map (message c.durable p) bodies)) c

  unfoldable pub publish_many :
      (List Reply → Option ℕ) → ℕ → Text → List Text → Properties → Action ℕ
  unfolding declare_for_publish send_slices
  publish_many first size name bodies p =
      declare_for_publish name >> λ c. send_slices first size name bodies p c.pub_channel c

  abbrev pub qos_for : Option ℕ → Action ℕ
  unfolding request
  qos_for none c = (ok zero, c)
  qos_for (some n) c = on c.con_channel (set_qos n) c

  -- _establish_consumer
  unfoldable pub establish_consumer : Text → Option ℕ → Action ℕ
  unfolding queue_named request
  establish_consumer name prefetch =
      queue_named name >> qos_for prefetch >> request (consume_from name)
