-- ===== src/Bench/Clients.antt =====
-- The clients that the suite builds: build_client of rabbit-benchmark/benchmark/runner.py, and the
-- constructors and clone of the classes in rabbit-benchmark/benchmark/clients/.
pub mod Wiring
use rabbit_speed_test.Base.{
  ℕ, ◌/◌, max, Bool, true, false, Option, none, some, List, [], ◌∷◌, Text, codes, ◌==◌, nat_eq,
  list_eq, if◌then◌else◌,
}

-- What build_client reads of the configuration.
pub record Knobs : Type 0 where
  pub amqp_url : Text
  pub publisher_confirms : Bool
  pub durable : Bool
  pub prefetch : Option ℕ
  pub pipeline_batch : Option ℕ

-- Keyword arguments: `none` is a key that is not in the dict.
pub record Keywords : Type 0 where
  pub publisher_confirms : Option Bool
  pub durable : Option Bool
  pub prefetch : Option ℕ
  pub pipeline_batch : Option ℕ

abbrev pub or_default : {A : Type 0} → Option A → A → A
or_default none d = d
or_default (some a) d = a

pub record PikaClient : Type 0 where
  pub url : Text
  pub clone_kwargs : Keywords
  pub prefetch : ℕ
  pub confirms : Bool
  pub durable : Bool

pub record AioPikaClient : Type 0 where
  pub url : Text
  pub clone_kwargs : Keywords
  pub prefetch : ℕ
  pub confirms : Bool
  pub durable : Bool
  pub pipeline_batch : ℕ

pub record HybridClient : Type 0 where
  pub url : Text
  pub clone_kwargs : Keywords
  pub prefetch : ℕ
  pub confirms : Bool
  pub durable : Bool
  pub publisher : AioPikaClient
  pub ack_batch : ℕ

-- RabbitClient has no confirms to switch off.
pub record RabbitClientBench : Type 0 where
  pub url : Text
  pub clone_kwargs : Keywords
  pub confirms : Bool
  pub durable : Bool
  pub sr_url : Text
  pub sr_prefetch : ℕ
  pub sr_durable : Bool
  pub admin : AioPikaClient

pub data Built : Type 0 where
  fake_client : Built
  pika_client : PikaClient → Built
  aio_pika_client : AioPikaClient → Built
  hybrid_client : HybridClient → Built
  simple_client : RabbitClientBench → Built

-- A constructor that is called with a keyword that it does not have is a TypeError.
pub data Build : Type 0 where
  built : Built → Build
  unknown_client unexpected_keyword : Build

-- PikaClient.__init__
unfoldable pub new_pika : Text → Keywords → Build
new_pika url kwargs = elim kwargs.pipeline_batch [
  | some n ↦ unexpected_keyword
  | none ↦
      let prefetch = or_default kwargs.prefetch 100 in
      let confirms = or_default kwargs.publisher_confirms true in
      let durable = or_default kwargs.durable false in
      built (
        pika_client (record {
          url = url;
          clone_kwargs = record {
            publisher_confirms = some confirms;
            durable = some durable;
            prefetch = some prefetch;
            pipeline_batch = none;
          };
          prefetch = prefetch;
          confirms = confirms;
          durable = durable;
        }))
]

-- AioPikaClient.__init__
unfoldable pub new_aio_pika : Text → Keywords → AioPikaClient
new_aio_pika url kwargs =
    let prefetch = or_default kwargs.prefetch 100 in
    let confirms = or_default kwargs.publisher_confirms true in
    let durable = or_default kwargs.durable false in
    let pipeline_batch = or_default kwargs.pipeline_batch 500 in
    record {
      url = url;
      clone_kwargs = record {
        publisher_confirms = some confirms;
        durable = some durable;
        prefetch = some prefetch;
        pipeline_batch = some pipeline_batch;
      };
      prefetch = prefetch;
      confirms = confirms;
      durable = durable;
      pipeline_batch = pipeline_batch;
    }

-- HybridClient.__init__
unfoldable pub new_hybrid : Text → Keywords → HybridClient
unfolding new_aio_pika
new_hybrid url kwargs =
    let prefetch = or_default kwargs.prefetch 1000 in
    let confirms = or_default kwargs.publisher_confirms true in
    let durable = or_default kwargs.durable false in
    let pipeline_batch = or_default kwargs.pipeline_batch 1000 in
    let settings : Keywords = record {
      publisher_confirms = some confirms;
      durable = some durable;
      prefetch = some prefetch;
      pipeline_batch = some pipeline_batch;
    } in
    record {
      url = url;
      clone_kwargs = settings;
      prefetch = prefetch;
      confirms = confirms;
      durable = durable;
      publisher = new_aio_pika url settings;
      ack_batch = max 1 (prefetch / 2);
    }

-- RabbitClientBench.__init__
unfoldable pub new_simple : Text → Keywords → Build
unfolding new_aio_pika
new_simple url kwargs = elim kwargs.pipeline_batch [
  | some n ↦ unexpected_keyword
  | none ↦
      let prefetch = or_default kwargs.prefetch 200 in
      let confirms = or_default kwargs.publisher_confirms true in
      let durable = or_default kwargs.durable false in
      let settings : Keywords = record {
        publisher_confirms = some confirms;
        durable = some durable;
        prefetch = some prefetch;
        pipeline_batch = none;
      } in
      built (
        simple_client (record {
          url = url;
          clone_kwargs = settings;
          confirms = confirms;
          durable = durable;
          sr_url = url;
          sr_prefetch = prefetch;
          sr_durable = durable;
          admin = new_aio_pika url settings;
        }))
]

-- clone; that of FakeClient is the client itself.
unfoldable pub clone : Built → Build
unfolding new_pika new_aio_pika new_hybrid new_simple
clone fake_client = built fake_client
clone (pika_client c) = new_pika c.url c.clone_kwargs
clone (aio_pika_client c) = built (aio_pika_client (new_aio_pika c.url c.clone_kwargs))
clone (hybrid_client c) = built (hybrid_client (new_hybrid c.url c.clone_kwargs))
clone (simple_client c) = new_simple c.url c.clone_kwargs

pub data Kind : Type 0 where
  fake pika aio_pika hybrid simple : Kind

unfoldable pub kind_of : Text → Option Kind
kind_of name =
    if name == codes "fake"
    then some fake
    else if name == codes "pika"
    then some pika
    else if name == codes "aio-pika"
    then some aio_pika
    else if name == codes "hybrid"
    then some hybrid
    else if name == codes "simple"
    then some simple
    else none

abbrev pub takes_pipeline : Kind → Bool
takes_pipeline aio_pika = true
takes_pipeline hybrid = true
takes_pipeline k = false

-- The kwargs of build_client: a knob that is None is no key.
unfoldable pub keywords : Kind → Knobs → Keywords
keywords k config = record {
  publisher_confirms = some config.publisher_confirms;
  durable = some config.durable;
  prefetch = config.prefetch;
  pipeline_batch = if takes_pipeline k then config.pipeline_batch else none;
}

unfoldable pub build_kind : Kind → Knobs → Build
unfolding new_pika new_aio_pika new_hybrid new_simple keywords
build_kind fake config = built fake_client
build_kind pika config = new_pika config.amqp_url (keywords pika config)
build_kind aio_pika config =
    built (aio_pika_client (new_aio_pika config.amqp_url (keywords aio_pika config)))
build_kind hybrid config =
    built (hybrid_client (new_hybrid config.amqp_url (keywords hybrid config)))
build_kind simple config = new_simple config.amqp_url (keywords simple config)

unfoldable pub build_client : Text → Knobs → Build
unfolding kind_of build_kind
build_client name config = elim (kind_of name) [
  | none ↦ unknown_client
  | some k ↦ build_kind k config
]
