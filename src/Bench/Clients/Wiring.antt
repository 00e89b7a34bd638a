-- ===== src/Bench/Clients/Wiring.antt =====
-- How the connections of a client that was built are set.
use mathlib.Core.Path.{subst}
use rabbit_speed_test.Base.{
  ℕ, ◌≡◌, refl, sym, Bool, true, Option, none, some, List, [], ◌∷◌, Text, All,
}
use rabbit_speed_test.Bench.Clients.{
  Knobs, or_default, AioPikaClient, Built, fake_client, pika_client, aio_pika_client, hybrid_client,
  simple_client, Build, built, unknown_client, clone, Kind, fake, pika, aio_pika, hybrid, simple,
  kind_of, build_kind, build_client,
}

-- A connection with what it is set to; `none` is what that library has no setting for.
pub record Connection : Type 0 where
  pub url : Text
  pub prefetch : ℕ
  pub durable : Bool
  pub confirms : Option Bool
  pub pipeline : Option ℕ

abbrev pub of_aio_pika : AioPikaClient → Connection
of_aio_pika c = record {
  url = c.url;
  prefetch = c.prefetch;
  durable = c.durable;
  confirms = some c.confirms;
  pipeline = some c.pipeline_batch;
}

-- The connections of a client, those of its inner clients included.
abbrev pub connections : Built → List Connection
connections fake_client = []
connections (pika_client c) =
    record {
      url = c.url;
      prefetch = c.prefetch;
      durable = c.durable;
      confirms = some c.confirms;
      pipeline = none;
    }
    ∷ []
connections (aio_pika_client c) = of_aio_pika c ∷ []
connections (hybrid_client c) =
    record {
      url = c.url;
      prefetch = c.prefetch;
      durable = c.durable;
      confirms = some c.confirms;
      pipeline = none;
    }
    ∷ of_aio_pika c.publisher
    ∷ []
connections (simple_client c) =
    record {
      url = c.sr_url;
      prefetch = c.sr_prefetch;
      durable = c.sr_durable;
      confirms = none;
      pipeline = none;
    }
    ∷ of_aio_pika c.admin
    ∷ []

-- The defaults that the configuration promises for a prefetch that is None.
abbrev pub default_prefetch : Kind → ℕ
default_prefetch hybrid = 1000
default_prefetch simple = 200
default_prefetch k = 100

-- The depth of the confirm pipeline, where the client has one; that of the admin client is its default.
abbrev pub chosen_pipeline : Kind → Knobs → ℕ
chosen_pipeline aio_pika config = or_default config.pipeline_batch 500
chosen_pipeline hybrid config = or_default config.pipeline_batch 1000
chosen_pipeline k config = 500

abbrev pub Agrees : {A : Type 0} → Option A → A → Type 0
Agrees none a = true ≡ true
Agrees (some b) a = b ≡ a

abbrev pub SetAs : Kind → Knobs → Connection → Type 0
SetAs k config c =
    (c.url ≡ config.amqp_url)
    × (c.prefetch ≡ or_default config.prefetch (default_prefetch k))
    × (c.durable ≡ config.durable)
    × Agrees c.confirms config.publisher_confirms
    × Agrees c.pipeline (chosen_pipeline k config)

abbrev pub IsWired : Kind → Knobs → Build → Type 0
IsWired k config b =
    (c : Built) × (b ≡ built c) × All (SetAs k config) (connections c) × (clone c ≡ built c)

build_kind-IsWired : (k : Kind) (config : Knobs) → IsWired k config (build_kind k config)
unfolding build_kind clone
build_kind-IsWired fake config = (fake_client, refl, tt, refl)
build_kind-IsWired pika config = (_, refl, ((refl, refl, refl, refl, refl), tt), refl)
build_kind-IsWired aio_pika config = (_, refl, ((refl, refl, refl, refl, refl), tt), refl)
build_kind-IsWired hybrid config =
    (_, refl, ((refl, refl, refl, refl, refl), ((refl, refl, refl, refl, refl), tt)), refl)
build_kind-IsWired simple config =
    (_, refl, ((refl, refl, refl, refl, refl), ((refl, refl, refl, refl, refl), tt)), refl)

-- A client whose name is known is built, with no keyword that its class lacks; every connection of it,
-- also of a client inside it, has the URL of the configuration, its durability, its confirms where
-- there are such, and its prefetch and pipeline depth or, where these are None, the defaults of the
-- class; and its clone is set like the client itself.
pub build_client-IsWired :
    (name : Text) (config : Knobs) {k : Kind}
    → kind_of name ≡ some k
    → IsWired k config (build_client name config)
unfolding build_client
build_client-IsWired name config {k} h =
    subst
      (λ (o : Option Kind).
        IsWired k config
          (let b : Build = elim o [ none ↦ unknown_client | some k ↦ build_kind k config ] in b))
      (sym h) (build_kind-IsWired k config)
