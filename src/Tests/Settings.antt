-- ===== src/Tests/Settings.antt =====
-- A CA bundle in the settings, with URLs that are their own parts, and the layers of the options of a
-- benchmark.
use rabbit_speed_test.Bench.Options.{
  unset, text, integer, Dict, default, read_file, accepts, given, merged, load, loaded,
}
use rabbit_speed_test.Bench.Options.Sources.{
  find, prefer, last_of, last_given, from_environ, load-sources,
}
use rabbit_speed_test.Base.{
  ◌≡◌, refl, not, Option, none, some, [], ◌∷◌, Text, codes, ◌==◌, nat_eq, list_eq, keep, arith,
  if◌then◌else◌,
}
use rabbit_speed_test.Modules.Events.{is_empty}
use rabbit_speed_test.Settings.{api, Settings, Params, Parts, NoBlanks, Urls, effective_amqp_url}
use rabbit_speed_test.Settings.Url.{last_value, effective_amqp_url-params}

abbrev filled_only : Params → Params
filled_only = keep (λ p. not (is_empty p.1))

filled_only-NoBlanks : (d : Params) → NoBlanks (filled_only d)
filled_only-NoBlanks [] = refl
filled_only-NoBlanks (p ∷ d) = ground (arith, filled_only-NoBlanks d)

filled_only_same : (d : Params) → NoBlanks d → filled_only d ≡ d
filled_only_same [] h = refl
filled_only_same (p ∷ d) h = ground (arith, filled_only_same d)

abbrev urls : Urls (Parts Params) Params
urls = record {
  urlsplit = λ url. url;
  urlunsplit = λ parts. parts;
  parse_qsl = filled_only;
  urlencode = λ d. d;
  urlsplit-urlunsplit = λ url query. refl;
  parse_qsl-NoBlanks = filled_only-NoBlanks;
  parse_qsl-urlencode = filled_only_same;
}

-- A key that stands twice, and a blank value.
abbrev with_bundle : Settings (Parts Params)
with_bundle = record {
  amqp_url = record {
    others = codes "amqps://mq/";
    query =
        (codes "heartbeat", codes "30")
        ∷ (codes "cafile", codes "old")
        ∷ (codes "heartbeat", codes "60")
        ∷ (codes "auth", [])
        ∷ [];
  };
  consume_queues = [];
  service_mode = api;
  amqp_ca_file = codes "ca.pem";
  db_ca_file = [];
}

effective_amqp_url-params_example :
    (last_value (codes "heartbeat") (filled_only (effective_amqp_url urls with_bundle).query) ≡ (
      if codes "cafile" == codes "heartbeat"
      then some (codes "ca.pem")
      else last_value (codes "heartbeat") (filled_only with_bundle.amqp_url.query)))
    × ((effective_amqp_url urls with_bundle).others ≡ codes "amqps://mq/")
effective_amqp_url-params_example =
    effective_amqp_url-params urls with_bundle (codes "heartbeat") refl

-- A file with a prefetch and a message count, a URL in the environment, and overrides of which one is
-- None.
abbrev one_file : Text → Option (Option Dict)
one_file path =
    if path == codes "bench.json"
    then some (
        some (
          (codes "prefetch", integer 500)
          ∷ (codes "message_count", integer 100)
          ∷ (codes "amqp_url", text (codes "amqp://file/"))
          ∷ []))
    else none

abbrev broker_url : Text → Option Text
broker_url variable =
    if variable == codes "RABBITMQ_URL" then some (codes "amqp://mq/") else some []

abbrev options : Dict
options = (codes "message_count", integer 7) ∷ (codes "prefetch", unset) ∷ []

abbrev file_options : Dict
file_options =
    (codes "prefetch", integer 500)
    ∷ (codes "message_count", integer 100)
    ∷ (codes "amqp_url", text (codes "amqp://file/"))
    ∷ []

load-sources_example :
    (d : Dict) × (load one_file broker_url (some (codes "bench.json")) options ≡ loaded d)
    × ((key : Text)
        → find key d
          ≡ prefer (last_given key options) (
              prefer
                (from_environ broker_url key)
                (prefer (last_of key file_options) (find key default))))
unfolding read_file accepts given
load-sources_example =
    load-sources one_file broker_url (some (codes "bench.json")) file_options options refl refl refl

load_layers :
    find (codes "message_count") (merged broker_url file_options options) ≡ some (integer 7)
unfolding merged
load_layers = refl
