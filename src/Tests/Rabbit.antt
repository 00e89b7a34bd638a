-- ===== src/Tests/Rabbit.antt =====
-- The RabbitMQ client against small brokers, and a run of the hybrid consumer.
use rabbit_speed_test.Rabbit.Tasks.{watching, resuming, Running, close}
use rabbit_speed_test.Rabbit.Tasks.Close.{hang_up_of, close-requests}
use rabbit_speed_test.Base.{
  true, ◌≤◌, ◌+◌, length, ℕ, ◌≡◌, ◌<◌, inl, refl, false, Option, none, some, List, [], ◌∷◌, ◌++◌,
  map, nat_eq, Text, codes, arith,
}
use rabbit_speed_test.Rabbit.Client.{
  Client, Properties, Request, send, cancel_tag, Reply, accepted, message, publish_many,
}
use rabbit_speed_test.Rabbit.Client.Pipeline.{declares, publish_many-ok}
use rabbit_speed_test.Rabbit.Watch.{Poll, disconnected, connected, watch}
use rabbit_speed_test.Rabbit.Watch.Cancels.{MissesTwice, watch-MissesTwice, watch-notices}
use rabbit_speed_test.Bench.Hybrid.{
  Event, Consume, delivers, acks, returns, consume_init, run_events, advance_frontier,
}
use rabbit_speed_test.Bench.Hybrid.Acks.{acks_settled}
use rabbit_speed_test.Bench.Hybrid.Quota.{run_events-quota}
use rabbit_speed_test.Bench.Hybrid.Frontier.{IsAdvance, advance_frontier-IsAdvance}

abbrev client : Client
client = record {
  prefetch = 200;
  durable = false;
  pub_conn = some 1;
  con_conn = some 2;
  pub_channel = some 3;
  con_channel = some 4;
  declared_pub = [];
  con_queues = codes "jobs" ∷ [];
  requests = [];
}

abbrev accepts : List Request → Request → Reply
accepts l q = accepted 8

abbrev no_failure : List Reply → Option ℕ
no_failure rs = none

abbrev plain : Properties
plain = record {
  persistent = none;
  headers = none;
  correlation_id = none;
  message_id = none;
  content_type = none;
  expiration = none;
  priority = none;
}

abbrev three : List Text
three = codes "a" ∷ codes "b" ∷ codes "c" ∷ []

publish_many-ok_example :
    (publish_many accepts no_failure 2 (codes "jobs") three plain client).1.requests
    ≡ []
      ++ (declares (codes "jobs") client
          ++ map (send (codes "jobs")) (map (message false plain) three))
unfolding publish_many
publish_many-ok_example =
    publish_many-ok accepts no_failure 2 (codes "jobs") three plain client 0 (ground arith) refl

abbrev miss : Poll
miss = connected (some (4, []))

watch-MissesTwice_example : MissesTwice (codes "ctag") (disconnected ∷ miss ∷ miss ∷ miss ∷ [])
unfolding watch
watch-MissesTwice_example =
    watch-MissesTwice (codes "ctag") (some 9) (disconnected ∷ miss ∷ miss ∷ miss ∷ []) refl

watch-notices_example :
    watch
      (codes "ctag")
      (some (record { underlay = none; misses = 0 }))
      (miss ∷ miss ∷ miss ∷ disconnected ∷ [])
    ≡ none
watch-notices_example =
    watch-notices (codes "ctag") (some (record { underlay = none; misses = 0 })) miss miss miss 4
      (disconnected ∷ []) (refl, refl) (refl, refl) (refl, refl)

-- Three deliveries on a channel that has had six: the second is done first, then the first, and the
-- acker runs.
abbrev events : List Event
events = delivers ∷ delivers ∷ delivers ∷ returns 8 ∷ returns 7 ∷ acks ∷ []

acks_settled_example : 8 < 9
unfolding run_events consume_init
acks_settled_example = acks_settled events (some 5) 4 7 8 9 (omega arith) (inl refl) refl

run_events-quota_example :
    let s = run_events events (consume_init (some 2) 4 7) in
    (s.completed ≤ s.settled)
    × (s.settled + (length s.handlers + length s.nacks) ≤ s.reserved)
    × (s.reserved ≤ 2)
run_events-quota_example = run_events-quota events 2 4 7

-- Tag 7 is nacked, 8 and 10 are done, 9 still runs.
abbrev some_finished : Consume
some_finished = record (consume_init (some 5) 4 11) {
  first_tag = 7;
  finished_ok = 10 ∷ 8 ∷ [];
  finished_nack = 7 ∷ [];
}

advance_frontier-IsAdvance_example : IsAdvance some_finished 7 (advance_frontier some_finished)
unfolding consume_init
advance_frontier-IsAdvance_example = advance_frontier-IsAdvance some_finished

frontier_there :
    ((advance_frontier some_finished).frontier ≡ 8) × ((advance_frontier some_finished).ack_ref ≡ 8)
unfolding advance_frontier consume_init
frontier_there = (refl, refl)

-- Two consumers, one between two consumers of its own, and a closed publishing connection.
abbrev running : Running
running = record {
  client = client;
  tasks =
      record { queue = codes "jobs"; stage = watching (codes "ctag") }
      ∷ record { queue = codes "logs"; stage = resuming }
      ∷ [];
  pub_closed = true;
  con_closed = false;
}

close-requests_example :
    ((close accepts running).1.client.requests
      ≡ ((client.requests ++ cancel_tag (codes "jobs") (codes "ctag") ∷ [])
          ++ hang_up_of client.pub_conn true)
        ++ hang_up_of client.con_conn false)
    × ((close accepts running).1.tasks ≡ [])
    × ((close accepts running).1.pub_closed ≡ true)
    × ((close accepts running).1.con_closed ≡ true)
unfolding close
close-requests_example = close-requests accepts running {n = 8} refl
