-- ===== src/Bench/Hybrid.antt =====
-- HybridClient._consume of rabbit-benchmark/benchmark/clients/hybrid_client.py as a state machine: each
-- event is what the event loop runs between two awaits. The tags of a channel count up from 1; a client
-- consumes on one channel again and again, so a consumer begins at any tag, and deliveries of earlier
-- consumers may still be open below it. While it runs, every delivery of the channel is its own. With
-- no handler a delivery returns at once.
pub mod Order
pub mod Settles
pub mod Delivers
pub mod Acks
pub mod Quota
pub mod Frontier
use rabbit_speed_test.Base.{
  ℕ, zero, suc, ◌+◌, ◌-◌, ◌/◌, not, max, Bool, true, false, ◌||◌, Option, none, some, List, [], ◌∷◌,
  ◌++◌, length, contains, keep, nat_eq, ◌==◌, if◌then◌else◌, ltb, leb,
}

pub data Sent : Type 0 where
  -- basic_ack(multiple=True), basic_nack of one tag, basic_nack(multiple=True)
  ack_through nack nack_through : ℕ → Sent

-- The local variables that the closures of _consume share. The sets have no duplicates that matter:
-- discard removes a tag altogether.
pub record Consume : Type 0 where
  pub count : Option ℕ
  pub ack_batch : ℕ
  pub reserved : ℕ
  pub settled : ℕ
  pub completed : ℕ
  pub first_tag : ℕ
  pub frontier : ℕ
  pub ack_ref : ℕ
  pub acked : ℕ
  pub extra_tag : ℕ
  pub finished_ok : List ℕ
  pub finished_nack : List ℕ
  pub closing : Bool
  pub ack_event : Bool
  pub done : Bool
  -- the deliveries whose handler runs, and those whose nack is under way
  pub handlers : List ℕ
  pub nacks : List ℕ
  -- the deliveries of this consumer that took a slot and are not settled
  pub unsettled : List ℕ
  -- the tag of the next delivery
  pub next_tag : ℕ
  pub sent : List Sent

-- `tag` is that of the next delivery on the channel.
unfoldable pub consume_init : Option ℕ → ℕ → ℕ → Consume
consume_init count prefetch tag = record {
  count = count;
  ack_batch = max 1 (prefetch / 2);
  reserved = 0;
  settled = 0;
  completed = 0;
  first_tag = 0;
  frontier = 0;
  ack_ref = 0;
  acked = 0;
  extra_tag = 0;
  finished_ok = [];
  finished_nack = [];
  closing = false;
  ack_event = false;
  done = false;
  handlers = [];
  nacks = [];
  unsettled = [];
  next_tag = tag;
  sent = [];
}

abbrev pub discard : ℕ → List ℕ → List ℕ
discard t = keep (λ u. not (t == u))

-- The loop of advance_frontier, from tag nxt; each turn takes a tag out of the two sets.
unfoldable pub advance_from : ℕ → ℕ → Consume → Consume
advance_from zero nxt s = s
advance_from (suc fuel) nxt s = elim (contains nxt s.finished_ok) [
  | true ↦
      advance_from fuel (suc nxt)
        (record s { finished_ok = discard nxt s.finished_ok; ack_ref = nxt; frontier = nxt })
  | false ↦ elim (contains nxt s.finished_nack) [
    | true ↦
        advance_from fuel (suc nxt)
          (record s { finished_nack = discard nxt s.finished_nack; frontier = nxt })
    | false ↦ s
  ]
]

abbrev pub next_of : Consume → ℕ
next_of s = if s.frontier == 0 then s.first_tag else suc s.frontier

unfoldable pub advance_frontier : Consume → Consume
unfolding advance_from
advance_frontier s =
    advance_from (suc (length s.finished_ok + length s.finished_nack)) (next_of s) s

abbrev pub is_full : Option ℕ → ℕ → Bool
is_full none n = false
is_full (some count) n = leb count n

abbrev pub finish : ℕ → Bool → Consume → Consume
finish tag true s = record s { finished_ok = tag ∷ s.finished_ok; completed = suc s.completed }
finish tag false s = record s { finished_nack = tag ∷ s.finished_nack }

-- settle
unfoldable pub settle : ℕ → Bool → Consume → Consume
unfolding advance_frontier
settle tag ok s =
    let a = advance_frontier (finish tag ok (record s { unsettled = discard tag s.unsettled })) in
    record a {
      settled = suc a.settled;
      ack_event = if leb a.ack_batch (a.ack_ref - a.acked) then true else a.ack_event;
      done = if is_full a.count (suc a.settled) then true else a.done;
    }

-- The start of cb, up to its first await: a quota slot, or a delivery too many.
unfoldable pub delivered : Consume → Consume
delivered s =
    let tag = s.next_tag in
    let s' = record s {
      next_tag = suc tag;
      first_tag = if s.first_tag == 0 then tag else s.first_tag;
    } in
    if is_full s.count s.reserved
    then record s' { extra_tag = max s.extra_tag tag }
    else record s' {
      reserved = suc s.reserved;
      handlers = tag ∷ s.handlers;
      unsettled = tag ∷ s.unsettled;
    }

-- The handler of a delivery has returned.
unfoldable pub handler_returned : ℕ → Consume → Consume
unfolding settle
handler_returned tag s =
    if contains tag s.handlers
    then settle tag true (record s { handlers = discard tag s.handlers })
    else s

-- The handler of a delivery has raised: unless the consumer is closing, the nack of that message goes
-- out, and the delivery is settled when it is sent.
unfoldable pub handler_raised : ℕ → Consume → Consume
handler_raised tag s =
    if contains tag s.handlers
    then (if s.closing then record s { handlers = discard tag s.handlers } else record s {
      handlers = discard tag s.handlers;
      nacks = tag ∷ s.nacks;
      sent = s.sent ++ nack tag ∷ [];
    })
    else s

unfoldable pub nack_went : ℕ → Consume → Consume
unfolding settle
nack_went tag s =
    if contains tag s.nacks then settle tag false (record s { nacks = discard tag s.nacks }) else s

-- The ack of everything up to ack_ref, if there is more than was acked.
unfoldable pub ack_more : Consume → Consume
ack_more s =
    if ltb s.acked s.ack_ref
    then record s { acked = s.ack_ref; sent = s.sent ++ ack_through s.ack_ref ∷ [] }
    else s

-- One turn of the acker, which runs until the consumer closes.
unfoldable pub acker_turn : Consume → Consume
unfolding ack_more
acker_turn s = if s.closing then s else ack_more (record s { ack_event = false })

-- The last act of the `finally`: what is not acked up to the last delivery too many is requeued.
unfoldable pub requeue_extra : Consume → Consume
requeue_extra s =
    if s.extra_tag == 0 then s else record s { sent = s.sent ++ nack_through s.extra_tag ∷ [] }

-- `closes` starts the `finally`, `last_ack` and `last_nack` end it.
pub data Event : Type 0 where
  delivers acks closes last_ack last_nack : Event
  returns raises nack_sent : ℕ → Event

unfoldable pub event : Event → Consume → Consume
unfolding delivered handler_returned handler_raised nack_went acker_turn ack_more requeue_extra
event delivers s = delivered s
event acks s = acker_turn s
event closes s = record s { closing = true }
event last_ack s = ack_more s
event last_nack s = requeue_extra s
event (returns tag) s = handler_returned tag s
event (raises tag) s = handler_raised tag s
event (nack_sent tag) s = nack_went tag s

unfoldable pub run_events : List Event → Consume → Consume
unfolding event
run_events [] s = s
run_events (e ∷ rest) s = run_events rest (event e s)
