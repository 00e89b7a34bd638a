-- ===== src/Bench/Hybrid/Acks.antt =====
-- The acks of the hybrid consumer never cover a delivery that is not settled.
use rabbit_speed_test.Base.{
  ℕ, ◌≡◌, ◌≤◌, ◌<◌, ◌⊎◌, inl, inr, refl, sym, Bool, true, false, Option, List, [], ◌∷◌, ◌++◌,
  contains, nat_eq, ◌==◌, ltb, arith, Bool-cases, In,
}
use rabbit_speed_test.Bench.Hybrid.{
  Sent, ack_through, nack, nack_through, Consume, consume_init, discard, handler_returned,
  handler_raised, nack_went, ack_more, acker_turn, requeue_extra, Event, delivers, acks, closes,
  last_ack, last_nack, returns, raises, nack_sent, event, run_events,
}
use rabbit_speed_test.Bench.Hybrid.Order.{IsSafe, discarded}
use rabbit_speed_test.Bench.Hybrid.Settles.{below, reframed, settle-IsSafe}
use rabbit_speed_test.Bench.Hybrid.Delivers.{delivered-IsSafe}

sent_more :
    (l : List Sent) (x : Sent) (t : ℕ)
    → In (ack_through t) (l ++ x ∷ [])
    → In (ack_through t) l ⊎ (ack_through t ≡ x)
sent_more [] x t (inl e) = inr (sym e)
sent_more [] x t (inr e) = absurd e
sent_more (y ∷ l) x t (inl e) = inl (inl e)
sent_more (y ∷ l) x t (inr e) = elim (sent_more l x t e) [ inl f ↦ inl (inr f) | inr f ↦ inr f ]

ack_more-IsSafe : (s : Consume) → IsSafe s → IsSafe (ack_more s)
unfolding ack_more
ack_more-IsSafe s (o, h) = elim (Bool-cases (ltb s.acked s.ack_ref)) [
  | inl e ↦
      rw (ack_more, e)
        (
          record {
            acked_le = ground arith;
            ack_ref_le = o.ack_ref_le;
            frontier_lt = o.frontier_lt;
            first_lt = o.first_lt;
            unsettled_gt = o.unsettled_gt;
            unsettled_ge = o.unsettled_ge;
            unsettled_lt = o.unsettled_lt;
            ok_lt = o.ok_lt;
            nack_lt = o.nack_lt;
            ok_settled = o.ok_settled;
            nack_settled = o.nack_settled;
            handlers_lt = o.handlers_lt;
            nacks_lt = o.nacks_lt;
            started = o.started;
          },
          λ t i. elim (sent_more s.sent (ack_through s.ack_ref) t i) [
            | inl j ↦ ground (arith, h t j, o.acked_le)
            | inr j ↦ ground (arith, j)
          ],
        )
  | inr e ↦ rw (ack_more, e) (o, h)
]

handler_returned-IsSafe : (tag : ℕ) (s : Consume) → IsSafe s → IsSafe (handler_returned tag s)
unfolding handler_returned
handler_returned-IsSafe tag s (o, h) = elim (Bool-cases (contains tag s.handlers)) [
  | inl e ↦
      let d = record s { handlers = discard tag s.handlers } in
      rw (handler_returned, e)
        (settle-IsSafe tag true d
          (
            reframed s (discard tag s.handlers) s.nacks s.sent s.settled s.closing s.ack_event
                s.done o (λ u i. o.handlers_lt u (discarded tag u s.handlers i)) o.nacks_lt,
            h,
          )
          (o.handlers_lt tag e))
  | inr e ↦ rw (handler_returned, e) (o, h)
]

nack_went-IsSafe : (tag : ℕ) (s : Consume) → IsSafe s → IsSafe (nack_went tag s)
unfolding nack_went
nack_went-IsSafe tag s (o, h) = elim (Bool-cases (contains tag s.nacks)) [
  | inl e ↦
      let d = record s { nacks = discard tag s.nacks } in
      rw (nack_went, e)
        (settle-IsSafe tag false d
          (
            reframed s s.handlers (discard tag s.nacks) s.sent s.settled s.closing s.ack_event
                s.done o o.handlers_lt (λ u i. o.nacks_lt u (discarded tag u s.nacks i)),
            h,
          )
          (o.nacks_lt tag e))
  | inr e ↦ rw (nack_went, e) (o, h)
]

handler_raised-IsSafe : (tag : ℕ) (s : Consume) → IsSafe s → IsSafe (handler_raised tag s)
unfolding handler_raised
handler_raised-IsSafe tag s (o, h) = elim (Bool-cases (contains tag s.handlers)) [
  | inl e ↦ elim (Bool-cases s.closing) [
    | inl c ↦
        rw (handler_raised, e)
          (rw c (
            reframed s (discard tag s.handlers) s.nacks s.sent s.settled true s.ack_event s.done o
                (λ u i. o.handlers_lt u (discarded tag u s.handlers i)) o.nacks_lt,
            h,
          ))
    | inr c ↦
        rw (handler_raised, e)
          (rw c (
            reframed s (discard tag s.handlers) (tag ∷ s.nacks) (s.sent ++ nack tag ∷ []) s.settled
                false s.ack_event s.done o (λ u i. o.handlers_lt u (discarded tag u s.handlers i))
                (λ u i. below tag u s.next_tag s.nacks (o.handlers_lt tag e) o.nacks_lt i),
            λ t i. elim (sent_more s.sent (nack tag) t i) [
              | inl j ↦ h t j
              | inr j ↦ absurd (ground (arith, j))
            ],
          ))
  ]
  | inr e ↦ rw (handler_raised, e) (o, h)
]

requeue_extra-IsSafe : (s : Consume) → IsSafe s → IsSafe (requeue_extra s)
unfolding requeue_extra
requeue_extra-IsSafe s (o, h) = elim (Bool-cases (s.extra_tag == 0)) [
  | inl e ↦ rw (requeue_extra, e) (o, h)
  | inr e ↦
      rw (requeue_extra, e)
        (
          reframed s s.handlers s.nacks (s.sent ++ nack_through s.extra_tag ∷ []) s.settled
              s.closing s.ack_event s.done o o.handlers_lt o.nacks_lt,
          λ t i. elim (sent_more s.sent (nack_through s.extra_tag) t i) [
            | inl j ↦ h t j
            | inr j ↦ absurd (ground (arith, j))
          ],
        )
]

acker_turn-IsSafe : (s : Consume) → IsSafe s → IsSafe (acker_turn s)
unfolding acker_turn
acker_turn-IsSafe s (o, h) =
    let flagged = λ (c e : Bool).
      reframed s s.handlers s.nacks s.sent s.settled c e s.done o o.handlers_lt o.nacks_lt in
    elim (Bool-cases s.closing) [
      | inl e ↦ rw (acker_turn, e) (flagged true s.ack_event, h)
      | inr e ↦
          rw (acker_turn, e)
            (ack_more-IsSafe (record s { closing = false; ack_event = false })
              (flagged false false, h))
    ]

event-IsSafe : (e : Event) (s : Consume) → IsSafe s → IsSafe (event e s)
unfolding event
event-IsSafe delivers s h = delivered-IsSafe s h
event-IsSafe acks s h = acker_turn-IsSafe s h
event-IsSafe closes s (o, h) = (
  reframed s s.handlers s.nacks s.sent s.settled true s.ack_event s.done o o.handlers_lt o.nacks_lt,
  h,
)
event-IsSafe last_ack s h = ack_more-IsSafe s h
event-IsSafe last_nack s h = requeue_extra-IsSafe s h
event-IsSafe (returns tag) s h = handler_returned-IsSafe tag s h
event-IsSafe (raises tag) s h = handler_raised-IsSafe tag s h
event-IsSafe (nack_sent tag) s h = nack_went-IsSafe tag s h

run_events-IsSafe : (es : List Event) (s : Consume) → IsSafe s → IsSafe (run_events es s)
unfolding run_events
run_events-IsSafe [] s h = h
run_events-IsSafe (e ∷ es) s h = run_events-IsSafe es (event e s) (event-IsSafe e s h)

init-IsSafe :
    (count : Option ℕ) (prefetch tag : ℕ) → 1 ≤ tag → IsSafe (consume_init count prefetch tag)
unfolding consume_init
init-IsSafe count prefetch tag positive = (
  record {
    acked_le = ground arith;
    ack_ref_le = ground arith;
    frontier_lt = omega (arith, positive);
    first_lt = omega (arith, positive);
    unsettled_gt = λ u e. absurd (ground arith);
    unsettled_ge = λ u e. absurd (ground arith);
    unsettled_lt = λ u e. absurd (ground arith);
    ok_lt = λ u e. absurd (ground arith);
    nack_lt = λ u e. absurd (ground arith);
    ok_settled = λ u e. absurd (ground arith);
    nack_settled = λ u e. absurd (ground arith);
    handlers_lt = λ u e. absurd (ground arith);
    nacks_lt = λ u e. absurd (ground arith);
    started = λ e. refl;
  },
  λ t i. absurd i,
)

-- Whatever the order in which deliveries arrive, handlers end and the acker runs, and wherever the tags
-- of the consumer begin, an ack never covers a delivery of this consumer that took a slot and is not
-- settled: its handler, or the nack for it, is still to end. Tags are at least 1.
pub acks_settled :
    (es : List Event) (count : Option ℕ) (prefetch tag t u : ℕ)
    → 1 ≤ tag
    → let s = run_events es (consume_init count prefetch tag) in
      In (ack_through t) s.sent → contains u s.unsettled ≡ true → t < u
acks_settled es count prefetch tag t u positive sent e =
    let s = run_events es (consume_init count prefetch tag) in
    let (o, h) =
      run_events-IsSafe es (consume_init count prefetch tag)
        (init-IsSafe count prefetch tag positive) in
    ground (arith, h t sent, o.acked_le, o.ack_ref_le, o.unsettled_gt u e)
