-- ===== src/Bench/Hybrid/Quota.antt =====
-- The quota of the hybrid consumer: how many deliveries take a slot, and how many are counted.
use rabbit_speed_test.Base.{
  ℕ, zero, suc, ◌+◌, ◌≡◌, ◌≤◌, ◌<◌, refl, sym, ap, ◌∙◌, Bool, true, false, Option, none, some, List,
  [], ◌∷◌, length, contains, nat_eq, arith, Bool-cases, inl, inr,
}
use mathlib.Core.Path.{subst}
use rabbit_speed_test.Bench.Hybrid.{
  Consume, consume_init, discard, next_of, advance_from, advance_frontier, is_full, finish, settle,
  delivered, handler_returned, handler_raised, nack_went, ack_more, acker_turn, requeue_extra,
  Event, delivers, acks, closes, last_ack, last_nack, returns, raises, nack_sent, event, run_events,
}

-- The counters and the open deliveries, which the frontier leaves alone.
abbrev pub Counts : Type 0
Counts = Option ℕ × ℕ × ℕ × ℕ × List ℕ × List ℕ

abbrev pub counts_of : Consume → Counts
counts_of s = (s.count, s.reserved, s.settled, s.completed, s.handlers, s.nacks)

advance_from-counts_of :
    (fuel nxt : ℕ) (s : Consume) → counts_of (advance_from fuel nxt s) ≡ counts_of s
unfolding advance_from
advance_from-counts_of zero nxt s = refl
advance_from-counts_of (suc fuel) nxt s = elim (Bool-cases (contains nxt s.finished_ok)) [
  | inl done ↦
      rw (advance_from, done)
        (advance_from-counts_of fuel (suc nxt)
          (record s { finished_ok = discard nxt s.finished_ok; ack_ref = nxt; frontier = nxt }))
  | inr not_done ↦ elim (Bool-cases (contains nxt s.finished_nack)) [
    | inl refused ↦
        rw (advance_from, not_done)
          (rw (advance_from, refused)
            (advance_from-counts_of fuel (suc nxt)
              (record s { finished_nack = discard nxt s.finished_nack; frontier = nxt })))
    | inr stops ↦ rw (advance_from, not_done) (rw (advance_from, stops) refl)
  ]
]

discard-le : (t : ℕ) (us : List ℕ) → length (discard t us) ≤ length us
discard-le t [] = omega arith
discard-le t (u ∷ us) = ground (arith, discard-le t us)

pub discard-lt : (t : ℕ) (us : List ℕ) → contains t us ≡ true → length (discard t us) < length us
discard-lt t [] h = absurd (ground arith)
discard-lt t (u ∷ us) h = ground (arith, discard-lt t us, discard-le t us)

abbrev pub Under : Option ℕ → ℕ → Type 0
Under none n = Unit
Under (some count) n = n ≤ count

-- Every delivery that is counted or open took a slot, and the slots are within the quota.
abbrev pub WithinQuota : Counts → Type 0
WithinQuota (count, reserved, settled, completed, handlers, nacks) =
    Under count reserved
    × (settled + (length handlers + length nacks) ≤ reserved)
    × (completed ≤ settled)

settled_counts : Bool → Counts → Counts
settled_counts true (count, reserved, settled, completed, handlers, nacks) =
    (count, reserved, suc settled, suc completed, handlers, nacks)
settled_counts false (count, reserved, settled, completed, handlers, nacks) =
    (count, reserved, suc settled, completed, handlers, nacks)

abbrev counted_once : Counts → Counts
counted_once (count, reserved, settled, completed, handlers, nacks) =
    (count, reserved, suc settled, completed, handlers, nacks)

settle-counts_of :
    (tag : ℕ) (ok : Bool) (s : Consume)
    → counts_of (settle tag ok s) ≡ settled_counts ok (counts_of s)
unfolding settle advance_frontier settled_counts
settle-counts_of tag true s =
    let f = finish tag true (record s { unsettled = discard tag s.unsettled }) in
    ap counted_once
      (advance_from-counts_of (suc (length f.finished_ok + length f.finished_nack)) (next_of f) f)
settle-counts_of tag false s =
    let f = finish tag false (record s { unsettled = discard tag s.unsettled }) in
    ap counted_once
      (advance_from-counts_of (suc (length f.finished_ok + length f.finished_nack)) (next_of f) f)

-- One open delivery is closed.
settle-WithinQuota :
    (tag : ℕ) (ok : Bool) (s : Consume)
    → Under s.count s.reserved
    → suc (s.settled + (length s.handlers + length s.nacks)) ≤ s.reserved
    → s.completed ≤ s.settled
    → WithinQuota (counts_of (settle tag ok s))
unfolding settled_counts
settle-WithinQuota tag true s under slots done =
    subst WithinQuota (sym (settle-counts_of tag true s))
      (under, ground (arith, slots), ground (arith, done))
settle-WithinQuota tag false s under slots done =
    subst WithinQuota (sym (settle-counts_of tag false s))
      (under, ground (arith, slots), ground (arith, done))

delivered-WithinQuota :
    (s : Consume) → WithinQuota (counts_of s) → WithinQuota (counts_of (delivered s))
unfolding delivered
delivered-WithinQuota s (under, slots, done) = elim (Bool-cases (is_full s.count s.reserved)) [
  | inl full ↦ rw (delivered, full) (under, slots, done)
  | inr free ↦
      rw (delivered, free) (more_under s.count s.reserved under free, ground (arith, slots), done)
]
  where
    more_under :
        (count : Option ℕ) (n : ℕ) → Under count n → is_full count n ≡ false → Under count (suc n)
    more_under none n u f = tt
    more_under (some count) n u f = ground arith

handler_returned-WithinQuota :
    (tag : ℕ) (s : Consume)
    → WithinQuota (counts_of s)
    → WithinQuota (counts_of (handler_returned tag s))
unfolding handler_returned
handler_returned-WithinQuota tag s (under, slots, done) =
    elim (Bool-cases (contains tag s.handlers)) [
      | inl runs ↦
          rw (handler_returned, runs)
            (settle-WithinQuota tag true (record s { handlers = discard tag s.handlers }) under
              (omega (arith, slots, discard-lt tag s.handlers runs)) done)
      | inr gone ↦ rw (handler_returned, gone) (under, slots, done)
    ]

nack_went-WithinQuota :
    (tag : ℕ) (s : Consume) → WithinQuota (counts_of s) → WithinQuota (counts_of (nack_went tag s))
unfolding nack_went
nack_went-WithinQuota tag s (under, slots, done) = elim (Bool-cases (contains tag s.nacks)) [
  | inl runs ↦
      rw (nack_went, runs)
        (settle-WithinQuota tag false (record s { nacks = discard tag s.nacks }) under
          (omega (arith, slots, discard-lt tag s.nacks runs)) done)
  | inr gone ↦ rw (nack_went, gone) (under, slots, done)
]

handler_raised-WithinQuota :
    (tag : ℕ) (s : Consume)
    → WithinQuota (counts_of s)
    → WithinQuota (counts_of (handler_raised tag s))
unfolding handler_raised
handler_raised-WithinQuota tag s (under, slots, done) =
    elim (Bool-cases (contains tag s.handlers)) [
      | inl runs ↦ elim (Bool-cases s.closing) [
        | inl closing ↦
            rw (handler_raised, runs)
              (rw (handler_raised, closing)
                (under, omega (arith, slots, discard-lt tag s.handlers runs), done))
        | inr working ↦
            rw (handler_raised, runs)
              (rw (handler_raised, working)
                (under, omega (arith, slots, discard-lt tag s.handlers runs), done))
      ]
      | inr gone ↦ rw (handler_raised, gone) (under, slots, done)
    ]

event-WithinQuota :
    (e : Event) (s : Consume) → WithinQuota (counts_of s) → WithinQuota (counts_of (event e s))
unfolding event acker_turn ack_more requeue_extra
event-WithinQuota delivers s q = delivered-WithinQuota s q
event-WithinQuota acks s q = ground arith
event-WithinQuota closes s q = q
event-WithinQuota last_ack s q = ground arith
event-WithinQuota last_nack s q = ground arith
event-WithinQuota (returns tag) s q = handler_returned-WithinQuota tag s q
event-WithinQuota (raises tag) s q = handler_raised-WithinQuota tag s q
event-WithinQuota (nack_sent tag) s q = nack_went-WithinQuota tag s q

run_events-WithinQuota :
    (es : List Event) (s : Consume)
    → WithinQuota (counts_of s)
    → WithinQuota (counts_of (run_events es s))
unfolding run_events
run_events-WithinQuota [] s q = q
run_events-WithinQuota (e ∷ es) s q =
    run_events-WithinQuota es (event e s) (event-WithinQuota e s q)

init-WithinQuota :
    (count : Option ℕ) (prefetch tag : ℕ)
    → WithinQuota (counts_of (consume_init count prefetch tag))
unfolding consume_init
init-WithinQuota none prefetch tag = (tt, omega arith, omega arith)
init-WithinQuota (some count) prefetch tag = (omega arith, omega arith, omega arith)

-- The quota itself stays.
settle-count : (tag : ℕ) (ok : Bool) (s : Consume) → (settle tag ok s).count ≡ s.count
unfolding settled_counts
settle-count tag true s = ap (λ c. c.0) (settle-counts_of tag true s)
settle-count tag false s = ap (λ c. c.0) (settle-counts_of tag false s)

event-count : (e : Event) (s : Consume) → (event e s).count ≡ s.count
unfolding event delivered handler_returned handler_raised nack_went acker_turn ack_more
    requeue_extra
event-count delivers s = ground arith
event-count acks s = ground arith
event-count closes s = refl
event-count last_ack s = ground arith
event-count last_nack s = ground arith
event-count (returns tag) s =
    ground (arith, settle-count tag true (record s { handlers = discard tag s.handlers }))
event-count (raises tag) s = ground arith
event-count (nack_sent tag) s =
    ground (arith, settle-count tag false (record s { nacks = discard tag s.nacks }))

run_events-count : (es : List Event) (s : Consume) → (run_events es s).count ≡ s.count
unfolding run_events
run_events-count [] s = refl
run_events-count (e ∷ es) s = run_events-count es (event e s) ∙ event-count e s

-- A consumer of `count` messages, whatever is delivered, returns, raises or is nacked and in what
-- order: the messages that it has handled, those whose handlers have ended, and the ones whose
-- handlers still run or whose nack is under way never make more than the slots taken, and no more
-- than `count` slots are taken, so it returns at most `count`.
pub run_events-quota :
    (es : List Event) (count prefetch tag : ℕ)
    → let s = run_events es (consume_init (some count) prefetch tag) in
      (s.completed ≤ s.settled)
      × (s.settled + (length s.handlers + length s.nacks) ≤ s.reserved)
      × (s.reserved ≤ count)
unfolding consume_init
run_events-quota es count prefetch tag =
    let (under, slots, done) =
      run_events-WithinQuota es (consume_init (some count) prefetch tag)
        (init-WithinQuota (some count) prefetch tag) in
    (
      done,
      slots,
      subst (λ quota. Under quota (run_events es (consume_init (some count) prefetch tag)).reserved)
          (run_events-count es (consume_init (some count) prefetch tag)) under,
    )
