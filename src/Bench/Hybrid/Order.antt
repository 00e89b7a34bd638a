-- ===== src/Bench/Hybrid/Order.antt =====
-- The order that the tags of the hybrid consumer keep, and that its frontier advances in it.
use rabbit_speed_test.Base.{
  ℕ, zero, suc, ◌≡◌, ◌≤◌, ◌<◌, inl, inr, refl, true, false, List, [], contains, contains-keep_ne,
  nat_eq, arith, Bool-cases, In,
}
use rabbit_speed_test.Bench.Hybrid.{ack_through, Consume, discard, advance_from}

-- Where the numbers stand to each other, and where the unsettled and the finished tags are.
pub record IsOrdered (s : Consume) : Type 0 where
  pub acked_le : s.acked ≤ s.ack_ref
  pub ack_ref_le : s.ack_ref ≤ s.frontier
  pub frontier_lt : s.frontier < s.next_tag
  pub first_lt : s.first_tag < s.next_tag
  pub unsettled_gt : (u : ℕ) → contains u s.unsettled ≡ true → s.frontier < u
  pub unsettled_ge : (u : ℕ) → contains u s.unsettled ≡ true → s.first_tag ≤ u
  pub unsettled_lt : (u : ℕ) → contains u s.unsettled ≡ true → u < s.next_tag
  pub ok_lt : (u : ℕ) → contains u s.finished_ok ≡ true → u < s.next_tag
  pub nack_lt : (u : ℕ) → contains u s.finished_nack ≡ true → u < s.next_tag
  pub ok_settled : (u : ℕ) → contains u s.finished_ok ≡ true → contains u s.unsettled ≡ false
  pub nack_settled : (u : ℕ) → contains u s.finished_nack ≡ true → contains u s.unsettled ≡ false
  pub handlers_lt : (u : ℕ) → contains u s.handlers ≡ true → u < s.next_tag
  pub nacks_lt : (u : ℕ) → contains u s.nacks ≡ true → u < s.next_tag
  pub started : s.first_tag ≡ 0 → s.unsettled ≡ []

-- The tags that were acked with all before them are behind the frontier.
abbrev IsAcked : Consume → Type 0
IsAcked s = (t : ℕ) → In (ack_through t) s.sent → t ≤ s.acked

beyond :
    (nxt : ℕ) (us : List ℕ)
    → ((u : ℕ) → contains u us ≡ true → nxt ≤ u)
    → contains nxt us ≡ false
    → (u : ℕ) → contains u us ≡ true
    → nxt < u
beyond nxt us k absent u h = ground (arith, k u h)

pub discarded : (t u : ℕ) (us : List ℕ) → contains u (discard t us) ≡ true → contains u us ≡ true
discarded t u us h = ground (arith, contains-keep_ne u t us, h)

abbrev passed_ok : ℕ → Consume → Consume
passed_ok nxt s = record s {
  finished_ok = discard nxt s.finished_ok;
  ack_ref = nxt;
  frontier = nxt;
}

abbrev passed_nack : ℕ → Consume → Consume
passed_nack nxt s = record s { finished_nack = discard nxt s.finished_nack; frontier = nxt }

passed_ok-IsOrdered :
    (nxt : ℕ) (s : Consume)
    → IsOrdered s
    → s.frontier ≤ nxt
    → ((u : ℕ) → contains u s.unsettled ≡ true → nxt ≤ u)
    → contains nxt s.finished_ok ≡ true
    → IsOrdered (passed_ok nxt s)
passed_ok-IsOrdered nxt s o h k found = record {
  acked_le = ground (arith, o.acked_le, o.ack_ref_le);
  ack_ref_le = ground arith;
  frontier_lt = o.ok_lt nxt found;
  first_lt = o.first_lt;
  unsettled_gt = beyond nxt s.unsettled k (o.ok_settled nxt found);
  unsettled_ge = o.unsettled_ge;
  unsettled_lt = o.unsettled_lt;
  ok_lt = λ u e. o.ok_lt u (discarded nxt u s.finished_ok e);
  nack_lt = o.nack_lt;
  ok_settled = λ u e. o.ok_settled u (discarded nxt u s.finished_ok e);
  nack_settled = o.nack_settled;
  handlers_lt = o.handlers_lt;
  nacks_lt = o.nacks_lt;
  started = o.started;
}

passed_nack-IsOrdered :
    (nxt : ℕ) (s : Consume)
    → IsOrdered s
    → s.frontier ≤ nxt
    → ((u : ℕ) → contains u s.unsettled ≡ true → nxt ≤ u)
    → contains nxt s.finished_nack ≡ true
    → IsOrdered (passed_nack nxt s)
passed_nack-IsOrdered nxt s o h k found = record {
  acked_le = o.acked_le;
  ack_ref_le = ground (arith, o.ack_ref_le);
  frontier_lt = o.nack_lt nxt found;
  first_lt = o.first_lt;
  unsettled_gt = beyond nxt s.unsettled k (o.nack_settled nxt found);
  unsettled_ge = o.unsettled_ge;
  unsettled_lt = o.unsettled_lt;
  ok_lt = o.ok_lt;
  nack_lt = λ u e. o.nack_lt u (discarded nxt u s.finished_nack e);
  ok_settled = o.ok_settled;
  nack_settled = λ u e. o.nack_settled u (discarded nxt u s.finished_nack e);
  handlers_lt = o.handlers_lt;
  nacks_lt = o.nacks_lt;
  started = o.started;
}

-- What the loop of advance_frontier keeps: the order, what was sent, and what was acked.
pub record IsAdvanced (s a : Consume) : Type 0 where
  pub ordered : IsOrdered a
  pub same_sent : a.sent ≡ s.sent
  pub same_acked : a.acked ≡ s.acked

pub advance_from-IsAdvanced :
    (fuel nxt : ℕ) (s : Consume)
    → IsOrdered s
    → s.frontier ≤ nxt
    → ((u : ℕ) → contains u s.unsettled ≡ true → nxt ≤ u)
    → IsAdvanced s (advance_from fuel nxt s)
unfolding advance_from
advance_from-IsAdvanced zero nxt s o h k = record {
  ordered = o;
  same_sent = refl;
  same_acked = refl;
}
advance_from-IsAdvanced (suc fuel) nxt s o h k = elim (Bool-cases (contains nxt s.finished_ok)) [
  | inl e ↦
      let a =
        advance_from-IsAdvanced fuel (suc nxt) (passed_ok nxt s) (passed_ok-IsOrdered nxt s o h k e)
          (ground arith) (beyond nxt s.unsettled k (o.ok_settled nxt e)) in
      rw (advance_from, e)
        (record { ordered = a.ordered; same_sent = a.same_sent; same_acked = a.same_acked })
  | inr e ↦ elim (Bool-cases (contains nxt s.finished_nack)) [
    | inl f ↦
        let a =
          advance_from-IsAdvanced fuel (suc nxt) (passed_nack nxt s)
            (passed_nack-IsOrdered nxt s o h k f) (ground arith)
            (beyond nxt s.unsettled k (o.nack_settled nxt f)) in
        rw (advance_from, e)
          (rw f
            (record { ordered = a.ordered; same_sent = a.same_sent; same_acked = a.same_acked }))
    | inr f ↦
        rw (advance_from, e) (rw f (record { ordered = o; same_sent = refl; same_acked = refl }))
  ]
]

abbrev pub IsSafe : Consume → Type 0
IsSafe s = IsOrdered s × IsAcked s
