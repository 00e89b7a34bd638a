-- ===== src/Bench/Hybrid/Delivers.antt =====
-- A new delivery keeps the order of the hybrid consumer's tags.
use rabbit_speed_test.Base.{
  ℕ, suc, ◌≡◌, ◌≤◌, ◌<◌, ◌⊎◌, inl, inr, ap, max, true, false, List, ◌∷◌, contains, nat_eq, ◌==◌,
  if◌then◌else◌, arith, Bool-cases,
}
use rabbit_speed_test.Bench.Hybrid.{Consume, is_full, delivered}
use rabbit_speed_test.Bench.Hybrid.Order.{IsOrdered, IsSafe}

abbrev first_of : Consume → ℕ
first_of s = if s.first_tag == 0 then s.next_tag else s.first_tag

first_of_le : (s : Consume) (u : ℕ) → IsOrdered s → contains u s.unsettled ≡ true → first_of s ≤ u
first_of_le s u o e = elim (Bool-cases (s.first_tag == 0)) [
  | inl z ↦ absurd (ground (arith, ap (λ l. contains u l) (o.started (ground arith)), e))
  | inr z ↦ rw z (o.unsettled_ge u e)
]

-- A delivery too many is over the order.
extra-IsOrdered :
    (s : Consume) (x : ℕ)
    → IsOrdered s
    → IsOrdered (record s { next_tag = suc s.next_tag; first_tag = first_of s; extra_tag = x })
extra-IsOrdered s x o = record {
  acked_le = o.acked_le;
  ack_ref_le = o.ack_ref_le;
  frontier_lt = ground (arith, o.frontier_lt);
  first_lt = ground (arith, o.first_lt);
  unsettled_gt = o.unsettled_gt;
  unsettled_ge = λ u e. first_of_le s u o e;
  unsettled_lt = λ u e. ground (arith, o.unsettled_lt u e);
  ok_lt = λ u e. ground (arith, o.ok_lt u e);
  nack_lt = λ u e. ground (arith, o.nack_lt u e);
  ok_settled = o.ok_settled;
  nack_settled = o.nack_settled;
  handlers_lt = λ u e. ground (arith, o.handlers_lt u e);
  nacks_lt = λ u e. ground (arith, o.nacks_lt u e);
  started = λ e. absurd (ground (arith, e, o.first_lt));
}

new_or_old : (t u : ℕ) (us : List ℕ) → contains u (t ∷ us) ≡ true → (u ≡ t) ⊎ (contains u us ≡ true)
new_or_old t u us e = ground (arith, e)

fresh_settled :
    (u n : ℕ) (fs us : List ℕ)
    → ((v : ℕ) → contains v fs ≡ true → v < n)
    → ((v : ℕ) → contains v fs ≡ true → contains v us ≡ false)
    → contains u fs ≡ true
    → contains u (n ∷ us) ≡ false
fresh_settled u n fs us lt h e = ground (arith, lt u e, h u e)

-- A delivery that takes a slot is over the order.
slot-IsOrdered :
    (s : Consume)
    → IsOrdered s
    → IsOrdered (record s {
      next_tag = suc s.next_tag;
      first_tag = first_of s;
      reserved = suc s.reserved;
      handlers = s.next_tag ∷ s.handlers;
      unsettled = s.next_tag ∷ s.unsettled;
    })
slot-IsOrdered s o = record {
  acked_le = o.acked_le;
  ack_ref_le = o.ack_ref_le;
  frontier_lt = ground (arith, o.frontier_lt);
  first_lt = ground (arith, o.first_lt);
  unsettled_gt = λ u e. elim (new_or_old s.next_tag u s.unsettled e) [
    | inl n ↦ ground (arith, n, o.frontier_lt)
    | inr k ↦ o.unsettled_gt u k
  ];
  unsettled_ge = λ u e. elim (new_or_old s.next_tag u s.unsettled e) [
    | inl n ↦ ground (arith, n, o.first_lt)
    | inr k ↦ first_of_le s u o k
  ];
  unsettled_lt = λ u e. elim (new_or_old s.next_tag u s.unsettled e) [
    | inl n ↦ ground (arith, n)
    | inr k ↦ ground (arith, o.unsettled_lt u k)
  ];
  ok_lt = λ u e. ground (arith, o.ok_lt u e);
  nack_lt = λ u e. ground (arith, o.nack_lt u e);
  ok_settled = λ u e. fresh_settled u s.next_tag s.finished_ok s.unsettled o.ok_lt o.ok_settled e;
  nack_settled =
      λ u e. fresh_settled u s.next_tag s.finished_nack s.unsettled o.nack_lt o.nack_settled e;
  handlers_lt = λ u e. elim (new_or_old s.next_tag u s.handlers e) [
    | inl n ↦ ground (arith, n)
    | inr k ↦ ground (arith, o.handlers_lt u k)
  ];
  nacks_lt = λ u e. ground (arith, o.nacks_lt u e);
  started = λ e. absurd (ground (arith, e, o.first_lt));
}

pub delivered-IsSafe : (s : Consume) → IsSafe s → IsSafe (delivered s)
unfolding delivered
delivered-IsSafe s (o, h) = elim (Bool-cases (is_full s.count s.reserved)) [
  | inl e ↦ rw (delivered, e) (extra-IsOrdered s (max s.extra_tag s.next_tag) o, h)
  | inr e ↦ rw (delivered, e) (slot-IsOrdered s o, h)
]
