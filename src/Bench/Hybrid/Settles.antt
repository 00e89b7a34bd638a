-- ===== src/Bench/Hybrid/Settles.antt =====
-- A settled delivery keeps the order of the hybrid consumer's tags.
use rabbit_speed_test.Base.{
  ℕ, suc, ◌+◌, ◌-◌, ◌≡◌, ◌≤◌, ◌<◌, refl, sym, ◌∙◌, Bool, true, false, List, [], ◌∷◌, length,
  contains, contains-keep_ne, nat_eq, if◌then◌else◌, leb, arith, In,
}
use mathlib.Core.Path.{subst}
use rabbit_speed_test.Bench.Hybrid.{
  Sent, ack_through, Consume, discard, next_of, advance_frontier, is_full, finish, settle,
}
use rabbit_speed_test.Bench.Hybrid.Order.{
  IsAdvanced, IsOrdered, IsSafe, advance_from-IsAdvanced, discarded,
}

unsettled_after : (t u : ℕ) (us : List ℕ) → contains u (discard t us) ≡ true → contains u us ≡ true
unsettled_after t u us h = discarded t u us h

settled_after :
    (t u : ℕ) (fs us : List ℕ)
    → ((v : ℕ) → contains v fs ≡ true → contains v us ≡ false)
    → contains u (t ∷ fs) ≡ true
    → contains u (discard t us) ≡ false
settled_after t u fs us h e = ground (arith, contains-keep_ne u t us, h u, e)

still_settled : (t u : ℕ) (us : List ℕ) → contains u us ≡ false → contains u (discard t us) ≡ false
still_settled t u us h = ground (arith, contains-keep_ne u t us, h)

pub below :
    (t u n : ℕ) (fs : List ℕ)
    → t < n
    → ((v : ℕ) → contains v fs ≡ true → v < n)
    → contains u (t ∷ fs) ≡ true
    → u < n
below t u n fs lt h e = ground (arith, h u, e, lt)

discard_nil : (t : ℕ) (us : List ℕ) → us ≡ [] → discard t us ≡ []
discard_nil t us e = ground (arith, e)

finish-IsOrdered :
    (tag : ℕ) (ok : Bool) (s : Consume)
    → IsOrdered s
    → tag < s.next_tag
    → IsOrdered (finish tag ok (record s { unsettled = discard tag s.unsettled }))
finish-IsOrdered tag true s o lt = record {
  acked_le = o.acked_le;
  ack_ref_le = o.ack_ref_le;
  frontier_lt = o.frontier_lt;
  first_lt = o.first_lt;
  unsettled_gt = λ u e. o.unsettled_gt u (unsettled_after tag u s.unsettled e);
  unsettled_ge = λ u e. o.unsettled_ge u (unsettled_after tag u s.unsettled e);
  unsettled_lt = λ u e. o.unsettled_lt u (unsettled_after tag u s.unsettled e);
  ok_lt = λ u e. below tag u s.next_tag s.finished_ok lt o.ok_lt e;
  nack_lt = o.nack_lt;
  ok_settled = λ u e. settled_after tag u s.finished_ok s.unsettled o.ok_settled e;
  nack_settled = λ u e. still_settled tag u s.unsettled (o.nack_settled u e);
  handlers_lt = o.handlers_lt;
  nacks_lt = o.nacks_lt;
  started = λ e. discard_nil tag s.unsettled (o.started e);
}
finish-IsOrdered tag false s o lt = record {
  acked_le = o.acked_le;
  ack_ref_le = o.ack_ref_le;
  frontier_lt = o.frontier_lt;
  first_lt = o.first_lt;
  unsettled_gt = λ u e. o.unsettled_gt u (unsettled_after tag u s.unsettled e);
  unsettled_ge = λ u e. o.unsettled_ge u (unsettled_after tag u s.unsettled e);
  unsettled_lt = λ u e. o.unsettled_lt u (unsettled_after tag u s.unsettled e);
  ok_lt = o.ok_lt;
  nack_lt = λ u e. below tag u s.next_tag s.finished_nack lt o.nack_lt e;
  ok_settled = λ u e. still_settled tag u s.unsettled (o.ok_settled u e);
  nack_settled = λ u e. settled_after tag u s.finished_nack s.unsettled o.nack_settled e;
  handlers_lt = o.handlers_lt;
  nacks_lt = o.nacks_lt;
  started = λ e. discard_nil tag s.unsettled (o.started e);
}

advance_frontier-IsAdvanced : (s : Consume) → IsOrdered s → IsAdvanced s (advance_frontier s)
unfolding advance_frontier
advance_frontier-IsAdvanced s o =
    advance_from-IsAdvanced (suc (length s.finished_ok + length s.finished_nack)) (next_of s) s o
      (ground arith) (λ u e. ground (arith, o.unsettled_gt u e, o.unsettled_ge u e))

finish_sent :
    (tag : ℕ) (ok : Bool) (s : Consume)
    → ((finish tag ok s).sent ≡ s.sent) × ((finish tag ok s).acked ≡ s.acked)
finish_sent tag true s = (refl, refl)
finish_sent tag false s = (refl, refl)

-- The order stands on neither the log nor the flags nor the counters.
pub reframed :
    (s : Consume) (hs ns : List ℕ) (l : List Sent) (n : ℕ) (c e d : Bool)
    → IsOrdered s
    → ((u : ℕ) → contains u hs ≡ true → u < s.next_tag)
    → ((u : ℕ) → contains u ns ≡ true → u < s.next_tag)
    → IsOrdered (record s {
      handlers = hs;
      nacks = ns;
      sent = l;
      settled = n;
      closing = c;
      ack_event = e;
      done = d;
    })
reframed s hs ns l n c e d o h k = record {
  acked_le = o.acked_le;
  ack_ref_le = o.ack_ref_le;
  frontier_lt = o.frontier_lt;
  first_lt = o.first_lt;
  unsettled_gt = o.unsettled_gt;
  unsettled_ge = o.unsettled_ge;
  unsettled_lt = o.unsettled_lt;
  ok_lt = o.ok_lt;
  nack_lt = o.nack_lt;
  ok_settled = o.ok_settled;
  nack_settled = o.nack_settled;
  handlers_lt = h;
  nacks_lt = k;
  started = o.started;
}

pub settle-IsSafe :
    (tag : ℕ) (ok : Bool) (s : Consume) → IsSafe s → tag < s.next_tag → IsSafe (settle tag ok s)
unfolding settle
settle-IsSafe tag ok s (o, h) lt =
    let f = finish tag ok (record s { unsettled = discard tag s.unsettled }) in
    let (sent_f, acked_f) = finish_sent tag ok (record s { unsettled = discard tag s.unsettled }) in
    let a = advance_frontier f in
    let adv = advance_frontier-IsAdvanced f (finish-IsOrdered tag ok s o lt) in
    (
      reframed a a.handlers a.nacks a.sent (suc a.settled) a.closing
          (if leb a.ack_batch (a.ack_ref - a.acked) then true else a.ack_event)
          (if is_full a.count (suc a.settled) then true else a.done) adv.ordered
          adv.ordered.handlers_lt adv.ordered.nacks_lt,
      λ t e.
          subst (λ n. t ≤ n) (sym (adv.same_acked ∙ acked_f))
            (h t (subst (λ l. In (ack_through t) l) (adv.same_sent ∙ sent_f) e)),
    )
