-- ===== src/Bench/Drains/Quotas.antt =====
-- How many deliveries a drain takes.
use rabbit_speed_test.Base.{
  ℕ, zero, suc, ◌+◌, ◌≤◌, ◌<◌, ◌≡◌, ◌↔◌, refl, sym, ap, ◌∙◌, true, false, List, [], ◌∷◌, length,
  length-append, take, leb, nat_eq, ◌==◌, Bool-cases, inl, inr, arith,
}
use rabbit_speed_test.Bench.Drains.{
  drain_from, consume_many, Drain, drain_init, handler, Event, deliver, woken, timed_out, cancelled,
  after_wait, step, run_events,
}

drain_from-take :
    (count consumed left : ℕ) (deliveries : List ℕ)
    → count ≡ consumed + suc left
    → drain_from count consumed deliveries ≡ take (suc left) deliveries
unfolding drain_from
drain_from-take count consumed left [] h = refl
drain_from-take count consumed zero (tag ∷ rest) h =
    let last : leb count (suc consumed) ≡ true = ground (arith, h) in rw last refl
drain_from-take count consumed (suc left) (tag ∷ rest) h =
    let more : leb count (suc consumed) ≡ false = ground (arith, h) in
    rw more (ap (λ l. tag ∷ l) (drain_from-take count (suc consumed) left rest (omega (arith, h))))

-- A push drain acks the first `count` deliveries that arrive, each once and in their order, or all of
-- them where the queue runs dry before; no other delivery is acked.
pub consume_many-take :
    (count : ℕ) (deliveries : List ℕ) → consume_many count deliveries ≡ take count deliveries
unfolding consume_many
consume_many-take zero deliveries = refl
consume_many-take (suc left) deliveries =
    let some_left : (suc left == 0) ≡ false = ground arith in
    rw some_left (drain_from-take (suc left) zero left deliveries (omega arith))

-- A drain that keeps its quota of `count`; `arrived` deliveries have reached its handler.
pub record IsQuota (count arrived : ℕ) (d : Drain) : Type 0 where
  pub same : d.count ≡ count
  pub within : d.n ≤ count
  pub taken : length d.accepted ≡ d.n
  pub shared : length d.accepted + length d.refused ≡ arrived
  pub full : (d.done ≡ true) ↔ (d.n ≡ count)

handler-IsQuota :
    (tag : ℕ) (d : Drain) {count arrived : ℕ}
    → IsQuota count arrived d
    → IsQuota count (suc arrived) (handler tag d)
unfolding handler
handler-IsQuota tag d q = elim (Bool-cases (leb d.count d.n)) [
  | inl full ↦ rw full (record {
    same = q.same;
    within = q.within;
    taken = q.taken;
    shared = omega (arith, q.shared, length-append d.refused (tag ∷ []));
    full = q.full;
  })
  | inr free ↦ rw free (record {
    same = q.same;
    within = ground (arith, free, q.within, q.same);
    taken = omega (arith, q.taken, length-append d.accepted (tag ∷ []));
    shared = omega (arith, q.shared, length-append d.accepted (tag ∷ []));
    full = ground (arith, free, q.within, q.full, q.same);
  })
]

abbrev pub arrivals : List Event → ℕ
arrivals [] = 0
arrivals (deliver tag ∷ events) = suc (arrivals events)
arrivals (woken ∷ events) = arrivals events
arrivals (timed_out ∷ events) = arrivals events
arrivals (cancelled ∷ events) = arrivals events

abbrev arrived_by : Event → ℕ
arrived_by (deliver tag) = 1
arrived_by e = 0

-- The waiting touches nothing of the quota.
step-same :
    (e : Event) (d : Drain)
    → arrived_by e ≡ 0
    → ((step e d).n ≡ d.n)
      × ((step e d).count ≡ d.count)
      × ((step e d).accepted ≡ d.accepted)
      × ((step e d).refused ≡ d.refused)
      × ((step e d).done ≡ d.done)
unfolding step after_wait
step-same (deliver tag) d h = absurd (omega (arith, h))
step-same woken d h = ground arith
step-same timed_out d h = ground arith
step-same cancelled d h = ground arith

moved :
    (d d' : Drain) {count a b : ℕ}
    → (d'.n ≡ d.n)
      × (d'.count ≡ d.count)
      × (d'.accepted ≡ d.accepted)
      × (d'.refused ≡ d.refused)
      × (d'.done ≡ d.done)
    → b ≡ a
    → IsQuota count a d
    → IsQuota count b d'
moved d d' (n, count, accepted, refused, done) e q = record {
  same = count ∙ q.same;
  within = omega (arith, n, q.within);
  taken = ap length accepted ∙ q.taken ∙ sym n;
  shared = omega (arith, q.shared, ap length accepted, ap length refused, e);
  full = ground (arith, q.full, done, n);
}

step-IsQuota :
    (e : Event) (d : Drain) {count arrived : ℕ}
    → IsQuota count arrived d
    → IsQuota count (arrived_by e + arrived) (step e d)
unfolding step
step-IsQuota (deliver tag) d q =
    moved (handler tag d) (handler tag d) (refl, refl, refl, refl, refl) (omega arith)
      (handler-IsQuota tag d q)
step-IsQuota woken d q = moved d (step woken d) (step-same woken d refl) (omega arith) q
step-IsQuota timed_out d q = moved d (step timed_out d) (step-same timed_out d refl) (omega arith) q
step-IsQuota cancelled d q = moved d (step cancelled d) (step-same cancelled d refl) (omega arith) q

run_events-kept :
    (events : List Event) (d : Drain) {count arrived : ℕ}
    → IsQuota count arrived d
    → IsQuota count (arrivals events + arrived) (run_events events d)
unfolding run_events
run_events-kept [] d q = moved d d (refl, refl, refl, refl, refl) (omega arith) q
run_events-kept (e ∷ events) d {count} {arrived} q =
    let rest = run_events-kept events (step e d) (step-IsQuota e d q) in
    let last = run_events events (step e d) in
    moved last last (refl, refl, refl, refl, refl) (counted e) rest
  where
    counted :
        (e : Event) → arrivals (e ∷ events) + arrived ≡ arrivals events + (arrived_by e + arrived)
    counted (deliver tag) = omega arith
    counted woken = omega arith
    counted timed_out = omega arith
    counted cancelled = omega arith

-- The drain of the simple client for a positive count, after any deliveries, wake-ups, timeouts and
-- cancellations in any order: it never counts more than its quota, it counts the deliveries whose
-- handler returned, every other delivery was refused, for the broker to requeue, and its event is set
-- exactly when the quota is reached.
pub run_events-IsQuota :
    (count : ℕ) (events : List Event)
    → 0 < count
    → IsQuota count (arrivals events) (run_events events (drain_init count))
unfolding drain_init
run_events-IsQuota count events positive =
    let start : IsQuota count 0 (drain_init count) = record {
      same = refl;
      within = omega arith;
      taken = refl;
      shared = refl;
      full = ground arith;
    } in
    let last = run_events events (drain_init count) in
    moved last last (refl, refl, refl, refl, refl) (omega arith)
      (run_events-kept events (drain_init count) {count = count} {arrived = 0} start)
