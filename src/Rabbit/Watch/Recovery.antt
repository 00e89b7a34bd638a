-- ===== src/Rabbit/Watch/Recovery.antt =====
-- What the recovery of a consumer that the broker has cancelled asks of the broker.
use rabbit_speed_test.Base.{
  ℕ, not, ◌≡◌, ◌⊎◌, inl, inr, refl, ◌∙◌, false, Option, none, some, List, [], ◌∷◌, ◌++◌, contains,
  contains-keep_ne, keep, Text, list_eq, nat_eq, option_eq, ◌==◌, arith, beq_refl, ap, append_assoc,
}
use rabbit_speed_test.Rabbit.Client.{
  Client, Request, cancel_tag, declare_con, set_qos, consume_from, Reply, accepted, refused, ok,
  establish_consumer, queue_named, request,
}
use rabbit_speed_test.Rabbit.Watch.{forget, cancel_consumer, recover}

reply-cases : (r : Reply) → ((n : ℕ) × (r ≡ accepted n)) ⊎ ((e : ℕ) × (r ≡ refused e))
reply-cases (accepted n) = inl (n, refl)
reply-cases (refused e) = inr (e, refl)

-- What establishing a consumer asks for after the declare.
abbrev pub consumes : Text → Option ℕ → List Request
consumes name none = consume_from name ∷ []
consumes name (some n) = set_qos n ∷ consume_from name ∷ []

establish-ok :
    (reply : List Request → Request → Reply) (name : Text) (prefetch : Option ℕ) (c : Client)
    (channel : Option ℕ) (n : ℕ)
    → c.con_channel ≡ channel
    → contains name c.con_queues ≡ false
    → (establish_consumer reply name prefetch c).0 ≡ ok n
    → (establish_consumer reply name prefetch c).1.requests
      ≡ c.requests ++ declare_con name ∷ consumes name prefetch
unfolding establish_consumer queue_named request
establish-ok reply name prefetch c none n ch absent h = absurd (ground arith)
establish-ok reply name none c (some k) n ch absent h =
    elim (reply-cases (reply c.requests (declare_con name))) [
      | inl (a, r) ↦
          ground
            (arith, r, append_assoc c.requests (declare_con name ∷ []) (consume_from name ∷ []))
      | inr (e, r) ↦ absurd (ground arith)
    ]
establish-ok reply name (some p) c (some k) n ch absent h =
    let declared = c.requests ++ declare_con name ∷ [] in
    elim (reply-cases (reply c.requests (declare_con name))) [
      | inl (a, r) ↦ elim (reply-cases (reply declared (set_qos p))) [
        | inl (b, q) ↦ ground (
          arith,
          r,
          q,
          ch,
          append_assoc declared (set_qos p ∷ []) (consume_from name ∷ []),
          append_assoc c.requests (declare_con name ∷ []) (set_qos p ∷ consume_from name ∷ []),
        )
        | inr (e, q) ↦ absurd (ground (arith, r, q, ch))
      ]
      | inr (e, r) ↦ absurd (ground (arith, r, ch))
    ]

forgotten :
    (name : Text) (names : List Text) → contains name (keep (λ n. not (name == n)) names) ≡ false
forgotten name names = contains-keep_ne name name names ∙ rw (beq_refl name) refl

cancel-forgets :
    (reply : List Request → Request → Reply) (name tag : Text) (c : Client) (r : Reply)
    → reply c.requests (cancel_tag name tag) ≡ r
    → let d = cancel_consumer reply name tag (forget name c) in
      (d.requests ≡ c.requests ++ cancel_tag name tag ∷ []) × (contains name d.con_queues ≡ false)
unfolding cancel_consumer
cancel-forgets reply name tag c (accepted n) e =
    rw (cancel_consumer, e) (refl, forgotten name c.con_queues)
cancel-forgets reply name tag c (refused n) e =
    rw (cancel_consumer, e) (refl, forgotten name (keep (λ n. not (name == n)) c.con_queues))

-- A recovery that succeeds has never taken the queue from the cache: however the cancel of the lost
-- consumer ends, the queue is declared again before the new consume, with the prefetch in between.
recover-declares :
    (reply : List Request → Request → Reply) (name tag : Text) (prefetch : Option ℕ) (c : Client)
    (n : ℕ)
    → (recover reply name tag prefetch c).0 ≡ ok n
    → (recover reply name tag prefetch c).1.requests
      ≡ c.requests ++ cancel_tag name tag ∷ declare_con name ∷ consumes name prefetch
unfolding recover cancel_consumer
recover-declares reply name tag prefetch c n h =
    let d = cancel_consumer reply name tag (forget name c) in
    let (asked, absent) =
      cancel-forgets reply name tag c (reply c.requests (cancel_tag name tag)) refl in
    establish-ok reply name prefetch d d.con_channel n refl absent h
    ∙ ap (λ l. l ++ declare_con name ∷ consumes name prefetch) asked
    ∙ append_assoc c.requests (cancel_tag name tag ∷ []) (declare_con name ∷ consumes name prefetch)
