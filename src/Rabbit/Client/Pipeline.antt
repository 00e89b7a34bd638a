-- ===== src/Rabbit/Client/Pipeline.antt =====
-- publish_many of rabbit-client-python/src/hs_rabbit_client/client.py: what it sends, and in which
-- slices.
use rabbit_speed_test.Base.{
  ℕ, zero, suc, ◌≡◌, ◌≤◌, ◌<◌, ◌⊎◌, inl, inr, refl, sym, ap, ◌∙◌, Bool, true, false, Option, none,
  some, List, [], ◌∷◌, ◌++◌, map, map-append, take, drop, length, length-drop, contains, Text,
  list_eq, nat_eq, if◌then◌else◌, arith, All, append_nil, append_assoc,
}
use rabbit_speed_test.Rabbit.Client.{
  Client, Message, Properties, Request, send, declare_pub, Reply, accepted, refused, ok, broken,
  Action, then_do, message, batches, request, request_all, declare_for_publish, pipeline,
  send_slices, publish_many,
}

abbrev pub concat : {A : Type 0} → List (List A) → List A
concat [] = []
concat (x ∷ xs) = x ++ concat xs

module _ {A : Type 0} where
  take-drop : (n : ℕ) (xs : List A) → take n xs ++ drop n xs ≡ xs
  take-drop zero xs = refl
  take-drop (suc n) [] = refl
  take-drop (suc n) (x ∷ xs) = ap (λ l. x ∷ l) (take-drop n xs)

  length-take_le : (n : ℕ) (xs : List A) → length (take n xs) ≤ n
  length-take_le zero xs = ground arith
  length-take_le (suc n) [] = ground arith
  length-take_le (suc n) (x ∷ xs) = ground (arith, length-take_le n xs)

  -- The slices of a list are the list, in order, and none is longer than n: `length xs` turns are
  -- enough for range(0, len(xs), n).
  pub concat-batches :
      (fuel n : ℕ) (xs : List A) → 0 < n → length xs ≤ fuel → concat (batches fuel n xs) ≡ xs
  unfolding batches
  concat-batches zero n [] p h = refl
  concat-batches zero n (x ∷ xs) p h = absurd (ground arith)
  concat-batches (suc fuel) n [] p h = refl
  concat-batches (suc fuel) zero (x ∷ xs) p h = absurd (ground arith)
  concat-batches (suc fuel) (suc n) (x ∷ xs) p h =
      ap (λ l. x ∷ (take n xs ++ l))
        (concat-batches fuel (suc n) (drop n xs) p (ground (arith, length-drop n xs)))
      ∙ ap (λ l. x ∷ l) (take-drop n xs)

  batches-All : (fuel n : ℕ) (xs : List A) → All (λ b. length b ≤ n) (batches fuel n xs)
  unfolding batches
  batches-All zero n xs = tt
  batches-All (suc fuel) n [] = tt
  batches-All (suc fuel) n (x ∷ xs) =
      (length-take_le n (x ∷ xs), batches-All fuel n (drop n (x ∷ xs)))

reply-cases : (r : Reply) → ((n : ℕ) × (r ≡ accepted n)) ⊎ ((e : ℕ) × (r ≡ refused e))
reply-cases (accepted n) = inl (n, refl)
reply-cases (refused e) = inr (e, refl)

abbrev after : Client → List Request → Client
after c qs = record c { requests = c.requests ++ qs }

pub length-map_le : {A B : Type 0} (f : A → B) (xs : List A) → length (map f xs) ≤ length xs
length-map_le f [] = ground arith
length-map_le f (x ∷ xs) = ground (arith, length-map_le f xs)

-- What a client asks before it may publish to a queue.
abbrev pub declares : Text → Client → List Request
declares name c = if contains name c.declared_pub then [] else declare_pub name ∷ []

module _ (reply : List Request → Request → Reply) where
  request_all-after : (qs : List Request) (c : Client) → (request_all reply qs c).1 ≡ after c qs
  unfolding request_all
  request_all-after [] c = ap (λ l. record c { requests = l }) (sym (append_nil c.requests))
  request_all-after (q ∷ qs) c =
      request_all-after qs (after c (q ∷ []))
      ∙ ap (λ l. record c { requests = l }) (append_assoc c.requests (q ∷ []) qs)

  -- One gather and what follows it, once the gather has not raised.
  then_do-ok :
      (o : Option ℕ) (rest : Action ℕ) (c : Client) (n : ℕ)
      → (then_do (elim o [ none ↦ ok zero | some e ↦ broken e ]) (λ m. rest) c).0 ≡ ok n
      → (then_do (elim o [ none ↦ ok zero | some e ↦ broken e ]) (λ m. rest) c ≡ rest c)
  then_do-ok none rest c n h = refl
  then_do-ok (some e) rest c n h = absurd (ground arith)

  pipeline-after :
      (first : List Reply → Option ℕ) (name : Text) (bs : List (List Message)) (c : Client) (n : ℕ)
      → (pipeline reply first name bs c).0 ≡ ok n
      → (pipeline reply first name bs c).1 ≡ after c (map (send name) (concat bs))
  unfolding pipeline
  pipeline-after first name [] c n h =
      ap (λ l. record c { requests = l }) (sym (append_nil c.requests))
  pipeline-after first name (b ∷ bs) c n h =
      let sent = request_all reply (map (send name) b) c in
      let e = then_do-ok (first sent.0) (pipeline reply first name bs) sent.1 n h in
      ap (λ r. r.1) e
      ∙ pipeline-after first name bs sent.1 n (sym (ap (λ r. r.0) e) ∙ h)
      ∙ ap (λ d. after d (map (send name) (concat bs))) (request_all-after (map (send name) b) c)
      ∙ ap (λ l. record c { requests = l })
          (append_assoc c.requests (map (send name) b) (map (send name) (concat bs))
            ∙ ap (λ l. c.requests ++ l) (sym (map-append (send name) b (concat bs))))

  sliced-after :
      (first : List Reply → Option ℕ) (size : ℕ) (name : Text) (bodies : List Text) (p : Properties)
      (c : Client) (n : ℕ) (channel : Option ℕ)
      → 0 < size
      → (send_slices reply first size name bodies p channel c).0 ≡ ok n
      → (send_slices reply first size name bodies p channel c).1.requests
        ≡ c.requests ++ map (send name) (map (message c.durable p) bodies)
  unfolding send_slices
  sliced-after first size name bodies p c n none positive h = absurd (ground arith)
  sliced-after first size name bodies p c n (some k) positive h =
      let ms = map (message c.durable p) bodies in
      ap (λ d. d.requests) (pipeline-after first name (batches (length bodies) size ms) c n h)
      ∙ ap (λ l. c.requests ++ map (send name) l)
          (concat-batches (length bodies) size ms positive
            (length-map_le (message c.durable p) bodies))

  declared-after :
      (first : List Reply → Option ℕ) (size : ℕ) (name : Text) (bodies : List Text) (p : Properties)
      (c : Client) (n : ℕ) (known : Bool) (channel : Option ℕ)
      → c.pub_channel ≡ channel
      → contains name c.declared_pub ≡ known
      → 0 < size
      → (publish_many reply first size name bodies p c).0 ≡ ok n
      → (publish_many reply first size name bodies p c).1.requests
        ≡ c.requests ++ (declares name c ++ map (send name) (map (message c.durable p) bodies))
  unfolding publish_many declare_for_publish request
  declared-after first size name bodies p c n true channel ch known positive h =
      ground (arith, sliced-after first size name bodies p c n c.pub_channel)
  declared-after first size name bodies p c n false none ch known positive h = ground arith
  declared-after first size name bodies p c n false (some k) ch known positive h =
      elim (reply-cases (reply c.requests (declare_pub name))) [
        | inl (a, r) ↦
            let d = record c {
              requests = c.requests ++ declare_pub name ∷ [];
              declared_pub = name ∷ c.declared_pub;
            } in
            ground (
              arith,
              ch,
              r,
              sliced-after first size name bodies p d n c.pub_channel positive,
              append_assoc c.requests (declare_pub name ∷ [])
                  (map (send name) (map (message c.durable p) bodies)),
            )
        | inr (e, r) ↦ ground (arith, ch, r)
      ]

  -- publish_many that does not raise has sent each body once, in the order of the list and with the
  -- same properties, after a declare unless the queue was declared before, and has asked for nothing
  -- else, whatever the size of its slices.
  pub publish_many-ok :
      (first : List Reply → Option ℕ) (size : ℕ) (name : Text) (bodies : List Text) (p : Properties)
      (c : Client) (n : ℕ)
      → 0 < size
      → (publish_many reply first size name bodies p c).0 ≡ ok n
      → (publish_many reply first size name bodies p c).1.requests
        ≡ c.requests ++ (declares name c ++ map (send name) (map (message c.durable p) bodies))
  publish_many-ok first size name bodies p c n positive h =
      declared-after first size name bodies p c n (contains name c.declared_pub) c.pub_channel refl
        refl positive h
