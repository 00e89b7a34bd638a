-- ===== src/Bench/AioPika/Channels.antt =====
-- The channel and the exchange of a bulk publish of the aio-pika client.
use mathlib.Core.Path.{subst}
use rabbit_speed_test.Base.{
  ℕ, zero, not, ◌≡◌, refl, sym, ap, ◌∙◌, Bool, true, false, ◌||◌, Option, none, some, List, [], ◌∷◌,
  ◌++◌, Text, append_nil, append_assoc, if◌then◌else◌, arith, All,
}
use rabbit_speed_test.Modules.Events.{is_empty}
use rabbit_speed_test.Bench.Suite.{Ended, returned, raised}
use rabbit_speed_test.Bench.AioPika.{
  Request, open_channel, get_exchange, send, Reply, Client, Action, then_do, ◌>>=◌, needed, request,
  reopened, plain_or_new, bulk_channel, exchange_of, bulk_exchange,
}

abbrev pub after : Client → List Request → Client
after c qs = record c { requests = c.requests ++ qs }

pub returned_inj : {m n : ℕ} → returned m ≡ returned n → m ≡ n
returned_inj h = cc

-- A bind that returns.
pub bind-returned :
    {A B : Type 0} (m : Action A) (f : A → Action B) (c : Client) (b : B)
    → ((m >>= f) c).0 ≡ returned b
    → (a : A) × ((m c).0 ≡ returned a) × ((m >>= f) c ≡ f a (m c).1)
bind-returned {A} {B} m f c b h = go (m c) h
  where
    go :
        (r : Ended A × Client)
        → (then_do r.0 f r.1).0 ≡ returned b
        → (a : A) × (r.0 ≡ returned a) × (then_do r.0 f r.1 ≡ f a r.1)
    go (returned a, d) h = (a, refl, refl)
    go (raised e, d) h = absurd (ground arith)

-- The channel that a bulk publish should have: the confirming one, or the plain one.
abbrev pub IsBulk : Bool → Client → ℕ → Type 0
IsBulk confirm c ch = (if confirm || not c.confirms then c.channel else c.plain_channel) ≡ some ch

abbrev pub IsNoSend : Request → Type 0
IsNoSend (send ch exchange key m) = ⊥
IsNoSend q = true ≡ true

-- A client after requests that send nothing; its settings are the same.
abbrev pub Prepares : Client → Client → Type 0
Prepares c d =
    (d.confirms ≡ c.confirms)
    × (d.durable ≡ c.durable)
    × (d.pipeline_batch ≡ c.pipeline_batch)
    × (qs : List Request) × (d.requests ≡ c.requests ++ qs)
    × All IsNoSend qs

unchanged : (c : Client) → Prepares c c
unchanged c = (refl, refl, refl, [], sym (append_nil c.requests), tt)

module _ (reply : List Request → Request → Reply) (closed : List Request → ℕ → Bool) where
  reopened-plain :
      (c : Client) (ch : ℕ)
      → (reopened reply closed c).0 ≡ returned ch
      → ((reopened reply closed c).1.plain_channel ≡ some ch)
        × ((reopened reply closed c).1.confirms ≡ c.confirms)
        × ((reopened reply closed c).1.durable ≡ c.durable)
        × ((reopened reply closed c).1.pipeline_batch ≡ c.pipeline_batch)
        × ((reopened reply closed c).1.requests ≡ c.requests ++ open_channel false ∷ [])
  reopened-plain c ch h = ground arith

  reopened-Prepares :
      (c : Client) (ch : ℕ)
      → (reopened reply closed c).0 ≡ returned ch
      → ((reopened reply closed c).1.plain_channel ≡ some ch)
        × Prepares c (reopened reply closed c).1
  reopened-Prepares c ch h =
      let (plain, confirms, durable, depth, requests) = reopened-plain c ch h in
      (plain, (confirms, durable, depth, open_channel false ∷ [], requests, (refl, tt)))

  plain_or_new-Prepares :
      (o : Option ℕ) (c : Client) (ch : ℕ)
      → c.plain_channel ≡ o
      → (plain_or_new reply closed o c).0 ≡ returned ch
      → ((plain_or_new reply closed o c).1.plain_channel ≡ some ch)
        × Prepares c (plain_or_new reply closed o c).1
  plain_or_new-Prepares none c ch e h = reopened-Prepares c ch h
  plain_or_new-Prepares (some k) c ch e h = go (closed c.requests k) h
    where
      go :
          (b : Bool)
          → (if b then reopened reply closed c else (returned k, c)).0 ≡ returned ch
          → ((if b then reopened reply closed c else (returned k, c)).1.plain_channel ≡ some ch)
            × Prepares c (if b then reopened reply closed c else (returned k, c)).1
      go true h = reopened-Prepares c ch h
      go false h = (e ∙ ap some (returned_inj h), unchanged c)

  needed-Prepares :
      (o : Option ℕ) (c : Client) (ch : ℕ)
      → (needed o c).0 ≡ returned ch
      → (o ≡ some ch) × ((needed o c).1 ≡ c)
  needed-Prepares none c ch h = absurd (ground arith)
  needed-Prepares (some k) c ch h = (ap some (returned_inj h), refl)

  bulk_channel-Prepares :
      (confirm : Bool) (c : Client) (ch : ℕ)
      → (bulk_channel reply closed confirm c).0 ≡ returned ch
      → IsBulk confirm (bulk_channel reply closed confirm c).1 ch
        × Prepares c (bulk_channel reply closed confirm c).1
  unfolding bulk_channel
  bulk_channel-Prepares confirm c ch h = go (confirm || not c.confirms) refl h
    where
      chosen : Bool → Ended ℕ × Client
      chosen b = if b then needed c.channel c else plain_or_new reply closed c.plain_channel c

      go :
          (b : Bool)
          → (confirm || not c.confirms) ≡ b
          → (chosen b).0 ≡ returned ch
          → IsBulk confirm (chosen b).1 ch × Prepares c (chosen b).1
      go true e h =
          let (held, same) = needed-Prepares c.channel c ch h in
          subst (λ (d : Client). IsBulk confirm d ch × Prepares c d) (sym same)
            (rw e held, unchanged c)
      go false e h =
          let (plain, prepared) = plain_or_new-Prepares c.plain_channel c ch refl h in
          let d = (chosen false).1 in
          (
            subst (λ b. (if b then d.channel else d.plain_channel) ≡ some ch)
                (sym (ap (λ k. confirm || not k) prepared.0 ∙ e)) plain,
            prepared,
          )

  -- The requests for an exchange.
  abbrev pub looked_up : Text → ℕ → List Request
  looked_up exchange ch = if is_empty exchange then [] else get_exchange ch exchange ∷ []

  exchange_of-after :
      (exchange : Text) (ch : ℕ) (c : Client)
      → (exchange_of reply closed exchange ch c).1 ≡ after c (looked_up exchange ch)
  unfolding exchange_of
  exchange_of-after exchange ch c = go (is_empty exchange)
    where
      go :
          (b : Bool)
          → (let r : Ended ℕ × Client =
                if b
                then (returned zero, c)
                else request reply closed (get_exchange ch exchange) c in
              r).1
            ≡ after c (if b then [] else get_exchange ch exchange ∷ [])
      go true = ap (λ l. record c { requests = l }) (sym (append_nil c.requests))
      go false = refl

  looked_up-IsNoSend : (exchange : Text) (ch : ℕ) → All IsNoSend (looked_up exchange ch)
  looked_up-IsNoSend exchange ch = go (is_empty exchange)
    where
      go : (b : Bool) → All IsNoSend (if b then [] else get_exchange ch exchange ∷ [])
      go true = tt
      go false = (refl, tt)

  All-append : (xs ys : List Request) → All IsNoSend xs → All IsNoSend ys → All IsNoSend (xs ++ ys)
  All-append [] ys h k = k
  All-append (x ∷ xs) ys (h, hs) k = (h, All-append xs ys hs k)

  Prepares-after :
      (c d : Client) (qs : List Request) → Prepares c d → All IsNoSend qs → Prepares c (after d qs)
  Prepares-after c d qs (confirms, durable, depth, first, requests, quiet) k = (
    confirms,
    durable,
    depth,
    first ++ qs,
    ap (λ l. l ++ qs) requests ∙ append_assoc c.requests first qs,
    All-append first qs quiet k,
  )

  pub bulk_exchange-Prepares :
      (exchange : Text) (confirm : Bool) (c : Client) (ch : ℕ)
      → (bulk_exchange reply closed exchange confirm c).0 ≡ returned ch
      → IsBulk confirm (bulk_exchange reply closed exchange confirm c).1 ch
        × Prepares c (bulk_exchange reply closed exchange confirm c).1
  unfolding bulk_exchange
  bulk_exchange-Prepares exchange confirm c ch h =
      let next = λ (k : ℕ). exchange_of reply closed exchange k >>= λ m. λ d. (returned k, d) in
      let (k, opened, e) = bind-returned (bulk_channel reply closed confirm) next c ch h in
      let d = (bulk_channel reply closed confirm c).1 in
      let (n, found, e') =
        bind-returned (exchange_of reply closed exchange k) (λ m. λ d. (returned k, d)) d ch
          (sym (ap (λ r. r.0) e) ∙ h) in
      let same : k ≡ ch = returned_inj (sym (ap (λ r. r.0) e') ∙ sym (ap (λ r. r.0) e) ∙ h) in
      let (bulk, prepared) = bulk_channel-Prepares confirm c k opened in
      subst (λ (x : Client). IsBulk confirm x ch × Prepares c x)
        (sym (ap (λ r. r.1) e ∙ ap (λ r. r.1) e' ∙ exchange_of-after exchange k d))
        (
          bulk ∙ ap some same,
          Prepares-after c d (looked_up exchange k) prepared (looked_up-IsNoSend exchange k),
        )
