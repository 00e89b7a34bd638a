-- ===== src/Rabbit/Watch/Cancels.antt =====
-- When the watchdog of a consumer gives it up.
use rabbit_speed_test.Base.{
  ℕ, zero, suc, ◌≡◌, ◌⊎◌, inl, inr, refl, sym, ◌∙◌, option_beq_iff, false, Option, none, some, List,
  [], ◌∷◌, contains, Text, list_eq, nat_eq, option_eq, ◌==◌, ltb, arith, Bool-cases, ◌<◌, ap,
}
use mathlib.Core.Path.{subst}
use rabbit_speed_test.Rabbit.Watch.{
  Poll, disconnected, connected, Watchdog, missed, watch_turn, watch,
}

-- A poll that sees channel c, and the consumer's tag is not among its consumers.
abbrev pub IsMiss : Text → ℕ → Poll → Type 0
IsMiss tag c disconnected = ⊥
IsMiss tag c (connected none) = ⊥
IsMiss tag c (connected (some (channel, consumers))) =
    (channel ≡ c) × (contains tag consumers ≡ false)

-- Two polls in succession miss the tag on one and the same channel.
abbrev pub MissesTwice : Text → List Poll → Type 0
MissesTwice tag [] = ⊥
MissesTwice tag (p ∷ []) = ⊥
MissesTwice tag (p ∷ q ∷ rest) =
    ((c : ℕ) × IsMiss tag c p × IsMiss tag c q) ⊎ MissesTwice tag (q ∷ rest)

abbrev MissesNext : Text → Watchdog → List Poll → Type 0
MissesNext tag w [] = ⊥
MissesNext tag w (p ∷ rest) = (c : ℕ) × (w.underlay ≡ some c) × (0 < w.misses) × IsMiss tag c p

-- How one turn ends: the consumer is given up, the count starts anew, or this poll is a first miss.
abbrev TurnIs : Text → Watchdog → Poll → Option Watchdog → Type 0
TurnIs tag w p none = (c : ℕ) × (w.underlay ≡ some c) × (0 < w.misses) × IsMiss tag c p
TurnIs tag w p (some w') = (w'.misses ≡ 0) ⊎ ((c : ℕ) × (w'.underlay ≡ some c) × IsMiss tag c p)

missed-TurnIs :
    (tag : Text) (w : Watchdog) (c : ℕ) (tags : List Text)
    → w.underlay ≡ some c
    → contains tag tags ≡ false
    → TurnIs tag w (connected (some (c, tags))) (missed w)
unfolding missed
missed-TurnIs tag w c tags u h = elim (Bool-cases (ltb (suc w.misses) 2)) [
  | inl e ↦ rw e (inr (c, u, (refl, h)))
  | inr e ↦ rw e (c, u, ground arith, (refl, h))
]

turn-TurnIs : (tag : Text) (w : Watchdog) (p : Poll) → TurnIs tag w p (watch_turn tag w p)
unfolding watch_turn
turn-TurnIs tag w disconnected = inl refl
turn-TurnIs tag w (connected none) = inl refl
turn-TurnIs tag w (connected (some (c, tags))) = elim (Bool-cases (some c == w.underlay)) [
  | inl u ↦ elim (Bool-cases (contains tag tags)) [
    | inl h ↦ rw u (rw h (inl refl))
    | inr h ↦
        rw u (rw h (missed-TurnIs tag w c tags (sym ((option_beq_iff (some c) w.underlay).0 u)) h))
  ]
  | inr u ↦ rw u (inl refl)
]

later :
    (tag : Text) (p : Poll) (polls : List Poll)
    → MissesTwice tag polls
    → MissesTwice tag (p ∷ polls)
later tag p [] h = absurd h
later tag p (q ∷ rest) h = inr h

next-twice :
    (tag : Text) (w w' : Watchdog) (p : Poll) (polls : List Poll)
    → TurnIs tag w p (some w')
    → MissesNext tag w' polls
    → MissesTwice tag (p ∷ polls)
next-twice tag w w' p [] t n = absurd n
next-twice tag w w' p (q ∷ rest) (inl zeroed) (c, u, positive, m) = absurd (ground arith)
next-twice tag w w' p (q ∷ rest) (inr (c, u, m)) (d, v, positive, n) =
    inl (c, m, subst (λ x. IsMiss tag x q) (ground arith) n)

turned-missed :
    (tag : Text) (w : Watchdog) (p : Poll) (polls : List Poll)
    → ((w' : Watchdog)
        → watch tag (some w') polls ≡ none
        → MissesNext tag w' polls ⊎ MissesTwice tag polls)
    → (o : Option Watchdog) → TurnIs tag w p o
    → watch tag o polls ≡ none
    → MissesNext tag w (p ∷ polls) ⊎ MissesTwice tag (p ∷ polls)
turned-missed tag w p polls rest none t h = inl t
turned-missed tag w p polls rest (some w') t h = elim (rest w' h) [
  | inl n ↦ inr (next-twice tag w w' p polls t n)
  | inr twice ↦ inr (later tag p polls twice)
]

watch-missed :
    (tag : Text) (w : Watchdog) (polls : List Poll)
    → watch tag (some w) polls ≡ none
    → MissesNext tag w polls ⊎ MissesTwice tag polls
unfolding watch
watch-missed tag w [] h = absurd (ground arith)
watch-missed tag w (p ∷ polls) h =
    turned-missed tag w p polls (λ w'. watch-missed tag w' polls) (watch_turn tag w p)
      (turn-TurnIs tag w p) h

-- The watchdog gives a consumer up only after two polls in succession that miss its tag on one and
-- the same channel: no reconnect, no reset and no new channel is ever taken for a cancel.
pub watch-MissesTwice :
    (tag : Text) (underlay : Option ℕ) (polls : List Poll)
    → watch tag (some (record { underlay = underlay; misses = 0 })) polls ≡ none
    → MissesTwice tag polls
watch-MissesTwice tag underlay polls h =
    elim (watch-missed tag (record { underlay = underlay; misses = 0 }) polls h) [
      | inl n ↦ absurd (none_next tag underlay polls n)
      | inr twice ↦ twice
    ]
  where
    none_next :
        (tag : Text) (underlay : Option ℕ) (polls : List Poll)
        → MissesNext tag (record { underlay = underlay; misses = 0 }) polls
        → ⊥
    none_next tag underlay [] n = n
    none_next tag underlay (p ∷ rest) (c, u, positive, m) = ground arith

watch-none : (tag : Text) (polls : List Poll) → watch tag none polls ≡ none
unfolding watch
watch-none tag [] = refl
watch-none tag (p ∷ polls) = refl

miss_turn :
    (tag : Text) (w : Watchdog) (p : Poll) (c : ℕ)
    → IsMiss tag c p
    → w.underlay ≡ some c
    → watch_turn tag w p ≡ missed w
unfolding watch_turn
miss_turn tag w disconnected c m u = absurd m
miss_turn tag w (connected none) c m u = absurd m
miss_turn tag w (connected (some (d, tags))) c m u =
    rw ((option_beq_iff (some d) w.underlay).1 (ground arith)) (rw m.1 refl)

first_miss :
    (tag : Text) (w : Watchdog) (p : Poll) (c : ℕ)
    → IsMiss tag c p
    → (watch_turn tag w p ≡ none)
      ⊎ ((w' : Watchdog) × (watch_turn tag w p ≡ some w') × (w'.underlay ≡ some c))
unfolding watch_turn missed
first_miss tag w disconnected c m = absurd m
first_miss tag w (connected none) c m = absurd m
first_miss tag w (connected (some (d, tags))) c m = elim (Bool-cases (some d == w.underlay)) [
  | inl u ↦ elim (Bool-cases (ltb (suc w.misses) 2)) [
    | inl e ↦ inr (
      record w { misses = suc w.misses },
      rw u (rw m.1 (rw e refl)),
      sym ((option_beq_iff (some d) w.underlay).0 u) ∙ ap some m.0,
    )
    | inr e ↦ inl (rw u (rw m.1 (rw e refl)))
  ]
  | inr u ↦ inr (record { underlay = some d; misses = zero }, rw u refl, ap some m.0)
]

two_misses :
    (tag : Text) (w : Watchdog) (q r : Poll) (c : ℕ) (rest : List Poll)
    → IsMiss tag c q
    → IsMiss tag c r
    → w.underlay ≡ some c
    → watch tag (some w) (q ∷ r ∷ rest) ≡ none
unfolding watch missed
two_misses tag w q r c rest i j u = elim (Bool-cases (ltb (suc w.misses) 2)) [
  | inl e ↦
      let w' = record w { misses = suc w.misses } in
      let again : missed w' ≡ none = ground arith in
      rw (watch, miss_turn tag w q c i u)
        (rw (missed, e) (rw (watch, miss_turn tag w' r c j u) (rw again (watch-none tag rest))))
  | inr e ↦ rw (watch, miss_turn tag w q c i u) (rw (missed, e) (watch-none tag (r ∷ rest)))
]

-- A cancel by the broker is noticed: once three polls in succession miss the tag on one and the same
-- channel, the watchdog has given the consumer up, whatever it saw before and will see after.
pub watch-notices :
    (tag : Text) (o : Option Watchdog) (p q r : Poll) (c : ℕ) (rest : List Poll)
    → IsMiss tag c p
    → IsMiss tag c q
    → IsMiss tag c r
    → watch tag o (p ∷ q ∷ r ∷ rest) ≡ none
unfolding watch
watch-notices tag none p q r c rest h i j = refl
watch-notices tag (some w) p q r c rest h i j = elim (first_miss tag w p c h) [
  | inl e ↦ rw (watch, e) refl
  | inr (w', e, u) ↦ rw (watch, e) (two_misses tag w' q r c rest i j u)
]
