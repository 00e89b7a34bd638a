-- ===== src/Bench/Fake/Drain.antt =====
-- Both ways to drain a queue of the fake client do the same.
use rabbit_speed_test.Base.{
  ℕ, zero, suc, ◌≡◌, refl, sym, ap, inl, inr, list_beq_iff, ◌∙◌, min, false, List, [], ◌∷◌, ◌++◌,
  length, drop, Text, nat_eq, list_eq, ◌==◌, arith, beq_refl, Bool-cases,
}
use rabbit_speed_test.Bench.Fake.{
  Queues, with_queue, pop_left, consume_one, take_many, consume_many, counted, consume_many_get,
  publish_many,
}

pub take_many-drop :
    (count : ℕ) (bodies : List Text)
    → ((take_many count bodies).0 ≡ min count (length bodies))
      × ((take_many count bodies).1 ≡ drop count bodies)
unfolding take_many
take_many-drop zero bodies = (ground arith, refl)
take_many-drop (suc count) [] = (ground arith, refl)
take_many-drop (suc count) (b ∷ bodies) =
    let h = take_many-drop count bodies in (ground (arith, h.0), h.1)

-- A queue that is put back as it was changes nothing.
same_queue :
    (name other : Text) (bodies : List Text) (q : Queues)
    → q name ≡ bodies
    → q other ≡ with_queue name bodies q other
same_queue name other bodies q e = elim (Bool-cases (name == other)) [
  | inl same ↦ rw same (ap q (sym ((list_beq_iff name other).0 same)) ∙ e)
  | inr differs ↦ rw differs refl
]

pub own_queue :
    (name : Text) (bodies : List Text) (q : Queues) → with_queue name bodies q name ≡ bodies
own_queue name bodies q = rw (beq_refl name) refl

twice_queue :
    (name other : Text) (old new : List Text) (q : Queues)
    → with_queue name new (with_queue name old q) other ≡ with_queue name new q other
twice_queue name other old new q = elim (Bool-cases (name == other)) [
  | inl e ↦ rw e refl
  | inr e ↦ rw e refl
]

get-step :
    (name : Text) (count : ℕ) (bodies : List Text) (q : Queues)
    → q name ≡ bodies
    → let (body, q') = pop_left name bodies q in
      consume_many_get consume_one name (suc count) q
      ≡ counted consume_one body q' (consume_many_get consume_one name count q')
unfolding consume_many_get consume_one
get-step name count bodies q e =
    ap
      (λ l.
        let r = pop_left name l q in
        counted consume_one r.0 r.1 (consume_many_get consume_one name count r.1))
      e

get-many :
    (name other : Text) (count : ℕ) (bodies : List Text) (q : Queues)
    → q name ≡ bodies
    → let (n, q') = consume_many_get consume_one name count q in
      (n ≡ (take_many count bodies).0)
      × (q' other ≡ with_queue name (take_many count bodies).1 q other)
unfolding consume_many_get consume_one pop_left take_many
get-many name other zero bodies q e = (refl, same_queue name other bodies q e)
get-many name other (suc count) [] q e =
    rw (get-step name count [] q e) (refl, same_queue name other [] q e)
get-many name other (suc count) (b ∷ rest) q e =
    let left = with_queue name rest q in
    let (n, h) = get-many name other count rest left (own_queue name rest q) in
    rw (get-step name count (b ∷ rest) q e)
      (ap suc n, h ∙ twice_queue name other rest (take_many count rest).1 q)

-- The drain by single gets takes as many messages as the push consumer and leaves the same queues.
consume_many_get-consume_many :
    (name other : Text) (count : ℕ) (q : Queues)
    → let (n, q') = consume_many_get consume_one name count q in
      let (m, q'') = consume_many name count q in (n ≡ m) × (q' other ≡ q'' other)
unfolding consume_many
consume_many_get-consume_many name other count q = get-many name other count (q name) q refl

-- A queue that held nothing: after publishing, a drain takes the smaller of the count and what was
-- published, the rest stays in the order of publishing, and other queues are as before.
publish_many-consume_many :
    (name other : Text) (bodies : List Text) (count : ℕ) (q : Queues)
    → q name ≡ []
    → let (n, q') = consume_many name count (publish_many name bodies q) in
      (n ≡ min count (length bodies))
      × (q' name ≡ drop count bodies)
      × ((name == other) ≡ false → q' other ≡ q other)
unfolding consume_many publish_many
publish_many-consume_many name other bodies count q empty =
    let filled = with_queue name (q name ++ bodies) q in
    let held : filled name ≡ bodies =
      own_queue name (q name ++ bodies) q ∙ ap (λ l. l ++ bodies) empty in
    let (n, left) = take_many-drop count (filled name) in
    (
      n ∙ ap (λ l. min count (length l)) held,
      own_queue name (take_many count (filled name)).1 filled ∙ left ∙ ap (λ l. drop count l) held,
      λ differs. rw differs refl,
    )
