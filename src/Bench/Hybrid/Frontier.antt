-- ===== src/Bench/Hybrid/Frontier.antt =====
-- Where advance_frontier leaves the frontier, the tag to ack, and the finished tags.
use rabbit_speed_test.Base.{
  ℕ, zero, suc, ◌+◌, ◌≡◌, ◌≤◌, ◌<◌, ◌||◌, refl, ◌∙◌, true, false, List, length, contains,
  contains-keep_ne, nat_eq, ◌==◌, arith, Bool-cases, inl, inr, if◌then◌else◌,
}
use rabbit_speed_test.Bench.Hybrid.{Consume, discard, next_of, advance_from, advance_frontier}
use rabbit_speed_test.Bench.Hybrid.Quota.{discard-lt}

-- The last of the tags nxt, nxt + 1, ... of a run of n tags, or d for an empty run.
abbrev pub last_tag : ℕ → ℕ → ℕ → ℕ
last_tag nxt zero d = d
last_tag nxt (suc n) d = nxt + n

-- The highest tag of the run that is in a list, or d.
abbrev pub last_in : List ℕ → ℕ → ℕ → ℕ → ℕ
last_in tags nxt zero d = d
last_in tags nxt (suc n) d = if contains (nxt + n) tags then nxt + n else last_in tags nxt n d

abbrev HasFinished : ℕ → Consume → Type 0
HasFinished t s = (contains t s.finished_ok || contains t s.finished_nack) ≡ true

-- From s to a the frontier has passed the longest run of finished tags that begins at nxt: the tag
-- after the run has not finished; the frontier is the last tag of the run, the tag to ack the highest
-- one of it whose handler returned, each as before where there is none; no tag of the run is left among
-- those whose handler returned; and the tags beyond the run stand in the two sets as before.
pub record IsAdvance (s : Consume) (nxt : ℕ) (a : Consume) : Type 0 where
  pub run : ℕ
  pub finished : (i : ℕ) → i < run → HasFinished (nxt + i) s
  pub waits_ok : contains (nxt + run) s.finished_ok ≡ false
  pub waits_nack : contains (nxt + run) s.finished_nack ≡ false
  pub frontier : a.frontier ≡ last_tag nxt run s.frontier
  pub ack_ref : a.ack_ref ≡ last_in s.finished_ok nxt run s.ack_ref
  pub fewer_ok : (t : ℕ) → contains t s.finished_ok ≡ false → contains t a.finished_ok ≡ false
  pub passed_ok : (i : ℕ) → i < run → contains (nxt + i) a.finished_ok ≡ false
  pub later_ok : (t : ℕ) → nxt + run ≤ t → contains t a.finished_ok ≡ contains t s.finished_ok
  pub later_nack : (t : ℕ) → nxt + run ≤ t → contains t a.finished_nack ≡ contains t s.finished_nack

last_in-found :
    (tags : List ℕ) (nxt n d : ℕ)
    → contains nxt tags ≡ true
    → last_in (discard nxt tags) (suc nxt) n nxt ≡ last_in tags nxt (suc n) d
last_in-found tags nxt zero d h = ground (arith, h)
last_in-found tags nxt (suc n) d h =
    ground (arith, last_in-found tags nxt n d h, contains-keep_ne (suc nxt + n) nxt tags)

last_in-missed :
    (tags : List ℕ) (nxt n d : ℕ)
    → contains nxt tags ≡ false
    → last_in tags (suc nxt) n d ≡ last_in tags nxt (suc n) d
last_in-missed tags nxt zero d h = ground (arith, h)
last_in-missed tags nxt (suc n) d h = ground (arith, last_in-missed tags nxt n d h)

last_tag-suc : (nxt n d : ℕ) → last_tag (suc nxt) n nxt ≡ last_tag nxt (suc n) d
last_tag-suc nxt zero d = omega arith
last_tag-suc nxt (suc n) d = omega arith

passed_ok-IsAdvance :
    (nxt : ℕ) (s a : Consume)
    → contains nxt s.finished_ok ≡ true
    → IsAdvance
        (record s { finished_ok = discard nxt s.finished_ok; ack_ref = nxt; frontier = nxt })
        (suc nxt)
        a
    → IsAdvance s nxt a
passed_ok-IsAdvance nxt s a h r = record {
  run = suc r.run;
  finished = go;
  waits_ok = ground (arith, r.waits_ok, contains-keep_ne (suc nxt + r.run) nxt s.finished_ok);
  waits_nack = ground (arith, r.waits_nack);
  frontier = r.frontier ∙ last_tag-suc nxt r.run s.frontier;
  ack_ref = r.ack_ref ∙ last_in-found s.finished_ok nxt r.run s.ack_ref h;
  fewer_ok = λ t no. r.fewer_ok t (ground (arith, no, contains-keep_ne t nxt s.finished_ok));
  passed_ok = gone;
  later_ok = λ t le.
      ground (arith, r.later_ok t (omega (arith, le)), contains-keep_ne t nxt s.finished_ok, le);
  later_nack = λ t le. r.later_nack t (omega (arith, le));
}
  where
    go : (i : ℕ) → i < suc r.run → HasFinished (nxt + i) s
    go zero lt = ground (arith, h)
    go (suc i) lt =
        ground (
          arith,
          r.finished i (omega (arith, lt)),
          contains-keep_ne (suc nxt + i) nxt s.finished_ok,
        )

    gone : (i : ℕ) → i < suc r.run → contains (nxt + i) a.finished_ok ≡ false
    gone zero lt =
        let out : contains nxt (discard nxt s.finished_ok) ≡ false =
          ground (arith, contains-keep_ne nxt nxt s.finished_ok) in
        ground (arith, r.fewer_ok nxt out)
    gone (suc i) lt = ground (arith, r.passed_ok i (omega (arith, lt)))

passed_nack-IsAdvance :
    (nxt : ℕ) (s a : Consume)
    → contains nxt s.finished_ok ≡ false
    → contains nxt s.finished_nack ≡ true
    → IsAdvance
        (record s { finished_nack = discard nxt s.finished_nack; frontier = nxt })
        (suc nxt)
        a
    → IsAdvance s nxt a
passed_nack-IsAdvance nxt s a m h r = record {
  run = suc r.run;
  finished = go;
  waits_ok = ground (arith, r.waits_ok);
  waits_nack = ground (arith, r.waits_nack, contains-keep_ne (suc nxt + r.run) nxt s.finished_nack);
  frontier = r.frontier ∙ last_tag-suc nxt r.run s.frontier;
  ack_ref = r.ack_ref ∙ last_in-missed s.finished_ok nxt r.run s.ack_ref m;
  fewer_ok = r.fewer_ok;
  passed_ok = gone;
  later_ok = λ t le. r.later_ok t (omega (arith, le));
  later_nack = λ t le.
      ground
        (arith, r.later_nack t (omega (arith, le)), contains-keep_ne t nxt s.finished_nack, le);
}
  where
    go : (i : ℕ) → i < suc r.run → HasFinished (nxt + i) s
    go zero lt = ground (arith, h)
    go (suc i) lt = ground (
      arith,
      r.finished i (omega (arith, lt)),
      contains-keep_ne (suc nxt + i) nxt s.finished_nack,
    )

    gone : (i : ℕ) → i < suc r.run → contains (nxt + i) a.finished_ok ≡ false
    gone zero lt = ground (arith, r.fewer_ok nxt m)
    gone (suc i) lt = ground (arith, r.passed_ok i (omega (arith, lt)))

advance_from-IsAdvance :
    (fuel nxt : ℕ) (s : Consume)
    → length s.finished_ok + length s.finished_nack < fuel
    → IsAdvance s nxt (advance_from fuel nxt s)
unfolding advance_from
advance_from-IsAdvance zero nxt s enough = absurd (omega (arith, enough))
advance_from-IsAdvance (suc fuel) nxt s enough = elim (Bool-cases (contains nxt s.finished_ok)) [
  | inl done ↦
      let passed = record s {
        finished_ok = discard nxt s.finished_ok;
        ack_ref = nxt;
        frontier = nxt;
      } in
      rw (advance_from, done)
        (passed_ok-IsAdvance nxt s (advance_from fuel (suc nxt) passed) done (
          advance_from-IsAdvance fuel (suc nxt) passed
            (omega (arith, enough, discard-lt nxt s.finished_ok done))))
  | inr not_done ↦ elim (Bool-cases (contains nxt s.finished_nack)) [
    | inl refused ↦
        let passed = record s { finished_nack = discard nxt s.finished_nack; frontier = nxt } in
        rw (advance_from, not_done)
          (rw (advance_from, refused)
            (passed_nack-IsAdvance nxt s (advance_from fuel (suc nxt) passed) not_done refused (
              advance_from-IsAdvance fuel (suc nxt) passed
                (omega (arith, enough, discard-lt nxt s.finished_nack refused)))))
    | inr waits ↦
        rw (advance_from, not_done)
          (rw (advance_from, waits)
            (record {
              run = 0;
              finished = λ i lt. absurd (omega (arith, lt));
              waits_ok = ground (arith, not_done);
              waits_nack = ground (arith, waits);
              frontier = refl;
              ack_ref = refl;
              fewer_ok = λ t no. no;
              passed_ok = λ i lt. absurd (omega (arith, lt));
              later_ok = λ t le. refl;
              later_nack = λ t le. refl;
            }))
  ]
]

-- Where the loop of advance_frontier ends, which the model runs at most once for each finished tag and
-- once more: the frontier has passed the longest run of finished tags that begins after it, or at the
-- first tag, and no further; the tag to ack is the highest of that run whose handler returned, and
-- stays if there is none; no tag of the run is left among those whose handler returned, and the
-- finished tags beyond the run stay in their sets.
pub advance_frontier-IsAdvance :
    (s : Consume)
    → IsAdvance s (if s.frontier == 0 then s.first_tag else suc s.frontier) (advance_frontier s)
unfolding advance_frontier
advance_frontier-IsAdvance s =
    advance_from-IsAdvance (suc (length s.finished_ok + length s.finished_nack)) (next_of s) s
      (omega arith)
