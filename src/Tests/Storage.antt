-- ===== src/Tests/Storage.antt =====
-- Commits with two staged events.
use rabbit_speed_test.Base.{
  ℕ, ◌≡◌, refl, inl, inr, true, false, [], ◌∷◌, ◌++◌, if◌then◌else◌, arith, ◌==◌, nat_eq,
}
use rabbit_speed_test.Storage.Uow.{
  Uow, Env, acked, ack_lost, delivered, failed, queue_publisher, commit,
}
use rabbit_speed_test.Storage.Uow.Delivery.{
  confirmed, IsAccounted, commit_loses_nothing, publish_only_committed, commit_delivers,
}

-- The database is a number, 2 in the transaction; events 11 and 12 are staged.
abbrev unit : Uow ℕ ℕ
unit = record {
  stored = 1;
  working = 2;
  staged = 11 ∷ 12 ∷ [];
  committed = false;
  publisher = queue_publisher;
  published = [];
  alerts = [];
  attached = true;
  expired = false;
  closed = false;
}

-- The first publish fails.
abbrev flaky : Env
flaky = record { commit_ends = acked; publish_ends = λ i. if i == 0 then failed else delivered }

abbrev lost : Env
lost = record { commit_ends = ack_lost; publish_ends = λ i. delivered }

commit_loses_nothing_example : IsAccounted 12 (commit lost unit).1
commit_loses_nothing_example =
    commit_loses_nothing lost unit 12 refl (λ e. ground (arith, e)) (λ e. ground (arith, e))
      (inr (inl refl))

publish_only_committed_example :
    (flaky.commit_ends ≡ acked)
    × ((commit flaky unit).1.stored ≡ unit.working)
    × ((commit flaky unit).1.committed ≡ true)
unfolding commit
publish_only_committed_example = publish_only_committed flaky unit (λ e. ground (arith, e))

commit_delivers_example :
    let v = (commit flaky unit).1 in
    (v.published ≡ unit.published ++ confirmed flaky.publish_ends 0 unit.staged)
    × (v.stored ≡ unit.working)
    × (v.staged ≡ [])
commit_delivers_example = commit_delivers flaky unit refl refl
