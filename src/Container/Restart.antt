-- ===== src/Container/Restart.antt =====
-- A container that is started again after a stop.
use rabbit_speed_test.Base.{
  ◌≡◌, refl, Bool, true, false, List, [], ◌∷◌, map, any_of, if◌then◌else◌, arith, Bool-cases, inl,
  inr,
}
use rabbit_speed_test.Outcome.{ok}
use rabbit_speed_test.Container.{
  ServiceMode, api, consumer, both, Container, build_consumer_graph, start, start_consumer,
  readiness, ready,
}

rebuilt-open : (bs : List Bool) → any_of (λ b. b) (map (λ b. false) bs) ≡ false
rebuilt-open [] = refl
rebuilt-open (b ∷ bs) = rebuilt-open bs

started-ready :
    (db_ok : Bool) (m : ServiceMode) (c : Container)
    → c.service_mode ≡ m
    → c.connected ≡ true
    → ready db_ok (start_consumer c) ≡ (if db_ok then 200 else 503)
unfolding ready readiness start_consumer
started-ready true api c e h = ground (arith, e, h)
started-ready false api c e h = ground (arith, e, h)
started-ready true consumer c e h = ground (arith, e, h)
started-ready false consumer c e h = ground (arith, e, h)
started-ready true both c e h = ground (arith, e, h)
started-ready false both c e h = ground (arith, e, h)

-- After a start that returns no batcher is closed, whatever became of the container before, so that a
-- submit is not refused; and once the consumer is started, the process is ready exactly if the
-- database answers, in every mode.
start-ready :
    (connects db_ok : Bool) (c : Container)
    → (start connects c).0 ≡ ok tt
    → let started = (start connects c).1 in
      (any_of (λ b. b) started.batchers ≡ false)
      × (ready db_ok (start_consumer started) ≡ (if db_ok then 200 else 503))
unfolding start build_consumer_graph
start-ready true db_ok c h = (
  elim (Bool-cases (any_of (λ b. b) c.batchers)) [
    | inl e ↦ rw (start, e) (rebuilt-open c.batchers)
    | inr e ↦ rw (start, e) e
  ],
  started-ready db_ok ((start true c).1.service_mode) (start true c).1 refl refl,
)
start-ready false db_ok c h = absurd (ground (arith, h))
