-- ===== src/Storage/Uow/Delivery.antt =====
-- What becomes of the staged events when SqlAlchemyUnitOfWork.commit ends.
use rabbit_speed_test.Base.{
  ℕ, suc, ◌≡◌, ◌≢◌, refl, ◌⊎◌, inl, Bool, true, false, not, List, [], ◌∷◌, ◌++◌, In, Some,
  In-append_left, In-append_right, Some-append_left, Some-append_right, arith,
}
use mathlib.Core.List.{append_assoc, append-nil}
use rabbit_speed_test.Storage.Uow.{
  acked, cut_before, cut_after, PublishOutcome, delivered, failed, cancelled, queue_publisher,
  null_publisher, Alert, commit_failed, publish_failed, publish_cancelled, Uow, Env, publish_staged,
  warn_staged, commit, exit,
}

module _ {E : Type 0} where
  -- The events whose publish is confirmed before the first cancellation.
  pub confirmed : (ℕ → PublishOutcome) → ℕ → List E → List E
  confirmed ends i [] = []
  confirmed ends i (e ∷ es) = elim (ends i) [
    | delivered ↦ e ∷ confirmed ends (suc i) es
    | failed ↦ confirmed ends (suc i) es
    | cancelled ↦ []
  ]

  abbrev pub Names : E → Alert E → Type 0
  Names e (commit_failed es) = In e es
  Names e (publish_failed x) = x ≡ e
  Names e (publish_cancelled es) = In e es

  warn_staged-Names :
      (x : E) (es : List E) (alerts : List (Alert E))
      → In x es
      → Some (Names x) (warn_staged es alerts)
  warn_staged-Names x [] alerts h = absurd h
  warn_staged-Names x (e ∷ es) alerts h =
      Some-append_right (Names x) alerts (commit_failed (e ∷ es) ∷ []) (inl h)

module _ {D E : Type 0} where
  -- The event is on the queue, or a log record names it.
  abbrev pub IsAccounted : E → Uow D E → Type 0
  IsAccounted e u = In e u.published ⊎ Some (Names e) u.alerts

  -- One confirmed event is one more at the end of the queue.
  published-publish_staged :
      (ends : ℕ → PublishOutcome) (i : ℕ) (es : List E) (u : Uow D E)
      → u.publisher ≡ queue_publisher
      → (publish_staged ends i es u).1.published ≡ u.published ++ confirmed ends i es
  unfolding publish_staged confirmed
  published-publish_staged ends i [] u q = rw append-nil
  published-publish_staged ends i (e ∷ es) u q = ground (
    arith,
    append_assoc u.published (e ∷ []) (confirmed ends (suc i) es),
    append-nil u.published,
    published-publish_staged ends (suc i) es (record u { published = u.published ++ e ∷ [] }),
    published-publish_staged ends (suc i) es
        (record u { alerts = u.alerts ++ publish_failed e ∷ [] }),
  )

  -- Delivery only adds: what was accounted for stays so.
  publish_staged-IsAccounted :
      (x : E) (ends : ℕ → PublishOutcome) (i : ℕ) (es : List E) (u : Uow D E)
      → IsAccounted x u
      → IsAccounted x (publish_staged ends i es u).1
  unfolding publish_staged
  publish_staged-IsAccounted x ends i [] u h = h
  publish_staged-IsAccounted x ends i (e ∷ es) u h = ground (
    arith,
    In-append_left x u.published (e ∷ []),
    Some-append_left (Names x) u.alerts (publish_failed e ∷ []),
    Some-append_left (Names x) u.alerts (publish_cancelled (e ∷ es) ∷ []),
    publish_staged-IsAccounted x ends (suc i) es (record u { published = u.published ++ e ∷ [] }),
    publish_staged-IsAccounted x ends (suc i) es u,
    publish_staged-IsAccounted x ends (suc i) es
        (record u { alerts = u.alerts ++ publish_failed e ∷ [] }),
  )

  -- Each event that the loop is given is on the queue or in the log when the loop ends.
  staged-IsAccounted :
      (x : E) (ends : ℕ → PublishOutcome) (i : ℕ) (es : List E) (u : Uow D E)
      → u.publisher ≡ queue_publisher
      → In x es
      → IsAccounted x (publish_staged ends i es u).1
  unfolding publish_staged
  staged-IsAccounted x ends i [] u q h = absurd h
  staged-IsAccounted x ends i (e ∷ es) u q h = ground (
    arith,
    In-append_right x u.published (e ∷ []),
    Some-append_right (Names x) u.alerts (publish_failed e ∷ []),
    Some-append_right (Names x) u.alerts (publish_cancelled (e ∷ es) ∷ []),
    publish_staged-IsAccounted x ends (suc i) es (record u { published = u.published ++ e ∷ [] }),
    publish_staged-IsAccounted x ends (suc i) es
        (record u { alerts = u.alerts ++ publish_failed e ∷ [] }),
    staged-IsAccounted x ends (suc i) es (record u { published = u.published ++ e ∷ [] }),
    staged-IsAccounted x ends (suc i) es (record u { alerts = u.alerts ++ publish_failed e ∷ [] }),
  )

  publish_staged-stored :
      (ends : ℕ → PublishOutcome) (i : ℕ) (es : List E) (u : Uow D E)
      → let v = (publish_staged ends i es u).1 in
        (v.stored ≡ u.stored)
        × (v.committed ≡ u.committed)
        × (v.staged ≡ u.staged)
        × (v.working ≡ u.working)
  unfolding publish_staged
  publish_staged-stored ends i [] u = (refl, refl, refl, refl)
  publish_staged-stored ends i (e ∷ es) u = ground (
    arith,
    publish_staged-stored ends (suc i) es (record u { published = u.published ++ e ∷ [] }),
    publish_staged-stored ends (suc i) es u,
    publish_staged-stored ends (suc i) es (record u { alerts = u.alerts ++ publish_failed e ∷ [] }),
  )

  published-null :
      (ends : ℕ → PublishOutcome) (i : ℕ) (es : List E) (u : Uow D E)
      → u.publisher ≡ null_publisher
      → (publish_staged ends i es u).1.published ≡ u.published
  unfolding publish_staged
  published-null ends i [] u q = refl
  published-null ends i (e ∷ es) u q = ground (arith, published-null ends (suc i) es u q)

  -- Nothing reaches the queue unless the database acknowledged the commit, in which case the
  -- committed database is the transaction's.
  pub publish_only_committed :
      (env : Env) (u : Uow D E)
      → (commit env u).1.published ≢ u.published
      → (env.commit_ends ≡ acked)
        × ((commit env u).1.stored ≡ u.working)
        × ((commit env u).1.committed ≡ true)
  unfolding commit
  publish_only_committed env u h = ground (
    arith,
    publish_staged-stored env.publish_ends 0 u.staged
        (record u { stored = u.working; committed = true; staged = [] }),
  )

  -- After an acknowledged commit over the queue publisher the queue holds, after what it held, the
  -- staged events whose publish was confirmed before any cancellation, in the order of staging; the
  -- database is the transaction's and nothing is staged any more.
  pub commit_delivers :
      (env : Env) (u : Uow D E)
      → env.commit_ends ≡ acked
      → u.publisher ≡ queue_publisher
      → let v = (commit env u).1 in
        (v.published ≡ u.published ++ confirmed env.publish_ends 0 u.staged)
        × (v.stored ≡ u.working)
        × (v.staged ≡ [])
  unfolding commit
  commit_delivers env u a q = ground (
    arith,
    published-publish_staged env.publish_ends 0 u.staged
        (record u { stored = u.working; committed = true; staged = [] }),
    publish_staged-stored env.publish_ends 0 u.staged
        (record u { stored = u.working; committed = true; staged = [] }),
  )

  -- Over the queue publisher, and unless the commit itself is cut short by a cancellation, each staged
  -- event is on the queue or named in a log record when commit ends, however the database and the
  -- publishes end.
  pub commit_loses_nothing :
      (env : Env) (u : Uow D E) (x : E)
      → u.publisher ≡ queue_publisher
      → env.commit_ends ≢ cut_before
      → env.commit_ends ≢ cut_after
      → In x u.staged
      → IsAccounted x (commit env u).1
  unfolding commit
  commit_loses_nothing env u x q nb na h = ground (
    arith,
    staged-IsAccounted x env.publish_ends 0 u.staged
        (record u { stored = u.working; committed = true; staged = [] }),
    warn_staged-Names x u.staged u.alerts,
  )

  -- The consumer graph never republishes: with the null publisher no commit reaches the queue.
  commit-null_publisher :
      (env : Env) (u : Uow D E)
      → u.publisher ≡ null_publisher
      → (commit env u).1.published ≡ u.published
  unfolding commit
  commit-null_publisher env u q = ground (
    arith,
    published-null env.publish_ends 0 u.staged
        (record u { stored = u.working; committed = true; staged = [] }),
  )

  -- Leaving the block uncommitted rolls back: the committed database and the queue are as they
  -- were, the transaction's writes are gone, and instances that were read stay usable exactly when
  -- the block raised nothing.
  exit-rollback :
      (clean : Bool) (u : Uow D E)
      → u.committed ≡ false
      → u.attached ≡ true
      → u.expired ≡ false
      → let v = exit clean u in
        (v.stored ≡ u.stored)
        × (v.working ≡ u.stored)
        × (v.published ≡ u.published)
        × (v.expired ≡ not clean)
        × (v.closed ≡ true)
  unfolding exit
  exit-rollback clean u c a x = ground arith
