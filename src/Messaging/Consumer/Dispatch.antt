-- ===== src/Messaging/Consumer/Dispatch.antt =====
-- When a message is acked (the dispatch returns) and when it goes back (it raises).
use rabbit_speed_test.Base.{
  ℕ, ◌≡◌, ◌↔◌, refl, ◌⊎◌, inl, inr, true, Option, none, some, List, [], ◌∷◌, Text, arith,
  list_beq_iff, codes, take, nat_eq, list_eq,
}
use rabbit_speed_test.Messaging.Registry.{Registry, get}
use rabbit_speed_test.Messaging.Consumer.{
  Raised, validation_error, data_error, dbapi_error, domain_error, batcher_closed, other_exception,
  base_exception, done, raises, Envelope, permanent_cause, classify, correlation_of, Handler,
  call_handler, handle,
}

-- The first SQLSTATE along the causes.
pub data FirstCode : List (Option Text) → Text → Type 0 where
  found :
      (c : ℕ) (code : Text) (causes : List (Option Text))
      → FirstCode (some (c ∷ code) ∷ causes) (c ∷ code)
  no_code :
      {causes : List (Option Text)} {code : Text}
      → FirstCode causes code
      → FirstCode (none ∷ causes) code
  empty_code :
      {causes : List (Option Text)} {code : Text}
      → FirstCode causes code
      → FirstCode (some [] ∷ causes) code

-- The exceptions for which the dispatch returns: the payload is invalid, or the database reports class
-- 22.
abbrev IsPermanent : Raised → Type 0
IsPermanent validation_error = Unit
IsPermanent data_error = Unit
IsPermanent (dbapi_error causes) =
    (code : Text) × FirstCode causes code × (take 2 code ≡ codes "22")
IsPermanent _ = ⊥

permanent-FirstCode :
    (causes : List (Option Text))
    → permanent_cause causes ≡ true
    → (code : Text) × FirstCode causes code × (take 2 code ≡ codes "22")
unfolding permanent_cause
permanent-FirstCode [] h = absurd (ground arith)
permanent-FirstCode (none ∷ causes) h =
    let (code, first, class) = permanent-FirstCode causes h in (code, no_code first, class)
permanent-FirstCode (some [] ∷ causes) h =
    let (code, first, class) = permanent-FirstCode causes h in (code, empty_code first, class)
permanent-FirstCode (some (c ∷ code) ∷ causes) h =
    (c ∷ code, found c code causes, (list_beq_iff (take 2 (c ∷ code)) (codes "22")).0 h)

FirstCode-permanent :
    {causes : List (Option Text)} {code : Text}
    → FirstCode causes code
    → take 2 code ≡ codes "22"
    → permanent_cause causes ≡ true
unfolding permanent_cause
FirstCode-permanent (found c code causes) h = (list_beq_iff (take 2 (c ∷ code)) (codes "22")).1 h
FirstCode-permanent (no_code f) h = FirstCode-permanent f h
FirstCode-permanent (empty_code f) h = FirstCode-permanent f h

-- The dispatch swallows an exception of a handler exactly if it is one of these; any other is raised
-- again as it is.
classify-IsPermanent :
    (x : Raised)
    → ((classify (raises x) ≡ done) ↔ IsPermanent x)
      × ((classify (raises x) ≡ done) ⊎ (classify (raises x) ≡ raises x))
unfolding classify
classify-IsPermanent validation_error = ground arith
classify-IsPermanent data_error = ground arith
classify-IsPermanent (dbapi_error causes) = (
  (
    λ h. permanent-FirstCode causes (ground arith),
    λ (code, first, class). rw (FirstCode-permanent first class) refl,
  ),
  ground arith,
)
classify-IsPermanent (domain_error e) = ground arith
classify-IsPermanent batcher_closed = ground arith
classify-IsPermanent other_exception = ground arith
classify-IsPermanent base_exception = ground arith

classify-transient : (x : Raised) → ¬ IsPermanent x → classify (raises x) ≡ raises x
classify-transient x not_permanent = elim ((classify-IsPermanent x).1) [
  | inl h ↦ absurd (not_permanent ((classify-IsPermanent x).0.0 h))
  | inr h ↦ h
]

module _ {B S M : Type 0} where
  -- When the handler of a message raises what is not permanent, the dispatch raises the same
  -- exception, with the state that the handler left.
  handle-transient :
      (parse : M → Option (Envelope B)) (note : Text → S → S) (r : Registry (Handler B S)) (m : M)
      (s : S) (v : Envelope B) (h : Handler B S) (x : Raised)
      → parse m ≡ some v
      → get r v.event_type ≡ some h
      → (h v (note (correlation_of v) s)).0 ≡ raises x
      → ¬ IsPermanent x
      → handle parse note r m s ≡ (raises x, (h v (note (correlation_of v) s)).1)
  unfolding handle call_handler
  handle-transient parse note r m s v h x p g e not_permanent =
      rw (handle, p) (rw (call_handler, g) (rw e (rw (classify-transient x not_permanent) refl)))

  -- The dispatch returns for what can not get better: a body that is no CloudEvent, a type that
  -- nobody handles, and a handler that raises a permanent exception.
  handle-permanent :
      (parse : M → Option (Envelope B)) (note : Text → S → S) (r : Registry (Handler B S)) (m : M)
      (s : S)
      → (parse m ≡ none)
        ⊎ ((v : Envelope B) × (parse m ≡ some v)
            × ((get r v.event_type ≡ none)
                ⊎ ((h : Handler B S) × (x : Raised) × (get r v.event_type ≡ some h)
                    × ((h v (note (correlation_of v) s)).0 ≡ raises x)
                    × IsPermanent x)))
      → (handle parse note r m s).0 ≡ done
  unfolding handle call_handler
  handle-permanent parse note r m s (inl p) = rw (handle, p) refl
  handle-permanent parse note r m s (inr (v, p, inl g)) = rw (handle, p) (rw (call_handler, g) refl)
  handle-permanent parse note r m s (inr (v, p, inr (h, x, g, e, permanent))) =
      rw (handle, p) (rw (call_handler, g) (rw e ((classify-IsPermanent x).0.1 permanent)))
