-- ===== src/Outcome.antt =====
-- How a Python call ends, and calls that change a state: shared_data_service/app/modules/shared/errors.py
-- and the exceptions of the database layer.
use rabbit_speed_test.Base.{Bool, true, false}

-- The exceptions that the service distinguishes, without their messages.
pub data Error : Type 0 where
  -- NotFoundError, ConflictError, InvalidInputError, InvalidQueryError
  not_found conflict invalid_input invalid_query : Error
  -- a subclass of DomainError that the API has no status for
  other_domain : Error
  -- pydantic's ValidationError, and any exception of the database or the bus
  validation database : Error
  -- ValueError of a declaration that is wrong
  invalid_spec : Error

-- `unwound` is a BaseException that is no Exception, such as a cancellation.
pub data Outcome {ℓ} (A : Type ℓ) : Type ℓ where
  ok : A → Outcome A
  err : Error → Outcome A
  unwound : Outcome A

-- What was written before a raise stays written, so the state comes back with every outcome.
abbrev pub Call {ℓ} : Type ℓ → Type ℓ → Type ℓ
Call S A = S → Outcome A × S

module _ {ℓ} {S A : Type ℓ} where
  abbrev pub pure : A → Call S A
  pure a s = (ok a, s)

  abbrev pub raise : Error → Call S A
  raise e s = (err e, s)

  abbrev pub gets : (S → A) → Call S A
  gets f s = (ok (f s), s)

  abbrev pub lift : Outcome A → Call S A
  lift r s = (r, s)

module _ {ℓ} {S A B : Type ℓ} where
  abbrev pub continue : Outcome A → (A → Call S B) → S → Outcome B × S
  continue (ok a) f s = f a s
  continue (err e) f s = (err e, s)
  continue unwound f s = (unwound, s)

  infixl 10 ◌>>=◌ ◌>>◌
  abbrev pub ◌>>=◌ : Call S A → (A → Call S B) → Call S B
  ◌>>=◌ m f s = let (r, s') = m s in continue r f s'

  abbrev pub ◌>>◌ : Call S A → Call S B → Call S B
  m >> n = m >>= λ _. n

abbrev pub is_ok {ℓ} : {A : Type ℓ} → Outcome A → Bool
is_ok (ok a) = true
is_ok _ = false

abbrev pub and_then {ℓ} : {A B : Type ℓ} → Outcome A → (A → Outcome B) → Outcome B
and_then (ok a) f = f a
and_then (err x) f = err x
and_then unwound f = unwound
