-- ===== src/Modules/State.antt =====
-- The state of one entity: an ORM row (VersionedModule) and a *Data model (StateData) of
-- shared_data_service/app/modules/shared/spec.py have the same shape, an id, a version and the
-- values of named fields (getattr; None is `none`). The server's timestamps are left out.
use rabbit_speed_test.Base.{
  ℕ, ◌≡◌, refl, Option, none, some, Text, arith, ltb, nat_eq, if◌then◌else◌,
}

pub record State (V : Type 0) : Type 0 where
  pub id : ℕ
  pub version : ℕ
  pub values : Text → Option V

module _ {V : Type 0} where
  -- The version guard: the stored state stays unless the announced one is newer.
  abbrev pub newest : Option (State V) → State V → State V
  newest none d = d
  newest (some s) d = if ltb s.version d.version then d else s

  abbrev pub merge : Option (State V) → Option (State V) → Option (State V)
  merge o none = o
  merge o (some d) = some (newest o d)

  abbrev pub version_of : Option (State V) → ℕ
  version_of none = 0
  version_of (some s) = s.version

  pub merge_assoc : (a b c : Option (State V)) → merge (merge a b) c ≡ merge a (merge b c)
  merge_assoc a b none = refl
  merge_assoc a none (some d) = refl
  merge_assoc none (some s) (some d) = refl
  merge_assoc (some r) (some s) (some d) = ground arith
