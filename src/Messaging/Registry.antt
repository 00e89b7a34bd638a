-- ===== src/Messaging/Registry.antt =====
-- EventHandlerRegistry of shared_data_service/app/messaging/registry.py, and its filling by
-- register_module_event_handlers of shared_data_service/app/modules/shared/events.py.
pub mod Laws
use rabbit_speed_test.Base.{
  Bool, true, false, Option, none, some, List, [], ◌∷◌, Text, ◌==◌, nat_eq, list_eq, if◌then◌else◌,
}
use rabbit_speed_test.Outcome.{Outcome, ok, err, invalid_spec, and_then}
use rabbit_speed_test.Modules.Spec.{ModuleSpec, created_event_type, updated_event_type}

-- `H` are the handlers.
abbrev pub Registry : Type 0 → Type 0
Registry H = List (Text × H)

module _ {H : Type 0} where
  -- get
  unfoldable pub get : Registry H → Text → Option H
  get [] t = none
  get ((u, h) ∷ r) t = if u == t then some h else get r t

  abbrev pub is_taken : Option H → Bool
  is_taken none = false
  is_taken (some h) = true

  -- register: a type that is taken raises ValueError
  unfoldable pub register : Text → H → Registry H → Outcome (Registry H)
  unfolding get
  register t h r = if is_taken (get r t) then err invalid_spec else ok ((t, h) ∷ r)

  -- register_module_event_handlers, for one module and the handler that submits to its batcher
  unfoldable pub register_module :
      {V : Type 0} → ModuleSpec V → H → Registry H → Outcome (Registry H)
  unfolding register created_event_type updated_event_type
  register_module spec h r =
      and_then (register (created_event_type spec) h r)
        (λ r'. register (updated_event_type spec) h r')

  -- The loop of the container over its modules.
  unfoldable pub register_all :
      {V : Type 0} → List (ModuleSpec V × H) → Registry H → Outcome (Registry H)
  unfolding register_module
  register_all [] r = ok r
  register_all ((spec, h) ∷ rest) r =
      and_then (register_module spec h r) (λ r'. register_all rest r')
