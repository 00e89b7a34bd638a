-- ===== src/Messaging/Registry/Laws.antt =====
-- Modules with different names never claim the same event type.
use rabbit_speed_test.Base.{
  ℕ, ◌≡◌, ◌≢◌, refl, ap, sym, ◌∙◌, none, some, List, [], ◌∷◌, ◌++◌, Text, codes, nat_eq, list_eq,
  list_beq_iff, arith,
}
use mathlib.Core.List.{reverse, reverse-append, append_cancel_right}
use rabbit_speed_test.Outcome.{ok}
use rabbit_speed_test.Modules.Spec.{ModuleSpec, created_event_type, updated_event_type}
use rabbit_speed_test.Messaging.Registry.{Registry, get, register_module, register_all}

-- The letter by which the two suffixes differ, from the end.
abbrev fifth : Text → ℕ
fifth (a ∷ b ∷ c ∷ d ∷ e ∷ t) = e
fifth _ = 0

module _ {V : Type 0} where
  created_ne_updated : (a b : ModuleSpec V) → created_event_type a ≢ updated_event_type b
  unfolding created_event_type updated_event_type
  created_ne_updated a b e =
      let ends : reverse (codes ".created") ++ reverse a.name
          ≡ reverse (codes ".updated") ++ reverse b.name =
        sym (reverse-append a.name (codes ".created"))
        ∙ ap reverse e
        ∙ reverse-append b.name (codes ".updated") in
      absurd (omega (arith, ap fifth ends))

  created-injective :
      (a b : ModuleSpec V) → created_event_type a ≡ created_event_type b → a.name ≡ b.name
  unfolding created_event_type
  created-injective a b e = append_cancel_right a.name b.name (codes ".created") e

  updated-injective :
      (a b : ModuleSpec V) → updated_event_type a ≡ updated_event_type b → a.name ≡ b.name
  unfolding updated_event_type
  updated-injective a b e = append_cancel_right a.name b.name (codes ".updated") e

module _ {V H : Type 0} where
  -- The name of no module of the list.
  abbrev pub IsNew : Text → List (ModuleSpec V × H) → Type 0
  IsNew name [] = Unit
  IsNew name ((spec, h) ∷ rest) = (name ≢ spec.name) × IsNew name rest

  abbrev pub IsDistinct : List (ModuleSpec V × H) → Type 0
  IsDistinct [] = Unit
  IsDistinct ((spec, h) ∷ rest) = IsNew spec.name rest × IsDistinct rest

  -- Neither event type of the modules is taken.
  abbrev IsFree : Registry H → List (ModuleSpec V × H) → Type 0
  IsFree r [] = Unit
  IsFree r ((spec, h) ∷ rest) =
      (get r (created_event_type spec) ≡ none)
      × (get r (updated_event_type spec) ≡ none)
      × IsFree r rest

  abbrev claimed : ModuleSpec V → H → Registry H → Registry H
  claimed spec h r = (updated_event_type spec, h) ∷ (created_event_type spec, h) ∷ r

  register_module-claimed :
      (spec : ModuleSpec V) (h : H) (r : Registry H)
      → get r (created_event_type spec) ≡ none
      → get r (updated_event_type spec) ≡ none
      → register_module spec h r ≡ ok (claimed spec h r)
  unfolding register_module
  register_module-claimed spec h r c u = ground (
    arith,
    list_beq_iff (created_event_type spec) (updated_event_type spec),
    created_ne_updated spec spec,
  )

  claimed-IsFree :
      (spec : ModuleSpec V) (h : H) (r : Registry H) (rest : List (ModuleSpec V × H))
      → IsNew spec.name rest
      → IsFree r rest
      → IsFree (claimed spec h r) rest
  unfolding get
  claimed-IsFree spec h r [] n f = tt
  claimed-IsFree spec h r ((m, g) ∷ rest) n f = ground (
    arith,
    list_beq_iff (created_event_type spec) (created_event_type m),
    list_beq_iff (updated_event_type spec) (updated_event_type m),
    list_beq_iff (updated_event_type spec) (created_event_type m),
    list_beq_iff (created_event_type spec) (updated_event_type m),
    created_ne_updated spec m,
    created_ne_updated m spec,
    created-injective spec m,
    updated-injective spec m,
    claimed-IsFree spec h r rest n.1 f.2,
  )

  claimed-created :
      (spec : ModuleSpec V) (h : H) (r : Registry H)
      → get (claimed spec h r) (created_event_type spec) ≡ some h
  unfolding get
  claimed-created spec h r = ground (
    arith,
    list_beq_iff (created_event_type spec) (created_event_type spec),
    list_beq_iff (updated_event_type spec) (created_event_type spec),
  )

  claimed-updated :
      (spec : ModuleSpec V) (h : H) (r : Registry H)
      → get (claimed spec h r) (updated_event_type spec) ≡ some h
  unfolding get
  claimed-updated spec h r =
      ground (arith, list_beq_iff (updated_event_type spec) (updated_event_type spec))

  claimed-kept :
      (spec : ModuleSpec V) (h : H) (r : Registry H)
      → get r (created_event_type spec) ≡ none
      → get r (updated_event_type spec) ≡ none
      → (t : Text) {g : H} → get r t ≡ some g
      → get (claimed spec h r) t ≡ some g
  unfolding get
  claimed-kept spec h r c u t {g} e =
      ground
        (arith, list_beq_iff (updated_event_type spec) t, list_beq_iff (created_event_type spec) t)

  -- Both event types of every module lead to its handler.
  abbrev pub Serves : Registry H → List (ModuleSpec V × H) → Type 0
  Serves r [] = Unit
  Serves r ((spec, h) ∷ rest) =
      (get r (created_event_type spec) ≡ some h)
      × (get r (updated_event_type spec) ≡ some h)
      × Serves r rest

  -- What is registered stays.
  register_all-keeps :
      (ms : List (ModuleSpec V × H)) (r : Registry H)
      → IsDistinct ms
      → IsFree r ms
      → (r' : Registry H) × (register_all ms r ≡ ok r')
        × Serves r' ms
        × ((t : Text) (h : H) → get r t ≡ some h → get r' t ≡ some h)
  unfolding register_all
  register_all-keeps [] r d f = (r, refl, tt, λ t h e. e)
  register_all-keeps ((spec, h) ∷ ms) r d f =
      let (r', done, served, kept) =
        register_all-keeps ms (claimed spec h r) d.1 (claimed-IsFree spec h r ms d.0 f.2) in
      (
        r',
        rw (register_module-claimed spec h r f.0 f.1) done,
        (
          kept (created_event_type spec) h (claimed-created spec h r),
          kept (updated_event_type spec) h (claimed-updated spec h r),
          served,
        ),
        λ t g e. kept t g (claimed-kept spec h r f.0 f.1 t e),
      )

  IsFree-at_first : (ms : List (ModuleSpec V × H)) → IsFree [] ms
  unfolding get
  IsFree-at_first [] = tt
  IsFree-at_first ((spec, h) ∷ ms) = (refl, refl, IsFree-at_first ms)

  -- Filling an empty registry from modules whose names differ raises nothing, and afterwards the
  -- created and the updated event type of each module have that module's handler.
  register_all-Serves :
      (ms : List (ModuleSpec V × H))
      → IsDistinct ms
      → (r : Registry H) × (register_all ms [] ≡ ok r) × Serves r ms
  register_all-Serves ms d =
      let (r, done, served, kept) = register_all-keeps ms [] d (IsFree-at_first ms) in
      (r, done, served)
