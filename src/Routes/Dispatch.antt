-- ===== src/Routes/Dispatch.antt =====
-- Which route of the API takes a request.
use rabbit_speed_test.Base.{
  ◌≡◌, ◌↔◌, refl, sym, ap, ◌∙◌, not, ◌||◌, all_of, beq_refl, inl, inr, Bool, true, false, ◌&&◌,
  Option, none, some, List, [], ◌∷◌, Text, codes, ◌==◌, nat_eq, list_eq, list_beq_iff, In, arith,
  Bool-cases, if◌then◌else◌,
}
use rabbit_speed_test.Modules.Fields.{Pydantic}
use rabbit_speed_test.Modules.Catalog.{all_specs, spec_of}
use rabbit_speed_test.Routes.Scoping.{all_of-In}
use rabbit_speed_test.Routes.Table.{
  Segment, word, parameter, Route, Fits, Matcher, dispatch, app_routes, health_routes, mount_all,
  register, register_scoped, mount,
}

-- Fits, as a test.
abbrev pub fitting : List Segment → List Text → Bool
fitting [] [] = true
fitting (word a ∷ path) (b ∷ asked) = (a == b) && fitting path asked
fitting (parameter n ∷ path) ([] ∷ asked) = false
fitting (parameter n ∷ path) ((c ∷ b) ∷ asked) = fitting path asked
fitting _ _ = false

pub fitting_iff :
    (path : List Segment) (asked : List Text) → (fitting path asked ≡ true) ↔ Fits path asked
fitting_iff [] [] = ground arith
fitting_iff [] (b ∷ asked) = ground arith
fitting_iff (word a ∷ path) [] = ground arith
fitting_iff (parameter n ∷ path) [] = ground arith
fitting_iff (word a ∷ path) (b ∷ asked) = ground (arith, fitting_iff path asked, list_beq_iff a b)
fitting_iff (parameter n ∷ path) ([] ∷ asked) = ground arith
fitting_iff (parameter n ∷ path) ((c ∷ b) ∷ asked) = ground (arith, fitting_iff path asked)

matches-fitting :
    (m : Matcher) (path : List Segment) (asked : List Text)
    → m.matches path asked ≡ fitting path asked
matches-fitting m path asked = ground (arith, m.matches_iff path asked, fitting_iff path asked)

-- A request for this path whose parameters are all UUIDs.
unfoldable pub accepts : (Text → Bool) → List Segment → List Text → Bool
accepts is_uuid [] [] = true
accepts is_uuid (word a ∷ path) (b ∷ asked) = (a == b) && accepts is_uuid path asked
accepts is_uuid (parameter n ∷ path) (b ∷ asked) = is_uuid b && accepts is_uuid path asked
accepts is_uuid _ _ = false

-- The search by fitting.
search_route : List Route → Text → List Text → Option Route
search_route [] method asked = none
search_route (r ∷ routes) method asked =
    if (r.method == method) && fitting r.path asked
    then some r
    else search_route routes method asked

dispatch-search_route :
    (m : Matcher) (routes : List Route) (method : Text) (asked : List Text)
    → dispatch m routes method asked ≡ search_route routes method asked
unfolding dispatch search_route
dispatch-search_route m [] method asked = refl
dispatch-search_route m (r ∷ routes) method asked =
    rw (matches-fitting m r.path asked) (rw (dispatch-search_route m routes method asked) refl)

-- A request of UUIDs for the first path does not fit the second: a word differs, the second wants a
-- word that is no UUID, or the lengths differ.
abbrev apart : List Segment → List Segment → Bool
apart (word a ∷ path) (word b ∷ other) = not (a == b) || apart path other
apart (parameter n ∷ path) (word b ∷ other) = (b == codes "user") || apart path other
apart (_ ∷ path) (parameter n ∷ other) = apart path other
apart [] [] = false
apart _ _ = true

-- Each route is apart from those before it.
abbrev clear : List Route → Bool
clear [] = true
clear (r ∷ routes) =
    all_of (λ later. not (r.method == later.method) || apart later.path r.path) routes
    && clear routes

module _ (is_uuid : Text → Bool) (not_empty : is_uuid [] ≡ false)
    (not_user : is_uuid (codes "user") ≡ false) where
  accepts-fitting :
      (path : List Segment) (asked : List Text)
      → accepts is_uuid path asked ≡ true
      → fitting path asked ≡ true
  unfolding accepts
  accepts-fitting [] [] h = refl
  accepts-fitting [] (b ∷ asked) h = absurd (ground arith)
  accepts-fitting (word a ∷ path) [] h = absurd (ground arith)
  accepts-fitting (parameter n ∷ path) [] h = absurd (ground arith)
  accepts-fitting (word a ∷ path) (b ∷ asked) h = ground (arith, accepts-fitting path asked)
  accepts-fitting (parameter n ∷ path) ([] ∷ asked) h = absurd (ground arith)
  accepts-fitting (parameter n ∷ path) ((c ∷ b) ∷ asked) h =
      ground (arith, accepts-fitting path asked)

  -- What is no UUID differs from what is one.
  differs : (b asked : Text) → b ≡ codes "user" → is_uuid asked ≡ true → (b == asked) ≡ false
  differs b asked e h = elim (Bool-cases (b == asked)) [
    | inl same ↦
        absurd (ground (arith, sym (ap is_uuid (sym e ∙ (list_beq_iff b asked).0 same)) ∙ not_user))
    | inr other ↦ other
  ]

  apart-fitting :
      (path other : List Segment) (asked : List Text)
      → apart path other ≡ true
      → accepts is_uuid path asked ≡ true
      → fitting other asked ≡ false
  unfolding accepts
  apart-fitting [] [] asked h k = absurd (ground arith)
  apart-fitting [] (word b ∷ other) [] h k = refl
  apart-fitting [] (parameter n ∷ other) [] h k = refl
  apart-fitting [] (s ∷ other) (b ∷ asked) h k = absurd (ground arith)
  apart-fitting (word a ∷ path) other [] h k = absurd (ground arith)
  apart-fitting (parameter n ∷ path) other [] h k = absurd (ground arith)
  apart-fitting (s ∷ path) [] (b ∷ asked) h k = refl
  apart-fitting (word a ∷ path) (word b ∷ other) (c ∷ asked) h k =
      ground (
        arith,
        apart-fitting path other asked,
        list_beq_iff a c,
        list_beq_iff b c,
        list_beq_iff a b,
      )
  apart-fitting (parameter n ∷ path) (word b ∷ other) (c ∷ asked) h k =
      ground (arith, apart-fitting path other asked, differs b c, list_beq_iff b (codes "user"))
  apart-fitting (word a ∷ path) (parameter n ∷ other) ([] ∷ asked) h k = refl
  apart-fitting (parameter m ∷ path) (parameter n ∷ other) ([] ∷ asked) h k = refl
  apart-fitting (word a ∷ path) (parameter n ∷ other) ((c ∷ b) ∷ asked) h k =
      apart-fitting path other asked h (ground arith)
  apart-fitting (parameter m ∷ path) (parameter n ∷ other) ((c ∷ b) ∷ asked) h k =
      apart-fitting path other asked h (ground arith)

  clear-search_route :
      (routes : List Route) (r : Route) (asked : List Text)
      → clear routes ≡ true
      → In r routes
      → accepts is_uuid r.path asked ≡ true
      → search_route routes r.method asked ≡ some r
  unfolding search_route
  clear-search_route [] r asked h k a = absurd k
  clear-search_route (e ∷ routes) r asked h (inl same) a =
      rw same (rw (beq_refl r.method) (rw (accepts-fitting r.path asked a) refl))
  clear-search_route (e ∷ routes) r asked h (inr k) a =
      let off =
        all_of-In (λ later. not (e.method == later.method) || apart later.path e.path) r routes
          (ground arith) k in
      let rest = clear-search_route routes r asked (ground arith) k a in
      ground (arith, rest, apart-fitting r.path e.path asked)

app_routes-clear : (p : Pydantic) → clear (app_routes p) ≡ true
unfolding app_routes health_routes mount_all all_specs spec_of register register_scoped mount
app_routes-clear p = refl

-- A request of a route of the API, with the route's method, its words, and a UUID for each
-- parameter, is answered by that route and no other, if "user" and the empty text are no UUIDs.
pub dispatch-accepts :
    (p : Pydantic) (m : Matcher) (is_uuid : Text → Bool) (r : Route) (asked : List Text)
    → is_uuid [] ≡ false
    → is_uuid (codes "user") ≡ false
    → In r (app_routes p)
    → accepts is_uuid r.path asked ≡ true
    → dispatch m (app_routes p) r.method asked ≡ some r
unfolding app_routes
dispatch-accepts p m is_uuid r asked not_empty not_user k a =
    dispatch-search_route m (app_routes p) r.method asked
    ∙ clear-search_route is_uuid not_empty not_user (app_routes p) r asked (app_routes-clear p) k a
