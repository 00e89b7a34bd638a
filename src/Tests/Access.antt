-- ===== src/Tests/Access.antt =====
-- A request with a correlation id of its own, to an application that answers 404 and raises.
use rabbit_speed_test.Base.{
  ◌≡◌, refl, true, false, Option, none, some, [], ◌∷◌, map, Text, codes, All, ◌==◌, list_eq, nat_eq,
  list_beq_iff, if◌then◌else◌, arith,
}
use rabbit_speed_test.Modules.Events.{is_empty}
use rabbit_speed_test.Routes.Correlation.{
  Headers, response_start, other, Scope, App, correlation_header, handle_request,
  set_correlation_id, Carries, outline, handle_request-Carries,
}

abbrev Plain : Type 0
Plain = Text → Option Text

get-put :
    (name value : Text) (h : Plain) → (if name == name then some value else h name) ≡ some value
get-put name value h = ground (arith, list_beq_iff name name)

abbrev plain_headers : Headers Plain
plain_headers = record {
  get = λ name h. h name;
  put = λ name value h. λ k. if name == k then some value else h k;
  get-put = get-put;
}

abbrev not_found : App Plain
not_found cid = (response_start 404 (λ k. none) ∷ other (codes "detail") ∷ [], false)

abbrev traced : Scope Plain
traced = record {
  is_http = true;
  method = codes "GET";
  path = codes "/users/1";
  headers = λ k. if k == correlation_header then some (codes "trace") else none;
}

handle_request-Carries_example :
    All
      (Carries plain_headers (codes "trace"))
      (handle_request plain_headers (codes "new") (codes "-") not_found traced).messages
    × (map
          (outline plain_headers)
          (handle_request plain_headers (codes "new") (codes "-") not_found traced).messages
        ≡ (some 404, []) ∷ (none, codes "detail") ∷ [])
    × ((handle_request plain_headers (codes "new") (codes "-") not_found traced).lines
        ≡ record { method = codes "GET"; path = codes "/users/1"; status = 404 } ∷ [])
    × ((handle_request plain_headers (codes "new") (codes "-") not_found traced).returns ≡ false)
    × ((own : Text)
        → traced.headers correlation_header ≡ some own
        → is_empty own ≡ false
        → codes "trace" ≡ own)
unfolding set_correlation_id
handle_request-Carries_example =
    handle_request-Carries plain_headers (codes "new") (codes "-") not_found traced refl
