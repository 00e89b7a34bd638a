-- ===== src/Routes/Correlation.antt =====
-- The correlation id of a request: CorrelationIdMiddleware of shared_data_service/app/api/middleware.py
-- and set_correlation_id of shared_data_service/app/logging/correlation.py. The headers are starlette's,
-- and the application inside is a function of the correlation id that it finds.
use rabbit_speed_test.Base.{
  ℕ, zero, ◌≡◌, refl, sym, ap, ◌∙◌, Bool, true, false, Option, none, some, List, [], ◌∷◌, ◌++◌, map,
  Text, codes, All, append_assoc, append_nil, if◌then◌else◌,
}
use mathlib.Core.Path.{subst}
use rabbit_speed_test.Modules.Events.{is_empty}

-- starlette's Headers and MutableHeaders.
pub record Headers (H : Type 0) : Type 0 where
  pub get : Text → H → Option Text
  pub put : Text → Text → H → H
  pub get-put : (name value : Text) (h : H) → get name (put name value h) ≡ some value

-- What the application sends; `other` is every message that does not start the response.
pub data Message (H : Type 0) : Type 0 where
  response_start : ℕ → H → Message H
  other : Text → Message H

pub record Scope (H : Type 0) : Type 0 where
  pub is_http : Bool
  pub method : Text
  pub path : Text
  pub headers : H

-- The access line, less its duration.
pub record Access : Type 0 where
  pub method : Text
  pub path : Text
  pub status : ℕ

-- What reaches the server, whether the call returns, and the lines that are logged.
pub record Answer (H : Type 0) : Type 0 where
  pub messages : List (Message H)
  pub returns : Bool
  pub lines : List Access

-- The messages of the application, and whether it returns.
abbrev pub App : Type 0 → Type 0
App H = Text → List (Message H) × Bool

abbrev pub correlation_header : Text
correlation_header = codes "X-Correlation-ID"

-- `fresh` is what uuid4 gives.
unfoldable pub set_correlation_id : Text → Option Text → Text
set_correlation_id fresh none = fresh
set_correlation_id fresh (some value) = if is_empty value then fresh else value

module _ {H : Type 0} (hs : Headers H) where
  -- send_with_header over the status_code and the messages so far.
  unfoldable pub send_with_header : Text → Message H → ℕ × List (Message H) → ℕ × List (Message H)
  send_with_header cid (response_start status h) (status_code, sent) =
      (status, sent ++ response_start status (hs.put correlation_header cid h) ∷ [])
  send_with_header cid (other m) (status_code, sent) = (status_code, sent ++ other m ∷ [])

  unfoldable pub send_all : Text → List (Message H) → ℕ × List (Message H) → ℕ × List (Message H)
  unfolding send_with_header
  send_all cid [] s = s
  send_all cid (m ∷ messages) s = send_all cid messages (send_with_header cid m s)

  -- The call of the middleware, where `current` is the correlation id of the surrounding context.
  unfoldable pub handle_request : Text → Text → App H → Scope H → Answer H
  unfolding set_correlation_id send_all
  handle_request fresh current app scope =
      let cid = set_correlation_id fresh (hs.get correlation_header scope.headers) in
      let (inner, returns) = app cid in
      let (status_code, sent) = send_all cid inner (zero, []) in
      if scope.is_http
      then record {
        messages = sent;
        returns = returns;
        lines = record { method = scope.method; path = scope.path; status = status_code } ∷ [];
      }
      else record { messages = (app current).0; returns = (app current).1; lines = [] }

  -- A message that starts a response has the correlation id in its headers.
  abbrev pub Carries : Text → Message H → Type 0
  Carries cid (response_start status h) = hs.get correlation_header h ≡ some cid
  Carries cid (other m) = true ≡ true

  -- A message without its headers.
  abbrev pub outline : Message H → Option ℕ × Text
  outline (response_start status h) = (some status, [])
  outline (other m) = (none, m)

  -- The status of the last response that is started.
  abbrev pub last_status : ℕ → List (Message H) → ℕ
  last_status status [] = status
  last_status status (response_start s h ∷ messages) = last_status s messages
  last_status status (other m ∷ messages) = last_status status messages

  -- What send_all appends.
  abbrev pub marked : Text → Message H → Message H
  marked cid (response_start status h) = response_start status (hs.put correlation_header cid h)
  marked cid (other m) = other m

  send_all-marked :
      (cid : Text) (messages : List (Message H)) (status : ℕ) (sent : List (Message H))
      → send_all cid messages (status, sent)
        ≡ (last_status status messages, sent ++ map (marked cid) messages)
  unfolding send_all send_with_header
  send_all-marked cid [] status sent = ap (λ l. (status, l)) (sym (append_nil sent))
  send_all-marked cid (response_start s h ∷ messages) status sent =
      send_all-marked cid messages s
        (sent ++ response_start s (hs.put correlation_header cid h) ∷ [])
      ∙ ap (λ l. (last_status s messages, l))
          (append_assoc sent (response_start s (hs.put correlation_header cid h) ∷ [])
            (map (marked cid) messages))
  send_all-marked cid (other m ∷ messages) status sent =
      send_all-marked cid messages status (sent ++ other m ∷ [])
      ∙ ap (λ l. (last_status status messages, l))
          (append_assoc sent (other m ∷ []) (map (marked cid) messages))

  marked-Carries :
      (cid : Text) (messages : List (Message H)) → All (Carries cid) (map (marked cid) messages)
  marked-Carries cid [] = tt
  marked-Carries cid (response_start s h ∷ messages) =
      (hs.get-put correlation_header cid h, marked-Carries cid messages)
  marked-Carries cid (other m ∷ messages) = (refl, marked-Carries cid messages)

  outline-marked :
      (cid : Text) (messages : List (Message H))
      → map outline (map (marked cid) messages) ≡ map outline messages
  outline-marked cid [] = refl
  outline-marked cid (response_start s h ∷ messages) =
      ap (λ l. (some s, []) ∷ l) (outline-marked cid messages)
  outline-marked cid (other m ∷ messages) = ap (λ l. (none, m) ∷ l) (outline-marked cid messages)

  module _ (fresh current : Text) (app : App H) (scope : Scope H) where
    -- The correlation id of the request.
    abbrev pub correlation_of : Text
    correlation_of = set_correlation_id fresh (hs.get correlation_header scope.headers)

    handle_request-http :
        scope.is_http ≡ true
        → handle_request fresh current app scope ≡ record {
          messages = map (marked correlation_of) (app correlation_of).0;
          returns = (app correlation_of).1;
          lines =
              record {
                method = scope.method;
                path = scope.path;
                status = last_status zero (app correlation_of).0;
              }
              ∷ [];
        }
    unfolding handle_request
    handle_request-http http =
        rw (handle_request, http)
          (rw (send_all-marked correlation_of (app correlation_of).0 zero []) refl)

    -- Of an HTTP request, every response that the application starts carries the correlation id that
    -- the application ran with, which is the request's own when it has one that is not empty; the
    -- statuses, the other messages and the order are the application's; one access line is logged,
    -- with the status of the last response that was started, or 0, whether the application returns or
    -- raises; and the call ends as the application does.
    pub handle_request-Carries :
        scope.is_http ≡ true
        → All (Carries correlation_of) (handle_request fresh current app scope).messages
          × (map outline (handle_request fresh current app scope).messages
              ≡ map outline (app correlation_of).0)
          × ((handle_request fresh current app scope).lines
              ≡ record {
                method = scope.method;
                path = scope.path;
                status = last_status zero (app correlation_of).0;
              }
                ∷ [])
          × ((handle_request fresh current app scope).returns ≡ (app correlation_of).1)
          × ((own : Text)
              → hs.get correlation_header scope.headers ≡ some own
              → is_empty own ≡ false
              → correlation_of ≡ own)
    unfolding set_correlation_id
    handle_request-Carries http = (
      subst (λ (a : Answer H). All (Carries correlation_of) a.messages)
          (sym (handle_request-http http)) (marked-Carries correlation_of (app correlation_of).0),
      ap (λ (a : Answer H). map outline a.messages) (handle_request-http http)
          ∙ outline-marked correlation_of (app correlation_of).0,
      ap (λ (a : Answer H). a.lines) (handle_request-http http),
      ap (λ (a : Answer H). a.returns) (handle_request-http http),
      λ own has filled. rw (set_correlation_id, has) (rw filled refl),
    )
