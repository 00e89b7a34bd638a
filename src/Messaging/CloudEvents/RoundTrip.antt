-- ===== src/Messaging/CloudEvents/RoundTrip.antt =====
-- An envelope that was accepted is read back from its own bytes.
use rabbit_speed_test.Base.{
  ℕ, ◌≡◌, refl, Bool, true, false, Option, none, some, Text, codes, nat_eq, list_eq, arith, ◌↔◌,
  ◌≤◌, contains, length,
}
use rabbit_speed_test.Storable.{
  Json, string, integer, number, null, array, object, Entries, storable_text, attribute_fits,
}
use rabbit_speed_test.Modules.Fields.Models.{lookup}
use rabbit_speed_test.Messaging.CloudEvents.{
  Codec, Event, collect, attribute, correlation, specversion, content_type, data_member,
  time_member, event_from, event_in, from_bytes, text_or_null, time_or_null, members_of, to_bytes,
}

-- A text that fits its column of the inbox and that PostgreSQL can store.
abbrev pub Fits : ℕ → Text → Type 0
Fits low t = (low ≤ length t) × (length t ≤ 255) × (contains 0 t ≡ false)

abbrev pub FitsIfSet : Option Text → Type 0
FitsIfSet none = Unit
FitsIfSet (some t) = Fits 0 t

-- The rules of the envelope's attributes.
abbrev pub IsEvent : Event → Type 0
IsEvent e = Fits 1 e.id × Fits 1 e.source × Fits 1 e.type × FitsIfSet e.correlationid

pub attribute_fits-Fits : (low : ℕ) (t : Text) → (attribute_fits low t ≡ true) ↔ Fits low t
unfolding attribute_fits storable_text
attribute_fits-Fits low t = ground arith

collect-some :
    (version : Option (Unit {0})) (id source type : Option Text) (time : Option (Option ℕ))
    (content : Option Text) (members : Option Entries) (correlationid : Option (Option Text))
    {e : Event}
    → collect version id source type time content members correlationid ≡ some e
    → (id ≡ some e.id)
      × (source ≡ some e.source)
      × (type ≡ some e.type)
      × (correlationid ≡ some e.correlationid)
collect-some (some v) (some i) (some s) (some t) (some n) (some c) (some m) (some r) h =
    ground arith
collect-some (some v) (some i) (some s) (some t) (some n) (some c) (some m) none h =
    absurd (ground arith)
collect-some (some v) (some i) (some s) (some t) (some n) (some c) none r h = absurd (ground arith)
collect-some (some v) (some i) (some s) (some t) (some n) none m r h = absurd (ground arith)
collect-some (some v) (some i) (some s) (some t) none c m r h = absurd (ground arith)
collect-some (some v) (some i) (some s) none n c m r h = absurd (ground arith)
collect-some (some v) (some i) none t n c m r h = absurd (ground arith)
collect-some (some v) none s t n c m r h = absurd (ground arith)
collect-some none i s t n c m r h = absurd (ground arith)

attribute-Fits : (o : Option Json) {t : Text} → attribute o ≡ some t → Fits 1 t
unfolding attribute
attribute-Fits (some (string u)) {t} h = ground (arith, attribute_fits-Fits 1 u)
attribute-Fits (some (integer n)) h = absurd (ground arith)
attribute-Fits (some (number f)) h = absurd (ground arith)
attribute-Fits (some null) h = absurd (ground arith)
attribute-Fits (some (array items)) h = absurd (ground arith)
attribute-Fits (some (object members)) h = absurd (ground arith)
attribute-Fits none h = absurd (ground arith)

correlation-Fits : (o : Option Json) (t : Option Text) → correlation o ≡ some t → FitsIfSet t
unfolding correlation
correlation-Fits o none h = tt
correlation-Fits (some (string u)) (some t) h = ground (arith, attribute_fits-Fits 0 u)
correlation-Fits (some (integer n)) (some t) h = absurd (ground arith)
correlation-Fits (some (number f)) (some t) h = absurd (ground arith)
correlation-Fits (some null) (some t) h = absurd (ground arith)
correlation-Fits (some (array items)) (some t) h = absurd (ground arith)
correlation-Fits (some (object members)) (some t) h = absurd (ground arith)
correlation-Fits none (some t) h = absurd (ground arith)

module _ {B : Type 0} (c : Codec B) where
  time-read : (t : Option ℕ) → time_member c (some (time_or_null c t)) ≡ some t
  unfolding time_member
  time-read none = refl
  time-read (some t) = rw (c.parse-print_time t) refl

  correlation-read :
      (t : Option Text) → FitsIfSet t → correlation (some (text_or_null c t)) ≡ some t
  unfolding correlation
  correlation-read none h = refl
  correlation-read (some t) h = rw ((attribute_fits-Fits 0 t).1 h) refl

  attribute-read : (t : Text) → Fits 1 t → attribute (some (string t)) ≡ some t
  unfolding attribute
  attribute-read t h = rw ((attribute_fits-Fits 1 t).1 h) refl

  pub event_from-members_of :
      (wire : Bool) (e : Event) → IsEvent e → event_from c wire (members_of c e) ≡ some e
  unfolding event_from members_of lookup specversion content_type data_member
  event_from-members_of wire e (i, s, t, r) = rw (attribute-read e.id i) (
      rw (attribute-read e.source s) (
        rw (attribute-read e.type t)
          (rw (time-read e.time) (rw (correlation-read e.correlationid r) refl))))

  -- Every accepted envelope has an id, a source and a type of 1 to 255 characters and no correlation
  -- id beyond 255, none with a NUL, so that the inbox can hold them.
  event_from-IsEvent :
      (wire : Bool) (body : Entries) {e : Event} → event_from c wire body ≡ some e → IsEvent e
  unfolding event_from
  event_from-IsEvent wire body {e} h =
      let (i, s, t, r) =
        collect-some (specversion wire (lookup (codes "specversion") body))
          (attribute (lookup (codes "id") body)) (attribute (lookup (codes "source") body))
          (attribute (lookup (codes "type") body)) (time_member c (lookup (codes "time") body))
          (content_type (lookup (codes "datacontenttype") body))
          (data_member (lookup (codes "data") body))
          (correlation (lookup (codes "correlationid") body)) {e = e} h in
      (
        attribute-Fits (lookup (codes "id") body) {t = e.id} i,
        attribute-Fits (lookup (codes "source") body) {t = e.source} s,
        attribute-Fits (lookup (codes "type") body) {t = e.type} t,
        correlation-Fits (lookup (codes "correlationid") body) e.correlationid r,
      )

  event_in-IsEvent : (j : Option Json) {e : Event} → event_in c j ≡ some e → IsEvent e
  event_in-IsEvent (some (object body)) {e} h = event_from-IsEvent true body {e = e} h
  event_in-IsEvent (some (string t)) h = absurd (ground arith)
  event_in-IsEvent (some (integer n)) h = absurd (ground arith)
  event_in-IsEvent (some (number f)) h = absurd (ground arith)
  event_in-IsEvent (some null) h = absurd (ground arith)
  event_in-IsEvent (some (array items)) h = absurd (ground arith)
  event_in-IsEvent none h = absurd (ground arith)

  accepted : (body : B) {e : Event} → from_bytes c body ≡ some e → IsEvent e
  unfolding from_bytes
  accepted body {e} h = event_in-IsEvent (c.parse_json body) {e = e} h

  -- What from_bytes accepts, to_bytes prints to bytes from which it is accepted again, the same, if
  -- the JSON of those bytes is what was printed.
  pub from_bytes-to_bytes :
      (body : B) {e : Event}
      → from_bytes c body ≡ some e
      → c.parse_json (to_bytes c e) ≡ some (object (members_of c e))
      → from_bytes c (to_bytes c e) ≡ some e
  unfolding from_bytes
  from_bytes-to_bytes body {e} h printed =
      rw printed (event_from-members_of true e (accepted body {e = e} h))
