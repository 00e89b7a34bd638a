-- ===== src/Messaging/CloudEvents.antt =====
-- The envelope of shared_data_service/app/messaging/cloudevents.py: its attributes, their rules,
-- and structured JSON mode. The text of JSON and the printing of times are pydantic's.
pub mod RoundTrip
use rabbit_speed_test.Base.{
  ℕ, ◌≡◌, Bool, true, false, ◌&&◌, Option, none, some, List, [], ◌∷◌, Text, codes, ◌==◌, nat_eq,
  list_eq, length, leb, if◌then◌else◌,
}
use rabbit_speed_test.Storable.{
  Json, string, integer, null, object, Entries, empty_object, entry, attribute_fits,
}
use rabbit_speed_test.Modules.Fields.Models.{lookup}
use rabbit_speed_test.Messaging.Consumer.{Envelope}

-- A datetime is its instant. `B` is bytes.
pub record Codec (B : Type 0) : Type 0 where
  pub parse_time : Json → Option ℕ
  pub print_time : ℕ → Text
  pub print_json : Json → B
  pub parse_json : B → Option Json
  pub parse-print_time : (t : ℕ) → parse_time (string (print_time t)) ≡ some t

-- CloudEvent, less specversion, which is "1.0".
pub record Event : Type 0 where
  pub id : Text
  pub source : Text
  pub type : Text
  pub time : Option ℕ
  pub datacontenttype : Text
  pub members : Entries
  pub correlationid : Option Text

-- Every field of the model has to be valid; the first is that of specversion.
abbrev pub collect :
    Option (Unit {0})
    → Option Text
    → Option Text
    → Option Text
    → Option (Option ℕ)
    → Option Text
    → Option Entries
    → Option (Option Text)
    → Option Event
collect (some _) (some id) (some source) (some type) (some time) (some content) (some members)
      (some correlationid) =
    some (record {
      id = id;
      source = source;
      type = type;
      time = time;
      datacontenttype = content;
      members = members;
      correlationid = correlationid;
    })
collect _ _ _ _ _ _ _ _ = none

-- id, source and type
unfoldable pub attribute : Option Json → Option Text
unfolding attribute_fits
attribute (some (string t)) = if attribute_fits 1 t then some t else none
attribute _ = none

unfoldable pub correlation : Option Json → Option (Option Text)
unfolding attribute_fits
correlation none = some none
correlation (some null) = some none
correlation (some (string t)) = if attribute_fits 0 t then some (some t) else none
correlation (some _) = none

-- Literal["1.0"]; off the wire it has a default.
unfoldable pub specversion : Bool → Option Json → Option (Unit {0})
specversion wire (some (string t)) = if t == codes "1.0" then some tt else none
specversion wire (some _) = none
specversion true none = none
specversion false none = some tt

abbrev pub or_null : Option ℕ → Option (Option ℕ)
or_null none = none
or_null (some t) = some (some t)

unfoldable pub content_type : Option Json → Option Text
content_type none = some (codes "application/json")
content_type (some (string t)) = some t
content_type (some _) = none

-- data: dict[str, Any]
unfoldable pub data_member : Option Json → Option Entries
data_member none = some empty_object
data_member (some (object members)) = some members
data_member (some _) = none

module _ {B : Type 0} (c : Codec B) where
  unfoldable pub time_member : Option Json → Option (Option ℕ)
  time_member none = some none
  time_member (some null) = some none
  time_member (some j) = or_null (c.parse_time j)

  -- The validation of the envelope; unknown members are ignored.
  unfoldable pub event_from : Bool → Entries → Option Event
  unfolding specversion attribute correlation content_type data_member time_member lookup
  event_from wire body =
      collect (specversion wire (lookup (codes "specversion") body))
        (attribute (lookup (codes "id") body)) (attribute (lookup (codes "source") body))
        (attribute (lookup (codes "type") body)) (time_member (lookup (codes "time") body))
        (content_type (lookup (codes "datacontenttype") body))
        (data_member (lookup (codes "data") body))
        (correlation (lookup (codes "correlationid") body))

  abbrev pub event_in : Option Json → Option Event
  event_in (some (object body)) = event_from true body
  event_in _ = none

  -- `none` is InvalidCloudEvent.
  unfoldable pub from_bytes : B → Option Event
  unfolding event_from
  from_bytes body = event_in (c.parse_json body)

  abbrev pub text_or_null : Option Text → Json
  text_or_null none = null
  text_or_null (some t) = string t

  abbrev pub time_or_null : Option ℕ → Json
  time_or_null none = null
  time_or_null (some t) = string (c.print_time t)

  unfoldable pub members_of : Event → Entries
  members_of e = entry (codes "specversion") (string (codes "1.0")) (
      entry (codes "id") (string e.id) (
        entry (codes "source") (string e.source) (
          entry (codes "type") (string e.type) (
            entry (codes "time") (time_or_null e.time) (
              entry (codes "datacontenttype") (string e.datacontenttype) (
                entry (codes "data") (object e.members)
                  (entry (codes "correlationid") (text_or_null e.correlationid) empty_object)))))))

  unfoldable pub to_bytes : Event → B
  unfolding members_of
  to_bytes e = c.print_json (object (members_of e))

-- The event as the dispatch of the consumer sees it.
abbrev pub envelope_of : Event → Envelope Entries
envelope_of e = record {
  id = e.id;
  event_type = e.type;
  correlationid = e.correlationid;
  body = e.members;
}
