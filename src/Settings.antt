-- ===== src/Settings.antt =====
-- Settings of shared_data_service/app/config/settings.py: its two validators and effective_amqp_url. The
-- functions of urllib.parse and the file system are parameters, and so are the strings `A` of a URL
-- and `Q` of a query.
pub mod Url
use rabbit_speed_test.Base.{
  ◌≡◌, Bool, true, false, not, ◌&&◌, ◌||◌, Option, none, some, List, [], ◌∷◌, Text, codes, ◌==◌,
  nat_eq, list_eq, all_of, if◌then◌else◌,
}
use rabbit_speed_test.Outcome.{Outcome, ok, err, validation}
use rabbit_speed_test.Modules.Events.{is_empty}

pub data ServiceMode : Type 0 where
  api consumer both : ServiceMode

-- The settings that have a rule, or that effective_amqp_url reads.
pub record Settings (A : Type 0) : Type 0 where
  pub amqp_url : A
  pub consume_queues : List Text
  pub service_mode : ServiceMode
  pub amqp_ca_file : Text
  pub db_ca_file : Text

abbrev pub consumes : ServiceMode → Bool
consumes api = false
consumes consumer = true
consumes both = true

-- _consumer_modes_need_queues
unfoldable pub consumer_modes_need_queues : {A : Type 0} → Settings A → Outcome (Settings A)
consumer_modes_need_queues s =
    if consumes s.service_mode && is_empty s.consume_queues then err validation else ok s

-- _ca_files_must_exist; `is_file` is Path.is_file.
unfoldable pub ca_files_must_exist :
    {A : Type 0} → (Text → Bool) → Settings A → Outcome (Settings A)
ca_files_must_exist is_file s =
    if all_of (λ file. is_empty file || is_file file) (s.amqp_ca_file ∷ s.db_ca_file ∷ [])
    then ok s
    else err validation

abbrev pub Params : Type 0
Params = List (Text × Text)

-- A URL by urlsplit: its query, and its other parts as one.
pub record Parts (Q : Type 0) : Type 0 where
  pub others : Text
  pub query : Q

abbrev pub NoBlanks : Params → Type 0
NoBlanks params = all_of (λ p. not (is_empty p.1)) params ≡ true

-- urllib.parse: a URL whose query was replaced is split into the same parts, parse_qsl leaves out
-- blank values and reads back what urlencode wrote.
pub record Urls (A Q : Type 0) : Type 0 where
  pub urlsplit : A → Parts Q
  pub urlunsplit : Parts Q → A
  pub parse_qsl : Q → Params
  pub urlencode : Params → Q
  pub urlsplit-urlunsplit :
      (url : A) (query : Q)
      → urlsplit (urlunsplit (record (urlsplit url) { query = query }))
        ≡ record (urlsplit url) { query = query }
  pub parse_qsl-NoBlanks : (query : Q) → NoBlanks (parse_qsl query)
  pub parse_qsl-urlencode : (d : Params) → NoBlanks d → parse_qsl (urlencode d) ≡ d

-- d[key] = value on a dict, in its order
unfoldable pub set_param : Text → Text → Params → Params
set_param key value [] = (key, value) ∷ []
set_param key value ((k, v) ∷ rest) =
    if k == key then (k, value) ∷ rest else (k, v) ∷ set_param key value rest

-- dict(pairs)
unfoldable pub dict_of : Params → Params → Params
unfolding set_param
dict_of d [] = d
dict_of d ((k, v) ∷ pairs) = dict_of (set_param k v d) pairs

unfoldable pub effective_amqp_url : {A Q : Type 0} → Urls A Q → Settings A → A
unfolding dict_of set_param
effective_amqp_url u s =
    if is_empty s.amqp_ca_file
    then s.amqp_url
    else let parts = u.urlsplit s.amqp_url in
      let query =
        set_param (codes "cafile") s.amqp_ca_file (dict_of [] (u.parse_qsl parts.query)) in
      u.urlunsplit (record parts { query = u.urlencode query })
