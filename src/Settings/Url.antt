-- ===== src/Settings/Url.antt =====
-- What the CA bundle changes of the AMQP URL.
use mathlib.Core.Path.{subst}
use rabbit_speed_test.Base.{
  Bool-cases, inl, inr, ◌≡◌, refl, ap, ◌∙◌, false, Option, none, some, [], ◌∷◌, Text, codes, ◌==◌,
  nat_eq, list_eq, list_beq_iff, arith, if◌then◌else◌,
}
use rabbit_speed_test.Modules.Events.{is_empty}
use rabbit_speed_test.Settings.{
  Settings, Params, NoBlanks, Urls, set_param, dict_of, effective_amqp_url,
}

-- d.get(key)
abbrev pub param : Text → Params → Option Text
param key [] = none
param key ((k, v) ∷ rest) = if k == key then some v else param key rest

-- The value of the last pair with a key.
abbrev pub last_value : Text → Params → Option Text
last_value key [] = none
last_value key ((k, v) ∷ rest) = elim (last_value key rest) [
  | some w ↦ some w
  | none ↦ if k == key then some v else none
]

abbrev pub first_of : Option Text → Option Text → Option Text
first_of (some v) o = some v
first_of none o = o

first_of-none : (o : Option Text) → first_of o none ≡ o
first_of-none none = refl
first_of-none (some v) = refl

param-set_param :
    (key name value : Text) (d : Params)
    → param key (set_param name value d) ≡ (if name == key then some value else param key d)
unfolding set_param
param-set_param key name value [] = refl
param-set_param key name value ((k, v) ∷ rest) = ground (
  arith,
  param-set_param key name value rest,
  list_beq_iff k name,
  list_beq_iff k key,
  list_beq_iff name key,
)

param-dict_of :
    (key : Text) (d pairs : Params)
    → param key (dict_of d pairs) ≡ first_of (last_value key pairs) (param key d)
unfolding dict_of
param-dict_of key d [] = refl
param-dict_of key d ((k, v) ∷ pairs) =
    ground (arith, param-dict_of key (set_param k v d) pairs, param-set_param key k v d)

-- Each key once.
abbrev IsDict : Params → Type 0
IsDict [] = Unit
IsDict ((k, v) ∷ rest) = (param k rest ≡ none) × IsDict rest

set_param-IsDict : (key value : Text) (d : Params) → IsDict d → IsDict (set_param key value d)
unfolding set_param
set_param-IsDict key value [] h = (refl, tt)
set_param-IsDict key value ((k, v) ∷ rest) (h, hs) = elim (Bool-cases (k == key)) [
  | inl e ↦ rw e (h, hs)
  | inr e ↦
      let other : (key == k) ≡ false = ground (arith, e, list_beq_iff k key, list_beq_iff key k) in
      rw e (param-set_param k key value rest ∙ rw other h, set_param-IsDict key value rest hs)
]

dict_of-IsDict : (d pairs : Params) → IsDict d → IsDict (dict_of d pairs)
unfolding dict_of
dict_of-IsDict d [] h = h
dict_of-IsDict d ((k, v) ∷ pairs) h =
    dict_of-IsDict (set_param k v d) pairs (set_param-IsDict k v d h)

last_value-IsDict : (key : Text) (d : Params) → IsDict d → last_value key d ≡ param key d
last_value-IsDict key [] h = refl
last_value-IsDict key ((k, v) ∷ rest) (h, hs) = elim (Bool-cases (k == key)) [
  | inl e ↦
      let absent = subst (λ a. param a rest ≡ none) ((list_beq_iff k key).0 e) h in
      ground (arith, e, absent, last_value-IsDict key rest hs)
  | inr e ↦ ground (arith, e, last_value-IsDict key rest hs)
]

set_param-NoBlanks :
    (key value : Text) (d : Params)
    → is_empty value ≡ false
    → NoBlanks d
    → NoBlanks (set_param key value d)
unfolding set_param
set_param-NoBlanks key value [] filled h = ground (arith, filled)
set_param-NoBlanks key value ((k, v) ∷ rest) filled h =
    ground (arith, filled, h, set_param-NoBlanks key value rest filled)

dict_of-NoBlanks : (d pairs : Params) → NoBlanks d → NoBlanks pairs → NoBlanks (dict_of d pairs)
unfolding dict_of
dict_of-NoBlanks d [] h k = h
dict_of-NoBlanks d ((key, v) ∷ pairs) h k =
    dict_of-NoBlanks (set_param key v d) pairs (set_param-NoBlanks key v d (ground (arith, k)) h)
      (ground (arith, k))

module _ {A Q : Type 0} (u : Urls A Q) (s : Settings A) where
  -- The dict of the parameters of the configured URL.
  abbrev configured : Params
  configured = dict_of [] (u.parse_qsl (u.urlsplit s.amqp_url).query)

  effective-query :
      is_empty s.amqp_ca_file ≡ false
      → (u.urlsplit (effective_amqp_url u s) ≡ record (u.urlsplit s.amqp_url) {
        query = u.urlencode (set_param (codes "cafile") s.amqp_ca_file configured);
      })
        × (u.parse_qsl (u.urlencode (set_param (codes "cafile") s.amqp_ca_file configured))
            ≡ set_param (codes "cafile") s.amqp_ca_file configured)
  unfolding effective_amqp_url
  effective-query filled = (
    rw filled (
        u.urlsplit-urlunsplit s.amqp_url
          (u.urlencode (set_param (codes "cafile") s.amqp_ca_file configured))),
    u.parse_qsl-urlencode (set_param (codes "cafile") s.amqp_ca_file configured) (
        set_param-NoBlanks (codes "cafile") s.amqp_ca_file configured filled (
          dict_of-NoBlanks [] (u.parse_qsl (u.urlsplit s.amqp_url).query) refl
            (u.parse_qsl-NoBlanks (u.urlsplit s.amqp_url).query))),
  )

  -- With a CA bundle the URL that the client gets has, when its query is read by parse_qsl, the bundle
  -- as its cafile, in place of any that was configured; of every other key the value that parse_qsl
  -- reads last in the configured query, and no value where it reads none, as for a key whose values
  -- are blank; and the other parts of the URL are as they were.
  pub effective_amqp_url-params :
      (key : Text)
      → is_empty s.amqp_ca_file ≡ false
      → let parts = u.urlsplit (effective_amqp_url u s) in
        let configured_pairs = u.parse_qsl (u.urlsplit s.amqp_url).query in
        (last_value key (u.parse_qsl parts.query) ≡ (
          if codes "cafile" == key then some s.amqp_ca_file else last_value key configured_pairs))
        × (parts.others ≡ (u.urlsplit s.amqp_url).others)
  effective_amqp_url-params key filled =
      let (parts, read) = effective-query filled in
      let pairs = u.parse_qsl (u.urlsplit s.amqp_url).query in
      (
        ap (λ p. last_value key (u.parse_qsl p.query)) parts
            ∙ ap (last_value key) read
            ∙ last_value-IsDict key (set_param (codes "cafile") s.amqp_ca_file configured) (
                set_param-IsDict (codes "cafile") s.amqp_ca_file configured
                  (dict_of-IsDict [] pairs tt))
            ∙ param-set_param key (codes "cafile") s.amqp_ca_file configured
            ∙ ap (λ o. if codes "cafile" == key then some s.amqp_ca_file else o)
                (param-dict_of key [] pairs ∙ first_of-none (last_value key pairs)),
        ap (λ p. p.others) parts,
      )
