-- ===== src/Bench/Options/Sources.antt =====
-- Which source gives the value of an option.
use rabbit_speed_test.Base.{
  ◌≡◌, refl, ap, ◌∙◌, Bool, true, false, ◌&&◌, Option, none, some, [], ◌∷◌, Text, codes, ◌==◌,
  nat_eq, list_eq, list_beq_iff, all_of, arith, if◌then◌else◌, Bool-cases, inl, inr,
}
use rabbit_speed_test.Modules.Events.{is_empty}
use rabbit_speed_test.Bench.Options.{
  Value, text, Dict, default, put, update_dict, has_key, accepts, read_file, overwrite, is_given,
  given, loaded, merged, load,
}

-- d.get(key)
abbrev pub find : Text → Dict → Option Value
find key [] = none
find key ((k, v) ∷ rest) = if k == key then some v else find key rest

abbrev pub prefer : Option Value → Option Value → Option Value
prefer none b = b
prefer (some a) b = some a

-- The value of the last of the pairs with the key.
abbrev pub last_of : Text → Dict → Option Value
last_of key [] = none
last_of key ((k, v) ∷ rest) = prefer (last_of key rest) (if k == key then some v else none)

-- The value of the last of the overrides with the key, those that are None left aside.
abbrev pub last_given : Text → Dict → Option Value
last_given key [] = none
last_given key ((k, v) ∷ rest) =
    prefer (last_given key rest) (if (k == key) && is_given v then some v else none)

-- A variable that is set and not empty.
abbrev pub url_of : Option Text → Option Value
url_of none = none
url_of (some url) = if is_empty url then none else some (text url)

abbrev pub from_environ : (Text → Option Text) → Text → Option Value
from_environ environ key =
    if codes "management_url" == key
    then url_of (environ (codes "RABBITMQ_MANAGEMENT_URL"))
    else if codes "amqp_url" == key
    then url_of (environ (codes "RABBITMQ_URL"))
    else none

find-put :
    (key name : Text) (value : Value) (d : Dict)
    → find key (put name value d) ≡ (if name == key then some value else find key d)
unfolding put
find-put key name value [] = refl
find-put key name value ((k, v) ∷ rest) = ground (
  arith,
  find-put key name value rest,
  list_beq_iff k name,
  list_beq_iff k key,
  list_beq_iff name key,
)

prefer_if :
    (a c : Option Value) (hit : Bool) (v : Value)
    → prefer a (if hit then some v else c) ≡ prefer (prefer a (if hit then some v else none)) c
prefer_if none c true v = refl
prefer_if none c false v = refl
prefer_if (some a) c hit v = refl

find-update_dict :
    (key : Text) (d new : Dict)
    → find key (update_dict d new) ≡ prefer (last_of key new) (find key d)
unfolding update_dict
find-update_dict key d [] = refl
find-update_dict key d ((k, v) ∷ new) =
    find-update_dict key (put k v d) new
    ∙ ap (prefer (last_of key new)) (find-put key k v d)
    ∙ prefer_if (last_of key new) (find key d) (k == key) v

find-overwrite :
    (key name : Text) (url : Option Text) (d : Dict)
    → find key (overwrite name url d)
      ≡ prefer (if name == key then url_of url else none) (find key d)
find-overwrite key name none d = ground arith
find-overwrite key name (some url) d = ground (arith, find-put key name (text url) d)

apart : (a b key : Text) → (a == b) ≡ false → ((a == key) && (b == key)) ≡ false
apart a b key h = ground (arith, h, list_beq_iff a key, list_beq_iff b key, list_beq_iff a b)

prefer_either :
    (first second : Bool) (a b c : Option Value)
    → (first && second) ≡ false
    → prefer (if first then a else none) (prefer (if second then b else none) c)
      ≡ prefer (if first then a else if second then b else none) c
prefer_either true true a b c h = absurd (ground arith)
prefer_either true false none b c h = refl
prefer_either true false (some v) b c h = refl
prefer_either false second a b c h = refl

overwrites_find :
    (environ : Text → Option Text) (key : Text) (d : Dict)
    → find key (
        overwrite
          (codes "management_url")
          (environ (codes "RABBITMQ_MANAGEMENT_URL"))
          (overwrite (codes "amqp_url") (environ (codes "RABBITMQ_URL")) d))
      ≡ prefer (from_environ environ key) (find key d)
overwrites_find environ key d =
    find-overwrite key (codes "management_url") (environ (codes "RABBITMQ_MANAGEMENT_URL"))
      (overwrite (codes "amqp_url") (environ (codes "RABBITMQ_URL")) d)
    ∙ ap
        (prefer (
          if codes "management_url" == key
          then url_of (environ (codes "RABBITMQ_MANAGEMENT_URL"))
          else none))
        (find-overwrite key (codes "amqp_url") (environ (codes "RABBITMQ_URL")) d)
    ∙ prefer_either (codes "management_url" == key) (codes "amqp_url" == key)
        (url_of (environ (codes "RABBITMQ_MANAGEMENT_URL")))
        (url_of (environ (codes "RABBITMQ_URL"))) (find key d)
        (apart (codes "management_url") (codes "amqp_url") key refl)

prefer-none : (a : Option Value) → prefer a none ≡ a
prefer-none none = refl
prefer-none (some v) = refl

last_of-given :
    (key : Text) (overrides : Dict) → last_of key (given overrides) ≡ last_given key overrides
unfolding given
last_of-given key [] = refl
last_of-given key ((k, v) ∷ rest) =
    ground (arith, last_of-given key rest, prefer-none (last_given key rest))

find-merged :
    (environ : Text → Option Text) (file overrides : Dict) (key : Text)
    → find key (merged environ file overrides)
      ≡ prefer
          (last_of key (given overrides))
          (prefer (from_environ environ key) (prefer (last_of key file) (find key default)))
unfolding merged
find-merged environ file overrides key =
    find-update_dict key
      (overwrite (codes "management_url") (environ (codes "RABBITMQ_MANAGEMENT_URL"))
        (overwrite (codes "amqp_url") (environ (codes "RABBITMQ_URL")) (update_dict default file)))
      (given overrides)
    ∙ ap (prefer (last_of key (given overrides))) (
        overwrites_find environ key (update_dict default file)
        ∙ ap (prefer (from_environ environ key)) (find-update_dict key default file))

-- Which keywords the class takes.
all_of-put :
    (p : Text → Bool) (key : Text) (value : Value) (d : Dict)
    → p key ≡ true
    → all_of (λ q. p q.0) d ≡ true
    → all_of (λ q. p q.0) (put key value d) ≡ true
unfolding put
all_of-put p key value [] known h = rw known refl
all_of-put p key value ((k, v) ∷ rest) known h =
    ground (arith, known, h, all_of-put p key value rest known)

all_of-update_dict :
    (p : Text → Bool) (d new : Dict)
    → all_of (λ q. p q.0) d ≡ true
    → all_of (λ q. p q.0) new ≡ true
    → all_of (λ q. p q.0) (update_dict d new) ≡ true
unfolding update_dict
all_of-update_dict p d [] h k = h
all_of-update_dict p d ((key, v) ∷ new) h k =
    all_of-update_dict p (put key v d) new (all_of-put p key v d (ground (arith, k)) h)
      (ground (arith, k))

accepts-overwrite :
    (key : Text) (url : Option Text) (d : Dict)
    → has_key key default ≡ true
    → accepts d ≡ true
    → accepts (overwrite key url d) ≡ true
unfolding accepts
accepts-overwrite key none d known h = h
accepts-overwrite key (some url) d known h = elim (Bool-cases (is_empty url)) [
  | inl e ↦ rw e h
  | inr e ↦ rw e (all_of-put (λ k. has_key k default) key (text url) d known h)
]

accepts-merged :
    (environ : Text → Option Text) (file overrides : Dict)
    → accepts file ≡ true
    → accepts (given overrides) ≡ true
    → accepts (merged environ file overrides) ≡ true
unfolding merged accepts
accepts-merged environ file overrides f o =
    all_of-update_dict (λ k. has_key k default)
      (overwrite (codes "management_url") (environ (codes "RABBITMQ_MANAGEMENT_URL"))
        (overwrite (codes "amqp_url") (environ (codes "RABBITMQ_URL")) (update_dict default file)))
      (given overrides)
      (accepts-overwrite (codes "management_url") (environ (codes "RABBITMQ_MANAGEMENT_URL"))
        (overwrite (codes "amqp_url") (environ (codes "RABBITMQ_URL")) (update_dict default file))
        refl
        (accepts-overwrite (codes "amqp_url") (environ (codes "RABBITMQ_URL"))
          (update_dict default file) refl
          (all_of-update_dict (λ k. has_key k default) default file refl f)))
      o

-- A load returns, when the file that there may be can be read and names fields only, as do the
-- overrides that are not None; and each option has its value from the first of these that gives one:
-- the overrides that are not None, for the two URLs a variable that is set and not empty, the file,
-- the defaults.
pub load-sources :
    (files : Text → Option (Option Dict)) (environ : Text → Option Text) (path : Option Text)
    (file overrides : Dict)
    → read_file files path ≡ some file
    → accepts file ≡ true
    → accepts (given overrides) ≡ true
    → (d : Dict) × (load files environ path overrides ≡ loaded d)
      × ((key : Text)
          → find key d
            ≡ prefer
                (last_given key overrides)
                (prefer (from_environ environ key) (prefer (last_of key file) (find key default))))
unfolding load
load-sources files environ path file overrides read f o = (
  merged environ file overrides,
  rw (load, read) (rw (accepts-merged environ file overrides f o) refl),
  λ key.
      find-merged environ file overrides key
      ∙ ap
          (λ a.
            prefer a
              (prefer (from_environ environ key) (prefer (last_of key file) (find key default))))
          (last_of-given key overrides),
)
