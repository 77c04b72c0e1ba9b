-- ===== src/Storage/Redis.antt =====
-- backend-service/internal/storage/redis_cache.go. A stored value is the JSON document that the
-- source marshals; GetJSON fails on a document of another shape than its target. Redis itself is
-- not part of the source: `faults` says, for each command in turn, whether it fails,
-- and a failed one changes nothing. `now` is the server's clock, in seconds, and a key is gone
-- from the moment its time is up. What is not called by the service stands in Client.
pub mod Keys
mod Client
use electric_power_digital_d.Common.{
  ℕ, ◌+◌, String, Bool, true, false, Option, none, some, List, [], ◌∷◌, str_eq, if◌then◌else◌, ltb,
  Result, ok, err,
}
use electric_power_digital_d.Common.Int.{ℤ, pos, leb_ℤ, int64_max, ◌+ℤ◌}
use electric_power_digital_d.Models.{Scheme, ProgressMsg}

-- The value of the key "sys:algo:health".
pub record HealthNote : Type 0 where
  pub status : String
  pub checked : ℕ
  pub error : Option String
  pub metrics : List (String × String)

pub data Json : Type 0 where
  text : String → Json
  number : ℤ → Json
  schemes : List Scheme → Json
  progress : ProgressMsg → Json
  health : HealthNote → Json

-- `expires` is the second from which the key is gone, if it has an end.
pub record Entry : Type 0 where
  pub key : String
  pub value : Json
  pub expires : Option ℕ

pub record RedisCache : Type 0 where
  pub entries : List Entry
  pub faults : List (Option String)

abbrev pub next_fault : List (Option String) → Option String
next_fault [] = none
next_fault (f ∷ fs) = f

abbrev later_faults : List (Option String) → List (Option String)
later_faults [] = []
later_faults (f ∷ fs) = fs

abbrev pub sent : RedisCache → RedisCache
sent c = record c { faults = later_faults c.faults }

abbrev pub is_live : ℕ → Option ℕ → Bool
is_live now none = true
is_live now (some until) = ltb now until

abbrev live_value : ℕ → Entry → Option Json
live_value now e = if is_live now e.expires then some e.value else none

-- The value that a key holds at a time.
unfoldable pub get : String → ℕ → List Entry → Option Json
get k now [] = none
get k now (e ∷ es) = if str_eq e.key k then live_value now e else get k now es

-- A write, which replaces the entry of its key.
unfoldable pub put : Entry → List Entry → List Entry
put e [] = e ∷ []
put e (x ∷ xs) = if str_eq x.key e.key then e ∷ xs else x ∷ put e xs

-- Every entry of the key is dropped.
unfoldable pub del : String → List Entry → List Entry
del k [] = []
del k (x ∷ xs) = let rest = del k xs in if str_eq x.key k then rest else x ∷ rest

unfoldable pub set_json : String → Json → ℕ → ℕ → RedisCache → Option String × RedisCache
unfolding put
set_json key value ttl now c = elim (next_fault c.faults) [
  | none ↦ (
    none,
    record (sent c) {
      entries = put (record { key = key; value = value; expires = some (now + ttl) }) c.entries;
    },
  )
  | some e ↦ (some e, sent c)
]

abbrev pub redis_nil : String
redis_nil = "redis: nil"

abbrev or_nil : Option Json → Result Json
or_nil none = err redis_nil
or_nil (some j) = ok j

-- The document of a key, before it is unmarshalled.
unfoldable pub get_document : String → ℕ → RedisCache → Result Json × RedisCache
unfolding get
get_document key now c = elim (next_fault c.faults) [
  | none ↦ (or_nil (get key now c.entries), sent c)
  | some e ↦ (err e, sent c)
]

abbrev pub wrong_shape : String
wrong_shape = "json: cannot unmarshal"

-- json.Unmarshal into a `string`, an `int` and a `[]models.Scheme`.
abbrev as_text : Result Json → Result String
as_text (ok (text s)) = ok s
as_text (ok _) = err wrong_shape
as_text (err e) = err e

abbrev as_number : Result Json → Result ℤ
as_number (ok (number n)) = ok n
as_number (ok _) = err wrong_shape
as_number (err e) = err e

abbrev as_schemes : Result Json → Result (List Scheme)
as_schemes (ok (schemes l)) = ok l
as_schemes (ok _) = err wrong_shape
as_schemes (err e) = err e

-- GetJSON at the three targets that the service uses.
unfoldable pub get_text : String → ℕ → RedisCache → Result String × RedisCache
unfolding get_document
get_text key now c = let (r, c') = get_document key now c in (as_text r, c')

unfoldable pub get_number : String → ℕ → RedisCache → Result ℤ × RedisCache
unfolding get_document
get_number key now c = let (r, c') = get_document key now c in (as_number r, c')

unfoldable pub get_schemes : String → ℕ → RedisCache → Result (List Scheme) × RedisCache
unfolding get_document
get_schemes key now c = let (r, c') = get_document key now c in (as_schemes r, c')

unfoldable pub delete : String → RedisCache → Option String × RedisCache
unfolding del
delete key c = elim (next_fault c.faults) [
  | none ↦ (none, record (sent c) { entries = del key c.entries })
  | some e ↦ (some e, sent c)
]

abbrev pub not_an_integer : String
not_an_integer = "ERR value is not an integer or out of range"

abbrev pub would_overflow : String
would_overflow = "ERR increment or decrement would overflow"

-- What INCR makes of the value of its key.
abbrev incr_value : Option Json → Result ℤ
incr_value none = ok (pos 1)
incr_value (some (number n)) =
    if leb_ℤ (pos int64_max) n then err would_overflow else ok (n +ℤ pos 1)
incr_value (some _) = err not_an_integer

-- INCR keeps the end of a key that is there.
unfoldable end_of : String → ℕ → List Entry → Option ℕ
end_of k now [] = none
end_of k now (e ∷ es) =
    if str_eq e.key k then (if is_live now e.expires then e.expires else none) else end_of k now es

abbrev incr_in : String → Option ℕ → Result ℤ → RedisCache → Option String × RedisCache
incr_in key until (ok n) c = (
  none,
  record c { entries = put (record { key = key; value = number n; expires = until }) c.entries },
)
incr_in key until (err e) c = (some e, c)

unfoldable incr_key : String → ℕ → RedisCache → Option String × RedisCache
unfolding get put end_of ◌+ℤ◌
incr_key key now c = elim (next_fault c.faults) [
  | none ↦ incr_in key (end_of key now c.entries) (incr_value (get key now c.entries)) (sent c)
  | some e ↦ (some e, sent c)
]

abbrev expire_old : String → Option Json → ℕ → List Entry → List Entry
expire_old key none until entries = entries
expire_old key (some j) until entries =
    put (record { key = key; value = j; expires = some until }) entries

unfoldable expire_key : String → ℕ → ℕ → RedisCache → Option String × RedisCache
unfolding get put
expire_key key ttl now c = elim (next_fault c.faults) [
  | none ↦ (
    none,
    record (sent c) { entries = expire_old key (get key now c.entries) (now + ttl) c.entries },
  )
  | some e ↦ (some e, sent c)
]

abbrev first_error : Option String → Option String → Option String
first_error none b = b
first_error (some e) b = some e

-- Two commands in one pipeline, which is no transaction.
unfoldable pub incr : String → ℕ → ℕ → RedisCache → Option String × RedisCache
unfolding incr_key expire_key
incr key ttl now c =
    let (counted, c') = incr_key key now c in
    let (renewed, c'') = expire_key key ttl now c' in (first_error counted renewed, c'')

abbrev set_if_new : String → Json → ℕ → Option Json → RedisCache → Result Bool × RedisCache
set_if_new key value until none c = (
  ok true,
  record c { entries = put (record { key = key; value = value; expires = some until }) c.entries },
)
set_if_new key value until (some j) c = (ok false, c)

unfoldable pub set_nx : String → Json → ℕ → ℕ → RedisCache → Result Bool × RedisCache
unfolding get put
set_nx key value ttl now c = elim (next_fault c.faults) [
  | none ↦ set_if_new key value (now + ttl) (get key now c.entries) (sent c)
  | some e ↦ (err e, sent c)
]

unfoldable pub ping : RedisCache → Option String × RedisCache
ping c = (next_fault c.faults, sent c)
