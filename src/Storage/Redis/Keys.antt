-- ===== src/Storage/Redis/Keys.antt =====
-- backend-service/internal/storage/redis_cache.go: the cache as a map from keys to values that
-- expire.
use electric_power_digital_d.Common.{
  ℕ, ◌+◌, ◌<◌, String, none, some, List, [], ◌∷◌, str_eq, if◌then◌else◌, eq_iff, arith, ◌≡◌, ltb,
  ok, true, false, Bool, Option, ◌&&◌, Result-cases, ◌∙◌, Option-cases, inl, inr, refl, Bool-cases,
}
use electric_power_digital_d.Common.Int.{ℤ, pos, ◌+ℤ◌, leb_ℤ, int64_max}
use electric_power_digital_d.Storage.Redis.{
  text, number, Json, is_live, incr_value, end_of, incr_key, expire_key, next_fault, Entry,
  RedisCache, get, put, set_json, get_text, incr,
}

abbrev pub is_taken : Option String → Bool
is_taken none = true
is_taken (some e) = false

-- A write decides its own key until it expires, and no other key.
pub get-put :
    (k : String) (now : ℕ) (e : Entry) (es : List Entry)
    → get k now (put e es) ≡ (
        if str_eq e.key k
        then (if is_live now e.expires then some e.value else none)
        else get k now es)
unfolding get put
get-put k now e [] = ground (arith, eq_iff e.key k)
get-put k now e (x ∷ es) =
    ground (arith, eq_iff e.key k, eq_iff x.key k, eq_iff x.key e.key, get-put k now e es)

-- What SetJSON makes of what a key reads: its own key, unless the command fails.
pub get-set_json :
    (key k : String) (v : Json) (ttl now later : ℕ) (c : RedisCache)
    → get k later (set_json key v ttl now c).1.entries ≡ (
        if is_taken (next_fault c.faults) && str_eq key k
        then (if ltb later (now + ttl) then some v else none)
        else get k later c.entries)
unfolding set_json
get-set_json key k v ttl now later c =
    ground (
      arith,
      get-put k later (record { key = key; value = v; expires = some (now + ttl) }) c.entries,
    )

-- What SetJSON stores is what GetJSON reads, until its time is up.
pub get_text-set_json :
    (key v : String) (ttl now later : ℕ) (c : RedisCache)
    → c.faults ≡ []
    → later < now + ttl
    → (get_text key later (set_json key (text v) ttl now c).1).0 ≡ ok v
unfolding get_text set_json
get_text-set_json key v ttl now later c up soon = ground (
  arith,
  eq_iff key key,
  get-put key later (record { key = key; value = text v; expires = some (now + ttl) }) c.entries,
)

-- Every other key reads as before, whichever of the two commands fails.
incr_key-other :
    (key k : String) (now later : ℕ) (c : RedisCache)
    → str_eq key k ≡ false
    → get k later (incr_key key now c).1.entries ≡ get k later c.entries
unfolding incr_key
incr_key-other key k now later c other = elim (Option-cases (next_fault c.faults)) [
  | inr (e, down) ↦ ground arith
  | inl up ↦ elim (Result-cases (incr_value (get key now c.entries))) [
    | inl (n, value) ↦ ground (
      arith,
      get-put k later (record { key = key; value = number n; expires = end_of key now c.entries })
          c.entries,
    )
    | inr (e, failed) ↦ ground arith
  ]
]

expire_key-other :
    (key k : String) (ttl now later : ℕ) (c : RedisCache)
    → str_eq key k ≡ false
    → get k later (expire_key key ttl now c).1.entries ≡ get k later c.entries
unfolding expire_key
expire_key-other key k ttl now later c other = elim (Option-cases (next_fault c.faults)) [
  | inr (e, down) ↦ ground arith
  | inl up ↦ elim (Option-cases (get key now c.entries)) [
    | inl missing ↦ ground arith
    | inr (j, held) ↦ ground (
      arith,
      get-put k later (record { key = key; value = j; expires = some (now + ttl) }) c.entries,
    )
  ]
]

pub incr-other :
    (key k : String) (ttl now later : ℕ) (c : RedisCache)
    → str_eq key k ≡ false
    → get k later (incr key ttl now c).1.entries ≡ get k later c.entries
unfolding incr
incr-other key k ttl now later c other =
    expire_key-other key k ttl now later (incr_key key now c).1 other
    ∙ incr_key-other key k now later c other

pub incr-faults :
    (key : String) (ttl now : ℕ) (c : RedisCache)
    → c.faults ≡ []
    → (incr key ttl now c).1.faults ≡ []
unfolding incr incr_key expire_key
incr-faults key ttl now c up = ground arith

incr_key-faults :
    (key : String) (now : ℕ) (c : RedisCache) → c.faults ≡ [] → (incr_key key now c).1.faults ≡ []
unfolding incr_key
incr_key-faults key now c up = ground arith

end_of-live : (key : String) (now : ℕ) (es : List Entry) → is_live now (end_of key now es) ≡ true
unfolding end_of
end_of-live key now [] = refl
end_of-live key now (e ∷ es) = elim (Bool-cases (is_live now e.expires)) [
  | inl live ↦ ground (arith, end_of-live key now es)
  | inr dead ↦ ground (arith, end_of-live key now es)
]

incr_key-counts :
    (key : String) (n : ℤ) (now : ℕ) (c : RedisCache)
    → c.faults ≡ []
    → incr_value (get key now c.entries) ≡ ok n
    → get key now (incr_key key now c).1.entries ≡ some (number n)
unfolding incr_key
incr_key-counts key n now c up value = ground (
  arith,
  eq_iff key key,
  end_of-live key now c.entries,
  get-put key now (record { key = key; value = number n; expires = end_of key now c.entries })
      c.entries,
)

expire_key-renews :
    (key : String) (j : Json) (ttl now later : ℕ) (c : RedisCache)
    → c.faults ≡ []
    → get key now c.entries ≡ some j
    → get key later (expire_key key ttl now c).1.entries
      ≡ (if ltb later (now + ttl) then some j else none)
unfolding expire_key
expire_key-renews key j ttl now later c up held = ground (
  arith,
  eq_iff key key,
  get-put key later (record { key = key; value = j; expires = some (now + ttl) }) c.entries,
)

-- What INCR stores stands for a whole new time to live, whether the key is new or not.
incr-counts :
    (key : String) (n : ℤ) (ttl now later : ℕ) (c : RedisCache)
    → c.faults ≡ []
    → incr_value (get key now c.entries) ≡ ok n
    → get key later (incr key ttl now c).1.entries
      ≡ (if ltb later (now + ttl) then some (number n) else none)
unfolding incr
incr-counts key n ttl now later c up value =
    expire_key-renews key (number n) ttl now later (incr_key key now c).1
      (incr_key-faults key now c up) (incr_key-counts key n now c up value)

-- Below the greatest number, each Incr counts one more and gives the key a whole new time to live,
-- whether the key is new or not.
pub incr-renews :
    (key : String) (n : ℤ) (ttl now later : ℕ) (c : RedisCache)
    → c.faults ≡ []
    → get key now c.entries ≡ some (number n)
    → leb_ℤ (pos int64_max) n ≡ false
    → get key later (incr key ttl now c).1.entries
      ≡ (if ltb later (now + ttl) then some (number (n +ℤ pos 1)) else none)
incr-renews key n ttl now later c up held small =
    incr-counts key (n +ℤ pos 1) ttl now later c up (ground arith)

-- The first Incr of a key stores 1.
pub incr-starts :
    (key : String) (ttl now later : ℕ) (c : RedisCache)
    → c.faults ≡ []
    → get key now c.entries ≡ none
    → get key later (incr key ttl now c).1.entries
      ≡ (if ltb later (now + ttl) then some (number (pos 1)) else none)
incr-starts key ttl now later c up held = incr-counts key (pos 1) ttl now later c up (ground arith)

-- On a cache that is up, Incr of a key that holds a number below the greatest: the key reads as one more
-- for a whole new time to live, and every other key reads as before.
pub incr-get :
    (key k : String) (n : ℤ) (ttl now later : ℕ) (c : RedisCache)
    → c.faults ≡ []
    → get key now c.entries ≡ some (number n)
    → leb_ℤ (pos int64_max) n ≡ false
    → get k later (incr key ttl now c).1.entries ≡ (
        if str_eq key k
        then (if ltb later (now + ttl) then some (number (n +ℤ pos 1)) else none)
        else get k later c.entries)
incr-get key k n ttl now later c up held small = elim (Bool-cases (str_eq key k)) [
  | inl own ↦ ground (arith, eq_iff key k, incr-renews key n ttl now later c up held small)
  | inr other ↦ ground (arith, incr-other key k ttl now later c other)
]
