-- ===== src/Http/Query.antt =====
-- The query parameters of backend-service/internal/http/handlers.go: DefaultQuery, strconv.Atoi and
-- the limits that ListJobs and ListModuleJobs put on a page.
use electric_power_digital_d.Common.{
  ℕ, ◌+◌, ◌-◌, ◌*◌, String, ◌||◌, List, [], ◌∷◌, str_eq, leb, ◌==◌, if◌then◌else◌,
}
use electric_power_digital_d.Common.Int.{ℤ, pos, negsuc, int64_max, int64_mod, ltb_ℤ}
use electric_power_digital_d.Config.{codes, is_digit}

abbrev pub Params : Type 0
Params = List (String × String)

-- c.DefaultQuery: a parameter that is there but empty is "".
abbrev pub default_query : String → String → Params → String
default_query k d [] = d
default_query k d ((j, v) ∷ ps) = if str_eq j k then v else default_query k d ps

pub data Digits : Type 0 where
  value : ℕ → Digits
  too_large : Digits
  bad_syntax : Digits

-- strconv.ParseUint in base 10: it stops at the first digit that leaves 64 bits.
unfoldable pub parse_digits : ℕ → List ℕ → Digits
parse_digits acc [] = value acc
parse_digits acc (c ∷ cs) =
    let rest = parse_digits (acc * 10 + (c - b'0')) cs in
    if is_digit c
    then if leb int64_mod (acc * 10 + (c - b'0')) then too_large else rest
    else bad_syntax

abbrev parse_magnitude : List ℕ → Digits
parse_magnitude [] = bad_syntax
parse_magnitude (c ∷ cs) = parse_digits 0 (c ∷ cs)

abbrev clamp_positive : Digits → ℤ
clamp_positive (value n) = if leb n int64_max then pos n else pos int64_max
clamp_positive too_large = pos int64_max
clamp_positive bad_syntax = pos 0

abbrev clamp_negative : Digits → ℤ
clamp_negative (value n) =
    if n == 0 then pos 0 else if leb n (int64_max + 1) then negsuc (n - 1) else negsuc int64_max
clamp_negative too_large = negsuc int64_max
clamp_negative bad_syntax = pos 0

abbrev atoi_codes : List ℕ → ℤ
atoi_codes [] = pos 0
atoi_codes (c ∷ cs) =
    if c == b'-'
    then clamp_negative (parse_magnitude cs)
    else if c == b'+'
    then clamp_positive (parse_magnitude cs)
    else clamp_positive (parse_magnitude (c ∷ cs))

-- The number of `n, _ := strconv.Atoi(s)`: 0 for a text that is no number, and the nearest limit
-- for one that does not fit.
unfoldable pub atoi : String → ℤ
unfolding parse_digits
atoi s = atoi_codes (codes s)

-- `if page < 1 { page = 1 }`
unfoldable pub clamp_page : ℤ → ℤ
clamp_page page = if ltb_ℤ page (pos 1) then pos 1 else page

-- `if pageSize < 1 || pageSize > 100 { pageSize = 20 }`
unfoldable pub clamp_page_size : ℤ → ℤ
clamp_page_size n = if ltb_ℤ n (pos 1) || ltb_ℤ (pos 100) n then pos 20 else n
