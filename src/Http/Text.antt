-- ===== src/Http/Text.antt =====
-- The functions of Go's package `strings` that backend-service/internal/http/module_handlers.go
-- calls, on texts of ASCII letters, digits and marks: ToUpper, HasPrefix and Split at a dash. A
-- character beyond ASCII is its own capital here.
use Prim.Native.Char.{Char, code}
use electric_power_digital_d.Common.{
  ℕ, String, Bool, true, false, List, [], ◌∷◌, ◌==◌, if◌then◌else◌, ◌&&◌,
}

-- The capital of each small letter.
abbrev pub capitals : List (ℕ × Char)
capitals =
    (b'a', "A")
    ∷ (b'b', "B")
    ∷ (b'c', "C")
    ∷ (b'd', "D")
    ∷ (b'e', "E")
    ∷ (b'f', "F")
    ∷ (b'g', "G")
    ∷ (b'h', "H")
    ∷ (b'i', "I")
    ∷ (b'j', "J")
    ∷ (b'k', "K")
    ∷ (b'l', "L")
    ∷ (b'm', "M")
    ∷ (b'n', "N")
    ∷ (b'o', "O")
    ∷ (b'p', "P")
    ∷ (b'q', "Q")
    ∷ (b'r', "R")
    ∷ (b's', "S")
    ∷ (b't', "T")
    ∷ (b'u', "U")
    ∷ (b'v', "V")
    ∷ (b'w', "W")
    ∷ (b'x', "X")
    ∷ (b'y', "Y")
    ∷ (b'z', "Z")
    ∷ []

unfoldable pub capital_in : List (ℕ × Char) → Char → Char
capital_in [] c = c
capital_in ((n, u) ∷ rest) c = if n == code c then u else capital_in rest c

-- unicode.ToUpper
unfoldable pub capital : Char → Char
unfolding capital_in
capital c = capital_in capitals c

-- strings.ToUpper
unfoldable pub to_upper : String → String
to_upper String.[] = ""
to_upper (String.◌∷◌ c s) = String.◌∷◌ (capital c) (to_upper s)

-- strings.HasPrefix
unfoldable pub has_prefix : String → String → Bool
has_prefix s String.[] = true
has_prefix String.[] (String.◌∷◌ p ps) = false
has_prefix (String.◌∷◌ c s) (String.◌∷◌ p ps) = code c == code p && has_prefix s ps

abbrev start_part : Char → List String → List String
start_part c [] = String.◌∷◌ c "" ∷ []
start_part c (p ∷ ps) = String.◌∷◌ c p ∷ ps

-- strings.Split(s, "-")
unfoldable pub split_dash : String → List String
split_dash String.[] = "" ∷ []
split_dash (String.◌∷◌ c s) =
    let rest = split_dash s in if code c == b'-' then "" ∷ rest else start_part c rest
