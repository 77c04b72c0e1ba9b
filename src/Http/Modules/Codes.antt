-- ===== src/Http/Modules/Codes.antt =====
-- backend-service/internal/http/module_handlers.go: the codes of schemes, and the module that they
-- belong to.
use Prim.Native.Char.{Char, code}
use Prim.Native.String.{◌++◌ as str_append}
use mathlib.Core.Path.{ap₂, subst}
use mathlib.Core.Bool.{not}
use text.Mathlib.TextLemmas.{append_assoc, nil-append, cons-append}
use electric_power_digital_d.Common.{
  ℕ, ◌≡◌, refl, sym, ap, String, Bool, true, false, ◌&&◌, List, [], ◌∷◌, arith, ◌==◌, Bool-cases,
  inl, inr, any,
}
use electric_power_digital_d.Http.Text.{capitals, capital, capital_in, to_upper, has_prefix}
use electric_power_digital_d.Http.Modules.{scheme_code, in_module}

-- A capital is no small letter.
is_small : Char → Bool
is_small c = any (λ (e : ℕ × Char). e.0 == code c) capitals

capital_in-absent :
    (t : List (ℕ × Char)) (c : Char)
    → any (λ (e : ℕ × Char). e.0 == code c) t ≡ false
    → capital_in t c ≡ c
unfolding capital_in
capital_in-absent [] c h = refl
capital_in-absent ((n, u) ∷ t) c h = ground (arith, capital_in-absent t c)

-- Whether the images of a table are no small letters.
all_large : List (ℕ × Char) → Bool
all_large [] = true
all_large ((n, u) ∷ t) = not (is_small u) && all_large t

-- The image of a character in a table is no small letter.
capital_in-large :
    (t : List (ℕ × Char)) (c : Char)
    → all_large t ≡ true
    → any (λ (e : ℕ × Char). e.0 == code c) t ≡ true
    → is_small (capital_in t c) ≡ false
unfolding capital_in all_large
capital_in-large [] c a h = cc
capital_in-large ((n, u) ∷ t) c a h = ground (arith, capital_in-large t c)

capitals-large : all_large capitals ≡ true
unfolding all_large is_small
capitals-large = refl

capital-large : (c : Char) → is_small (capital c) ≡ false
unfolding capital
capital-large c = elim (Bool-cases (is_small c)) [
  | inl small ↦ capital_in-large capitals c capitals-large (unfold is_small in small)
  | inr large ↦ rw (capital_in-absent capitals c (unfold is_small in large)) large
]

capital_of_large : (c : Char) → is_small c ≡ false → capital c ≡ c
unfolding capital
capital_of_large c large = capital_in-absent capitals c (unfold is_small in large)

to_upper_idem : (s : String) → to_upper (to_upper s) ≡ to_upper s
unfolding to_upper
to_upper_idem String.[] = refl
to_upper_idem (String.◌∷◌ c s) =
    ap₂ String.◌∷◌ (capital_of_large (capital c) (capital-large c)) (to_upper_idem s)

has_prefix-nil : (s : String) → has_prefix s "" ≡ true
unfolding has_prefix
has_prefix-nil String.[] = refl
has_prefix-nil (String.◌∷◌ c s) = refl

has_prefix-append : (p s : String) → has_prefix (str_append p s) p ≡ true
unfolding has_prefix
has_prefix-append String.[] s = has_prefix-nil (str_append "" s)
has_prefix-append (String.◌∷◌ c p) s =
    rw (cons-append c p s) (ground (arith, has_prefix-append p s))

to_upper-append : (s t : String) → to_upper (str_append s t) ≡ str_append (to_upper s) (to_upper t)
unfolding to_upper
to_upper-append String.[] t = rw (nil-append t, nil-append (to_upper t))
to_upper-append (String.◌∷◌ c s) t =
    rw (cons-append c s t, cons-append (capital c) (to_upper s) (to_upper t))
      (ap (String.◌∷◌ (capital c)) (to_upper-append s t))

to_upper-dash : to_upper "-" ≡ "-"
unfolding to_upper capital
to_upper-dash = refl

-- The code under which a job of a module is submitted belongs to that module, however the names
-- are spelled.
in_module-scheme_code :
    (mod_name workflow : String) → in_module mod_name (scheme_code mod_name workflow) ≡ true
unfolding in_module scheme_code
in_module-scheme_code mod_name workflow =
    subst (λ t. has_prefix t (str_append (to_upper mod_name) "-") ≡ true) (sym shape)
      (has_prefix-append (str_append (to_upper mod_name) "-") (to_upper (to_upper workflow)))
  where
    shape :
        to_upper (str_append (to_upper mod_name) (str_append "-" (to_upper workflow)))
        ≡ str_append (str_append (to_upper mod_name) "-") (to_upper (to_upper workflow))
    shape = simp (to_upper-append, to_upper_idem, to_upper-dash, append_assoc)
