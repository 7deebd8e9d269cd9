-- ===== src/Prelude/Texts.antt =====
-- Texts: Go's `==` and `<` on strings. `compare` of the native texts goes by code points, which is
-- the order of their UTF-8 bytes, so it is Go's.
use Prim.Native.Nat.{ℕ, zero, suc, ◌/◌, ◌%◌}
use Prim.Native.String.{String, compare, ◌++◌ as append}
use mathlib.Core.Bool.{Bool}
use mathlib.Core.List.{List, [], ◌∷◌}
use text.Mathlib.Text.{is_lt, ◌==◌ as text_eq}
use kubehealth.Prelude.Tests.{ltb, ◌==◌, if◌then◌else◌}
pub use text.Mathlib.TextEquality.{eq_iff}
pub use text.Mathlib.TextPositions.{eq_refl}

abbrev pub str_eq : String → String → Bool
str_eq s t = text_eq s t

abbrev pub str_ltb : String → String → Bool
str_ltb s t = is_lt (compare s t)

-- The texts of a list one after the other: Go's `+` and `fmt.Sprintf` over them.
abbrev pub text_of : List String → String
text_of [] = ""
text_of (s ∷ l) = append s (text_of l)

-- `strings.Join`
abbrev pub join : String → List String → String
join sep [] = ""
join sep (s ∷ []) = s
join sep (s ∷ t ∷ l) = append s (append sep (join sep (t ∷ l)))

abbrev digit_of : ℕ → String
digit_of n =
    if n == 0
    then "0"
    else if n == 1
    then "1"
    else if n == 2
    then "2"
    else if n == 3
    then "3"
    else if n == 4
    then "4"
    else if n == 5
    then "5"
    else if n == 6
    then "6"
    else if n == 7
    then "7"
    else if n == 8
    then "8"
    else "9"

decimal_fuel : ℕ → ℕ → String
decimal_fuel zero n = digit_of n
decimal_fuel (suc f) n =
    let rest = decimal_fuel f (n / 10) in
    if ltb n 10 then digit_of n else append rest (digit_of (n % 10))

-- The `%d` of a number; its own value is fuel enough, since n / 10 < n.
unfoldable pub decimal : ℕ → String
unfolding decimal_fuel
decimal n = decimal_fuel n n
