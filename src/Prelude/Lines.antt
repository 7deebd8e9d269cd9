-- ===== src/Prelude/Lines.antt =====
-- Go's `strings.Split(s, "\n")`, `strings.Cut(s, "\n")`, `strings.HasPrefix` and the `%d` of an int.
use Prim.Native.Char.{Char, code}
use Prim.Native.String.{[] as empty, ◌∷◌ as cons, ◌++◌ as append}
use kubehealth.Prelude.{Bool, true, false, String, List, [], ◌∷◌, ◌==◌, suc, decimal, if◌then◌else◌}
use kubehealth.Prelude.Int.{ℤ, pos, negsuc}

-- What stands before the first line break, and what stands after it: `strings.Cut`.
unfoldable pub cut_line : String → String × String
cut_line empty = ("", "")
cut_line (cons c s) =
    let (line, rest) = cut_line s in if code c == 10 then ("", s) else (cons c line, rest)

-- `c` in front of the first line.
abbrev on_first : Char → List String → List String
on_first c [] = cons c "" ∷ []
on_first c (l ∷ lines) = cons c l ∷ lines

-- `strings.Split(s, "\n")`: one line more than there are breaks.
unfoldable pub split_lines : String → List String
split_lines empty = "" ∷ []
split_lines (cons c s) =
    let rest = split_lines s in if code c == 10 then "" ∷ rest else on_first c rest

-- `strings.HasPrefix(s, prefix)`
unfoldable pub has_prefix : String → String → Bool
has_prefix s empty = true
has_prefix empty (cons d prefix) = false
has_prefix (cons c s) (cons d prefix) =
    let rest = has_prefix s prefix in if code c == code d then rest else false

unfoldable pub decimal_ℤ : ℤ → String
unfolding decimal
decimal_ℤ (pos n) = decimal n
decimal_ℤ (negsuc n) = append "-" (decimal (suc n))
