-- ===== src/Problems/Words.antt =====
-- The small helpers on words of problems.go: `plural` and `truncate`, with `strings.TrimSpace`.
pub mod Cut
use Prim.Native.Char.{code}
use Prim.Native.String.{[], ◌∷◌, ◌++◌}
use kubehealth.Prelude.{
  ℕ, zero, suc, Bool, false, ◌&&◌, ◌||◌, String, leb, ◌==◌, str_eq, if◌then◌else◌,
}

-- The number of code points: `len([]rune(s))`.
unfoldable pub runes : String → ℕ
runes [] = 0
runes (c ∷ s) = suc (runes s)

unfoldable pub first_runes : ℕ → String → String
first_runes zero s = ""
first_runes (suc n) [] = ""
first_runes (suc n) (c ∷ s) = c ∷ first_runes n s

-- `unicode.IsSpace`
unfoldable pub is_space : ℕ → Bool
is_space c =
    (leb 9 c && leb c 13)
    || (c == 32
        || (c == 133
            || (c == 160
                || (c == 5760
                    || ((leb 8192 c && leb c 8202)
                        || (c == 8232
                            || (c == 8233 || (c == 8239 || (c == 8287 || c == 12288)))))))))

trim_left : String → String
unfolding is_space
trim_left [] = ""
trim_left (c ∷ s) = if is_space (code c) then trim_left s else c ∷ s

trim_right : String → String
unfolding is_space
trim_right [] = ""
trim_right (c ∷ s) =
    let rest = trim_right s in if is_space (code c) && str_eq rest "" then "" else c ∷ rest

unfoldable pub trim_space : String → String
unfolding trim_left trim_right
trim_space s = trim_right (trim_left s)

-- `truncate`
unfoldable pub truncate : String → ℕ → String
unfolding runes first_runes trim_space
truncate s n = if leb (runes s) n then s else trim_space (first_runes n s) ++ "…"

ends_in_s : String → Bool
ends_in_s [] = false
ends_in_s (c ∷ s) = if str_eq s "" then code c == b's' else ends_in_s s

-- `plural`
unfoldable pub plural : String → ℕ → String
unfolding ends_in_s
plural kind n = if n == 1 then kind else if ends_in_s kind then kind ++ "es" else kind ++ "s"
