-- ===== src/Secrets/Bytes.antt =====
-- Go's `encoding/base64` and `unicode/utf8`, as yaml_view.go uses them: base64 texts to bytes, and which
-- bytes are a text.
use Prim.Native.Char.{code}
use Prim.Native.String.{[] as empty, ◌∷◌ as char}
use kubehealth.Prelude.{
  ℕ, zero, suc, ◌+◌, ◌-◌, ◌*◌, ◌/◌, ◌%◌, Bool, true, false, ◌&&◌, ◌||◌, String, Option, none, some,
  List, [], ◌∷◌, ltb, leb, ◌==◌, if◌then◌else◌,
}

-- The code points of a text but its line breaks, which `DecodeString` passes over.
unfoldable pub codes : String → List ℕ
codes empty = []
codes (char c s) =
    let rest = codes s in if (code c == 10) || (code c == 13) then rest else code c ∷ rest

-- The six bits of a character of the standard alphabet.
abbrev sextet : ℕ → Option ℕ
sextet c =
    if leb 65 c && leb c 90
    then some (c - 65)
    else if leb 97 c && leb c 122
    then some (c - 71)
    else if leb 48 c && leb c 57
    then some (c + 4)
    else if c == 43
    then some 62
    else if c == 47
    then some 63
    else none

-- `bytes` at the end of a text, where nothing follows the padding.
abbrev at_end : List ℕ → List ℕ → Option (List ℕ)
at_end bytes [] = some bytes
at_end bytes (c ∷ rest) = none

abbrev in_front : List ℕ → Option (List ℕ) → Option (List ℕ)
in_front (a ∷ b ∷ c ∷ more) (some bytes) = some (a ∷ b ∷ c ∷ bytes)
in_front (a ∷ b ∷ c ∷ more) none = none
in_front [] bytes = none
in_front (a ∷ []) bytes = none
in_front (a ∷ b ∷ []) bytes = none

-- The bytes of four sextets.
abbrev first : ℕ → ℕ → ℕ
first p q = p * 4 + q / 16

abbrev second : ℕ → ℕ → ℕ
second q r = (q % 16) * 16 + r / 4

abbrev third : ℕ → ℕ → ℕ
third r s = (r % 4) * 64 + s

-- The last two characters of four, after two that stand for `p` and `q`; 61 is the padding's code.
abbrev last_two : ℕ → ℕ → ℕ → ℕ → List ℕ → Option (List ℕ) → Option (List ℕ)
last_two p q c d rest decoded =
    if c == 61 then (if d == 61 then at_end (first p q ∷ []) rest else none) else elim (sextet c) [
      | none ↦ none
      | some r ↦ if d == 61 then at_end (first p q ∷ second q r ∷ []) rest else elim (sextet d) [
        | none ↦ none
        | some s ↦ in_front (first p q ∷ second q r ∷ third r s ∷ []) decoded
      ]
    ]

unfoldable pub decode_codes : List ℕ → Option (List ℕ)
decode_codes [] = some []
decode_codes (a ∷ b ∷ c ∷ d ∷ rest) =
    let decoded = decode_codes rest in
    elim (sextet a) [
      | none ↦ none
      | some p ↦ elim (sextet b) [ none ↦ none | some q ↦ last_two p q c d rest decoded ]
    ]
decode_codes (a ∷ []) = none
decode_codes (a ∷ b ∷ []) = none
decode_codes (a ∷ b ∷ c ∷ []) = none

-- `base64.StdEncoding.DecodeString`
unfoldable pub decode_string : String → Option (List ℕ)
unfolding codes decode_codes
decode_string s = decode_codes (codes s)

-- What follows a first byte: how many bytes, and the bounds of the next one.
abbrev after_first : ℕ → Option (ℕ × ℕ × ℕ)
after_first c =
    if ltb c 128
    then some (0, 128, 191)
    else if leb 194 c && leb c 223
    then some (1, 128, 191)
    else if c == 224
    then some (2, 160, 191)
    else if c == 237
    then some (2, 128, 159)
    else if leb 225 c && leb c 239
    then some (2, 128, 191)
    else if c == 240
    then some (3, 144, 191)
    else if leb 241 c && leb c 243
    then some (3, 128, 191)
    else if c == 244
    then some (3, 128, 143)
    else none

-- Whether bytes are a text when `need` bytes of a code point are still missing, the next from `lo` to `hi`.
unfoldable pub valid_from : ℕ → ℕ → ℕ → List ℕ → Bool
valid_from zero lo hi [] = true
valid_from (suc need) lo hi [] = false
valid_from zero lo hi (c ∷ bytes) = elim (after_first c) [
  | none ↦ false
  | some (need, low, high) ↦ valid_from need low high bytes
]
valid_from (suc need) lo hi (c ∷ bytes) =
    let rest = valid_from need 128 191 bytes in if leb lo c && leb c hi then rest else false

-- `utf8.Valid`
unfoldable pub utf8_valid : List ℕ → Bool
unfolding valid_from
utf8_valid bytes = valid_from 0 128 191 bytes
