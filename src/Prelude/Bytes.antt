-- ===== src/Prelude/Bytes.antt =====
-- The bytes of a text: Go's strings are bytes, of which `len(s)` and `s[i]` speak.
use Prim.Native.Char.{code}
use Prim.Native.String.{[] as empty, ◌∷◌ as char}
use kubehealth.Prelude.{ℕ, ◌+◌, ◌/◌, ◌%◌, String, List, [], ◌∷◌, ◌++◌, ltb, length, if◌then◌else◌}

-- One of the bytes after the first of a code point.
abbrev tail_byte : ℕ → ℕ
tail_byte c = 128 + c % 64

-- A code point in UTF-8.
abbrev encode : ℕ → List ℕ
encode c =
    if ltb c 128
    then c ∷ []
    else if ltb c 2048
    then (192 + c / 64) ∷ tail_byte c ∷ []
    else if ltb c 65536
    then (224 + c / 4096) ∷ tail_byte (c / 64) ∷ tail_byte c ∷ []
    else (240 + c / 262144) ∷ tail_byte (c / 4096) ∷ tail_byte (c / 64) ∷ tail_byte c ∷ []

unfoldable pub bytes_of : String → List ℕ
bytes_of empty = []
bytes_of (char c s) = encode (code c) ++ bytes_of s

-- `len(s)`
unfoldable pub byte_length : String → ℕ
unfolding bytes_of
byte_length s = length (bytes_of s)
