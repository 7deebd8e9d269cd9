-- ===== src/Linked/Follow/Words.antt =====
-- Names and words in texts (linked.go): `containsWord` and `oneLine`.
use Prim.Native.Char.{code}
use Prim.Native.String.{[] as empty, ◌∷◌ as char}
use kubehealth.Prelude.{
  ℕ, Bool, true, false, not, ◌&&◌, ◌||◌, String, Option, none, some, List, [], ◌∷◌, str_eq, leb,
  ◌==◌, join, if◌then◌else◌,
}
use kubehealth.Prelude.Bytes.{bytes_of}
use kubehealth.Problems.Words.{is_space}

-- The words of a text, with the word that is being read.
abbrev word_then : String → List String → List String
word_then word rest = if str_eq word "" then rest else word ∷ rest

-- `strings.Fields`: the text's first word, up to a space or the end, and the words after it.
unfoldable pub split_word : String → String × List String
unfolding is_space
split_word empty = ("", [])
split_word (char c s) =
    let (word, rest) = split_word s in
    if is_space (code c) then ("", word_then word rest) else (char c word, rest)

-- `oneLine`
unfoldable pub one_line : String → String
unfolding split_word
one_line s = let (word, rest) = split_word s in join " " (word_then word rest)

-- `nameByte`
abbrev name_byte : ℕ → Bool
name_byte b =
    (b == 45)
    || ((b == 46)
        || ((b == 95)
            || ((leb 97 b && leb b 122) || ((leb 65 b && leb b 90) || (leb 48 b && leb b 57)))))

-- Whether bytes begin with no byte of a name.
abbrev no_name : List ℕ → Bool
no_name [] = true
no_name (b ∷ bytes) = not (name_byte b)

-- `after`: what follows a word. A trailing dot ends a sentence, not a name.
abbrev word_ends : List ℕ → Bool
word_ends [] = true
word_ends (b ∷ bytes) = not (name_byte b) || ((b == 46) && no_name bytes)

-- What follows a word at the front of some bytes.
unfoldable pub after_word : List ℕ → List ℕ → Option (List ℕ)
after_word [] bytes = some bytes
after_word (w ∷ word) [] = none
after_word (w ∷ word) (b ∷ bytes) =
    let rest = after_word word bytes in if w == b then rest else none

abbrev ends_here : Option (List ℕ) → Bool
ends_here none = false
ends_here (some rest) = word_ends rest

-- The loop of `containsWord`, with whether the byte before is no part of a name.
unfoldable pub scan_word : List ℕ → Bool → List ℕ → Bool
unfolding after_word
scan_word word before [] = false
scan_word word before (b ∷ bytes) =
    let later = scan_word word (not (name_byte b)) bytes in
    if before && ends_here (after_word word (b ∷ bytes)) then true else later

-- `containsWord`
unfoldable pub contains_word : String → String → Bool
unfolding scan_word bytes_of
contains_word s w = if str_eq w "" then false else scan_word (bytes_of w) true (bytes_of s)
