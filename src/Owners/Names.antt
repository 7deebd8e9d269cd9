-- ===== src/Owners/Names.antt =====
-- What a name says of an object's owner: `stripLast`, `isAllDigits` (main.go), `isSafeEncoded` and
-- `inferParent` (owners.go). The names are walked by characters; `len` counts bytes, as Go's does.
pub mod Prefixes
use Prim.Native.Char.{Char, code}
use Prim.Native.String.{[], ◌∷◌, len}
use kubehealth.Prelude.{
  ℕ, Bool, true, false, not, ◌&&◌, ◌||◌, String, Option, none, some, ltb, leb, ◌==◌, str_eq,
  if◌then◌else◌,
}
use kubehealth.Owners.{ObjRef}

-- `stripLast`: the parts before and after the last dash.
unfoldable pub strip_last : String → Option (String × String)
strip_last [] = none
strip_last (c ∷ s) = elim (strip_last s) [
  | some (p, q) ↦ some (c ∷ p, q)
  | none ↦ if code c == b'-' then some ([], s) else none
]

-- `isAllDigits`
all_digits : String → Bool
all_digits [] = true
all_digits (c ∷ s) = if leb b'0' (code c) && leb (code c) b'9' then all_digits s else false

unfoldable pub is_all_digits : String → Bool
unfolding all_digits
is_all_digits s = if len s == 0 then false else all_digits s

abbrev safe_alphabet : String
safe_alphabet = "bcdfghjklmnpqrstvwxz2456789"

contains_char : Char → String → Bool
contains_char c [] = false
contains_char c (d ∷ s) = if code d == code c then true else contains_char c s

all_safe : String → Bool
unfolding contains_char
all_safe [] = true
all_safe (c ∷ s) = if contains_char c safe_alphabet then all_safe s else false

-- `isSafeEncoded`
unfoldable pub is_safe_encoded : String → ℕ → ℕ → Bool
unfolding all_safe
is_safe_encoded s min_len max_len =
    if ltb (len s) min_len || ltb max_len (len s) then false else all_safe s

infer_pod : String → String → Option ObjRef
infer_pod prefix suffix =
    if is_all_digits suffix && leb (len suffix) 4
    then some (record { kind = "StatefulSet"; name = prefix })
    else if is_safe_encoded suffix 5 5
    then elim (strip_last prefix) [
      | none ↦ some (record { kind = ""; name = prefix })
      | some (p, s2) ↦
          if leb 8 (len s2) && leb (len s2) 10 && is_all_digits s2
          then some (record { kind = "Job"; name = prefix })
          else if is_safe_encoded s2 6 10
          then some (record { kind = "ReplicaSet"; name = prefix })
          else some (record { kind = ""; name = prefix })
    ]
    else none

infer_from : String → String → String → Option ObjRef
unfolding infer_pod
infer_from kind prefix suffix =
    if str_eq kind "Pod"
    then infer_pod prefix suffix
    else if str_eq kind "Job"
    then (if leb 8 (len suffix) && leb (len suffix) 10 && is_all_digits suffix
        then some (record { kind = "CronJob"; name = prefix })
        else none)
    else if str_eq kind "ReplicaSet"
    then (if is_safe_encoded suffix 6 10
        then some (record { kind = "Deployment"; name = prefix })
        else none)
    else none

-- `inferParent`
unfoldable pub infer_parent : ObjRef → Option ObjRef
unfolding strip_last infer_from is_all_digits is_safe_encoded
infer_parent r = elim (strip_last r.name) [
  | none ↦ none
  | some (prefix, suffix) ↦ if str_eq prefix "" then none else infer_from r.kind prefix suffix
]
