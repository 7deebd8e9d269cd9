-- ===== src/Families/Parents.antt =====
-- The parent that an object's name shows, if the namespace has it: `isAlphanumLower` and `detectParent`
-- (main.go).
pub mod Levels
use Prim.Native.Char.{code}
use Prim.Native.String.{[], ◌∷◌, len}
use kubehealth.Prelude.{
  Bool, true, false, ◌&&◌, ◌||◌, String, Option, none, some, leb, ◌==◌, str_eq, if◌then◌else◌,
}
use kubehealth.Owners.{ObjRef}
use kubehealth.Owners.Names.{strip_last, is_all_digits}

all_alphanum : String → Bool
all_alphanum [] = true
all_alphanum (c ∷ s) =
    let rest = all_alphanum s in
    if (leb b'a' (code c) && leb (code c) b'z') || (leb b'0' (code c) && leb (code c) b'9')
    then rest
    else false

-- `isAlphanumLower`
unfoldable pub is_alphanum_lower : String → Bool
unfolding all_alphanum
is_alphanum_lower s = if len s == 0 then false else all_alphanum s

-- `has` and its answer.
abbrev pub if_known : (String → String → Bool) → String → String → Option ObjRef → Option ObjRef
if_known has kind name otherwise =
    if has kind name then some (record { kind = kind; name = name }) else otherwise

parent_of_pod : (String → String → Bool) → String → String → Option ObjRef
unfolding is_alphanum_lower is_all_digits
parent_of_pod has prefix suffix =
    let generated =
      if (len suffix == 5) && is_alphanum_lower suffix
      then if_known has "ReplicaSet" prefix
          (if_known has "Job" prefix (if_known has "DaemonSet" prefix none))
      else none in
    if is_all_digits suffix then if_known has "StatefulSet" prefix generated else generated

detect_from : (String → String → Bool) → String → String → String → Option ObjRef
unfolding parent_of_pod
detect_from has kind prefix suffix =
    if str_eq kind "Pod"
    then parent_of_pod has prefix suffix
    else if str_eq kind "ReplicaSet"
    then (if leb 6 (len suffix) && (leb (len suffix) 12 && is_alphanum_lower suffix)
        then if_known has "Deployment" prefix none
        else none)
    else if str_eq kind "Job"
    then (if leb 8 (len suffix) && (leb (len suffix) 10 && is_all_digits suffix)
        then if_known has "CronJob" prefix none
        else none)
    else none

-- `detectParent`; `none` is the empty kind.
unfoldable pub detect_parent : String → String → (String → String → Bool) → Option ObjRef
unfolding strip_last detect_from
detect_parent kind name has = elim (strip_last name) [
  | none ↦ none
  | some (prefix, suffix) ↦ detect_from has kind prefix suffix
]
