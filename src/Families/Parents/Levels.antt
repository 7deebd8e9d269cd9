-- ===== src/Families/Parents/Levels.antt =====
-- A detected parent (main.go) is an object that the namespace has, of a kind that stands higher.
use Prim.Native.String.{len}
use kubehealth.Prelude.{
  ◌≡◌, ℕ, ◌<◌, Bool, true, false, ◌&&◌, ◌||◌, String, Option, none, some, arith, ◌==◌, str_eq,
  Bool-cases, Option-cases, inl, inr, if◌then◌else◌,
}
use kubehealth.Owners.{ObjRef}
use kubehealth.Owners.Names.{strip_last, is_all_digits}
use kubehealth.Families.Parents.{
  is_alphanum_lower, if_known, parent_of_pod, detect_from, detect_parent,
}

abbrev pub level : String → ℕ
level kind =
    if str_eq kind "Pod" then 0 else if str_eq kind "ReplicaSet" || str_eq kind "Job" then 1 else 2

abbrev pub IsAbove : (String → String → Bool) → ℕ → Option ObjRef → Type 0
IsAbove has n none = Unit
IsAbove has n (some p) = (has p.kind p.name ≡ true) × (n < level p.kind)

module _ (has : String → String → Bool) where
  if_known-IsAbove :
      (n : ℕ) (kind name : String) (otherwise : Option ObjRef)
      → n < level kind
      → IsAbove has n otherwise
      → IsAbove has n (if_known has kind name otherwise)
  if_known-IsAbove n kind name otherwise lt h = elim (Bool-cases (has kind name)) [
    | inl e ↦ rw e (e, lt)
    | inr e ↦ rw e h
  ]

  if-IsAbove :
      (n : ℕ) (b : Bool) (o : Option ObjRef)
      → IsAbove has n o
      → IsAbove has n (if b then o else none)
  if-IsAbove n true o h = h
  if-IsAbove n false o h = tt

  parent_of_pod-IsAbove : (prefix suffix : String) → IsAbove has 0 (parent_of_pod has prefix suffix)
  unfolding parent_of_pod
  parent_of_pod-IsAbove prefix suffix =
      let generated = if-IsAbove 0 ((len suffix == 5) && is_alphanum_lower suffix) _ (
        if_known-IsAbove 0 "ReplicaSet" prefix _ (omega arith) (
          if_known-IsAbove 0 "Job" prefix _ (omega arith)
            (if_known-IsAbove 0 "DaemonSet" prefix none (omega arith) tt))) in
      elim (Bool-cases (is_all_digits suffix)) [
        | inl e ↦ rw e (if_known-IsAbove 0 "StatefulSet" prefix _ (omega arith) generated)
        | inr e ↦ rw e generated
      ]

  detect_from-IsAbove :
      (kind prefix suffix : String) → IsAbove has (level kind) (detect_from has kind prefix suffix)
  unfolding detect_from
  detect_from-IsAbove kind prefix suffix = elim (Bool-cases (str_eq kind "Pod")) [
    | inl e ↦ rw e (parent_of_pod-IsAbove prefix suffix)
    | inr e ↦ elim (Bool-cases (str_eq kind "ReplicaSet")) [
      | inl f ↦
          rw (e, f)
            (if-IsAbove 1 _ _ (if_known-IsAbove 1 "Deployment" prefix none (omega arith) tt))
      | inr f ↦ elim (Bool-cases (str_eq kind "Job")) [
        | inl g ↦
            rw (e, f, g)
              (if-IsAbove 1 _ _ (if_known-IsAbove 1 "CronJob" prefix none (omega arith) tt))
        | inr g ↦ rw (e, f, g) tt
      ]
    ]
  ]

  pub detect_parent-IsAbove :
      (kind name : String) → IsAbove has (level kind) (detect_parent kind name has)
  unfolding detect_parent
  detect_parent-IsAbove kind name = elim (Option-cases (strip_last name)) [
    | inl e ↦ rw (e, detect_parent) tt
    | inr ((prefix, suffix), e) ↦ rw (e, detect_parent) (detect_from-IsAbove kind prefix suffix)
  ]
