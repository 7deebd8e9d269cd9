-- ===== src/Owners/Names/Prefixes.antt =====
-- `inferParent` only ever cuts the last dash and what follows it off a name.
use Prim.Native.Char.{Char, code}
use Prim.Native.String.append
use Prim.Native.String.{[], ◌∷◌, ◌++◌}
use text.Mathlib.TextEquality.{Char-path}
use kubehealth.Prelude.{
  ◌≡◌, ◌≢◌, refl, sym, ap, ◌∙◌, subst, ◌⊎◌, if◌then◌else◌, Bool, true, false, String, none, some,
  arith, ◌==◌, str_eq, eq_iff, Bool-cases, Option-cases, inl, inr,
}
use kubehealth.Owners.{ObjRef}
use kubehealth.Owners.Names.{strip_last, infer_pod, infer_from, infer_parent}

-- No character of a text is the dash.
pub has_dash : String → Bool
has_dash [] = false
has_dash (c ∷ s) = if code c == b'-' then true else has_dash s

abbrev pub HasNoDash : String → Type 0
HasNoDash s = has_dash s ≡ false

no_dash : (s : String) → strip_last s ≡ none → HasNoDash s
unfolding strip_last has_dash
no_dash [] h = refl
no_dash (c ∷ s) h = ground (arith, no_dash s)

-- What a split of a text with a head came from.
strip_last-cons :
    (c : Char) (s p q : String)
    → strip_last (c ∷ s) ≡ some (p, q)
    → ((p' : String) × (strip_last s ≡ some (p', q)) × (p ≡ c ∷ p'))
      ⊎ ((strip_last s ≡ none) × (code c ≡ b'-') × (p ≡ []) × (q ≡ s))
unfolding strip_last
strip_last-cons c s p q h = elim (Option-cases (strip_last s)) [
  | inl none_left ↦ inr (none_left, ground arith, ground arith, ground arith)
  | inr ((p', q'), found) ↦ inl (p', found ∙ ap (λ t. some (p', t)) (ground arith), ground arith)
]

abbrev dash : Char
dash = "-"

joined : (c : Char) (s p q : String) → code c ≡ b'-' → p ≡ [] → q ≡ s → c ∷ s ≡ p ++ ("-" ++ q)
joined c s p q h e f =
    ap (λ d. d ∷ s) (Char-path c dash h)
    ∙ ap (λ t. dash ∷ t) (sym f ∙ sym (append.nil q))
    ∙ sym (append.cons dash [] q)
    ∙ sym (append.nil ("-" ++ q))
    ∙ ap (λ t. t ++ ("-" ++ q)) (sym e)

strip_last_lem : (s p q : String) → strip_last s ≡ some (p, q) → (s ≡ p ++ ("-" ++ q)) × HasNoDash q
unfolding strip_last
strip_last_lem [] p q h = cc
strip_last_lem (c ∷ s) p q h = elim (strip_last-cons c s p q h) [
  | inl (p', found, e) ↦
      let r = strip_last_lem s p' q found in
      (
        ap (λ t. c ∷ t) r.0 ∙ sym (append.cons c p' ("-" ++ q)) ∙ ap (λ t. t ++ ("-" ++ q)) (sym e),
        r.1,
      )
  | inr (gone, at_dash, e, f) ↦
      (joined c s p q at_dash e f, subst HasNoDash (sym f) (no_dash s gone))
]

-- Which kinds of objects `inferParent` takes for the owner of which.
pub data OwnerKind (child parent : String) : Type 0 where
  pod_of :
      child ≡ "Pod"
      → (parent ≡ "StatefulSet") ⊎ ((parent ≡ "Job") ⊎ ((parent ≡ "ReplicaSet") ⊎ (parent ≡ "")))
      → OwnerKind child parent
  job_of : child ≡ "Job" → parent ≡ "CronJob" → OwnerKind child parent
  replica_set_of : child ≡ "ReplicaSet" → parent ≡ "Deployment" → OwnerKind child parent

infer_pod_lem :
    (prefix suffix : String) (p : ObjRef)
    → infer_pod prefix suffix ≡ some p
    → (p.name ≡ prefix)
      × ((p.kind ≡ "StatefulSet") ⊎ ((p.kind ≡ "Job") ⊎ ((p.kind ≡ "ReplicaSet") ⊎ (p.kind ≡ ""))))
unfolding infer_pod
infer_pod_lem prefix suffix p h = ground arith

infer_from_lem :
    (kind prefix suffix : String) (p : ObjRef)
    → infer_from kind prefix suffix ≡ some p
    → (p.name ≡ prefix) × OwnerKind kind p.kind
unfolding infer_from
infer_from_lem kind prefix suffix p h = elim (Bool-cases (str_eq kind "Pod")) [
  | inl pod ↦
      let r = infer_pod_lem prefix suffix p (rw (pod, infer_from) at h) in
      (r.0, pod_of ((eq_iff kind "Pod").0 pod) r.1)
  | inr other ↦ elim (Bool-cases (str_eq kind "Job")) [
    | inl job ↦ (ground arith, job_of ((eq_iff kind "Job").0 job) (ground arith))
    | inr third ↦ elim (Bool-cases (str_eq kind "ReplicaSet")) [
      | inl rs ↦ (ground arith, replica_set_of ((eq_iff kind "ReplicaSet").0 rs) (ground arith))
      | inr none_left ↦ absurd (ground arith)
    ]
  ]
]

-- What `inferParent` guesses is not empty, is what stands before the last dash of the name, and is a
-- controller that this kind of object can have (the empty kind: one of several).
pub infer_parent_lem :
    (r p : ObjRef)
    → infer_parent r ≡ some p
    → (p.name ≢ "")
      × OwnerKind r.kind p.kind
      × ((suffix : String) × (r.name ≡ p.name ++ ("-" ++ suffix)) × HasNoDash suffix)
unfolding infer_parent
infer_parent_lem r p h = elim (Option-cases (strip_last r.name)) [
  | inl gone ↦ absurd (ground arith)
  | inr ((prefix, suffix), found) ↦ elim (Bool-cases (str_eq prefix "")) [
    | inl bare ↦ absurd (ground arith)
    | inr named ↦
        let (same, kinds) = infer_from_lem r.kind prefix suffix p (ground arith) in
        let (whole, tail) = strip_last_lem r.name prefix suffix found in
        (
          (λ q. ground (arith, eq_iff prefix "")),
          kinds,
          (suffix, whole ∙ ap (λ t. t ++ ("-" ++ suffix)) (sym same), tail),
        )
  ]
]
