-- ===== src/Owners/Chain.antt =====
-- `ownerChain` and `cronJobFailingSince` of owners.go.
pub mod Confirmed
use kubehealth.Prelude.{
  ℕ, zero, suc, Bool, true, false, not, ◌&&◌, ◌||◌, String, Option, none, some, List, [], ◌∷◌,
  str_eq, text_of, if◌then◌else◌,
}
use kubehealth.Time.{Time, is_zero}
use kubehealth.Caches.Maps.{Map, lookup}
use kubehealth.Owners.{ObjRef, OwnerEntry, Owners, owner_key, owner_max_depth, fresh}
use kubehealth.Owners.Names.{infer_parent}

-- The API's answer about an object, if there is one that has not expired and the object exists.
unfoldable pub answer : Owners → Time → String → ObjRef → Option OwnerEntry
unfolding fresh
answer o now ns r = elim (lookup (owner_key ns r.kind r.name) o.known) [
  | none ↦ none
  | some e ↦ if not e.missing && fresh now e then some e else none
]

-- A guessed owner, with the kind that a sibling's answer gave to this name.
unfoldable pub guess : Owners → String → ObjRef → Option ObjRef
guess o ns r = elim (infer_parent r) [
  | none ↦ none
  | some p ↦ elim (lookup (text_of (ns ∷ "/" ∷ p.name ∷ [])) o.kind_of) [
    | some k ↦ some (record p { kind = k })
    | none ↦ some p
  ]
]

-- How one round of the loop goes on from an object: by the API's answer, by a guess, or not at all.
pub data Link : Type 0 where
  confirmed : ObjRef → Link
  guessed : ObjRef → Link
  top : Link

unfoldable pub link : Owners → Time → String → ObjRef → Link
unfolding answer guess
link o now ns r = elim (answer o now ns r) [
  | some e ↦ if str_eq e.parent.name "" then top else confirmed e.parent
  | none ↦ elim (guess o ns r) [ none ↦ top | some p ↦ guessed p ]
]

-- The loop, with the number of rounds left: what it appends to the chain, and `inferred`.
walk : Owners → Time → String → ℕ → ObjRef → Bool → List ObjRef × Bool
walk o now ns zero cur inferred = ([], inferred)
walk o now ns (suc rounds) cur inferred = elim (link o now ns cur) [
  | top ↦ ([], inferred)
  | confirmed p ↦ let (rest, inf) = walk o now ns rounds p inferred in (p ∷ rest, inf)
  | guessed p ↦ let (rest, inf) = walk o now ns rounds p true in (p ∷ rest, inf)
]

abbrev pub last_of : ObjRef → List ObjRef → ObjRef
last_of r [] = r
last_of r (p ∷ rest) = last_of p rest

-- The top of a longer chain must have an answer too, be it that it is gone.
unfoldable pub top_unknown : Owners → Time → String → ObjRef → Bool
unfolding fresh
top_unknown o now ns r = elim (lookup (owner_key ns r.kind r.name) o.known) [
  | none ↦ true
  | some e ↦ not (fresh now e)
]

finish : Owners → Time → String → ObjRef → List ObjRef × Bool → List ObjRef × Bool
unfolding top_unknown
finish o now ns obj ([], inferred) = (obj ∷ [], inferred)
finish o now ns obj (p ∷ rest, inferred) =
    (obj ∷ p ∷ rest, (if top_unknown o now ns (last_of p rest) then true else inferred))

-- `ownerChain`: the chain, object first, and whether it is only inferred.
unfoldable pub owner_chain : Owners → Time → String → ObjRef → List ObjRef × Bool
unfolding walk finish
owner_chain o now ns obj = finish o now ns obj (walk o now ns owner_max_depth obj false)

-- `cronJobFailingSince`: since when, and whether it never succeeded; `none` where `ok` is false.
unfoldable pub cron_job_failing_since : Owners → Time → String → String → Option (Time × Bool)
unfolding answer
cron_job_failing_since o now ns name =
    elim (answer o now ns (record { kind = "CronJob"; name = name })) [
      | none ↦ none
      | some e ↦
          if is_zero e.last_success
          then (if is_zero e.created then none else some (e.created, true))
          else some (e.last_success, false)
    ]
