-- ===== src/Events.antt =====
-- `EventSummary` of main.go, and the two lists of events that warnings.go merges: `mergeEvents` and
-- `sortNewestFirst`.
pub mod Ordering
pub mod Merge
use kubehealth.Prelude.{
  ℕ, Bool, true, false, not, String, Option, none, some, List, [], ◌∷◌, ◌++◌, ◌||◌, ltb, ◌==◌,
  str_eq, str_ltb, if◌then◌else◌,
}
use kubehealth.Prelude.Int.{ℤ, ltb_ℤ}
use kubehealth.Prelude.Sort.{sort_by}
use kubehealth.Time.{Time, after}

pub record EventSummary : Type 0 where
  pub namespace : String
  pub name : String
  pub reason : String
  pub message : String
  pub type : String
  pub count : ℤ
  pub kind : String
  pub object_name : String
  pub object_namespace : String
  pub first_time : Time
  pub last_time : Time
  pub age : String

-- The comparison of `sortNewestFirst`.
unfoldable pub newer : EventSummary → EventSummary → Bool
newer a b =
    if not (a.last_time == b.last_time)
    then after a.last_time b.last_time
    else if not (str_eq a.namespace b.namespace)
    then str_ltb a.namespace b.namespace
    else str_ltb a.name b.name

unfoldable pub sort_newest_first : List EventSummary → List EventSummary
unfolding newer sort_by
sort_newest_first evs = sort_by newer evs

-- The second copy wins if it was observed more recently, or if its count is higher.
unfoldable pub pick : EventSummary → EventSummary → EventSummary
pick old e = if after e.last_time old.last_time || ltb_ℤ old.count e.count then e else old

-- One round of the loop over `extra`. `idx` always maps a name to the last position that holds it, so
-- the position is searched from the end; `none` says that no event has the name.
replace : EventSummary → List EventSummary → Option (List EventSummary)
replace e [] = none
replace e (x ∷ out) =
    let rest = replace e out in
    elim rest [
      | some out' ↦ some (x ∷ out')
      | none ↦ if str_eq x.name e.name then some (pick x e ∷ out) else none
    ]

merge_one : List EventSummary → EventSummary → List EventSummary
unfolding replace pick
merge_one out e = elim (replace e out) [ some out' ↦ out' | none ↦ out ++ e ∷ [] ]

merge_into : List EventSummary → List EventSummary → List EventSummary
unfolding merge_one
merge_into out [] = out
merge_into out (e ∷ extra) = merge_into (merge_one out e) extra

unfoldable pub merge_events : List EventSummary → List EventSummary → List EventSummary
unfolding merge_into sort_newest_first
merge_events base [] = base
merge_events base (e ∷ extra) = sort_newest_first (merge_into base (e ∷ extra))
