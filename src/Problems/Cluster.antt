-- ===== src/Problems/Cluster.antt =====
-- `clusterProblems` of problems.go: warnings about cluster-scoped objects, by kind and reason.
use kubehealth.Prelude.{
  ◌-◌, ◌&&◌, String, List, [], ◌∷◌, ◌++◌, ltb, any, take, length, str_eq, text_of, join, decimal,
  if◌then◌else◌,
}
use kubehealth.Time.{Time}
use kubehealth.Events.{EventSummary, sort_newest_first}
use kubehealth.Caches.{cluster_scope_ns}
use kubehealth.Problems.{Problem, no_problem, fill_from_warnings}
use kubehealth.Problems.Words.{plural}

-- The warnings of one kind and reason.
pub record Group : Type 0 where
  pub kind : String
  pub reason : String
  pub events : List EventSummary

-- `groups[k] = append(groups[k], e)`
unfoldable pub add_to_group : EventSummary → List Group → List Group
add_to_group e [] = record { kind = e.kind; reason = e.reason; events = e ∷ [] } ∷ []
add_to_group e (g ∷ groups) =
    let rest = add_to_group e groups in
    if str_eq g.kind e.kind && str_eq g.reason e.reason
    then record g { events = g.events ++ e ∷ [] } ∷ groups
    else g ∷ rest

unfoldable pub group_all : List Group → List EventSummary → List Group
unfolding add_to_group
group_all groups [] = groups
group_all groups (e ∷ evs) = group_all (add_to_group e groups) evs

-- The names of the objects, each once, in the order of their events.
unfoldable pub object_names : List String → List EventSummary → List String
object_names names [] = names
object_names names (e ∷ evs) =
    object_names (if any (str_eq e.object_name) names then names else names ++ e.object_name ∷ [])
      evs

abbrev first_name : List EventSummary → String
first_name [] = ""
first_name (e ∷ evs) = e.object_name

-- The title of a group's row: the object, or how many there are.
group_title : Group → List String → String
unfolding plural decimal
group_title g (n ∷ []) = n
group_title g names =
    text_of (g.reason ∷ " on " ∷ decimal (length names) ∷ " " ∷ plural g.kind (length names) ∷ [])

group_members : List String → String
unfolding decimal
group_members (n ∷ []) = ""
group_members names =
    let shown = join ", " (take 3 names) in
    if ltb 3 (length names)
    then text_of (shown ∷ " +" ∷ decimal (length names - 3) ∷ " more" ∷ [])
    else shown

unfoldable pub cluster_problem : Time → Group → Problem
unfolding object_names group_title group_members fill_from_warnings sort_newest_first
cluster_problem now g =
    let evs = sort_newest_first g.events in
    let names = object_names [] evs in
    fill_from_warnings
      (record no_problem {
        key = text_of ("cluster:" ∷ g.kind ∷ "/" ∷ g.reason ∷ []);
        scope = "cluster";
        kind = g.kind;
        namespaces = [];
        open_ns = cluster_scope_ns;
        focus = text_of (g.kind ∷ "/" ∷ first_name evs ∷ []);
        title = group_title g names;
        members = group_members names;
      })
      evs now

each_problem : Time → List Group → List Problem
unfolding cluster_problem
each_problem now [] = []
each_problem now (g ∷ groups) = cluster_problem now g ∷ each_problem now groups

-- `clusterProblems`
unfoldable pub cluster_problems : List EventSummary → Time → List Problem
unfolding group_all each_problem
cluster_problems warnings now = each_problem now (group_all [] warnings)
