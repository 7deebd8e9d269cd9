-- ===== src/Caches.antt =====
-- One cluster's event caches: the sweep's `nsCache` (main.go) and the warning feed (warnings.go), and
-- the views of them that every page reads: `namespaceEvents`, `allNamespaceEvents`, `scopeEvents`.
-- A Go map is an association list with different keys; what a function returns from a `range` over a
-- map is in the list's order here.
pub mod Maps
pub mod Views
pub mod Feed
pub mod Sweep
use kubehealth.Prelude.{
  ℕ, Bool, true, false, not, String, Option, none, some, List, [], ◌∷◌, ◌++◌, ◌||◌, ◌&&◌, str_eq,
  if◌then◌else◌, keep, map, any,
}
use kubehealth.Time.{Time}
use kubehealth.Events.{EventSummary, sort_newest_first, merge_events}
use kubehealth.Caches.Maps.{Map, lookup, lookup_or, keys}

-- `nsEntry`
pub record NsEntry : Type 0 where
  pub events : List EventSummary
  pub updated_at : Time
  pub truncated : Bool

-- `warnFeedState`
pub record WarnFeed : Type 0 where
  pub by_ns : Map (List EventSummary)
  pub fetched_at : Time
  pub attempted_at : Time
  pub truncated : Bool
  pub disabled : Bool
  pub last_err : String

pub record Caches : Type 0 where
  pub ns_cache : Map NsEntry
  pub feed : WarnFeed

abbrev pub cluster_scope_ns : String
cluster_scope_ns = "_cluster"

events_of : Option NsEntry → List EventSummary
events_of none = []
events_of (some entry) = entry.events

-- `namespaceEvents`: a missing map entry is the nil slice.
unfoldable pub namespace_events : Caches → String → List EventSummary
unfolding events_of lookup_or
namespace_events c ns =
    merge_events (events_of (lookup ns c.ns_cache)) (lookup_or [] ns c.feed.by_ns)

-- The set of names, each once, in the order in which the two caches hold them.
add_names : List String → List String → List String
add_names names [] = names
add_names names (n ∷ more) =
    add_names (if any (str_eq n) names then names else names ++ n ∷ []) more

unfoldable pub known_names : Caches → List String
unfolding add_names keys
known_names c = add_names (add_names [] (keys c.ns_cache)) (keys c.feed.by_ns)

events_for : Caches → List String → Map (List EventSummary)
events_for c [] = []
events_for c (ns ∷ names) = (ns, namespace_events c ns) ∷ events_for c names

unfoldable pub all_namespace_events : Caches → Map (List EventSummary)
unfolding events_for known_names
all_namespace_events c = events_for c (known_names c)

abbrev is_cluster_scoped : EventSummary → Bool
is_cluster_scoped e = str_eq e.object_namespace "" && not (str_eq e.kind "")

cluster_scoped : Map (List EventSummary) → List EventSummary
cluster_scoped [] = []
cluster_scoped ((ns, evs) ∷ m) = keep is_cluster_scoped evs ++ cluster_scoped m

-- `scopeEvents`
unfoldable pub scope_events : Caches → String → List EventSummary
unfolding cluster_scoped sort_newest_first
scope_events c ns =
    if str_eq ns cluster_scope_ns
    then sort_newest_first (cluster_scoped (all_namespace_events c))
    else keep (λ e. not (str_eq e.object_namespace "") || str_eq e.kind "") (namespace_events c ns)

-- `apiNamespace`
pub api_namespace : String → String
api_namespace ns = if str_eq ns cluster_scope_ns then "" else ns
