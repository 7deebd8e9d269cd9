-- ===== src/Caches/Sweep.antt =====
-- The worker of main.go: `fetchEvents`, `refreshNamespace` and `workerTick`. Parameters: the answers of
-- the API server, and the readings of the clock.
pub mod Stalest
use kubehealth.Prelude.{
  ℕ, Bool, true, false, not, String, Option, none, some, List, [], ◌∷◌, ◌||◌, ◌&&◌, ltb, leb,
  str_eq, if◌then◌else◌, map, length,
}
use kubehealth.Time.{Time, before}
use kubehealth.Events.{EventSummary, sort_newest_first}
use kubehealth.Caches.{Caches, NsEntry}
use kubehealth.Caches.Maps.{Map, lookup, store}
use kubehealth.Caches.Feed.{
  ApiEvent, Answer, page, failed, to_summary, warn_feed_due, refresh_warnings,
}

-- `fetchEvents`: one page of a namespace's events, newest first, and whether there are more.
fetch_events : Answer → Time → Option (List EventSummary × Bool)
fetch_events (failed message forbidden done) now = none
fetch_events (page items next) now =
    some (sort_newest_first (map (to_summary now) items), not (str_eq next ""))

-- `refreshNamespace`: an error leaves the cache as it was.
unfoldable pub refresh_namespace : (String → Answer) → Time → String → Map NsEntry → Map NsEntry
unfolding fetch_events
refresh_namespace list now ns cache = elim (fetch_events (list ns) now) [
  | none ↦ cache
  | some (events, more) ↦
      store ns (record { events = events; updated_at = now; truncated = more }) cache
]

-- The loop that picks the namespace whose entry is oldest; one that has no entry ends it.
pick_stalest : Map NsEntry → String → Time → List String → String
pick_stalest cache stalest time [] = stalest
pick_stalest cache stalest time (ns ∷ names) = elim (lookup ns cache) [
  | none ↦ ns
  | some entry ↦
      let older = str_eq stalest "" || before entry.updated_at time in
      pick_stalest cache (if older then ns else stalest) (if older then entry.updated_at else time)
        names
]

unfoldable pub stalest : Map NsEntry → List String → String
unfolding pick_stalest
stalest cache names = pick_stalest cache "" 0 names

-- The caches and the flag that `workerTick` sets.
pub record Sweep : Type 0 where
  pub caches : Caches
  pub ready : Bool

refresh_stalest : (String → Answer) → Time → List String → Map NsEntry → Map NsEntry
refresh_stalest list now names cache =
    let ns = stalest cache names in
    if str_eq ns "" then cache else refresh_namespace list now ns cache

-- The part of `workerTick` behind the feed's turn.
unfoldable pub sweep_tick : (String → Answer) → Time → List String → Sweep → Sweep
unfolding refresh_stalest
sweep_tick list now [] s = s
sweep_tick list now (n ∷ names) s =
    let cache = refresh_stalest list now (n ∷ names) s.caches.ns_cache in
    record {
      caches = record { ns_cache = cache; feed = s.caches.feed };
      ready = leb (length (n ∷ names)) (length cache);
    }

-- `workerTick`: one list call at most, for the feed if it is due, else for the stalest namespace.
unfoldable pub worker_tick :
    Bool → (String → Answer) → (String → Answer) → Time → Time → List String → Sweep → Sweep
unfolding sweep_tick
worker_tick all_ns feed_list ns_list now finished names s =
    if warn_feed_due all_ns now s.caches.feed
    then record {
      caches = record {
        ns_cache = s.caches.ns_cache;
        feed = refresh_warnings feed_list now finished s.caches.feed;
      };
      ready = s.ready;
    }
    else sweep_tick ns_list now names s
