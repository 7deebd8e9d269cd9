-- ===== src/Examples/Caches.antt =====
-- The caches, the feed and the sweep.
use kubehealth.Prelude.{◌≡◌, refl, ◌+◌, String, [], ◌∷◌, arith, eq_iff, In}
use kubehealth.Time.{second}
use kubehealth.Caches.{all_namespace_events, scope_events, namespace_events, cluster_scope_ns}
use kubehealth.Caches.Maps.{lookup}
use kubehealth.Events.{merge_events}
use kubehealth.Caches.Views.{IsClusterScoped, IsKnown, scope_events_cluster}
use kubehealth.Caches.Feed.{refresh_warnings, warn_feed_max_pages}
use kubehealth.Caches.Feed.Refresh.{listing, IsRefreshed, refresh_warnings_lem}
use kubehealth.Caches.Sweep.{stalest}
use kubehealth.Caches.Sweep.Stalest.{IsStalest, stalest_lem}
use kubehealth.Examples.Samples.{noon, small_cluster, idle_feed, not_ready, two_pages}

cluster_page : scope_events small_cluster cluster_scope_ns ≡ not_ready ∷ []
unfolding scope_events all_namespace_events namespace_events merge_events
cluster_page = refl

oldest_first : stalest small_cluster.ns_cache ("shop" ∷ "default" ∷ []) ≡ "default"
unfolding stalest lookup
oldest_first = refl

scope_events_cluster_example :
    (In not_ready (scope_events small_cluster cluster_scope_ns)
      → IsClusterScoped not_ready
        × ((ns : String) × IsKnown small_cluster ns
            × In not_ready (namespace_events small_cluster ns)))
    × ((ns : String)
        → IsKnown small_cluster ns
        → In not_ready (namespace_events small_cluster ns)
        → IsClusterScoped not_ready
        → In not_ready (scope_events small_cluster cluster_scope_ns))
scope_events_cluster_example = scope_events_cluster small_cluster not_ready

refresh_warnings_lem_example :
    IsRefreshed noon
      (noon + second)
      idle_feed
      (listing two_pages warn_feed_max_pages "")
      (refresh_warnings two_pages noon (noon + second) idle_feed)
refresh_warnings_lem_example = refresh_warnings_lem two_pages noon (noon + second) idle_feed

stalest_lem_example :
    In (stalest small_cluster.ns_cache ("shop" ∷ "default" ∷ [])) ("shop" ∷ "default" ∷ [])
    × IsStalest small_cluster.ns_cache
        (stalest small_cluster.ns_cache ("shop" ∷ "default" ∷ []))
        ("shop" ∷ "default" ∷ [])
stalest_lem_example =
    stalest_lem small_cluster.ns_cache "shop" ("default" ∷ [])
      ((λ q. ground (arith, eq_iff "shop" "")), ((λ q. ground (arith, eq_iff "default" "")), tt))
