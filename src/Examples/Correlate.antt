-- ===== src/Examples/Correlate.antt =====
-- The theorem on correlate.go at a concrete input.
use kubehealth.Prelude.{◌≡◌, refl, String, Option, none, some, []}
use kubehealth.Prelude.Int.{pos}
use kubehealth.Correlate.{Response, build_correlate_response}
use kubehealth.Correlate.Window.{build_correlate_response_lem, IsExact}
use kubehealth.Examples.Samples.{small_cluster}
use kubehealth.Caches.{namespace_events}
use kubehealth.Events.{merge_events}

abbrev pod_name : String
pod_name = "web-7d4b9c8f6d-x2k4p"

abbrev or_empty : Option Response → Response
or_empty none = record {
  time_from = 0;
  time_to = 0;
  window_from = pos 0;
  window_to = 0;
  correlated = [];
}
or_empty (some r) = r

abbrev answer : Response
answer = or_empty (build_correlate_response small_cluster "shop" "pod" pod_name)

abbrev has_answer : build_correlate_response small_cluster "shop" "pod" pod_name ≡ some answer
unfolding build_correlate_response namespace_events merge_events
has_answer = refl

build_correlate_response_lem_example :
    IsExact small_cluster "shop" "pod" pod_name
      (build_correlate_response small_cluster "shop" "pod" pod_name)
build_correlate_response_lem_example =
    build_correlate_response_lem small_cluster "shop" "pod" pod_name
