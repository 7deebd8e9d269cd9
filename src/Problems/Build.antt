-- ===== src/Problems/Build.antt =====
-- `buildProblems` of problems.go. Parameter: `format_local`, as for the groups.
use kubehealth.Prelude.{String, List, [], ◌++◌}
use kubehealth.Time.{Time}
use kubehealth.Events.{EventSummary}
use kubehealth.Caches.Maps.{Map}
use kubehealth.Owners.{Owners}
use kubehealth.Problems.{Problem, sort_problems}
use kubehealth.Problems.Cluster.{cluster_problems}
use kubehealth.Problems.Members.{namespace_problems}
use kubehealth.Problems.Patterns.{group_patterns}

module _ (format_local : String → Time → String) where
  -- The rows of the home page, and the owners with the requests that the groups made.
  unfoldable pub build_problems : Map (List EventSummary) → Time → Owners → List Problem × Owners
  unfolding namespace_problems cluster_problems group_patterns sort_problems
  build_problems events now o =
      let (problems, cluster, o') = namespace_problems format_local now events [] o in
      let all = problems ++ cluster_problems cluster now in
      (sort_problems (group_patterns format_local all now), o')
