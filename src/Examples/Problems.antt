-- ===== src/Examples/Problems.antt =====
-- The theorems on problems.go at concrete inputs.
use mathlib.Core.List.{Permᴰ}
use kubehealth.Prelude.{
  ◌≡◌, refl, String, ℕ, ◌+◌, ◌*◌, ◌≤◌, ◌++◌, ◌&&◌, ◌⊎◌, ◌<◌, Bool, true, List, [], ◌∷◌, arith,
  eq_iff, All, Pairs, length, any, str_eq, if◌then◌else◌,
}
use kubehealth.Prelude.Int.{pos}
use kubehealth.Prelude.Sort.{IsSorted}
use kubehealth.Time.{Time, second, minute, hour, sub}
use kubehealth.Events.{EventSummary}
use kubehealth.Caches.Maps.{Map, keys}
use kubehealth.Owners.{Owners}
use kubehealth.Problems.{
  Problem, ReasonCount, no_problem, fill_from_warnings, tier_of, message_max_len, sort_problems,
  stands_before,
}
use kubehealth.Problems.Words.{truncate, runes}
use kubehealth.Problems.Words.Cut.{IsCut, truncate_lem}
use kubehealth.Problems.Timing.{fill_from_warnings_lem, IsStart, IsNewest, total, total_of}
use kubehealth.Problems.Order.{sort_problems_canonical, HasRisingTiers}
use kubehealth.Problems.Groups.{Member, add_events}
use kubehealth.Problems.Groups.Placed.{
  add_events_lem, HaveOwnRoots, IsPlaced, is_placed, is_cluster, number_of, warnings_in,
}
use kubehealth.Problems.Patterns.{Indexed, indexed, components_of, all_links}
use kubehealth.Problems.Patterns.Union.{unite, start}
use kubehealth.Problems.Patterns.Union.Joined.{unite-Joined, HaveOneRoot, Joined}
use kubehealth.Problems.Patterns.Union.Roots.{unite_lem, IsShallow}
use kubehealth.Problems.Patterns.Components.{
  components_of_lem, tested, tested_in, AreJoined, AreApart,
}
use kubehealth.Problems.Patterns.Tiers.{components-HasOneTier, HasOneTier}
use kubehealth.Problems.Patterns.Totals.{make_pattern_lem, IsBusiestFirst, AreItems, IsLastOf}
use kubehealth.Problems.Patterns.Rows.{make_pattern}
use kubehealth.Home.{build_home, names_of}
use kubehealth.Home.Counts.{build_home_counts, rows_of}
use kubehealth.Home.Rail.{build_home_rail, times}

abbrev warning : String → String → ℕ → Time → EventSummary
warning ns pod count at = record {
  namespace = ns;
  name = "event";
  reason = "BackOff";
  message = "Back-off restarting failed container";
  type = "Warning";
  count = pos count;
  kind = "Pod";
  object_name = pod;
  object_namespace = ns;
  first_time = at;
  last_time = at + minute;
  age = "1m";
}

abbrev pod_a : EventSummary
pod_a = warning "shop" "a" 3 hour

abbrev pod_b : EventSummary
pod_b = warning "shop" "b" 4 (2 * hour)

fill_from_warnings_lem_example :
    IsStart
      (fill_from_warnings no_problem (pod_a ∷ pod_b ∷ []) (3 * hour)).first_seen
      (pod_a ∷ pod_b ∷ [])
    × ((fill_from_warnings no_problem (pod_a ∷ pod_b ∷ []) (3 * hour)).tier
        ≡ tier_of (
            sub
              (3 * hour)
              (fill_from_warnings no_problem (pod_a ∷ pod_b ∷ []) (3 * hour)).first_seen))
    × ((n : EventSummary) × IsNewest n (pod_a ∷ pod_b ∷ [])
        × ((fill_from_warnings no_problem (pod_a ∷ pod_b ∷ []) (3 * hour)).last_seen ≡ n.last_time)
        × ((fill_from_warnings no_problem (pod_a ∷ pod_b ∷ []) (3 * hour)).message
            ≡ truncate n.message message_max_len))
    × ((fill_from_warnings no_problem (pod_a ∷ pod_b ∷ []) (3 * hour)).occurrences
        ≡ pos (total (pod_a ∷ pod_b ∷ [])))
    × All
        (λ (c : ReasonCount). c.count ≡ pos (total_of c.reason (pod_a ∷ pod_b ∷ [])))
        (fill_from_warnings no_problem (pod_a ∷ pod_b ∷ []) (3 * hour)).reasons
fill_from_warnings_lem_example =
    fill_from_warnings_lem pod_a (pod_b ∷ []) ((refl, omega arith), ((refl, omega arith), tt))
      (omega arith) no_problem (3 * hour) refl refl

truncate_lem_example :
    (runes (truncate "hello world" 6) ≤ 7)
    × (((runes "hello world" ≤ 6) × (truncate "hello world" 6 ≡ "hello world"))
        ⊎ ((6 < runes "hello world") × IsCut 6 "hello world" (truncate "hello world" 6)))
truncate_lem_example = truncate_lem "hello world" 6

-- The five code points and the ellipsis.
cut : truncate "hello world" 6 ≡ "hello…"
unfolding truncate
cut = refl

abbrev row : String → String → String → Time → Problem
row ns title tier at = record no_problem {
  key = title;
  scope = "namespace";
  kind = "Deployment";
  title = title;
  namespaces = ns ∷ [];
  tier = tier;
  reasons = record { reason = "BackOff"; count = pos 1 } ∷ [];
  first_seen = at;
  last_seen = at;
}

abbrev rows : List Problem
rows =
    row "shop" "api" "new" hour
    ∷ row "stage" "web" "new" (hour + second)
    ∷ row "dev" "db" "chronic" hour
    ∷ []

abbrev rows_backwards : List Problem
rows_backwards =
    row "stage" "web" "new" (hour + second)
    ∷ row "shop" "api" "new" hour
    ∷ row "dev" "db" "chronic" hour
    ∷ []

sort_problems_canonical_example :
    (sort_problems rows ≡ sort_problems rows_backwards)
    × HasRisingTiers (sort_problems rows)
    × IsSorted stands_before (sort_problems rows)
sort_problems_canonical_example =
    sort_problems_canonical {ps = rows} {qs = rows_backwards} (Permᴰ.swap refl refl) (
      ((λ e. ground (arith, eq_iff "api" "web")), ((λ e. ground (arith, eq_iff "api" "db")), tt)),
      (((λ e. ground (arith, eq_iff "web" "db")), tt), (tt, tt)),
    )

abbrev no_owners : Owners
no_owners = record { known = []; kind_of = []; queue = []; queued = [] }

add_events_lem_example :
    let (groups, apart) = add_events no_owners hour "shop" (pod_a ∷ pod_b ∷ []) ([], []) in
    All (IsPlaced no_owners hour "shop") groups
    × HaveOwnRoots groups
    × All (λ e. is_cluster e ≡ true) apart
    × ((test : EventSummary → Bool)
        → (warnings_in test groups ≡ number_of (λ e. is_placed e && test e) (pod_a ∷ pod_b ∷ []))
          × (number_of test apart
              ≡ number_of test [] + number_of (λ e. is_cluster e && test e) (pod_a ∷ pod_b ∷ [])))
add_events_lem_example = add_events_lem no_owners hour "shop" (pod_a ∷ pod_b ∷ []) [] tt

abbrev failing : String → Time → Member
failing name at = record {
  ref = record { kind = "Pod"; name = name };
  chain = [];
  depth = 1;
  warn = true;
  last = at;
}

unite-Joined_example :
    (HaveOneRoot (unite 2 start ((0, 1) ∷ (2, 1) ∷ [])) 0 2 → Joined ((0, 1) ∷ (2, 1) ∷ []) 0 2)
    × (Joined ((0, 1) ∷ (2, 1) ∷ []) 0 2 → HaveOneRoot (unite 2 start ((0, 1) ∷ (2, 1) ∷ [])) 0 2)
unite-Joined_example = unite-Joined ((0, 1) ∷ (2, 1) ∷ []) 0 2

unite_lem_example : IsShallow 2 (unite 2 start ((0, 1) ∷ (2, 1) ∷ []))
unite_lem_example = unite_lem ((0, 1) ∷ (2, 1) ∷ [])

components_of_lem_example :
    ((test : Indexed → Bool)
      → tested_in test (components_of (indexed 0 rows)) ≡ tested test (indexed 0 rows))
    × All (AreJoined (all_links (indexed 0 rows))) (components_of (indexed 0 rows))
    × Pairs (AreApart (all_links (indexed 0 rows))) (components_of (indexed 0 rows))
components_of_lem_example = components_of_lem (indexed 0 rows)

components-HasOneTier_example : All HasOneTier (components_of (indexed 0 rows))
components-HasOneTier_example = components-HasOneTier rows

abbrev as_date : String → Time → String
as_date layout at = layout

make_pattern_lem_example :
    let out =
      make_pattern as_date
        (row "shop" "api" "new" hour ∷ row "stage" "web" "new" hour ∷ [])
        (2 * hour) in
    (out.tier ≡ "new")
    × ((ms : List Problem) × Permᴰ
          (row "shop" "api" "new" hour ∷ row "stage" "web" "new" hour ∷ [])
          ms
        × IsBusiestFirst ms
        × AreItems ms out.items
        × IsLastOf ms out.last_seen out.message)
make_pattern_lem_example =
    make_pattern_lem as_date (row "shop" "api" "new" hour) (row "stage" "web" "new" hour ∷ []) "new"
      (2 * hour) (refl, (refl, tt))

abbrev caches : Map (List EventSummary)
caches = ("shop", pod_a ∷ []) ∷ ("calm", []) ∷ []

build_home_counts_example :
    ((build_home ("shop" ∷ "calm" ∷ []) [] caches rows).0.problems ≡ length rows)
    × ((build_home ("shop" ∷ "calm" ∷ []) [] caches rows).0.new ≡ rows_of "new" rows)
    × ((build_home ("shop" ∷ "calm" ∷ []) [] caches rows).0.ongoing ≡ rows_of "ongoing" rows)
    × ((build_home ("shop" ∷ "calm" ∷ []) [] caches rows).0.new
          + (build_home ("shop" ∷ "calm" ∷ []) [] caches rows).0.ongoing
          + (build_home ("shop" ∷ "calm" ∷ []) [] caches rows).0.chronic
        ≡ length rows)
build_home_counts_example = build_home_counts ("shop" ∷ "calm" ∷ []) [] caches rows

build_home_rail_example :
    times "calm" (build_home ("shop" ∷ "calm" ∷ []) [] caches rows).1.normal
      + times "calm" (build_home ("shop" ∷ "calm" ∷ []) [] caches rows).1.quiet
    ≡ (if any (str_eq "calm") (names_of (build_home ("shop" ∷ "calm" ∷ []) [] caches rows).1.active)
        then 0
        else if any (str_eq "calm") (("shop" ∷ "calm" ∷ []) ++ keys caches)
        then 1
        else 0)
build_home_rail_example = build_home_rail ("shop" ∷ "calm" ∷ []) [] caches rows "calm"
