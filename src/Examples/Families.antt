-- ===== src/Examples/Families.antt =====
-- The theorems on the objects and families of main.go at concrete inputs.
use kubehealth.Prelude.{◌≡◌, refl, ℕ, ◌≤◌, Bool, true, not, String, List, [], ◌∷◌, All, any, arith}
use kubehealth.Prelude.Int.{pos}
use kubehealth.Prelude.Totals.{count, indicator}
use kubehealth.Events.{EventSummary}
use kubehealth.Owners.{ObjRef}
use kubehealth.Problems.Groups.{same_ref}
use kubehealth.Families.{ObjectEvents, group_by_object}
use kubehealth.Families.Objects.{IsObject, is_of, group_by_object_lem}
use kubehealth.Families.Trees.{obj_key, keys_of, build_families, found_parent}
use kubehealth.Families.Trees.Counted.{IsOnce}
use kubehealth.Families.Trees.Walked.{family_keys, columns}
use kubehealth.Families.Trees.Placed.{is_joined, build_families_lem}

abbrev an_event : String → String → String → EventSummary
an_event kind name type = record {
  namespace = "shop";
  name = "e";
  reason = "BackOff";
  message = "";
  type = type;
  count = pos 1;
  kind = kind;
  object_name = name;
  object_namespace = "shop";
  first_time = 100;
  last_time = 200;
  age = "";
}

abbrev page_events : List EventSummary
page_events =
    an_event "Pod" "web-7d4f9c8b6-xk2pq" "Warning"
    ∷ an_event "ReplicaSet" "web-7d4f9c8b6" "Normal"
    ∷ an_event "Deployment" "web" "Warning"
    ∷ an_event "Node" "n1" "Normal"
    ∷ []

abbrev pod_key : ObjRef
pod_key = record { kind = "Pod"; name = "web-7d4f9c8b6-xk2pq" }

page : List ObjectEvents
page = group_by_object 300 page_events

group_by_object_lem_example :
    ((x : ObjRef)
      → count same_ref x (keys_of (group_by_object 300 page_events))
        ≡ indicator (any (is_of x) page_events))
    × All (IsObject page_events) (group_by_object 300 page_events)
group_by_object_lem_example = group_by_object_lem 300 page_events

indicator_le : (b : Bool) (n : ℕ) → n ≡ indicator b → n ≤ 1
indicator_le b n h = ground (arith, h)

page_unique : (x : ObjRef) → count same_ref x (keys_of page) ≤ 1
unfolding page
page_unique x =
    indicator_le (any (is_of x) page_events) _ ((group_by_object_lem 300 page_events).0 x)

pod_key-IsOnce : IsOnce page pod_key
unfolding page
pod_key-IsOnce = (group_by_object_lem 300 page_events).0 pod_key

pod_is_joined : is_joined page pod_key ≡ true
unfolding page group_by_object found_parent
pod_is_joined = refl

build_families_lem_example :
    (count same_ref pod_key (family_keys (build_families page).0)
      ≡ indicator (is_joined page pod_key))
    × (columns (λ o. indicator (same_ref pod_key (obj_key o))) (build_families page).1
        ≡ indicator (not (is_joined page pod_key)))
build_families_lem_example = build_families_lem page page_unique pod_key pod_key-IsOnce
