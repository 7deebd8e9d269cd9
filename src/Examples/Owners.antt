-- ===== src/Examples/Owners.antt =====
-- The theorems on owners.go at concrete inputs.
use kubehealth.Prelude.{◌≡◌, ◌≢◌, refl, String, ◌≤◌, true, false, none, some, List, [], ◌∷◌, length}
use Prim.Native.String.{◌++◌ as append}
use kubehealth.Time.{minute}
use kubehealth.Owners.{ObjRef, OwnerEntry, OwnerJob, Owners, owner_max_depth}
use kubehealth.Owners.Names.{infer_parent}
use kubehealth.Owners.Names.Prefixes.{infer_parent_lem, OwnerKind, HasNoDash}
use kubehealth.Owners.Chain.{owner_chain, link}
use kubehealth.Owners.Chain.Confirmed.{owner_chain_lem, IsLed, IsWhole, IsConfirmed, IsToppedOut}
use kubehealth.Owners.Queue.{
  is_queued, request_owner_confirmation, take_job, resolve_owner, Lookup, object, enqueue_front,
}
use kubehealth.Owners.Queue.Consistent.{reach_lem, Step, Reach, Resolver, pending, IsUnique, has}
use kubehealth.Caches.Maps.{lookup, lookup_or, store, delete}

abbrev pod : ObjRef
pod = record { kind = "Pod"; name = "api-7d9f8b6c5-x2k4q" }

abbrev replica_set : ObjRef
replica_set = record { kind = "ReplicaSet"; name = "api-7d9f8b6c5" }

abbrev deployment : ObjRef
deployment = record { kind = "Deployment"; name = "api" }

abbrev entry : ObjRef → OwnerEntry
entry p = record { parent = p; missing = false; at = 0; created = 0; last_success = 0 }

abbrev nothing_known : Owners
nothing_known = record { known = []; kind_of = []; queue = []; queued = [] }

abbrev all_known : Owners
all_known = record nothing_known {
  known =
      ("shop/Pod/api-7d9f8b6c5-x2k4q", entry replica_set)
      ∷ ("shop/ReplicaSet/api-7d9f8b6c5", entry deployment)
      ∷ ("shop/Deployment/api", entry (record { kind = ""; name = "" }))
      ∷ [];
}

guessed_chain :
    owner_chain nothing_known minute "shop" pod ≡ (pod ∷ replica_set ∷ deployment ∷ [], true)
unfolding owner_chain link lookup infer_parent
guessed_chain = refl

known_chain : owner_chain all_known minute "shop" pod ≡ (pod ∷ replica_set ∷ deployment ∷ [], false)
unfolding owner_chain link lookup
known_chain = refl

owner_chain_lem_example :
    (rest : List ObjRef) × ((owner_chain all_known minute "shop" pod).0 ≡ pod ∷ rest)
    × (length rest ≤ owner_max_depth)
    × IsWhole all_known minute "shop" owner_max_depth pod rest
    × IsLed all_known minute "shop" pod rest
    × ((owner_chain all_known minute "shop" pod).1 ≡ false
        → IsConfirmed all_known minute "shop" pod rest
          × IsToppedOut all_known minute "shop" pod rest)
owner_chain_lem_example = owner_chain_lem all_known minute "shop" pod

abbrev pod_owner : infer_parent pod ≡ some replica_set
unfolding infer_parent
pod_owner = refl

infer_parent_lem_example :
    (replica_set.name ≢ "")
    × OwnerKind pod.kind replica_set.kind
    × ((suffix : String) × (pod.name ≡ append replica_set.name (append "-" suffix))
        × HasNoDash suffix)
infer_parent_lem_example = infer_parent_lem pod replica_set pod_owner

abbrev pod_job : OwnerJob
pod_job = record { ns = "shop"; kind = "Pod"; name = "api-7d9f8b6c5-x2k4q" }

abbrev asked : Owners
asked = (request_owner_confirmation minute "shop" (pod ∷ replica_set ∷ []) nothing_known).1

abbrev found : Lookup
found = object 0 0 (record { kind = "ReplicaSet"; name = "api-7d9f8b6c5"; controller = true } ∷ [])

abbrev taken : take_job asked ≡ some (pod_job, record asked { queue = [] })
unfolding take_job request_owner_confirmation lookup lookup_or
taken = refl

abbrev climbed : Resolver
climbed = record {
  in_flight = none;
  owners = resolve_owner minute pod_job found (record asked { queue = [] });
}

-- The lookup of the Pod has put its ReplicaSet in the queue.
climbed_jobs :
    pending climbed ≡ record { ns = "shop"; kind = "ReplicaSet"; name = "api-7d9f8b6c5" } ∷ []
unfolding resolve_owner request_owner_confirmation enqueue_front lookup store lookup_or delete
climbed_jobs = refl

reach_lem_example :
    IsUnique (pending climbed)
    × ((k : String) → is_queued climbed.owners k ≡ has k (pending climbed))
reach_lem_example = reach_lem nothing_known climbed refl refl (
    Reach.after _ _ climbed
      (Reach.after _ _ (record { in_flight = some pod_job; owners = record asked { queue = [] } })
        (Reach.after _ _ (record { in_flight = none; owners = asked }) (Reach.here _)
          (Step.confirm none nothing_known minute "shop" (pod ∷ replica_set ∷ [])))
        (Step.begin_lookup asked (record asked { queue = [] }) pod_job taken))
      (Step.end_lookup (record asked { queue = [] }) minute pod_job found))
