-- ===== src/Linked/Follow/Claims.antt =====
-- The rule on claims and StorageClasses (linked.go): `claims`, `claimItem`, `anchorClaim`,
-- `storageClassInfo` and `storageClassList`.
use Prim.Native.String.{◌++◌ as append}
use kubehealth.Prelude.{
  Bool, true, false, not, ◌&&◌, ◌||◌, String, Option, none, some, List, [], ◌∷◌, ◌++◌, map, keep,
  any, str_eq, str_ltb, ltb, length, join, text_of, if◌then◌else◌,
}
use kubehealth.Prelude.Sort.{sort_by}
use kubehealth.Events.{EventSummary}
use kubehealth.Caches.{Caches}
use kubehealth.Correlate.{equal_fold}
use kubehealth.Problems.Words.{trim_space}
use kubehealth.Linked.{LinkedItem}
use kubehealth.Linked.Follow.{
  Got, found, not_found, failed, Pod, Volume, claim_volume, ephemeral_volume, other_volume, Claim,
  Api, Matches, Linker, add_linked, followed, evidence_pods, pod_warnings, object_warnings,
  list_names, linked_max_names, linked_max_events,
}
use kubehealth.Linked.Follow.Words.{contains_word}

abbrev pub mode_or_default : Option String → String
mode_or_default none = "Immediate"
mode_or_default (some mode) = mode

-- `storageClassInfo`
unfoldable pub storage_class_info : Api → String → String × Bool
storage_class_info api name = elim (api.storage_class name) [
  | not_found ↦ ("does not exist", false)
  | failed ↦ ("could not be read", true)
  | found sc ↦ (
    text_of ("provisioner " ∷ sc.provisioner ∷ ", " ∷ mode_or_default sc.binding_mode ∷ []),
    true,
  )
]

-- A StorageClass with what its annotation on being the default says.
abbrev pub class_name : String × String → String
class_name c = if str_eq c.1 "true" then append c.0 " (default)" else c.0

-- `storageClassList`
unfoldable pub storage_class_list : Api → String
unfolding list_names sort_by
storage_class_list api = elim api.storage_classes [
  | none ↦ "StorageClasses in the cluster: could not be listed"
  | some classes ↦
      let names = map class_name classes in
      if ltb 0 (length names)
      then text_of (
          "StorageClasses in the cluster: "
          ∷ list_names (sort_by str_ltb names) linked_max_names
          ∷ [])
      else "no StorageClasses in the cluster"
]

-- What `claimItem` says of the StorageClass, and whether it does not exist.
abbrev pub class_part : Api → Matches → Option String → String × Bool
class_part api m none = ("no StorageClass", false)
class_part api m (some sc) =
    let (info, ok) = storage_class_info api sc in
    if str_eq sc ""
    then ("StorageClass \"\" (no dynamic provisioning)", false)
    else (text_of ("StorageClass " ∷ m.quote sc ∷ " (" ∷ info ∷ ")" ∷ []), not ok)

abbrev pub size_text : Option String → String
size_text none = ""
size_text (some q) = q

-- A text as a list of one, or of none if it is empty.
abbrev pub unless_empty : String → List String
unless_empty s = if str_eq s "" then [] else s ∷ []

-- `claimItem` of a claim that exists.
unfoldable pub claim_item : Caches → Api → Matches → String → String → Claim → LinkedItem
unfolding storage_class_info storage_class_list object_warnings trim_space
claim_item c api m ns name pvc =
    let (class, missing) = class_part api m pvc.storage_class in
    record {
      rule = "claim";
      kind = "PersistentVolumeClaim";
      ns = ns;
      name = name;
      facts = join ", " (
          (if str_eq pvc.phase "" then "Pending" else pvc.phase)
            ∷ class
            ∷ unless_empty
                (trim_space (text_of (size_text pvc.size ∷ " " ∷ join "," pvc.access_modes ∷ [])))
          ++ (if str_eq pvc.volume_name ""
              then []
              else text_of ("volume " ∷ pvc.volume_name ∷ []) ∷ []));
      lines =
          object_warnings c ns "PersistentVolumeClaim" name linked_max_events
          ++ (if missing then storage_class_list api ∷ [] else []);
    }

-- `claimItem` of a claim that is missing.
abbrev pub no_claim_item : String → String → LinkedItem
no_claim_item ns name = record {
  rule = "claim";
  kind = "PersistentVolumeClaim";
  ns = ns;
  name = name;
  facts = "does not exist";
  lines = [];
}

-- `schedVolume`
abbrev pub sched_volume : Matches → List EventSummary → Bool
sched_volume m ws = any (λ w. str_eq w.reason "FailedScheduling" && m.volume_msg w.message) ws

-- `mounts`
abbrev pub mounts : List EventSummary → List String
mounts ws =
    map (λ w. w.message)
      (keep (λ w. str_eq w.reason "FailedMount" || str_eq w.reason "FailedAttachVolume") ws)

-- The volume's name and its claim's, when it has one.
abbrev pub claim_of : Pod → Volume → Option (String × String)
claim_of p (claim_volume volume claim) = some (volume, claim)
claim_of p (ephemeral_volume volume) = some (volume, text_of (p.name ∷ "-" ∷ volume ∷ []))
claim_of p (other_volume volume) = none

-- The end of a round: the claim is added when a failure concerns it.
abbrev pub add_claim : Bool → Bool → LinkedItem → Linker → Linker
add_claim concerned unbound it l = if concerned || unbound then add_linked it l else l

-- The end of a round, by what a request for the claim answers.
abbrev pub answer_claim :
    Caches → Api → Matches → Bool → Bool → String → Got Claim → Linker → Linker
answer_claim c api m concerned pending claim failed l = l
answer_claim c api m concerned pending claim not_found l =
    add_claim concerned pending (no_claim_item l.ns claim) l
answer_claim c api m concerned pending claim (found pvc) l =
    add_claim concerned (pending && not (str_eq pvc.phase "Bound"))
      (claim_item c api m l.ns claim pvc) l

-- Whether a mount that failed names the volume or its claim.
abbrev pub is_named : List EventSummary → String → String → Bool
is_named ws volume claim = any (λ s. contains_word s volume || contains_word s claim) (mounts ws)

abbrev pub follow_claim :
    Caches → Api → Matches → Pod → List EventSummary → Option (String × String) → Linker → Linker
follow_claim c api m p ws none l = l
follow_claim c api m p ws (some (volume, claim)) l =
    if followed l "PersistentVolumeClaim" l.ns claim
    then l
    else answer_claim c api m (sched_volume m ws || is_named ws volume claim)
        (str_eq p.phase "Pending") claim (api.claim claim) l

-- One round of the loop over a Pod's volumes.
unfoldable pub follow_volume :
    Caches → Api → Matches → Pod → List EventSummary → Volume → Linker → Linker
follow_volume c api m p ws v l = follow_claim c api m p ws (claim_of p v) l

unfoldable pub follow_volumes :
    Caches → Api → Matches → Pod → List EventSummary → List Volume → Linker → Linker
follow_volumes c api m p ws [] l = l
follow_volumes c api m p ws (v ∷ vs) l =
    follow_volumes c api m p ws vs (follow_volume c api m p ws v l)

abbrev pub follow_pod : Caches → Api → Matches → List EventSummary → Option Pod → Linker → Linker
follow_pod c api m ws none l = l
follow_pod c api m ws (some p) l = follow_volumes c api m p ws p.volumes l

-- The loop of `claims` over the Pods.
unfoldable pub claims_of : Caches → Api → Matches → List String → Linker → Linker
claims_of c api m [] l = l
claims_of c api m (pn ∷ pods) l =
    claims_of c api m pods (follow_pod c api m (pod_warnings l pn) (api.pod pn) l)

-- The item that `anchorClaim` adds for a StorageClass.
abbrev pub class_item : Api → String → LinkedItem
class_item api sc =
    let (info, ok) = storage_class_info api sc in
    record {
      rule = "storageclass";
      kind = "StorageClass";
      ns = "";
      name = sc;
      facts = info;
      lines = if ok then [] else storage_class_list api ∷ [];
    }

abbrev pub follow_class : Api → Option String → Linker → Linker
follow_class api none l = l
follow_class api (some sc) l = if str_eq sc "" then l else add_linked (class_item api sc) l

abbrev pub answer_anchor : Api → Got Claim → Linker → Linker
answer_anchor api not_found l = l
answer_anchor api failed l = l
answer_anchor api (found pvc) l =
    if str_eq pvc.phase "Bound" then l else follow_class api pvc.storage_class l

-- `anchorClaim`
unfoldable pub anchor_claim : Api → Linker → Linker
anchor_claim api l = answer_anchor api (api.claim l.name) l

-- `claims`
unfoldable pub claims : Caches → Api → Matches → Linker → Linker
claims c api m l =
    if equal_fold l.kind "PersistentVolumeClaim"
    then anchor_claim api l
    else claims_of c api m (evidence_pods l) l
