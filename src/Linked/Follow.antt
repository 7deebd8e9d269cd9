-- ===== src/Linked/Follow.antt =====
-- Following an object's evidence to the objects that it names (linked.go): the linker, what it is told by
-- the API server and by its expressions, and the helpers of its rules. `l.pods` remembers answers of the
-- API; here one name always has one answer.
pub mod Words
pub mod Config
pub mod Claims
pub mod Pulls
pub mod Kept
pub mod Apart
use Prim.Native.Char.{Char, code}
use Prim.Native.String.{[] as empty, ◌∷◌ as char}
use kubehealth.Prelude.{
  ◌≡◌, ℕ, suc, Bool, true, false, not, ◌&&◌, ◌||◌, String, Option, none, some, List, [], ◌∷◌, ◌++◌,
  map, keep, any, str_eq, ltb, leb, ◌==◌, length, take, join, text_of, decimal, if◌then◌else◌,
}
use kubehealth.Prelude.Bytes.{bytes_of}
use kubehealth.Prelude.Lines.{split_lines, decimal_ℤ}
use kubehealth.Events.{EventSummary}
use kubehealth.Caches.{Caches, scope_events}
use kubehealth.Correlate.{equal_fold}
use kubehealth.Problems.Words.{is_space, truncate}
use kubehealth.Rca.Evidence.{newest_events}
use kubehealth.Linked.{LinkedItem, item_key}
use kubehealth.Linked.Follow.Words.{one_line}

-- What a request for one object answers: the object, `IsNotFound`, or another error.
pub data Got {ℓ} (A : Type ℓ) : Type ℓ where
  found : A → Got A
  not_found : Got A
  failed : Got A

-- What the rules read of the objects of the API, whose types are the client library's. Of a ConfigMap
-- the keys of `data` and `binaryData`, of a Secret those of `data` and `stringData`.
pub record ConfigMap : Type 0 where
  pub data_keys : List String
  pub more_keys : List String

pub record Secret : Type 0 where
  pub data_keys : List String
  pub string_keys : List String
  pub type : String

pub data Volume : Type 0 where
  claim_volume : String → String → Volume
  ephemeral_volume : String → Volume
  other_volume : String → Volume

pub record Pod : Type 0 where
  pub name : String
  pub phase : String
  pub volumes : List Volume
  pub service_account : String
  pub pull_secrets : List String

-- A claim, its requested storage as `Quantity.String` writes it.
pub record Claim : Type 0 where
  pub phase : String
  pub storage_class : Option String
  pub size : Option String
  pub access_modes : List String
  pub volume_name : String

pub record StorageClass : Type 0 where
  pub provisioner : String
  pub binding_mode : Option String

-- The answers of the API server; lists of names come with what their filter reads.
pub record Api : Type 0 where
  pub config_map : String → String → Got ConfigMap
  pub secret : String → String → Got Secret
  pub config_maps : String → Option (List String)
  pub secrets : String → Option (List (String × String))
  pub pod : String → Option Pod
  pub claim : String → Got Claim
  pub storage_class : String → Got StorageClass
  pub storage_classes : Option (List (String × String))
  pub service_account : String → Got (List String)

-- The groups that `missingKeyRe` (key, kind, namespace, name) and `missingRefRe` (word, name) find in a
-- text, which texts the other expressions match, `strings.ToLower` and the quoting of `%q`.
pub record Matches : Type 0 where
  pub missing_keys : String → List (String × String × String × String)
  pub missing_refs : String → List (String × String)
  pub volume_msg : String → Bool
  pub pull_auth : String → Bool
  pub pull : String → Bool
  pub to_lower : String → String
  pub quote : String → String

-- `linker`
pub record Linker : Type 0 where
  pub ns : String
  pub kind : String
  pub name : String
  pub warnings : List EventSummary
  pub logs : String
  pub seen : List String
  pub items : List LinkedItem

abbrev pub linked_max_pods : ℕ
linked_max_pods = 3

abbrev pub linked_max_events : ℕ
linked_max_events = 3

abbrev pub linked_max_names : ℕ
linked_max_names = 8

abbrev pub linked_msg_len : ℕ
linked_msg_len = 300

abbrev pub object_key : String → String → String → String
object_key kind ns name = text_of (kind ∷ "/" ∷ ns ∷ "/" ∷ name ∷ [])

-- The linker that `followLinks` makes.
unfoldable pub new_linker :
    String → String → String → List EventSummary → List EventSummary → String → Linker
new_linker ns kind name events members logs = record {
  ns = ns;
  kind = kind;
  name = name;
  warnings = keep (λ e. str_eq e.type "Warning") events ++ members;
  logs = logs;
  seen = object_key kind ns name ∷ [];
  items = [];
}

-- `linker.add`
unfoldable pub add_linked : LinkedItem → Linker → Linker
unfolding item_key
add_linked it l =
    if any (str_eq (item_key it)) l.seen
    then l
    else record l { seen = item_key it ∷ l.seen; items = l.items ++ it ∷ [] }

-- `linker.followed`
unfoldable pub followed : Linker → String → String → String → Bool
followed l kind ns name = any (str_eq (object_key kind ns name)) l.seen

-- `isPodKind`
unfoldable pub is_pod_kind : String → Bool
unfolding equal_fold
is_pod_kind kind = equal_fold kind "Pod"

-- The loop of `evidencePods`, with the Pods so far.
unfoldable pub add_pods : List String → List EventSummary → List String
unfolding is_pod_kind
add_pods out [] = out
add_pods out (ev ∷ evs) =
    let next =
      if is_pod_kind ev.kind
        && (not (any (str_eq ev.object_name) out) && ltb (length out) linked_max_pods)
      then out ++ ev.object_name ∷ []
      else out in
    add_pods next evs

-- `evidencePods`
unfoldable pub evidence_pods : Linker → List String
unfolding add_pods
evidence_pods l = add_pods (if is_pod_kind l.kind then l.name ∷ [] else []) l.warnings

-- `podWarnings`
unfoldable pub pod_warnings : Linker → String → List EventSummary
unfolding is_pod_kind
pod_warnings l pod = keep (λ e. is_pod_kind e.kind && str_eq e.object_name pod) l.warnings

-- `texts`
unfoldable pub texts : Linker → List String
unfolding split_lines
texts l = map (λ e. e.message) l.warnings ++ (if str_eq l.logs "" then [] else split_lines l.logs)

-- `linkedEventLine`
unfoldable pub linked_event_line : EventSummary → String
unfolding one_line truncate decimal_ℤ
linked_event_line e = text_of (
    "["
    ∷ e.type
    ∷ "] "
    ∷ e.reason
    ∷ ": "
    ∷ one_line (truncate e.message linked_msg_len)
    ∷ "  (×"
    ∷ decimal_ℤ e.count
    ∷ ", "
    ∷ e.age
    ∷ " ago)"
    ∷ [])

-- `objectEvents` (rca.go)
unfoldable pub object_events : Caches → String → String → String → List EventSummary
unfolding scope_events equal_fold
object_events c ns kind name =
    keep (λ e. equal_fold e.kind kind && str_eq e.object_name name) (scope_events c ns)

-- `objectWarnings`
unfoldable pub object_warnings : Caches → String → String → String → ℕ → List String
unfolding object_events newest_events linked_event_line
object_warnings c ns kind name n =
    map linked_event_line
      (newest_events (keep (λ e. str_eq e.type "Warning") (object_events c ns kind name)) n)

-- `listNames`
unfoldable pub list_names : List String → ℕ → String
unfolding decimal
list_names names n =
    if ltb n (length names)
    then text_of (join ", " (take n names) ∷ ", … (" ∷ decimal (length names) ∷ " in all)" ∷ [])
    else join ", " names

-- `containsString`
unfoldable pub contains_string : List String → String → Bool
contains_string xs s = any (λ x. str_eq x s) xs
