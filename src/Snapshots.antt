-- ===== src/Snapshots.antt =====
-- What a recorded snapshot keeps of the cluster's objects (bench_record.go), and which namespaces.
pub mod Clean
pub mod Env
pub mod Metadata
pub mod Values
use kubehealth.Prelude.{
  ◌≡◌, Bool, true, false, not, ◌&&◌, ◌||◌, String, Option, none, some, List, [], ◌∷◌, map, keep,
  any, str_eq, str_ltb, length, ltb, if◌then◌else◌,
}
use kubehealth.Prelude.Sort.{sort_by}
use kubehealth.Json.{
  Json, null, flag, number, float, str, items, object, Items, nil, cons, Fields, end, field, get,
  set, delete, set_all, nm_map, in_map, kind_is,
}
use kubehealth.Json.Print.{nm_str}

abbrev pub last_applied : String
last_applied = "kubectl.kubernetes.io/last-applied-configuration"

-- `if len(ann) == 0 { delete(md, "annotations") }`, with the annotations that are left.
abbrev store_annotations : Fields → Fields → Fields
store_annotations end md = delete "annotations" md
store_annotations (field k v ann) md = set "annotations" (object (field k v ann)) md

abbrev drop_applied : Fields → Fields
drop_applied md = elim (nm_map md "annotations") [
  | none ↦ md
  | some ann ↦ store_annotations (delete last_applied ann) md
]

-- What `sanitizeForSnapshot` does to an object's metadata.
unfoldable pub clean_metadata : Fields → Fields
clean_metadata md = drop_applied (delete "managedFields" md)

-- The loop over `data`, `binaryData` and `stringData`.
unfoldable pub blank_values : Fields → Fields
blank_values obj =
    in_map "stringData" (set_all (str ""))
      (in_map "binaryData" (set_all (str "")) (in_map "data" (set_all (str "")) obj))

-- The literal of one environment variable.
abbrev pub drop_value : Json → Json
drop_value (object m) = object (delete "value" m)
drop_value null = null
drop_value (flag b) = flag b
drop_value (number n) = number n
drop_value (float f) = float f
drop_value (str s) = str s
drop_value (items xs) = items xs

unfoldable pub drop_values : Items → Items
unfolding delete
drop_values nil = nil
drop_values (cons v xs) = cons (drop_value v) (drop_values xs)

-- What `dropEnvValues` does to a value under the key `env`; `asSlice` of anything but a list is empty.
abbrev pub drop_literals : Json → Json
drop_literals (items xs) = items (drop_values xs)
drop_literals null = null
drop_literals (flag b) = flag b
drop_literals (number n) = number n
drop_literals (float f) = float f
drop_literals (str s) = str s
drop_literals (object m) = object m

-- `dropEnvValues`
unfoldable mutual
  pub drop_env_values : Json → Json
  drop_env_values (object m) = object (drop_env_fields m)
  drop_env_values (items xs) = items (drop_env_items xs)
  drop_env_values null = null
  drop_env_values (flag b) = flag b
  drop_env_values (number n) = number n
  drop_env_values (float f) = float f
  drop_env_values (str s) = str s

  pub drop_env_fields : Fields → Fields
  drop_env_fields end = end
  drop_env_fields (field k v fs) =
      let below = drop_env_values v in
      field k (if str_eq k "env" then drop_literals v else below) (drop_env_fields fs)

  pub drop_env_items : Items → Items
  drop_env_items nil = nil
  drop_env_items (cons v xs) = cons (drop_env_values v) (drop_env_items xs)

abbrev pub has_values : Fields → Bool
has_values obj = kind_is "ConfigMap" obj || kind_is "Secret" obj

-- The part of `sanitizeForSnapshot` before it calls `dropEnvValues`.
unfoldable pub clean_object : Fields → Fields
clean_object obj =
    let cleaned = in_map "metadata" clean_metadata obj in
    if has_values cleaned then blank_values cleaned else cleaned

-- `sanitizeForSnapshot`
unfoldable pub sanitize_for_snapshot : Fields → Fields
sanitize_for_snapshot obj = drop_env_fields (clean_object obj)

-- What a list request to the API answers: the list's kind, less its ending `List`, and the objects.
pub record Listed : Type 0 where
  pub kind : String
  pub objects : List Fields

-- `unstructured.GetAPIVersion` and `GetKind`: a field that is no string reads as empty.
abbrev is_missing : String → Fields → Bool
is_missing key obj = elim (get key obj) [
  | some (str s) ↦ str_eq s ""
  | none ↦ true
  | some null ↦ true
  | some (flag b) ↦ true
  | some (number n) ↦ true
  | some (float f) ↦ true
  | some (items xs) ↦ true
  | some (object m) ↦ true
]

-- `List items come without their own apiVersion/kind on some servers.`
unfoldable pub with_type : String → String → Fields → Fields
unfolding get set
with_type version kind obj =
    let versioned =
      if is_missing "apiVersion" obj then set "apiVersion" (str version) obj else obj in
    if is_missing "kind" obj && not (str_eq kind "")
    then set "kind" (str kind) versioned
    else versioned

abbrev pub name_of : Fields → String
name_of obj = nm_str (nm_map obj "metadata") "name"

-- `listForSnapshot`; `none` stands for the error of a list request.
unfoldable pub list_for_snapshot : String → Option Listed → Option (List Fields)
unfolding nm_str
list_for_snapshot version none = none
list_for_snapshot version (some list) = some (
    sort_by (λ a b. str_ltb (name_of a) (name_of b))
      (map (λ obj. sanitize_for_snapshot (with_type version list.kind obj)) list.objects))

-- The namespaces that `recordSnapshot` records, of those that it lists.
unfoldable pub recorded_namespaces : List String → List String → List Fields → List Fields
unfolding nm_str
recorded_namespaces skip only objects =
    keep
      (λ it.
        let name = name_of it in
        not (any (str_eq name) skip || (ltb 0 (length only) && not (any (str_eq name) only))))
      objects
