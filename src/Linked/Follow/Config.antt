-- ===== src/Linked/Follow/Config.antt =====
-- The rule on ConfigMaps and Secrets that an error names (linked.go): `configRefs`, `configItem` and
-- `configNames`.
use kubehealth.Prelude.{
  not, ◌||◌, String, Option, none, some, List, [], ◌∷◌, ◌++◌, map, keep, str_eq, str_ltb, ltb,
  length, join, text_of, if◌then◌else◌,
}
use kubehealth.Prelude.Lines.{has_prefix}
use kubehealth.Prelude.Sort.{sort_by}
use kubehealth.Linked.{LinkedItem}
use kubehealth.Linked.Follow.{
  Got, found, not_found, failed, Api, Matches, Linker, add_linked, followed, texts, list_names,
  contains_string, linked_max_names, object_key,
}

-- `configRef`
pub record ConfigRef : Type 0 where
  pub kind : String
  pub ns : String
  pub name : String
  pub keys : List String

abbrev ref_key : ConfigRef → String
ref_key r = object_key r.kind r.ns r.name

abbrev with_keys : List String → ConfigRef → ConfigRef
with_keys keys r = record r { keys = r.keys ++ keep (λ k. not (contains_string r.keys k)) keys }

-- `ref`, with the keys that the error says are missing: none or one.
unfoldable pub note_ref : String → String → String → List String → List ConfigRef → List ConfigRef
note_ref kind ns name keys [] = record { kind = kind; ns = ns; name = name; keys = keys } ∷ []
note_ref kind ns name keys (r ∷ refs) =
    let rest = note_ref kind ns name keys refs in
    if str_eq (ref_key r) (object_key kind ns name) then with_keys keys r ∷ refs else r ∷ rest

-- The loop over the matches of `missingKeyRe`.
unfoldable pub note_keys :
    List (String × String × String × String) → List ConfigRef → List ConfigRef
unfolding note_ref
note_keys [] refs = refs
note_keys ((key, kind, ns, name) ∷ ms) refs = note_keys ms (note_ref kind ns name (key ∷ []) refs)

abbrev kind_named : Matches → String → String
kind_named m word = if has_prefix (m.to_lower word) "secret" then "Secret" else "ConfigMap"

-- The loop over the matches of `missingRefRe`.
unfoldable pub note_missing :
    Matches → String → List (String × String) → List ConfigRef → List ConfigRef
unfolding note_ref has_prefix
note_missing m ns [] refs = refs
note_missing m ns ((word, name) ∷ ms) refs =
    note_missing m ns ms (note_ref (kind_named m word) ns name [] refs)

-- The loop over the texts.
unfoldable pub note_texts : Matches → String → List String → List ConfigRef → List ConfigRef
unfolding note_keys note_missing
note_texts m ns [] refs = refs
note_texts m ns (t ∷ ts) refs =
    note_texts m ns ts (note_missing m ns (m.missing_refs t) (note_keys (m.missing_keys t) refs))

-- The keys that an object has, or what became of the request.
unfoldable pub config_keys : Api → ConfigRef → Got (List String)
config_keys api r =
    if str_eq r.kind "Secret"
    then elim (api.secret r.ns r.name) [
      | found s ↦
          found (s.data_keys ++ keep (λ k. not (contains_string s.data_keys k)) s.string_keys)
      | not_found ↦ not_found
      | failed ↦ failed
    ]
    else elim (api.config_map r.ns r.name) [
      | found c ↦ found (c.data_keys ++ c.more_keys)
      | not_found ↦ not_found
      | failed ↦ failed
    ]

abbrev names_or_none : Option (List String) → List String
names_or_none none = []
names_or_none (some names) = sort_by str_ltb names

abbrev plain_secrets : Option (List (String × String)) → Option (List String)
plain_secrets none = none
plain_secrets (some secrets) = some (
    map (λ s. s.0)
      (keep
        (λ s.
          not (str_eq s.1 "kubernetes.io/service-account-token" || str_eq s.1 "helm.sh/release.v1"))
        secrets))

abbrev own_config_maps : Option (List String) → Option (List String)
own_config_maps none = none
own_config_maps (some names) = some (keep (λ n. not (str_eq n "kube-root-ca.crt")) names)

-- `configNames`
unfoldable pub config_names : Api → String → String → List String
unfolding sort_by
config_names api kind ns =
    if str_eq kind "Secret"
    then names_or_none (plain_secrets (api.secrets ns))
    else names_or_none (own_config_maps (api.config_maps ns))

-- The item of an object that does not exist.
abbrev missing_item : Api → String → ConfigRef → LinkedItem
missing_item api ns r =
    let others = config_names api r.kind r.ns in
    record {
      rule = "config";
      kind = r.kind;
      ns = r.ns;
      name = r.name;
      facts =
          if str_eq r.ns ns
          then "does not exist"
          else text_of ("does not exist in namespace " ∷ r.ns ∷ []);
      lines =
          text_of (
            if ltb 0 (length others)
            then r.kind ∷ "s in namespace " ∷ r.ns ∷ ": " ∷ list_names others linked_max_names ∷ []
            else "no " ∷ r.kind ∷ "s in namespace " ∷ r.ns ∷ [])
          ∷ [];
    }

-- The item of an object with the sorted keys `keys`.
abbrev present_item : Matches → ConfigRef → List String → LinkedItem
present_item m r keys =
    let missing = map m.quote (keep (λ k. not (contains_string keys k)) r.keys) in
    record {
      rule = "config";
      kind = r.kind;
      ns = r.ns;
      name = r.name;
      facts = text_of (
          (if ltb 0 (length keys)
            then text_of ("exists, keys " ∷ list_names keys 12 ∷ [])
            else "exists, no keys")
          ∷ (if ltb 0 (length missing)
              then text_of (" (no key " ∷ join ", " missing ∷ ")" ∷ [])
              else "")
          ∷ []);
      lines = [];
    }

-- `configItem`
unfoldable pub config_item : Api → Matches → String → ConfigRef → Option LinkedItem
unfolding config_keys config_names list_names sort_by
config_item api m ns r = elim (config_keys api r) [
  | not_found ↦ some (missing_item api ns r)
  | failed ↦ none
  | found keys ↦ some (present_item m r (sort_by str_ltb keys))
]

abbrev pub add_some : Option LinkedItem → Linker → Linker
add_some none l = l
add_some (some it) l = add_linked it l

-- The loop over the refs.
unfoldable pub add_refs : Api → Matches → List ConfigRef → Linker → Linker
add_refs api m [] l = l
add_refs api m (r ∷ refs) l =
    let next = if followed l r.kind r.ns r.name then l else add_some (config_item api m l.ns r) l in
    add_refs api m refs next

-- `configRefs`
unfoldable pub config_refs : Api → Matches → Linker → Linker
config_refs api m l = add_refs api m (note_texts m l.ns (texts l) []) l
