-- ===== src/Snapshots/Clean.antt =====
-- What a snapshot of bench_record.go stores of an object: no value of a ConfigMap's or a Secret's key, no
-- copy of the object in its metadata and no literal of an environment variable.
use kubehealth.Prelude.{
  ◌≡◌, refl, ap, ◌∙◌, ◌⊎◌, ℕ, false, String, Option, none, some, List, [], ◌∷◌, ◌++◌, All, In,
}
use kubehealth.Json.{object, Fields, get_in, nm_map}
use kubehealth.Json.Maps.{on_map, on_value}
use kubehealth.Json.Paths.{Step, key, at, at-nm_map, at-two_keys}
use kubehealth.Snapshots.{
  last_applied, has_values, clean_metadata, clean_object, sanitize_for_snapshot, drop_env_values,
  drop_env_fields,
}
use kubehealth.Snapshots.Metadata.{managed_gone, applied_gone, nm_map-clean_object}
use kubehealth.Snapshots.Env.{get-drop_env_plain, IsPlain, env_value, at-env_value}
use kubehealth.Snapshots.Values.{value_fields, blank, nm_map-drop_env_fields, blank_or_kept}

-- What stands in the metadata that is stored.
stored_metadata :
    (obj : Fields)
    → nm_map (sanitize_for_snapshot obj) "metadata"
      ≡ on_map (λ m. drop_env_fields (clean_metadata m)) (nm_map obj "metadata")
unfolding sanitize_for_snapshot
stored_metadata obj =
    nm_map-drop_env_fields "metadata" (clean_object obj) refl
    ∙ ap (on_map drop_env_fields) (nm_map-clean_object obj)
    ∙ below (nm_map obj "metadata")
  where
    below :
        (o : Option Fields)
        → on_map drop_env_fields (on_map clean_metadata o)
          ≡ on_map (λ m. drop_env_fields (clean_metadata m)) o
    below none = refl
    below (some m) = refl

no_managed_fields :
    (obj : Fields)
    → at (key "metadata" ∷ key "managedFields" ∷ []) (object (sanitize_for_snapshot obj)) ≡ none
no_managed_fields obj =
    at-nm_map "metadata" "managedFields" (sanitize_for_snapshot obj)
    ∙ ap (get_in "managedFields") (stored_metadata obj)
    ∙ below (nm_map obj "metadata")
  where
    below :
        (o : Option Fields)
        → get_in "managedFields" (on_map (λ m. drop_env_fields (clean_metadata m)) o) ≡ none
    below none = refl
    below (some m) =
        get-drop_env_plain "managedFields" (clean_metadata m) refl
        ∙ ap (on_value drop_env_values) (managed_gone m)

no_applied :
    (obj : Fields)
    → at
        (key "metadata" ∷ key "annotations" ∷ key last_applied ∷ [])
        (object (sanitize_for_snapshot obj))
      ≡ none
no_applied obj =
    at-two_keys "metadata" "annotations" (key last_applied ∷ []) (sanitize_for_snapshot obj)
    ∙ ap
        (λ o. elim o [
          | none ↦ none
          | some m ↦ at (key "annotations" ∷ key last_applied ∷ []) (object m)
        ])
        (stored_metadata obj)
    ∙ below (nm_map obj "metadata")
  where
    cleaned :
        (o : Option Fields)
        → get_in last_applied (on_map drop_env_fields o)
          ≡ on_value drop_env_values (get_in last_applied o)
    cleaned none = refl
    cleaned (some ann) = get-drop_env_plain last_applied ann refl

    below :
        (o : Option Fields)
        → elim (on_map (λ m. drop_env_fields (clean_metadata m)) o) [
          | none ↦ none
          | some m ↦ at (key "annotations" ∷ key last_applied ∷ []) (object m)
        ]
          ≡ none
    below none = refl
    below (some m) =
        at-nm_map "annotations" last_applied (drop_env_fields (clean_metadata m))
        ∙ ap (get_in last_applied) (nm_map-drop_env_fields "annotations" (clean_metadata m) refl)
        ∙ cleaned (nm_map (clean_metadata m) "annotations")
        ∙ ap (on_value drop_env_values) (applied_gone m)

no_env_literal :
    (obj : Fields) (path : List Step) (n : ℕ)
    → All IsPlain path
    → at (path ++ env_value n) (object (sanitize_for_snapshot obj)) ≡ none
unfolding sanitize_for_snapshot drop_env_values
no_env_literal obj path n h = at-env_value path n (object (clean_object obj)) h

-- What is stored of an object in a snapshot. Its metadata holds neither `managedFields` nor the
-- last-applied annotation; at no path that keeps out of the lists under a key `env` does a list under
-- `env` hold an element with a `value`; and if the object is a ConfigMap or a Secret, then under `data`,
-- `binaryData` and `stringData` exactly the keys it had are stored, each with an empty text.
pub sanitize_for_snapshot_lem :
    (obj : Fields) (f k : String) (path : List Step) (n : ℕ)
    → In f value_fields
    → All IsPlain path
    → let out = object (sanitize_for_snapshot obj) in
      (at (key "metadata" ∷ key "managedFields" ∷ []) out ≡ none)
      × (at (key "metadata" ∷ key "annotations" ∷ key last_applied ∷ []) out ≡ none)
      × (at (path ++ env_value n) out ≡ none)
      × ((has_values obj ≡ false)
          ⊎ (at (key f ∷ key k ∷ []) out ≡ on_value blank (at (key f ∷ key k ∷ []) (object obj))))
sanitize_for_snapshot_lem obj f k path n i h =
    (no_managed_fields obj, no_applied obj, no_env_literal obj path n h, blank_or_kept f k obj i)
