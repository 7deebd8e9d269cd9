-- ===== src/Examples/Secrets.antt =====
-- The theorems on Secrets in the YAML panel and in snapshots at concrete inputs.
use kubehealth.Prelude.{
  ◌≡◌, refl, inl, ◌⊎◌, true, false, String, none, some, List, [], ◌∷◌, ◌++◌, In, any, str_eq,
}
use kubehealth.Json.{
  str, items, object, nil, cons, Fields, end, field, as_str, kind_is, get, nm_map, as_map, in_map,
  set, set_all,
}
use kubehealth.Json.Maps.{on_value}
use kubehealth.Json.Paths.{Step, key, index, at}
use kubehealth.Snapshots.{
  last_applied, has_values, sanitize_for_snapshot, drop_env_fields, clean_object, drop_values,
}
use kubehealth.Snapshots.Env.{env_value}
use kubehealth.Snapshots.Values.{blank}
use kubehealth.Snapshots.Clean.{sanitize_for_snapshot_lem}
use kubehealth.Secrets.{
  decoded, not_a_secret, unknown_field, no_key, value_bytes, mask_secret, secret_value, mask_field,
}
use kubehealth.Secrets.Masked.{secret_fields, hide, applied_path}
use kubehealth.Secrets.Listed.{is_about, is_there, mask_secret_lem}
use kubehealth.Secrets.Revealed.{answer_bytes, IsRevealed, secret_value_lem}
use kubehealth.Secrets.Bytes.{decode_string, utf8_valid}

-- `cGFzcw==` is base64 for `pass`.
abbrev login : Fields
login = field "kind" (str "Secret") (
    field "metadata"
      (object (field "annotations" (object (field last_applied (str "{\"data\":…}") end)) end))
      (field "data" (object (field "password" (str "cGFzcw==") end)) end))

abbrev pod : Fields
pod = field "kind" (str "Pod") (
    field "metadata" (object (field "managedFields" (items nil) end)) (
      field "spec"
        (object (
          field "containers"
            (items (
              cons
                (object (
                  field "env"
                    (items (
                      cons (object (field "name" (str "TOKEN") (field "value" (str "s3cret") end)))
                        nil))
                    end))
                nil))
            end))
        end))

abbrev container_path : List Step
container_path = key "spec" ∷ key "containers" ∷ index 0 ∷ []

decodes : secret_value login "" "password" ≡ decoded (112 ∷ 97 ∷ 115 ∷ 115 ∷ [])
unfolding secret_value kind_is as_str get nm_map as_map decode_string utf8_valid
decodes = refl

masks : at (key "data" ∷ key "password" ∷ []) (object (mask_secret login).0) ≡ some (str "(hidden)")
unfolding mask_secret at kind_is as_str in_map nm_map as_map mask_field set set_all
masks = refl

drops : at (container_path ++ env_value 0) (object (sanitize_for_snapshot pod)) ≡ none
unfolding sanitize_for_snapshot at drop_env_fields clean_object kind_is as_str in_map nm_map as_map
    set drop_values
drops = refl

keeps_name :
    at
      (container_path ++ key "env" ∷ index 0 ∷ key "name" ∷ [])
      (object (sanitize_for_snapshot pod))
    ≡ some (str "TOKEN")
unfolding sanitize_for_snapshot at drop_env_fields clean_object kind_is as_str in_map nm_map as_map
    set drop_values
keeps_name = refl

sanitize_for_snapshot_lem_example :
    let out = object (sanitize_for_snapshot pod) in
    (at (key "metadata" ∷ key "managedFields" ∷ []) out ≡ none)
    × (at (key "metadata" ∷ key "annotations" ∷ key last_applied ∷ []) out ≡ none)
    × (at (container_path ++ env_value 0) out ≡ none)
    × ((has_values pod ≡ false)
        ⊎ (at (key "data" ∷ key "k" ∷ []) out
            ≡ on_value blank (at (key "data" ∷ key "k" ∷ []) (object pod))))
sanitize_for_snapshot_lem_example =
    sanitize_for_snapshot_lem pod "data" "k" container_path 0 (inl refl) (refl, (refl, (tt, tt)))

login-IsSecret : kind_is "Secret" login ≡ true
unfolding kind_is as_str get
login-IsSecret = refl

mask_secret_lem_example :
    (at (key "data" ∷ key "password" ∷ []) (object (mask_secret login).0)
      ≡ on_value hide (at (key "data" ∷ key "password" ∷ []) (object login)))
    × (at applied_path (object (mask_secret login).0)
        ≡ on_value hide (at applied_path (object login)))
    × (any (is_about "data" "password") (mask_secret login).1
        ≡ is_there (at (key "data" ∷ key "password" ∷ []) (object login)))
mask_secret_lem_example = mask_secret_lem login "data" "password" (inl refl) login-IsSecret

secret_value_lem_example :
    let answer = secret_value login "" "password" in
    ((kind_is "Secret" login ≡ false) × (answer ≡ not_a_secret))
    ⊎ ((str_eq "data" "data" ≡ false)
        × (str_eq "data" "stringData" ≡ false)
        × (answer ≡ unknown_field "data"))
    ⊎ (In "data" secret_fields
        × (as_str (at (key "data" ∷ key "password" ∷ []) (object login)) ≡ none)
        × (answer ≡ no_key "password" "data"))
    ⊎ ((s : String) × (at (key "data" ∷ key "password" ∷ []) (object login) ≡ some (str s))
        × IsRevealed "data" s answer
        × In
            (record { field = "data"; key = "password"; bytes = value_bytes "data" (str s) })
            (mask_secret login).1
        × (answer_bytes answer ≡ some (value_bytes "data" (str s))))
secret_value_lem_example = secret_value_lem login "" "password"
