-- ===== src/Snapshots/Metadata.antt =====
-- The metadata of an object that `sanitizeForSnapshot` of bench_record.go cleaned.
use kubehealth.Prelude.{
  ◌≡◌, refl, ap, ◌∙◌, Bool, true, false, String, Option, none, some, str_eq, if◌then◌else◌,
}
use kubehealth.Json.{get_in, Fields, end, field, get, delete, nm_map, in_map, as_map}
use kubehealth.Json.Maps.{
  on_map, get-delete, get-delete_other, get-set_other, nm_map-in_map, nm_map-in_map_other,
  nm_map-set,
}
use kubehealth.Snapshots.{
  last_applied, has_values, drop_applied, store_annotations, clean_metadata, blank_values,
  clean_object,
}

get-store_annotations :
    (k : String) (ann md : Fields)
    → str_eq "annotations" k ≡ false
    → get k (store_annotations ann md) ≡ get k md
get-store_annotations k end md h = get-delete_other k "annotations" md h
get-store_annotations k (field j v ann) md h = get-set_other k "annotations" _ md h

get-drop_applied :
    (k : String) (md : Fields) → str_eq "annotations" k ≡ false → get k (drop_applied md) ≡ get k md
get-drop_applied k md h = below (nm_map md "annotations")
  where
    below :
        (o : Option Fields)
        → get k (elim o [ none ↦ md | some ann ↦ store_annotations (delete last_applied ann) md ])
          ≡ get k md
    below none = refl
    below (some ann) = get-store_annotations k (delete last_applied ann) md h

pub managed_gone : (md : Fields) → get "managedFields" (clean_metadata md) ≡ none
unfolding clean_metadata
managed_gone md =
    get-drop_applied "managedFields" (delete "managedFields" md) refl
    ∙ get-delete "managedFields" md

applied-store :
    (ann md : Fields)
    → get last_applied ann ≡ none
    → get_in last_applied (nm_map (store_annotations ann md) "annotations") ≡ none
unfolding nm_map as_map
applied-store end md h = ap (λ v. get_in last_applied (as_map v)) (get-delete "annotations" md)
applied-store (field k v ann) md h =
    ap (get_in last_applied) (nm_map-set "annotations" (field k v ann) md) ∙ h

pub applied_gone :
    (md : Fields) → get_in last_applied (nm_map (clean_metadata md) "annotations") ≡ none
unfolding clean_metadata
applied_gone all = below (nm_map md "annotations") refl
  where
    md : Fields
    md = delete "managedFields" all

    below :
        (o : Option Fields)
        → nm_map md "annotations" ≡ o
        → get_in last_applied (
            nm_map
              (elim o [ none ↦ md | some ann ↦ store_annotations (delete last_applied ann) md ])
              "annotations")
          ≡ none
    below none e = ap (get_in last_applied) e
    below (some ann) e = applied-store (delete last_applied ann) md (get-delete last_applied ann)

nm_map-metadata : (obj : Fields) → nm_map (blank_values obj) "metadata" ≡ nm_map obj "metadata"
unfolding blank_values
nm_map-metadata obj =
    nm_map-in_map_other "metadata" "stringData" _ _ refl
    ∙ nm_map-in_map_other "metadata" "binaryData" _ _ refl
    ∙ nm_map-in_map_other "metadata" "data" _ obj refl

-- The values of its keys apart, an object's metadata is what `clean_metadata` makes of it.
pub nm_map-clean_object :
    (obj : Fields)
    → nm_map (clean_object obj) "metadata" ≡ on_map clean_metadata (nm_map obj "metadata")
unfolding clean_object
nm_map-clean_object obj = below (has_values cleaned) ∙ nm_map-in_map "metadata" clean_metadata obj
  where
    cleaned : Fields
    cleaned = in_map "metadata" clean_metadata obj

    below :
        (b : Bool)
        → nm_map (if b then blank_values cleaned else cleaned) "metadata"
          ≡ nm_map cleaned "metadata"
    below true = nm_map-metadata cleaned
    below false = refl
