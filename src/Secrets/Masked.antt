-- ===== src/Secrets/Masked.antt =====
-- What the YAML panel of yaml_view.go gets of a Secret: its keys, and none of its values.
use mathlib.Core.List.{append-nil}
use kubehealth.Prelude.{
  ◌≡◌, refl, sym, ap, ◌∙◌, inl, inr, true, String, Option, none, some, List, [], ◌∷◌, ◌++◌, In,
  subst, if◌then◌else◌,
}
use kubehealth.Prelude.Sort.{sort_by}
use kubehealth.Json.{Json, str, object, Fields, get, get_in, set, set_all, nm_map, in_map, kind_is}
use kubehealth.Json.Maps.{
  on_map, on_value, get-set, get-set_all, nm_map-in_map, nm_map-in_map_other,
}
use kubehealth.Json.Paths.{Step, key, at, at-nm_map, at-map_in, map_in}
use kubehealth.Snapshots.{last_applied}
use kubehealth.Secrets.{
  secret_hidden, SecretKey, less_key, list_keys, mask_field, hide_applied, mask_secret,
}

-- The two fields of a Secret that hold its values.
abbrev pub secret_fields : List String
secret_fields = "data" ∷ "stringData" ∷ []

abbrev pub hide : Json → Json
hide v = str secret_hidden

abbrev pub hide_all : Fields → Fields
hide_all = set_all (str secret_hidden)

abbrev pub listed_in : String → Option Fields → List SecretKey
listed_in f none = []
listed_in f (some m) = list_keys f m

pub mask_field_lem :
    (f : String) (obj : Fields) (found : List SecretKey)
    → mask_field f (obj, found) ≡ (in_map f hide_all obj, found ++ listed_in f (nm_map obj f))
unfolding mask_field in_map
mask_field_lem f obj found = below (nm_map obj f)
  where
    below :
        (o : Option Fields)
        → ◌≡◌ {A = Fields × List SecretKey}
            (elim o [
              | none ↦ (obj, found)
              | some m ↦ (set f (object (hide_all m)) obj, found ++ list_keys f m)
            ])
            (
              elim o [ none ↦ obj | some m ↦ set f (object (hide_all m)) obj ],
              found ++ listed_in f o,
            )
    below none = ap (λ l. (obj, l)) (sym (append-nil found))
    below (some m) = refl

-- An object after both rounds, and what they found.
abbrev pub both : Fields → Fields
both obj = in_map "stringData" hide_all (in_map "data" hide_all obj)

abbrev pub found_in : Fields → List SecretKey
found_in obj =
    listed_in "data" (nm_map obj "data") ++ listed_in "stringData" (nm_map obj "stringData")

pub mask_secret-Secret :
    (obj : Fields)
    → kind_is "Secret" obj ≡ true
    → mask_secret obj ≡ (
      in_map "metadata" (in_map "annotations" hide_applied) (both obj),
      sort_by less_key (found_in obj),
    )
unfolding mask_secret
mask_secret-Secret obj h =
    ap
      (λ b. if b then hidden (mask_field "stringData" (mask_field "data" (obj, []))) else (obj, []))
      h
    ∙ ap hidden (
        ap (mask_field "stringData") (mask_field_lem "data" obj [])
        ∙ mask_field_lem "stringData" one (listed_in "data" (nm_map obj "data")))
    ∙ ap
        (λ o. (
          in_map "metadata" (in_map "annotations" hide_applied) (both obj),
          sort_by less_key (listed_in "data" (nm_map obj "data") ++ listed_in "stringData" o),
        ))
        (nm_map-in_map_other "stringData" "data" hide_all obj refl)
  where
    one : Fields
    one = in_map "data" hide_all obj

    hidden : Fields × List SecretKey → Fields × List SecretKey
    hidden p = (in_map "metadata" (in_map "annotations" hide_applied) p.0, sort_by less_key p.1)

-- The rest of `maskSecret` leaves the two fields.
nm_map-both :
    (f : String) (obj : Fields)
    → In f secret_fields
    → nm_map (in_map "metadata" (in_map "annotations" hide_applied) (both obj)) f
      ≡ on_map hide_all (nm_map obj f)
nm_map-both f obj (inl e) =
    subst
      (λ g.
        nm_map (in_map "metadata" (in_map "annotations" hide_applied) (both obj)) g
        ≡ on_map hide_all (nm_map obj g))
      e
      (nm_map-in_map_other "data" "metadata" (in_map "annotations" hide_applied) (both obj) refl
        ∙ nm_map-in_map_other "data" "stringData" hide_all (in_map "data" hide_all obj) refl
        ∙ nm_map-in_map "data" hide_all obj)
nm_map-both f obj (inr (inl e)) =
    subst
      (λ g.
        nm_map (in_map "metadata" (in_map "annotations" hide_applied) (both obj)) g
        ≡ on_map hide_all (nm_map obj g))
      e
      (nm_map-in_map_other "stringData" "metadata" (in_map "annotations" hide_applied) (both obj)
          refl
        ∙ nm_map-in_map "stringData" hide_all (in_map "data" hide_all obj)
        ∙ ap (on_map hide_all) (nm_map-in_map_other "stringData" "data" hide_all obj refl))
nm_map-both f obj (inr (inr e)) = elim e [ ]

pub values_hidden :
    (f k : String) (obj : Fields)
    → In f secret_fields
    → kind_is "Secret" obj ≡ true
    → at (key f ∷ key k ∷ []) (object (mask_secret obj).0)
      ≡ on_value hide (at (key f ∷ key k ∷ []) (object obj))
values_hidden f k obj i h =
    ap (λ p. at (key f ∷ key k ∷ []) (object p.0)) (mask_secret-Secret obj h)
    ∙ at-nm_map f k (in_map "metadata" (in_map "annotations" hide_applied) (both obj))
    ∙ ap (get_in k) (nm_map-both f obj i)
    ∙ below (nm_map obj f)
    ∙ ap (on_value hide) (sym (at-nm_map f k obj))
  where
    below : (o : Option Fields) → get_in k (on_map hide_all o) ≡ on_value hide (get_in k o)
    below none = refl
    below (some m) = get-set_all k (str secret_hidden) m

get-hide_applied :
    (ann : Fields) → get last_applied (hide_applied ann) ≡ on_value hide (get last_applied ann)
get-hide_applied ann = below (get last_applied ann) refl
  where
    below :
        (v : Option Json)
        → get last_applied ann ≡ v
        → get last_applied
            (elim v [ none ↦ ann | some w ↦ set last_applied (str secret_hidden) ann ])
          ≡ on_value hide v
    below none e = e
    below (some w) e = get-set last_applied (str secret_hidden) ann

abbrev pub applied_path : List Step
applied_path = key "metadata" ∷ key "annotations" ∷ key last_applied ∷ []

pub applied_hidden :
    (obj : Fields)
    → kind_is "Secret" obj ≡ true
    → at applied_path (object (mask_secret obj).0) ≡ on_value hide (at applied_path (object obj))
applied_hidden obj h =
    ap (λ p. at applied_path (object p.0)) (mask_secret-Secret obj h)
    ∙ at-map_in "metadata" "annotations" last_applied
        (in_map "metadata" (in_map "annotations" hide_applied) (both obj))
    ∙ ap (λ o. get_in last_applied (map_in "annotations" o))
        (nm_map-in_map "metadata" (in_map "annotations" hide_applied) (both obj)
          ∙ ap (on_map (in_map "annotations" hide_applied)) (
              nm_map-in_map_other "metadata" "stringData" hide_all (in_map "data" hide_all obj) refl
              ∙ nm_map-in_map_other "metadata" "data" hide_all obj refl))
    ∙ outer (nm_map obj "metadata")
    ∙ ap (on_value hide) (sym (at-map_in "metadata" "annotations" last_applied obj))
  where
    inner :
        (o : Option Fields)
        → get_in last_applied (on_map hide_applied o) ≡ on_value hide (get_in last_applied o)
    inner none = refl
    inner (some ann) = get-hide_applied ann

    outer :
        (o : Option Fields)
        → get_in last_applied (map_in "annotations" (on_map (in_map "annotations" hide_applied) o))
          ≡ on_value hide (get_in last_applied (map_in "annotations" o))
    outer none = refl
    outer (some m) =
        ap (get_in last_applied) (nm_map-in_map "annotations" hide_applied m)
        ∙ inner (nm_map m "annotations")
