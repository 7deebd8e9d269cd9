-- ===== src/Snapshots/Values.antt =====
-- The values of a ConfigMap or a Secret in a snapshot of bench_record.go: its keys stay, without them.
use kubehealth.Prelude.{
  ◌≡◌, refl, sym, ap, ◌∙◌, ◌⊎◌, inl, inr, Bool, true, false, ◌||◌, String, Option, none, some, List,
  [], ◌∷◌, In, ap₂, subst, str_eq, Bool-cases, if◌then◌else◌,
}
use kubehealth.Json.{
  get_in, Json, null, flag, number, float, str, items, object, Fields, get, set_all, nm_map, in_map,
  as_map,
}
use kubehealth.Json.Maps.{
  on_map, on_value, get-set_all, nm_map-in_map, nm_map-in_map_other, kind_is-in_map,
}
use kubehealth.Json.Paths.{Step, key, at, at-nm_map}
use kubehealth.Snapshots.{
  has_values, clean_metadata, blank_values, clean_object, sanitize_for_snapshot, drop_literals,
  drop_env_values, drop_env_fields,
}
use kubehealth.Snapshots.Env.{under, get-drop_env_fields, get-drop_env_plain}

-- The fields of a ConfigMap and a Secret that hold the values.
abbrev pub value_fields : List String
value_fields = "data" ∷ "binaryData" ∷ "stringData" ∷ []

abbrev pub blank : Json → Json
blank v = str ""

abbrev empty : Fields → Fields
empty = set_all (str "")

-- The object after the first field, and after the second.
abbrev one : Fields → Fields
one = in_map "data" empty

abbrev two : Fields → Fields
two obj = in_map "binaryData" empty (one obj)

-- `blank_values` makes every value under each of the three fields empty.
nm_map-blank_values :
    (f : String) (obj : Fields)
    → In f value_fields
    → nm_map (blank_values obj) f ≡ on_map (set_all (str "")) (nm_map obj f)
unfolding blank_values
nm_map-blank_values f obj (inl e) =
    subst (λ g. nm_map (blank_values obj) g ≡ on_map (set_all (str "")) (nm_map obj g)) e
      (nm_map-in_map_other "data" "stringData" empty (two obj) refl
        ∙ nm_map-in_map_other "data" "binaryData" empty (one obj) refl
        ∙ nm_map-in_map "data" empty obj)
nm_map-blank_values f obj (inr (inl e)) =
    subst (λ g. nm_map (blank_values obj) g ≡ on_map (set_all (str "")) (nm_map obj g)) e
      (nm_map-in_map_other "binaryData" "stringData" empty (two obj) refl
        ∙ nm_map-in_map "binaryData" empty (one obj)
        ∙ ap (on_map empty) (nm_map-in_map_other "binaryData" "data" empty obj refl))
nm_map-blank_values f obj (inr (inr (inl e))) =
    subst (λ g. nm_map (blank_values obj) g ≡ on_map (set_all (str "")) (nm_map obj g)) e
      (nm_map-in_map "stringData" empty (two obj)
        ∙ ap (on_map empty) (
            nm_map-in_map_other "stringData" "binaryData" empty (one obj) refl
            ∙ nm_map-in_map_other "stringData" "data" empty obj refl))
nm_map-blank_values f obj (inr (inr (inr e))) = elim e [ ]

pub nm_map-drop_env_fields :
    (f : String) (obj : Fields)
    → str_eq f "env" ≡ false
    → nm_map (drop_env_fields obj) f ≡ on_map drop_env_fields (nm_map obj f)
unfolding nm_map as_map drop_env_values
nm_map-drop_env_fields f obj h = ap as_map (get-drop_env_plain f obj h) ∙ below (get f obj)
  where
    below :
        (v : Option Json) → as_map (on_value drop_env_values v) ≡ on_map drop_env_fields (as_map v)
    below none = refl
    below (some null) = refl
    below (some (flag b)) = refl
    below (some (number n)) = refl
    below (some (float s)) = refl
    below (some (str s)) = refl
    below (some (items xs)) = refl
    below (some (object m)) = refl

-- A map set to empty texts still is one after `dropEnvValues`.
get-blanked :
    (k : String) (m : Fields)
    → get k (drop_env_fields (set_all (str "") m)) ≡ on_value blank (get k m)
unfolding drop_env_values
get-blanked k m =
    get-drop_env_fields k (set_all (str "") m)
    ∙ ap (on_value (under k)) (get-set_all k (str "") m)
    ∙ below (get k m)
  where
    under_empty :
        (b : Bool) → (if b then drop_literals (str "") else drop_env_values (str "")) ≡ str ""
    under_empty true = refl
    under_empty false = refl

    below : (v : Option Json) → on_value (under k) (on_value (λ w. str "") v) ≡ on_value blank v
    below none = refl
    below (some w) = ap some (under_empty (str_eq k "env"))

values_blank :
    (f k : String) (obj : Fields)
    → In f value_fields
    → str_eq f "env" ≡ false
    → at (key f ∷ key k ∷ []) (object (drop_env_fields (blank_values obj)))
      ≡ on_value blank (at (key f ∷ key k ∷ []) (object obj))
values_blank f k obj i h =
    at-nm_map f k (drop_env_fields (blank_values obj))
    ∙ ap (get_in k) (
        nm_map-drop_env_fields f (blank_values obj) h
        ∙ ap (on_map drop_env_fields) (nm_map-blank_values f obj i))
    ∙ below (nm_map obj f)
    ∙ ap (on_value blank) (sym (at-nm_map f k obj))
  where
    below :
        (o : Option Fields)
        → get_in k (on_map drop_env_fields (on_map (set_all (str "")) o))
          ≡ on_value blank (get_in k o)
    below none = refl
    below (some m) = get-blanked k m

pub blank_or_kept :
    (f k : String) (obj : Fields)
    → In f value_fields
    → (has_values obj ≡ false)
      ⊎ (at (key f ∷ key k ∷ []) (object (sanitize_for_snapshot obj))
          ≡ on_value blank (at (key f ∷ key k ∷ []) (object obj)))
unfolding sanitize_for_snapshot clean_object
blank_or_kept f k obj i = elim (Bool-cases (has_values obj)) [
  | inr e ↦ inl e
  | inl e ↦ inr (
      ap (λ b. at path (object (drop_env_fields (if b then blank_values cleaned else cleaned))))
        (same_kind ∙ e)
      ∙ values_blank f k cleaned i (known f i).1
      ∙ ap (on_value blank) (
          at-nm_map f k cleaned
          ∙ ap (get_in k) (nm_map-in_map_other f "metadata" clean_metadata obj (known f i).0)
          ∙ sym (at-nm_map f k obj)))
]
  where
    path : List Step
    path = key f ∷ key k ∷ []

    cleaned : Fields
    cleaned = in_map "metadata" clean_metadata obj

    same_kind : has_values cleaned ≡ has_values obj
    same_kind =
        ap₂ (λ a b. a || b) (kind_is-in_map "ConfigMap" "metadata" clean_metadata obj refl)
          (kind_is-in_map "Secret" "metadata" clean_metadata obj refl)

    known :
        (g : String) → In g value_fields → (str_eq "metadata" g ≡ false) × (str_eq g "env" ≡ false)
    known g (inl q) =
        subst (λ t. (str_eq "metadata" t ≡ false) × (str_eq t "env" ≡ false)) q (refl, refl)
    known g (inr (inl q)) =
        subst (λ t. (str_eq "metadata" t ≡ false) × (str_eq t "env" ≡ false)) q (refl, refl)
    known g (inr (inr (inl q))) =
        subst (λ t. (str_eq "metadata" t ≡ false) × (str_eq t "env" ≡ false)) q (refl, refl)
    known g (inr (inr (inr q))) = elim q [ ]
