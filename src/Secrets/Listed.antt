-- ===== src/Secrets/Listed.antt =====
-- The keys that `maskSecret` of yaml_view.go returns are those of the Secret.
use mathlib.Core.List.{Permᴰ}
use kubehealth.Prelude.{
  ◌≡◌, refl, sym, ap, ◌∙◌, inl, inr, Bool, true, false, ◌&&◌, ◌||◌, String, Option, none, some,
  List, [], ◌∷◌, ◌++◌, arith, In, any, subst, str_eq, eq_refl,
}
use kubehealth.Prelude.Sort.{sort_by-perm}
use kubehealth.Json.{Json, object, Fields, end, field, get, get_in, nm_map, kind_is}
use kubehealth.Json.Maps.{on_value}
use kubehealth.Json.Paths.{key, at, at-nm_map}
use kubehealth.Secrets.{SecretKey, less_key, list_keys, mask_secret}
use kubehealth.Secrets.Masked.{
  secret_fields, hide, applied_path, listed_in, found_in, mask_secret-Secret, values_hidden,
  applied_hidden,
}

-- Whether an entry is about a key of a field.
abbrev pub is_about : String → String → SecretKey → Bool
is_about f k s = str_eq s.field f && str_eq s.key k

abbrev pub is_there : Option Json → Bool
is_there none = false
is_there (some v) = true

any-append :
    (test : SecretKey → Bool) (xs ys : List SecretKey)
    → any test (xs ++ ys) ≡ (any test xs || any test ys)
any-append test [] ys = refl
any-append test (x ∷ xs) ys = ground (arith, any-append test xs ys)

any-perm :
    (test : SecretKey → Bool) {xs ys : List SecretKey} → Permᴰ xs ys → any test xs ≡ any test ys
any-perm test Permᴰ.nil = refl
any-perm test (Permᴰ.cons e p) = ground (arith, ap test e, any-perm test p)
any-perm test (Permᴰ.swap e f) = ground (arith, ap test e, ap test f)
any-perm test (Permᴰ.trans p q) = any-perm test p ∙ any-perm test q

listed-same :
    (f k : String) (o : Option Fields) → any (is_about f k) (listed_in f o) ≡ is_there (get_in k o)
unfolding list_keys get
listed-same f k none = refl
listed-same f k (some m) = in_list m
  where
    in_list : (m : Fields) → any (is_about f k) (list_keys f m) ≡ is_there (get k m)
    in_list end = refl
    in_list (field j v m) = ground (arith, eq_refl f, in_list m)

listed-other :
    (f g k : String) (o : Option Fields)
    → str_eq g f ≡ false
    → any (is_about f k) (listed_in g o) ≡ false
unfolding list_keys
listed-other f g k none h = refl
listed-other f g k (some m) h = in_list m
  where
    in_list : (m : Fields) → any (is_about f k) (list_keys g m) ≡ false
    in_list end = refl
    in_list (field j v m) = ground (arith, h, in_list m)

keys_listed :
    (f k : String) (obj : Fields)
    → In f secret_fields
    → kind_is "Secret" obj ≡ true
    → any (is_about f k) (mask_secret obj).1 ≡ is_there (at (key f ∷ key k ∷ []) (object obj))
keys_listed f k obj i h =
    ap (λ p. any (is_about f k) p.1) (mask_secret-Secret obj h)
    ∙ sym (any-perm (is_about f k) (sort_by-perm less_key (found_in obj)))
    ∙ any-append (is_about f k) (listed_in "data" (nm_map obj "data"))
        (listed_in "stringData" (nm_map obj "stringData"))
    ∙ in_one f i
    ∙ ap is_there (sym (at-nm_map f k obj))
  where
    in_one :
        (g : String)
        → In g secret_fields
        → (any (is_about g k) (listed_in "data" (nm_map obj "data"))
            || any (is_about g k) (listed_in "stringData" (nm_map obj "stringData")))
          ≡ is_there (get_in k (nm_map obj g))
    in_one g (inl e) =
        subst
          (λ t.
            (any (is_about t k) (listed_in "data" (nm_map obj "data"))
              || any (is_about t k) (listed_in "stringData" (nm_map obj "stringData")))
            ≡ is_there (get_in k (nm_map obj t)))
          e
          (ground (
            arith,
            listed-same "data" k (nm_map obj "data"),
            listed-other "data" "stringData" k (nm_map obj "stringData") refl,
          ))
    in_one g (inr (inl e)) =
        subst
          (λ t.
            (any (is_about t k) (listed_in "data" (nm_map obj "data"))
              || any (is_about t k) (listed_in "stringData" (nm_map obj "stringData")))
            ≡ is_there (get_in k (nm_map obj t)))
          e
          (ground (
            arith,
            listed-other "stringData" "data" k (nm_map obj "data") refl,
            listed-same "stringData" k (nm_map obj "stringData"),
          ))
    in_one g (inr (inr e)) = elim e [ ]

-- What the YAML panel gets of a Secret. Under `data` and `stringData` exactly the keys that the Secret has
-- are left, each with the text that stands for a hidden value; the last-applied annotation, which repeats
-- the values, is that text too, where there is one; and an entry for a key is returned exactly when the
-- Secret has the key.
pub mask_secret_lem :
    (obj : Fields) (f k : String)
    → In f secret_fields
    → kind_is "Secret" obj ≡ true
    → (at (key f ∷ key k ∷ []) (object (mask_secret obj).0)
        ≡ on_value hide (at (key f ∷ key k ∷ []) (object obj)))
      × (at applied_path (object (mask_secret obj).0)
          ≡ on_value hide (at applied_path (object obj)))
      × (any (is_about f k) (mask_secret obj).1 ≡ is_there (at (key f ∷ key k ∷ []) (object obj)))
mask_secret_lem obj f k i h =
    (values_hidden f k obj i h, applied_hidden obj h, keys_listed f k obj i h)
