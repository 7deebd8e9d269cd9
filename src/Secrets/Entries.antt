-- ===== src/Secrets/Entries.antt =====
-- Each key of a Secret has its entry in what `maskSecret` of yaml_view.go returns.
use kubehealth.Prelude.{
  ◌≡◌, sym, inl, inr, true, String, Option, none, some, arith, In, In-perm, In-append_left,
  In-append_right, ap₂, subst, str_eq, eq_iff, Bool-cases,
}
use kubehealth.Prelude.Sort.{sort_by-perm}
use kubehealth.Json.{Json, Fields, end, field, get, get_in, nm_map, kind_is}
use kubehealth.Secrets.{less_key, value_bytes, list_keys, mask_secret}
use kubehealth.Secrets.Masked.{secret_fields, listed_in, found_in, mask_secret-Secret}

In-list_keys :
    (f k : String) (v : Json) (m : Fields)
    → get k m ≡ some v
    → In (record { field = f; key = k; bytes = value_bytes f v }) (list_keys f m)
unfolding get list_keys
In-list_keys f k v end h = absurd (ground (arith, h))
In-list_keys f k v (field j w m) h = elim (Bool-cases (str_eq j k)) [
  | inl e ↦ inl (
      ap₂ (λ (i : String) (u : Json). record { field = f; key = i; bytes = value_bytes f u })
        ((eq_iff j k).0 e) (ground (arith, h, e)))
  | inr e ↦ inr (In-list_keys f k v m (rw e at h))
]

In-listed_in :
    (f k : String) (v : Json) (o : Option Fields)
    → get_in k o ≡ some v
    → In (record { field = f; key = k; bytes = value_bytes f v }) (listed_in f o)
In-listed_in f k v none h = absurd (ground (arith, h))
In-listed_in f k v (some m) h = In-list_keys f k v m h

-- A key with its size is in what `maskSecret` returns.
pub In-mask_secret :
    (f k : String) (v : Json) (obj : Fields)
    → In f secret_fields
    → kind_is "Secret" obj ≡ true
    → get_in k (nm_map obj f) ≡ some v
    → In (record { field = f; key = k; bytes = value_bytes f v }) (mask_secret obj).1
In-mask_secret f k v obj i h q =
    subst (λ p. In (record { field = f; key = k; bytes = value_bytes f v }) p.1)
      (sym (mask_secret-Secret obj h))
      (In-perm _ (sort_by-perm less_key (found_in obj)) (in_one f i q))
  where
    in_one :
        (g : String)
        → In g secret_fields
        → get_in k (nm_map obj g) ≡ some v
        → In (record { field = g; key = k; bytes = value_bytes g v }) (found_in obj)
    in_one g (inl e) =
        subst
          (λ t.
            get_in k (nm_map obj t) ≡ some v
            → In (record { field = t; key = k; bytes = value_bytes t v }) (found_in obj))
          e
          (λ r.
            In-append_left _ (listed_in "data" (nm_map obj "data")) _
              (In-listed_in "data" k v (nm_map obj "data") r))
    in_one g (inr (inl e)) =
        subst
          (λ t.
            get_in k (nm_map obj t) ≡ some v
            → In (record { field = t; key = k; bytes = value_bytes t v }) (found_in obj))
          e
          (λ r.
            In-append_right _ (listed_in "data" (nm_map obj "data")) _
              (In-listed_in "stringData" k v (nm_map obj "stringData") r))
    in_one g (inr (inr e)) = elim e [ ]
