-- ===== src/Caches/Maps.antt =====
-- Go maps with string keys, as association lists.
use kubehealth.Prelude.{
  ◌≡◌, refl, String, Option, none, some, List, [], ◌∷◌, arith, str_eq, eq_iff, if◌then◌else◌,
}

abbrev pub Map {ℓ} : Type ℓ → Type ℓ
Map V = List (String × V)

module _ {ℓ} {V : Type ℓ} where
  unfoldable pub lookup : String → Map V → Option V
  lookup k [] = none
  lookup k ((j, v) ∷ m) = if str_eq j k then some v else lookup k m

  abbrev value_or : V → Option V → V
  value_or d none = d
  value_or d (some v) = v

  -- `m[k]`, with the zero value of a missing key.
  unfoldable pub lookup_or : V → String → Map V → V
  unfolding lookup
  lookup_or d k m = value_or d (lookup k m)

  -- `m[k] = v`
  unfoldable pub store : String → V → Map V → Map V
  store k v [] = (k, v) ∷ []
  store k v ((j, w) ∷ m) = if str_eq j k then (k, v) ∷ m else (j, w) ∷ store k v m

  -- `delete(m, k)`
  unfoldable pub delete : String → Map V → Map V
  delete k [] = []
  delete k ((j, w) ∷ m) = let rest = delete k m in if str_eq j k then rest else (j, w) ∷ rest

  unfoldable pub keys : Map V → List String
  keys [] = []
  keys ((k, v) ∷ m) = k ∷ keys m

  pub lookup-store :
      (k j : String) (v : V) (m : Map V)
      → lookup j (store k v m) ≡ (if str_eq k j then some v else lookup j m)
  unfolding lookup store
  lookup-store k j v [] = refl
  lookup-store k j v ((i, w) ∷ m) =
      ground (arith, lookup-store k j v m, eq_iff k j, eq_iff i k, eq_iff i j)

  pub lookup-delete :
      (k j : String) (m : Map V) → lookup j (delete k m) ≡ (if str_eq k j then none else lookup j m)
  unfolding lookup delete
  lookup-delete k j [] = ground arith
  lookup-delete k j ((i, w) ∷ m) =
      ground (arith, lookup-delete k j m, eq_iff k j, eq_iff i k, eq_iff i j)

  pub lookup_or-store :
      (d : V) (k j : String) (v : V) (m : Map V)
      → lookup_or d j (store k v m) ≡ (if str_eq k j then v else lookup_or d j m)
  unfolding lookup_or
  lookup_or-store d k j v m = ground (arith, lookup-store k j v m)
