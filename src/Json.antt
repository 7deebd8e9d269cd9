-- ===== src/Json.antt =====
-- The objects of the Kubernetes API as main.go and its neighbours read them: the decoded JSON values,
-- maps as lists of fields, and `nmMap`, `nmStr` and Go's map operations on them.
pub mod Maps
pub mod Paths
pub mod Print
use kubehealth.Prelude.{
  ◌≡◌, refl, ◌⊎◌, inl, inr, Bool, true, false, String, Option, none, some, List, [], ◌∷◌, str_eq,
  if◌then◌else◌,
}
use kubehealth.Prelude.Int.{ℤ}

-- `any` after decoding: nil, bool, int64, float64 (as it prints), string, []any and map[string]any.
mutual
  pub data Json : Type 0 where
    null : Json
    flag : Bool → Json
    number : ℤ → Json
    float : String → Json
    str : String → Json
    items : Items → Json
    object : Fields → Json

  pub data Items : Type 0 where
    nil : Items
    cons : Json → Items → Items

  pub data Fields : Type 0 where
    end : Fields
    field : String → Json → Fields → Fields

-- `m[key]`
unfoldable pub get : String → Fields → Option Json
get key end = none
get key (field k v fs) = if str_eq k key then some v else get key fs

-- `m[key] = v`
unfoldable pub set : String → Json → Fields → Fields
set key v end = field key v end
set key v (field k w fs) =
    let rest = set key v fs in if str_eq k key then field k v fs else field k w rest

-- `delete(m, key)`
unfoldable pub delete : String → Fields → Fields
delete key end = end
delete key (field k v fs) =
    let rest = delete key fs in if str_eq k key then rest else field k v rest

-- `for k := range m { m[k] = v }`
unfoldable pub set_all : Json → Fields → Fields
set_all v end = end
set_all v (field k w fs) = field k v (set_all v fs)

-- The keys of a map.
unfoldable pub keys : Fields → List String
keys end = []
keys (field k v fs) = k ∷ keys fs

-- `m, ok := v.(map[string]any)`
unfoldable pub as_map : Option Json → Option Fields
as_map (some (object m)) = some m
as_map none = none
as_map (some null) = none
as_map (some (flag b)) = none
as_map (some (number n)) = none
as_map (some (float f)) = none
as_map (some (str s)) = none
as_map (some (items xs)) = none

-- `s, ok := v.(string)`
unfoldable pub as_str : Option Json → Option String
as_str (some (str s)) = some s
as_str none = none
as_str (some null) = none
as_str (some (flag b)) = none
as_str (some (number n)) = none
as_str (some (float f)) = none
as_str (some (items xs)) = none
as_str (some (object m)) = none

-- `m[key]` of a map that may be nil.
abbrev pub get_in : String → Option Fields → Option Json
get_in key none = none
get_in key (some m) = get key m

-- `nmMap`: `none` stands for a nil map.
unfoldable pub nm_map : Fields → String → Option Fields
nm_map obj key = as_map (get key obj)

-- What `f` makes in place of the map that `obj` holds under `key`, when it holds one.
unfoldable pub in_map : String → (Fields → Fields) → Fields → Fields
in_map key f obj = elim (nm_map obj key) [ none ↦ obj | some m ↦ set key (object (f m)) obj ]

-- Whether a test on a field that is a string holds.
unfoldable pub kind_is : String → Fields → Bool
kind_is kind obj = elim (as_str (get "kind" obj)) [ none ↦ false | some k ↦ str_eq k kind ]

pub as_map-cases : (v : Option Json) → (as_map v ≡ none) ⊎ ((m : Fields) × (v ≡ some (object m)))
unfolding as_map
as_map-cases none = inl refl
as_map-cases (some null) = inl refl
as_map-cases (some (flag b)) = inl refl
as_map-cases (some (number n)) = inl refl
as_map-cases (some (float f)) = inl refl
as_map-cases (some (str s)) = inl refl
as_map-cases (some (items xs)) = inl refl
as_map-cases (some (object m)) = inr (m, refl)
