-- ===== src/Json/Maps.antt =====
-- How the operations on maps work together.
use kubehealth.Prelude.{
  ◌≡◌, refl, ap, false, String, Option, none, some, ◌∷◌, arith, str_eq, eq_iff,
}
use kubehealth.Json.{
  Json, object, Fields, end, field, get, set, delete, set_all, keys, as_map, nm_map, in_map, as_str,
  kind_is,
}

abbrev pub on_map : (Fields → Fields) → Option Fields → Option Fields
on_map f none = none
on_map f (some m) = some (f m)

-- `f` on a value that is there.
abbrev pub on_value : (Json → Json) → Option Json → Option Json
on_value f none = none
on_value f (some v) = some (f v)

pub get-set : (key : String) (v : Json) (fs : Fields) → get key (set key v fs) ≡ some v
unfolding get set
get-set key v end = ground (arith, eq_iff key key)
get-set key v (field k w fs) = ground (arith, get-set key v fs)

pub get-set_other :
    (key other : String) (v : Json) (fs : Fields)
    → str_eq other key ≡ false
    → get key (set other v fs) ≡ get key fs
unfolding get set
get-set_other key other v end h = ground arith
get-set_other key other v (field k w fs) h =
    ground (arith, eq_iff k other, eq_iff k key, eq_iff other key, get-set_other key other v fs h)

pub get-delete : (key : String) (fs : Fields) → get key (delete key fs) ≡ none
unfolding get delete
get-delete key end = refl
get-delete key (field k w fs) = ground (arith, get-delete key fs)

pub get-delete_other :
    (key other : String) (fs : Fields)
    → str_eq other key ≡ false
    → get key (delete other fs) ≡ get key fs
unfolding get delete
get-delete_other key other end h = refl
get-delete_other key other (field k w fs) h =
    ground (arith, eq_iff k other, eq_iff k key, eq_iff other key, get-delete_other key other fs h)

pub keys-set_all : (v : Json) (fs : Fields) → keys (set_all v fs) ≡ keys fs
unfolding keys set_all
keys-set_all v end = refl
keys-set_all v (field k w fs) = ap (λ ks. k ∷ ks) (keys-set_all v fs)

pub nm_map-set : (key : String) (m obj : Fields) → nm_map (set key (object m) obj) key ≡ some m
unfolding nm_map as_map
nm_map-set key m obj = ap as_map (get-set key (object m) obj)

-- A change to the map under one key leaves the other keys.
pub get-in_map_other :
    (key other : String) (f : Fields → Fields) (obj : Fields)
    → str_eq other key ≡ false
    → get key (in_map other f obj) ≡ get key obj
unfolding in_map
get-in_map_other key other f obj h = below (nm_map obj other)
  where
    below :
        (m : Option Fields)
        → get key (elim m [ none ↦ obj | some inner ↦ set other (object (f inner)) obj ])
          ≡ get key obj
    below none = refl
    below (some inner) = get-set_other key other (object (f inner)) obj h

-- The map under the key itself is the changed one.
pub nm_map-in_map :
    (key : String) (f : Fields → Fields) (obj : Fields)
    → nm_map (in_map key f obj) key ≡ on_map f (nm_map obj key)
unfolding in_map
nm_map-in_map key f obj = below (nm_map obj key) refl
  where
    below :
        (m : Option Fields)
        → nm_map obj key ≡ m
        → nm_map (elim m [ none ↦ obj | some inner ↦ set key (object (f inner)) obj ]) key
          ≡ on_map f m
    below none e = e
    below (some inner) e = nm_map-set key (f inner) obj

pub nm_map-in_map_other :
    (key other : String) (f : Fields → Fields) (obj : Fields)
    → str_eq other key ≡ false
    → nm_map (in_map other f obj) key ≡ nm_map obj key
unfolding nm_map
nm_map-in_map_other key other f obj h = ap as_map (get-in_map_other key other f obj h)

-- The kind of an object that keeps its field `kind`.
pub kind_is-in_map :
    (kind other : String) (f : Fields → Fields) (obj : Fields)
    → str_eq other "kind" ≡ false
    → kind_is kind (in_map other f obj) ≡ kind_is kind obj
unfolding kind_is
kind_is-in_map kind other f obj h =
    ap (λ v. elim (as_str v) [ none ↦ false | some k ↦ str_eq k kind ])
      (get-in_map_other "kind" other f obj h)

pub get-set_all :
    (key : String) (v : Json) (fs : Fields)
    → get key (set_all v fs) ≡ on_value (λ w. v) (get key fs)
unfolding get set_all
get-set_all key v end = refl
get-set_all key v (field k w fs) = ground (arith, get-set_all key v fs)
