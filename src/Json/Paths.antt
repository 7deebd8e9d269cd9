-- ===== src/Json/Paths.antt =====
-- What stands at a path of keys and positions in a decoded JSON value.
use kubehealth.Prelude.{
  ◌≡◌, refl, ℕ, zero, suc, String, Option, ◌∙◌, none, some, List, [], ◌∷◌, ◌++◌,
}
use kubehealth.Json.{
  get_in, Json, null, flag, number, float, str, items, object, Items, nil, cons, Fields, get,
  as_map, nm_map,
}

pub data Step : Type 0 where
  key : String → Step
  index : ℕ → Step

unfoldable pub nth : ℕ → Items → Option Json
nth n nil = none
nth zero (cons v xs) = some v
nth (suc n) (cons v xs) = nth n xs

-- What one step leads to.
unfoldable pub child : Step → Json → Option Json
unfolding get nth
child (key k) (object m) = get k m
child (index n) (items xs) = nth n xs
child (key k) null = none
child (key k) (flag b) = none
child (key k) (number n) = none
child (key k) (float f) = none
child (key k) (str s) = none
child (key k) (items xs) = none
child (index n) null = none
child (index n) (flag b) = none
child (index n) (number m) = none
child (index n) (float f) = none
child (index n) (str s) = none
child (index n) (object m) = none

abbrev pub from_child : (Json → Option Json) → Option Json → Option Json
from_child f none = none
from_child f (some v) = f v

unfoldable pub at : List Step → Json → Option Json
unfolding child
at [] v = some v
at (s ∷ path) v = from_child (at path) (child s v)

pub at-append :
    (path more : List Step) (v : Json) → at (path ++ more) v ≡ from_child (at more) (at path v)
unfolding at
at-append [] more v = refl
at-append (s ∷ path) more v = below (at-append path more) (child s v)
  where
    below :
        ((u : Json) → at (path ++ more) u ≡ from_child (at more) (at path u))
        → (w : Option Json)
        → from_child (at (path ++ more)) w ≡ from_child (at more) (from_child (at path) w)
    below ih none = refl
    below ih (some u) = ih u

-- A key of a map that a map holds.
pub at-nm_map :
    (k j : String) (m : Fields) → at (key k ∷ key j ∷ []) (object m) ≡ get_in j (nm_map m k)
unfolding at child nm_map as_map
at-nm_map k j m = below (get k m)
  where
    last : (v : Option Json) → from_child (at []) v ≡ v
    last none = refl
    last (some v) = refl

    below : (w : Option Json) → from_child (at (key j ∷ [])) w ≡ get_in j (as_map w)
    below none = refl
    below (some null) = refl
    below (some (flag b)) = refl
    below (some (number n)) = refl
    below (some (float f)) = refl
    below (some (str s)) = refl
    below (some (items xs)) = refl
    below (some (object inner)) = last (get j inner)

-- The same with more steps below.
pub at-two_keys :
    (k j : String) (path : List Step) (m : Fields)
    → at (key k ∷ key j ∷ path) (object m)
      ≡ elim (nm_map m k) [ none ↦ none | some inner ↦ at (key j ∷ path) (object inner) ]
unfolding at child nm_map as_map
at-two_keys k j path m = below (get k m)
  where
    below :
        (w : Option Json)
        → from_child (at (key j ∷ path)) w
          ≡ elim (as_map w) [ none ↦ none | some inner ↦ at (key j ∷ path) (object inner) ]
    below none = refl
    below (some null) = refl
    below (some (flag b)) = refl
    below (some (number n)) = refl
    below (some (float f)) = refl
    below (some (str s)) = refl
    below (some (items xs)) = refl
    below (some (object inner)) = refl

-- The map under a key of a map that may be nil.
abbrev pub map_in : String → Option Fields → Option Fields
map_in k none = none
map_in k (some m) = nm_map m k

-- A key of a map in a map that a map holds.
pub at-map_in :
    (k j l : String) (m : Fields)
    → at (key k ∷ key j ∷ key l ∷ []) (object m) ≡ get_in l (map_in j (nm_map m k))
at-map_in k j l m = at-two_keys k j (key l ∷ []) m ∙ below (nm_map m k)
  where
    below :
        (o : Option Fields)
        → elim o [ none ↦ none | some inner ↦ at (key j ∷ key l ∷ []) (object inner) ]
          ≡ get_in l (map_in j o)
    below none = refl
    below (some inner) = at-nm_map j l inner
