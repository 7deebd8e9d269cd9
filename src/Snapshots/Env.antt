-- ===== src/Snapshots/Env.antt =====
-- What `dropEnvValues` of bench_record.go leaves at each path of an object.
use kubehealth.Prelude.{
  ◌≡◌, refl, ap, ◌∙◌, ℕ, zero, suc, false, String, Option, none, some, List, [], ◌∷◌, ◌++◌, All,
  str_eq, eq_iff, Bool-cases, inl, inr, if◌then◌else◌,
}
use kubehealth.Json.{
  Json, null, flag, number, float, str, items, object, Items, nil, cons, Fields, end, field, get,
}
use kubehealth.Json.Maps.{on_value, get-delete}
use kubehealth.Json.Paths.{Step, key, index, nth, child, at, from_child, at-append}
use kubehealth.Snapshots.{
  drop_value, drop_values, drop_literals, drop_env_values, drop_env_fields, drop_env_items,
}

-- What `dropEnvValues` does to the value under a key.
abbrev pub under : String → Json → Json
under k v = if str_eq k "env" then drop_literals v else drop_env_values v

pub get-drop_env_fields :
    (k : String) (m : Fields) → get k (drop_env_fields m) ≡ on_value (under k) (get k m)
unfolding get drop_env_fields
get-drop_env_fields k end = refl
get-drop_env_fields k (field j v m) = elim (Bool-cases (str_eq j k)) [
  | inl e ↦ rw e (ap (λ i. some (under i v)) ((eq_iff j k).0 e))
  | inr e ↦ rw e (get-drop_env_fields k m)
]

under_plain :
    (k : String)
    → str_eq k "env" ≡ false
    → (w : Option Json) → on_value (under k) w ≡ on_value drop_env_values w
under_plain k h none = refl
under_plain k h (some v) = ap (λ b. some (if b then drop_literals v else drop_env_values v)) h

pub get-drop_env_plain :
    (k : String) (m : Fields)
    → str_eq k "env" ≡ false
    → get k (drop_env_fields m) ≡ on_value drop_env_values (get k m)
get-drop_env_plain k m h = get-drop_env_fields k m ∙ under_plain k h (get k m)

nth-drop_env_items :
    (n : ℕ) (xs : Items) → nth n (drop_env_items xs) ≡ on_value drop_env_values (nth n xs)
unfolding nth drop_env_items
nth-drop_env_items n nil = refl
nth-drop_env_items zero (cons v xs) = refl
nth-drop_env_items (suc n) (cons v xs) = nth-drop_env_items n xs

nth-drop_values : (n : ℕ) (xs : Items) → nth n (drop_values xs) ≡ on_value drop_value (nth n xs)
unfolding nth drop_values
nth-drop_values n nil = refl
nth-drop_values zero (cons v xs) = refl
nth-drop_values (suc n) (cons v xs) = nth-drop_values n xs

-- A step that does not go into a list of environment variables.
abbrev pub IsPlain : Step → Type 0
IsPlain (key k) = str_eq k "env" ≡ false
IsPlain (index n) = Unit

child-drop_env_values :
    (s : Step) (v : Json)
    → IsPlain s
    → child s (drop_env_values v) ≡ on_value drop_env_values (child s v)
unfolding child drop_env_values
child-drop_env_values (key k) (object m) h = get-drop_env_plain k m h
child-drop_env_values (index n) (items xs) h = nth-drop_env_items n xs
child-drop_env_values (key k) null h = refl
child-drop_env_values (key k) (flag b) h = refl
child-drop_env_values (key k) (number n) h = refl
child-drop_env_values (key k) (float f) h = refl
child-drop_env_values (key k) (str s) h = refl
child-drop_env_values (key k) (items xs) h = refl
child-drop_env_values (index n) null h = refl
child-drop_env_values (index n) (flag b) h = refl
child-drop_env_values (index n) (number m) h = refl
child-drop_env_values (index n) (float f) h = refl
child-drop_env_values (index n) (str s) h = refl
child-drop_env_values (index n) (object m) h = refl

-- Outside the lists of environment variables, every value has its own cleaned in turn.
pub at-drop_env_values :
    (path : List Step) (v : Json)
    → All IsPlain path
    → at path (drop_env_values v) ≡ on_value drop_env_values (at path v)
unfolding at
at-drop_env_values [] v h = refl
at-drop_env_values (s ∷ path) v h =
    ap (from_child (at path)) (child-drop_env_values s v h.0)
    ∙ below (λ u. at-drop_env_values path u h.1) (child s v)
  where
    below :
        ((u : Json) → at path (drop_env_values u) ≡ on_value drop_env_values (at path u))
        → (w : Option Json)
        → from_child (at path) (on_value drop_env_values w)
          ≡ on_value drop_env_values (from_child (at path) w)
    below ih none = refl
    below ih (some u) = ih u

-- The path to the literal of an environment variable, from the map that holds the list.
abbrev pub env_value : ℕ → List Step
env_value n = key "env" ∷ index n ∷ key "value" ∷ []

no_literal : (n : ℕ) (v : Json) → at (env_value n) (drop_env_values v) ≡ none
unfolding at child drop_env_values
no_literal n (object m) =
    ap (from_child (at (index n ∷ key "value" ∷ []))) (get-drop_env_fields "env" m)
    ∙ in_list (get "env" m)
  where
    in_variable :
        (w : Option Json) → from_child (at (key "value" ∷ [])) (on_value drop_value w) ≡ none
    in_variable none = refl
    in_variable (some (object e)) = ap (from_child (at [])) (get-delete "value" e)
    in_variable (some null) = refl
    in_variable (some (flag b)) = refl
    in_variable (some (number k)) = refl
    in_variable (some (float f)) = refl
    in_variable (some (str s)) = refl
    in_variable (some (items xs)) = refl

    in_list :
        (w : Option Json)
        → from_child (at (index n ∷ key "value" ∷ [])) (on_value (under "env") w) ≡ none
    in_list none = refl
    in_list (some (items xs)) =
        ap (from_child (at (key "value" ∷ []))) (nth-drop_values n xs) ∙ in_variable (nth n xs)
    in_list (some null) = refl
    in_list (some (flag b)) = refl
    in_list (some (number k)) = refl
    in_list (some (float f)) = refl
    in_list (some (str s)) = refl
    in_list (some (object e)) = refl
no_literal n null = refl
no_literal n (flag b) = refl
no_literal n (number k) = refl
no_literal n (float f) = refl
no_literal n (str s) = refl
no_literal n (items xs) = refl

-- No list of environment variables keeps a literal.
pub at-env_value :
    (path : List Step) (n : ℕ) (v : Json)
    → All IsPlain path
    → at (path ++ env_value n) (drop_env_values v) ≡ none
at-env_value path n v h =
    at-append path (env_value n) (drop_env_values v)
    ∙ ap (from_child (at (env_value n))) (at-drop_env_values path v h)
    ∙ below (at path v)
  where
    below : (w : Option Json) → from_child (at (env_value n)) (on_value drop_env_values w) ≡ none
    below none = refl
    below (some u) = no_literal n u
