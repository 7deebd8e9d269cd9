-- ===== src/Json/Print.antt =====
-- `nmStr` of main.go: a field as `fmt.Sprintf("%v", v)` writes it.
use Prim.Native.String.{◌++◌ as append}
use kubehealth.Prelude.{
  true, false, String, Option, none, some, List, [], ◌∷◌, map, join, text_of, str_ltb,
}
use kubehealth.Prelude.Lines.{decimal_ℤ}
use kubehealth.Prelude.Sort.{sort_by}
use kubehealth.Json.{
  Json, null, flag, number, float, str, items, object, Items, nil, cons, Fields, end, field, get,
}

-- A key with its value as it prints.
abbrev Printed : Type 0
Printed = String × String

abbrev print_pair : Printed → String
print_pair p = append p.0 (append ":" p.1)

-- Maps print in the order of their keys.
unfoldable mutual
  pub print_value : Json → String
  print_value null = "<nil>"
  print_value (flag true) = "true"
  print_value (flag false) = "false"
  print_value (number n) = decimal_ℤ n
  print_value (float f) = f
  print_value (str s) = s
  print_value (items xs) = text_of ("[" ∷ join " " (print_items xs) ∷ "]" ∷ [])
  print_value (object m) = text_of (
      "map["
      ∷ join " " (map print_pair (sort_by (λ p q. str_ltb p.0 q.0) (print_fields m)))
      ∷ "]"
      ∷ [])

  print_items : Items → List String
  print_items nil = []
  print_items (cons v xs) = print_value v ∷ print_items xs

  print_fields : Fields → List Printed
  print_fields end = []
  print_fields (field k v fs) = (k, print_value v) ∷ print_fields fs

-- `nmStr`
unfoldable pub nm_str : Option Fields → String → String
unfolding get print_value
nm_str none key = ""
nm_str (some m) key = elim (get key m) [
  | none ↦ ""
  | some null ↦ ""
  | some (flag b) ↦ print_value (flag b)
  | some (number n) ↦ print_value (number n)
  | some (float f) ↦ f
  | some (str s) ↦ s
  | some (items xs) ↦ print_value (items xs)
  | some (object fs) ↦ print_value (object fs)
]
