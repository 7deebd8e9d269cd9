-- ===== src/Secrets.antt =====
-- The YAML panel and Secrets (yaml_view.go): what stands in place of a Secret's values, what the page is
-- told of them, and the one value that it asks for.
pub mod Bytes
pub mod Entries
pub mod Listed
pub mod Masked
pub mod Revealed
use kubehealth.Prelude.{
  ◌≡◌, ℕ, Bool, true, false, not, ◌&&◌, ◌||◌, String, Option, none, some, List, [], ◌∷◌, ◌++◌,
  str_eq, str_ltb, length, if◌then◌else◌,
}
use kubehealth.Prelude.Order.{lex}
use kubehealth.Prelude.Sort.{sort_by}
use kubehealth.Json.{
  Json, str, object, Fields, end, field, get, set, set_all, nm_map, in_map, as_str, kind_is,
}
use kubehealth.Snapshots.{last_applied}
use kubehealth.Prelude.Bytes.{byte_length}
use kubehealth.Secrets.Bytes.{decode_string, utf8_valid}

-- `secretHidden`
abbrev pub secret_hidden : String
secret_hidden = "(hidden)"

pub record SecretKey : Type 0 where
  pub field : String
  pub key : String
  pub bytes : ℕ

abbrev pub less_key : SecretKey → SecretKey → Bool
less_key =
    lex (λ a b. str_eq a.field b.field) (λ a b. str_ltb a.field b.field)
      (λ a b. str_ltb a.key b.key)

-- `s, _ := v.(string)`
abbrev text_or_empty : Option String → String
text_or_empty none = ""
text_or_empty (some s) = s

-- The size of a value of a Secret, decoded where it can be.
unfoldable pub value_bytes : String → Json → ℕ
value_bytes f v =
    let s = text_or_empty (as_str (some v)) in
    if str_eq f "data"
    then elim (decode_string s) [ none ↦ byte_length s | some bytes ↦ length bytes ]
    else byte_length s

unfoldable pub list_keys : String → Fields → List SecretKey
list_keys f end = []
list_keys f (field k v m) = record { field = f; key = k; bytes = value_bytes f v } ∷ list_keys f m

-- One round of the loop over `data` and `stringData`.
unfoldable pub mask_field : String → Fields × List SecretKey → Fields × List SecretKey
mask_field f (obj, found) = elim (nm_map obj f) [
  | none ↦ (obj, found)
  | some m ↦ (set f (object (set_all (str secret_hidden) m)) obj, found ++ list_keys f m)
]

abbrev pub hide_applied : Fields → Fields
hide_applied ann = elim (get last_applied ann) [
  | none ↦ ann
  | some v ↦ set last_applied (str secret_hidden) ann
]

-- `maskSecret`: the object afterwards, and what it returns.
unfoldable pub mask_secret : Fields → Fields × List SecretKey
mask_secret obj =
    let (masked, found) = mask_field "stringData" (mask_field "data" (obj, [])) in
    if kind_is "Secret" obj
    then (in_map "metadata" (in_map "annotations" hide_applied) masked, sort_by less_key found)
    else (obj, [])

abbrev str_in : Option Fields → String → Option String
str_in none key = none
str_in (some m) key = as_str (get key m)

-- What `secretValue` returns: its three errors, a text of `stringData`, the bytes that a text decodes to,
-- or a value as base64, which it says is binary.
pub data ValueAnswer : Type 0 where
  not_a_secret : ValueAnswer
  unknown_field : String → ValueAnswer
  no_key : String → String → ValueAnswer
  plain : String → ValueAnswer
  decoded : List ℕ → ValueAnswer
  binary : String → ValueAnswer

-- A value of `data`.
abbrev pub reveal_data : String → ValueAnswer
reveal_data s = elim (decode_string s) [
  | none ↦ binary s
  | some bytes ↦ if utf8_valid bytes then decoded bytes else binary s
]

abbrev pub reveal_in : Fields → String → String → ValueAnswer
reveal_in obj f key = elim (str_in (nm_map obj f) key) [
  | none ↦ no_key key f
  | some s ↦ if str_eq f "stringData" then plain s else reveal_data s
]

-- `secretValue`
unfoldable pub secret_value : Fields → String → String → ValueAnswer
secret_value obj asked key =
    let f = if str_eq asked "" then "data" else asked in
    if not (kind_is "Secret" obj)
    then not_a_secret
    else if not (str_eq f "data") && not (str_eq f "stringData")
    then unknown_field f
    else reveal_in obj f key
