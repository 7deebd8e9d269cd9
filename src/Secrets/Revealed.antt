-- ===== src/Secrets/Revealed.antt =====
-- The one value of a Secret that the YAML panel asks for (yaml_view.go), next to the list of its keys.
use kubehealth.Prelude.{
  ◌≡◌, refl, sym, ap, ◌∙◌, ◌⊎◌, inl, inr, ℕ, Bool, true, false, not, ◌&&◌, String, Option, none,
  some, List, [], ◌∷◌, In, ap₂, subst, str_eq, eq_iff, Bool-cases, length, if◌then◌else◌,
  Option-cases,
}
use kubehealth.Json.{
  Json, null, flag, number, float, str, items, object, Fields, get_in, nm_map, as_str, kind_is,
}
use kubehealth.Json.Paths.{key, at, at-nm_map}
use kubehealth.Secrets.{
  ValueAnswer, not_a_secret, unknown_field, no_key, plain, decoded, binary, value_bytes,
  mask_secret, str_in, reveal_data, reveal_in, secret_value,
}
use kubehealth.Prelude.Bytes.{byte_length}
use kubehealth.Secrets.Bytes.{decode_string, utf8_valid}
use kubehealth.Secrets.Entries.{In-mask_secret}
use kubehealth.Secrets.Masked.{secret_fields}

-- How many bytes a value has that was revealed.
abbrev pub answer_bytes : ValueAnswer → Option ℕ
answer_bytes not_a_secret = none
answer_bytes (unknown_field f) = none
answer_bytes (no_key k f) = none
answer_bytes (plain s) = some (byte_length s)
answer_bytes (decoded bytes) = some (length bytes)
answer_bytes (binary s) = elim (decode_string s) [
  | none ↦ some (byte_length s)
  | some bytes ↦ some (length bytes)
]

-- The field that a request means.
abbrev pub field_of : String → String
field_of asked = if str_eq asked "" then "data" else asked

-- A value's size, where it is revealed, is the size that is listed.
answer_bytes-reveal_data :
    (s : String) → answer_bytes (reveal_data s) ≡ some (value_bytes "data" (str s))
unfolding value_bytes as_str
answer_bytes-reveal_data s = below (decode_string s) refl
  where
    as_text :
        (d : Option (List ℕ))
        → decode_string s ≡ d
        → answer_bytes (binary s)
          ≡ elim d [ none ↦ some (byte_length s) | some bytes ↦ some (length bytes) ]
    as_text d e =
        ap (λ x. elim x [ none ↦ some (byte_length s) | some bytes ↦ some (length bytes) ]) e

    either :
        (bytes : List ℕ) (b : Bool)
        → decode_string s ≡ some bytes
        → answer_bytes (if b then decoded bytes else binary s) ≡ some (length bytes)
    either bytes true e = refl
    either bytes false e = as_text (some bytes) e

    below :
        (d : Option (List ℕ))
        → decode_string s ≡ d
        → answer_bytes (elim d [
          | none ↦ binary s
          | some bytes ↦ if utf8_valid bytes then decoded bytes else binary s
        ])
          ≡ some (elim d [ none ↦ byte_length s | some bytes ↦ length bytes ])
    below none e = as_text none e
    below (some bytes) e = either bytes (utf8_valid bytes) e

-- A value under one of the two fields, when the request names it.
abbrev answer_of : String → String → Option String → ValueAnswer
answer_of f k none = no_key k f
answer_of f k (some s) = if str_eq f "stringData" then plain s else reveal_data s

answer_bytes-answer_of :
    (f k s : String)
    → In f secret_fields
    → answer_bytes (answer_of f k (some s)) ≡ some (value_bytes f (str s))
unfolding value_bytes as_str
answer_bytes-answer_of f k s (inl e) =
    subst (λ g. answer_bytes (answer_of g k (some s)) ≡ some (value_bytes g (str s))) e
      (answer_bytes-reveal_data s)
answer_bytes-answer_of f k s (inr (inl e)) =
    subst (λ g. answer_bytes (answer_of g k (some s)) ≡ some (value_bytes g (str s))) e refl
answer_bytes-answer_of f k s (inr (inr e)) = elim e [ ]

str_in_lem : (m : Option Fields) (k : String) → str_in m k ≡ as_str (get_in k m)
unfolding as_str
str_in_lem none k = refl
str_in_lem (some m) k = refl

as_str-cases :
    (v : Option Json)
    → (as_str v ≡ none) ⊎ ((s : String) × (v ≡ some (str s)) × (as_str v ≡ some s))
unfolding as_str
as_str-cases none = inl refl
as_str-cases (some null) = inl refl
as_str-cases (some (flag b)) = inl refl
as_str-cases (some (number n)) = inl refl
as_str-cases (some (float f)) = inl refl
as_str-cases (some (items xs)) = inl refl
as_str-cases (some (object m)) = inl refl
as_str-cases (some (str s)) = inr (s, refl, refl)

-- The text `s` as the value of the field: itself in `stringData`, and in `data` the bytes that it encodes,
-- as text if they are valid UTF-8, or else `s` as it is.
abbrev pub IsRevealed : String → String → ValueAnswer → Type 0
IsRevealed f s answer =
    ((f ≡ "stringData") × (answer ≡ plain s))
    ⊎ ((f ≡ "data")
        × (((bytes : List ℕ) × (decode_string s ≡ some bytes)
              × (utf8_valid bytes ≡ true)
              × (answer ≡ decoded bytes))
            ⊎ ((bytes : List ℕ) × (decode_string s ≡ some bytes)
                × (utf8_valid bytes ≡ false)
                × (answer ≡ binary s))
            ⊎ ((decode_string s ≡ none) × (answer ≡ binary s))))

answer_of-IsRevealed :
    (f k s : String) → In f secret_fields → IsRevealed f s (answer_of f k (some s))
answer_of-IsRevealed f k s (inr (inl e)) =
    subst (λ g. IsRevealed g s (answer_of g k (some s))) e (inl (refl, refl))
answer_of-IsRevealed f k s (inr (inr e)) = elim e [ ]
answer_of-IsRevealed f k s (inl e) =
    subst (λ g. IsRevealed g s (answer_of g k (some s))) e (inr (refl, revealed))
  where
    Of : ValueAnswer → Type 0
    Of answer =
        ((bytes : List ℕ) × (decode_string s ≡ some bytes)
          × (utf8_valid bytes ≡ true)
          × (answer ≡ decoded bytes))
        ⊎ ((bytes : List ℕ) × (decode_string s ≡ some bytes)
            × (utf8_valid bytes ≡ false)
            × (answer ≡ binary s))
        ⊎ ((decode_string s ≡ none) × (answer ≡ binary s))

    revealed : Of (reveal_data s)
    revealed = elim (Option-cases (decode_string s)) [
      | inl q ↦ rw (q, reveal_data) (inr (inr (refl, refl)))
      | inr (bytes, q) ↦ elim (Bool-cases (utf8_valid bytes)) [
        | inl v ↦ rw (q, reveal_data, v) (inl (bytes, refl, v, refl))
        | inr v ↦ rw (q, reveal_data, v) (inr (inl (bytes, refl, v, refl)))
      ]
    ]

-- `secretValue` after its field is known.
unfoldable outcome : Fields → String → Bool → String → ValueAnswer
outcome obj k b f =
    if not b
    then not_a_secret
    else if not (str_eq f "data") && not (str_eq f "stringData")
    then unknown_field f
    else reveal_in obj f k

secret_value_eq :
    (obj : Fields) (asked k : String)
    → secret_value obj asked k ≡ outcome obj k (kind_is "Secret" obj) (field_of asked)
unfolding secret_value outcome
secret_value_eq obj asked k = refl

outcome-known :
    (obj : Fields) (k f : String)
    → In f secret_fields
    → outcome obj k true f ≡ answer_of f k (as_str (get_in k (nm_map obj f)))
unfolding outcome
outcome-known obj k f (inl e) =
    subst (λ g. outcome obj k true g ≡ answer_of g k (as_str (get_in k (nm_map obj g)))) e
      (ap (answer_of "data" k) (str_in_lem (nm_map obj "data") k))
outcome-known obj k f (inr (inl e)) =
    subst (λ g. outcome obj k true g ≡ answer_of g k (as_str (get_in k (nm_map obj g)))) e
      (ap (answer_of "stringData" k) (str_in_lem (nm_map obj "stringData") k))
outcome-known obj k f (inr (inr e)) = elim e [ ]

field-cases :
    (f : String)
    → ((str_eq f "data" ≡ false) × (str_eq f "stringData" ≡ false)) ⊎ In f secret_fields
field-cases f = elim (Bool-cases (str_eq f "data")) [
  | inl e ↦ inr (inl (sym ((eq_iff f "data").0 e)))
  | inr e ↦ elim (Bool-cases (str_eq f "stringData")) [
    | inl g ↦ inr (inr (inl (sym ((eq_iff f "stringData").0 g))))
    | inr g ↦ inl (e, g)
  ]
]

-- What the panel is told of one value, whatever it asks for, by what stands at its path in the object:
-- that the object is no Secret; that the field is neither `data` (which an empty field means) nor
-- `stringData`; that the field has no text under the key; or else its value. That is the text itself in
-- `stringData`; in `data` it is the bytes that the text encodes in base64, when they are valid UTF-8, and
-- otherwise the text as it is, marked as binary. `maskSecret` then lists the key with as many bytes as
-- the value has that is revealed.
pub secret_value_lem :
    (obj : Fields) (asked k : String)
    → let f = field_of asked in
      let answer = secret_value obj asked k in
      ((kind_is "Secret" obj ≡ false) × (answer ≡ not_a_secret))
      ⊎ ((str_eq f "data" ≡ false) × (str_eq f "stringData" ≡ false) × (answer ≡ unknown_field f))
      ⊎ (In f secret_fields
          × (as_str (at (key f ∷ key k ∷ []) (object obj)) ≡ none)
          × (answer ≡ no_key k f))
      ⊎ ((s : String) × (at (key f ∷ key k ∷ []) (object obj) ≡ some (str s))
          × IsRevealed f s answer
          × In (record { field = f; key = k; bytes = value_bytes f (str s) }) (mask_secret obj).1
          × (answer_bytes answer ≡ some (value_bytes f (str s))))
unfolding outcome
secret_value_lem obj asked k = elim (Bool-cases (kind_is "Secret" obj)) [
  | inr e ↦ inl (e, secret_value_eq obj asked k ∙ ap (λ b. outcome obj k b f) e)
  | inl e ↦ elim (field-cases f) [
    | inl g ↦ inr (inl (g.0, g.1, is_answer e ∙ unknown g.0 g.1))
    | inr i ↦ elim (as_str-cases (get_in k (nm_map obj f))) [
      | inl q ↦ inr (
          inr (
            inl (
              i,
              ap as_str (at-nm_map f k obj) ∙ q,
              is_answer e ∙ outcome-known obj k f i ∙ ap (answer_of f k) q,
            )))
      | inr (s, q, t) ↦ inr (
          inr (
            inr (
              s,
              at-nm_map f k obj ∙ q,
              subst (IsRevealed f s) (sym (found e i t)) (answer_of-IsRevealed f k s i),
              In-mask_secret f k (str s) obj i e q,
              ap answer_bytes (found e i t) ∙ answer_bytes-answer_of f k s i,
            )))
    ]
  ]
]
  where
    f : String
    f = field_of asked

    is_answer : kind_is "Secret" obj ≡ true → secret_value obj asked k ≡ outcome obj k true f
    is_answer e = secret_value_eq obj asked k ∙ ap (λ b. outcome obj k b f) e

    found :
        kind_is "Secret" obj ≡ true
        → In f secret_fields
        → {o : Option String} → as_str (get_in k (nm_map obj f)) ≡ o
        → secret_value obj asked k ≡ answer_of f k o
    found e i t = is_answer e ∙ outcome-known obj k f i ∙ ap (answer_of f k) t

    unknown :
        str_eq f "data" ≡ false
        → str_eq f "stringData" ≡ false
        → outcome obj k true f ≡ unknown_field f
    unknown e g = ap₂ (λ a b. if not a && not b then unknown_field f else reveal_in obj f k) e g
