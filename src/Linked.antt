-- ===== src/Linked.antt =====
-- The block of linked evidence in a prompt (linked.go): its items, how it is written, and how it is cut
-- to a budget of tokens.
pub mod Block
pub mod Distance
pub mod Follow
use kubehealth.Prelude.{
  ℕ, zero, suc, ◌+◌, ◌*◌, ◌/◌, max, Bool, true, false, ◌||◌, String, Option, none, some, List, [],
  ◌∷◌, map, ltb, leb, ◌==◌, length, text_of, decimal, if◌then◌else◌,
}
use kubehealth.Prelude.Int.{ℤ, pos, negsuc}
use kubehealth.Tokens.{Estimate, estimate_tokens}

pub record LinkedItem : Type 0 where
  pub rule : String
  pub kind : String
  pub ns : String
  pub name : String
  pub facts : String
  pub lines : List String

-- `linkedItem.key`
unfoldable pub item_key : LinkedItem → String
item_key i = text_of (i.kind ∷ "/" ∷ i.ns ∷ "/" ∷ i.name ∷ [])

-- `linkedItem.tag`
unfoldable pub item_tag : LinkedItem → String
item_tag i = text_of (i.rule ∷ ":" ∷ i.kind ∷ "/" ∷ i.name ∷ [])

abbrev linked_heading : String
linked_heading = "\nLinked evidence (followed from the evidence above):\n"

-- `pluralWord`
unfoldable pub plural_word : String → String → ℕ → String
plural_word one many n = if n == 1 then one else many

abbrev item_text : LinkedItem → String
item_text i = text_of (
    text_of ("- " ∷ i.kind ∷ " " ∷ i.name ∷ ": " ∷ i.facts ∷ "\n" ∷ [])
    ∷ map (λ l. text_of ("  - " ∷ l ∷ "\n" ∷ [])) i.lines)

-- `writeLinked`
unfoldable pub write_linked : List LinkedItem → ℕ → String
unfolding plural_word decimal
write_linked items trimmed = text_of (
    linked_heading
    ∷ text_of (map item_text items)
    ∷ (if ltb 0 trimmed
        then text_of (
            "("
            ∷ decimal trimmed
            ∷ " linked evidence "
            ∷ plural_word "line" "lines" trimmed
            ∷ " trimmed to fit the model's context)\n"
            ∷ [])
        else "")
    ∷ [])

-- All but the last: `xs[:len(xs)-1]`.
unfoldable pub init {ℓ} : {A : Type ℓ} → List A → List A
init [] = []
init (x ∷ []) = []
init (x ∷ y ∷ xs) = x ∷ init (y ∷ xs)

-- How many lines the last item has below its own.
last_lines : List LinkedItem → ℕ
last_lines [] = 0
last_lines (i ∷ []) = length i.lines
last_lines (i ∷ j ∷ items) = last_lines (j ∷ items)

-- The `switch` of `renderLinked`: what is kept then, and how many lines that trims.
unfoldable pub shrink : List LinkedItem → Option (List LinkedItem × ℕ)
unfolding init last_lines
shrink [] = none
shrink (i ∷ []) = elim i.lines [
  | [] ↦ none
  | l ∷ more ↦ some (record i { lines = init (l ∷ more) } ∷ [], 1)
]
shrink (i ∷ j ∷ items) = some (init (i ∷ j ∷ items), 1 + last_lines (i ∷ j ∷ items))

abbrev pub Block : Type 0
Block = String × List LinkedItem × ℕ

-- The loop of `renderLinked`; `none` means that the fuel ran out.
unfoldable pub trim : ℕ → Estimate → ℕ → List LinkedItem → ℕ → Option Block
trim zero e budget kept trimmed = none
trim (suc fuel) e budget kept trimmed =
    let text = write_linked kept trimmed in
    if (budget == 0) || leb (estimate_tokens e text) budget
    then some (text, kept, trimmed)
    else elim (shrink kept) [
      | none ↦ some ("", [], trimmed + 1)
      | some (fewer, n) ↦ trim fuel e budget fewer (trimmed + n)
    ]

-- How many lines a block lists.
unfoldable pub count_lines : List LinkedItem → ℕ
count_lines [] = 0
count_lines (i ∷ items) = suc (length i.lines) + count_lines items

-- `renderLinked`, with more fuel than there are lines: each round but the last trims one or more.
unfoldable pub render_linked : Estimate → List LinkedItem → ℕ → Option Block
unfolding trim count_lines
render_linked e [] budget = some ("", [], 0)
render_linked e (i ∷ items) budget = trim (suc (count_lines (i ∷ items))) e budget (i ∷ items) 0

-- `linkedBudget`; `linkedShare` is 15.
unfoldable pub linked_budget : ℤ → ℕ
linked_budget (pos zero) = 0
linked_budget (pos (suc n)) = max (suc n * 15 / 100) 1
linked_budget (negsuc n) = 0
