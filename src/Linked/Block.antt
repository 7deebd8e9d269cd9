-- ===== src/Linked/Block.antt =====
-- What `renderLinked` (linked.go) keeps of its items, and that it ends.
use kubehealth.Prelude.{
  ◌≡◌, refl, ap, Nowhere, subst, ◌⊎◌, inl, inr, ℕ, zero, suc, ◌+◌, ◌≤◌, ◌<◌, ◌||◌, String, Option,
  none, some, List, [], ◌∷◌, arith, leb, ◌==◌, length, Bool-cases, List-cases, Option-cases,
}
use kubehealth.Tokens.{Estimate, estimate_tokens, fits_or, or_fits}
use kubehealth.Linked.{
  LinkedItem, write_linked, init, last_lines, shrink, Block, trim, count_lines, render_linked,
}

-- The first elements of a list.
abbrev pub IsPrefix {ℓ} : {A : Type ℓ} → List A → List A → Type ℓ
IsPrefix [] ys = Unit
IsPrefix (x ∷ xs) [] = Nowhere
IsPrefix (x ∷ xs) (y ∷ ys) = (x ≡ y) × IsPrefix xs ys

-- The first items, or the first one alone with the first of its lines.
abbrev pub IsCut : List LinkedItem → List LinkedItem → Type 0
IsCut (k ∷ []) (i ∷ items) = (k ≡ record i { lines = k.lines }) × IsPrefix k.lines i.lines
IsCut kept items = IsPrefix kept items

IsPrefix-refl {ℓ} : {A : Type ℓ} (xs : List A) → IsPrefix xs xs
IsPrefix-refl [] = tt
IsPrefix-refl (x ∷ xs) = (refl, IsPrefix-refl xs)

init-IsPrefix {ℓ} : {A : Type ℓ} (xs ys : List A) → IsPrefix xs ys → IsPrefix (init xs) ys
unfolding init
init-IsPrefix [] ys h = tt
init-IsPrefix (x ∷ []) ys h = tt
init-IsPrefix (x ∷ x' ∷ xs) [] h = h
init-IsPrefix (x ∷ x' ∷ xs) (y ∷ ys) h = (h.0, init-IsPrefix (x' ∷ xs) ys h.1)

length-init {ℓ} :
    {A : Type ℓ} (x : A) (xs : List A) → suc (length (init (x ∷ xs))) ≡ suc (length xs)
unfolding init
length-init x [] = refl
length-init x (y ∷ xs) = omega (arith, length-init y xs)

IsPrefix-IsCut : (kept items : List LinkedItem) → IsPrefix kept items → IsCut kept items
IsPrefix-IsCut [] items h = tt
IsPrefix-IsCut (k ∷ []) [] h = h
IsPrefix-IsCut (k ∷ []) (i ∷ items) h =
    subst (λ (x : LinkedItem). (k ≡ record x { lines = k.lines }) × IsPrefix k.lines x.lines) h.0
      (refl, IsPrefix-refl k.lines)
IsPrefix-IsCut (k ∷ k' ∷ kept) items h = h

count_lines-init :
    (i j : LinkedItem) (items : List LinkedItem)
    → count_lines (init (i ∷ j ∷ items)) + (1 + last_lines (i ∷ j ∷ items))
      ≡ count_lines (i ∷ j ∷ items)
unfolding init last_lines count_lines
count_lines-init i j [] = omega arith
count_lines-init i j (k ∷ items) = omega (arith, count_lines-init j k items)

-- A round trims as many lines as it says, one at least, and keeps a cut; none is left to trim but the
-- first line of the last item.
abbrev IsShrunk : List LinkedItem → List LinkedItem → Option (List LinkedItem × ℕ) → Type 0
IsShrunk kept items none = count_lines kept ≤ 1
IsShrunk kept items (some (fewer, n)) =
    IsCut fewer items
    × (count_lines fewer + n ≡ count_lines kept)
    × (1 ≤ n)
    × (1 ≤ count_lines fewer)

shrink_lem : (kept items : List LinkedItem) → IsCut kept items → IsShrunk kept items (shrink kept)
unfolding shrink count_lines
shrink_lem [] items c = omega arith
shrink_lem (k ∷ []) [] c = elim c [ ]
shrink_lem (k ∷ []) (i ∷ items) c = elim (List-cases k.lines) [
  | inl e ↦ rw (e, shrink) (ground (arith, e))
  | inr (l, more, e) ↦
      rw (e, shrink)
        (
          (
            ap (λ (x : LinkedItem). record x { lines = init (l ∷ more) }) c.0,
            init-IsPrefix (l ∷ more) i.lines
                (subst (λ (ls : List String). IsPrefix ls i.lines) e c.1),
          ),
          omega (arith, length-init l more),
          omega arith,
          omega arith,
        )
]
shrink_lem (k ∷ k' ∷ kept) items c = (
  IsPrefix-IsCut (init (k ∷ k' ∷ kept)) items (init-IsPrefix (k ∷ k' ∷ kept) items c),
  count_lines-init k k' kept,
  omega arith,
  omega arith,
)

-- What `renderLinked` promises of its block.
abbrev pub IsRendered : Estimate → ℕ → List LinkedItem → Block → Type 0
IsRendered e budget items (text, kept, trimmed) =
    IsCut kept items
    × (count_lines kept + trimmed ≡ count_lines items)
    × ((budget ≡ 0) ⊎ ((estimate_tokens e text ≤ budget) ⊎ (text ≡ "")))
    × ((text ≡ write_linked kept trimmed) ⊎ ((text ≡ "") × (kept ≡ [])))

trim_lem :
    (fuel : ℕ) (e : Estimate) (budget : ℕ) (kept items : List LinkedItem) (trimmed : ℕ)
    → count_lines kept < fuel
    → IsCut kept items
    → 1 ≤ count_lines kept
    → count_lines kept + trimmed ≡ count_lines items
    → (r : Block) × (trim fuel e budget kept trimmed ≡ some r) × IsRendered e budget items r
unfolding trim count_lines
trim_lem zero e budget kept items trimmed lt c one sum = absurd (omega arith)
trim_lem (suc fuel) e budget kept items trimmed lt c one sum =
    elim (Bool-cases
      ((budget == 0) || leb (estimate_tokens e (write_linked kept trimmed)) budget)) [
        | inl f ↦ (
          (write_linked kept trimmed, kept, trimmed),
          rw f refl,
          (c, sum, fits_or _ _ f, inl refl),
        )
        | inr f ↦ elim (Option-cases (shrink kept)) [
          | inl n ↦
              let last = rw n at (shrink_lem kept items c) in
              (
                ("", [], trimmed + 1),
                rw (f, n) refl,
                (tt, (omega (arith, last)), inr (inr refl), inr (refl, refl)),
              )
          | inr ((fewer, n), q) ↦
              let h = rw q at (shrink_lem kept items c) in
              let (r, run, ok) =
                trim_lem fuel e budget fewer items (trimmed + n) (omega (arith, h)) h.0 h.3
                  (omega (arith, h)) in
              (r, rw (f, q) run, ok)
        ]
      ]

-- The rendering always ends. What it prints is a cut of the items: some of the first ones whole, or the
-- first one alone with some of its first lines. The lines printed and the lines counted as trimmed are
-- together all lines. The text is that of the cut and count, or empty with nothing printed; it is
-- within the budget, unless that is 0. A block that fits is not trimmed at all.
pub render_linked_lem :
    (e : Estimate) (items : List LinkedItem) (budget : ℕ)
    → ((r : Block) × (render_linked e items budget ≡ some r) × IsRendered e budget items r)
      × (1 ≤ length items
          → (budget ≡ 0) ⊎ (estimate_tokens e (write_linked items 0) ≤ budget)
          → render_linked e items budget ≡ some (write_linked items 0, items, 0))
unfolding render_linked
render_linked_lem e [] budget = (
  (("", [], 0), refl, (tt, omega arith, inr (inr refl), inr (refl, refl))),
  λ one. absurd (omega (arith, one)),
)
render_linked_lem e (i ∷ items) budget = (
  trim_lem (suc (count_lines (i ∷ items))) e budget (i ∷ items) (i ∷ items) 0 (omega arith)
      (IsPrefix-IsCut (i ∷ items) (i ∷ items) (IsPrefix-refl (i ∷ items))) (omega arith)
      (omega arith),
  λ _ le. rw (or_fits _ _ le) refl,
)
