-- ===== src/Problems/Words/Cut.antt =====
-- How `truncate` of problems.go cuts a text that is too long.
use Prim.Native.Char.{code}
use Prim.Native.String.append
use Prim.Native.String.{[], ◌∷◌, ◌++◌}
use kubehealth.Prelude.{
  ℕ, zero, suc, ◌+◌, ◌≤◌, ◌<◌, ◌≡◌, refl, sym, ap, ◌∙◌, ◌⊎◌, true, false, ◌&&◌, String, arith, leb,
  str_eq, eq_iff, Bool-cases, inl, inr,
}
use kubehealth.Problems.Words.{
  runes, first_runes, is_space, trim_left, trim_right, trim_space, truncate,
}

runes-append : (s t : String) → runes (s ++ t) ≡ runes s + runes t
unfolding runes
runes-append [] t = rw (append.nil t) (omega arith)
runes-append (c ∷ s) t = rw (append.cons c s t) (omega (arith, runes-append s t))

runes-first_runes : (n : ℕ) (s : String) → runes (first_runes n s) ≤ n
unfolding runes first_runes
runes-first_runes zero s = omega arith
runes-first_runes (suc n) [] = omega arith
runes-first_runes (suc n) (c ∷ s) = omega (arith, runes-first_runes n s)

runes-trim_left : (s : String) → runes (trim_left s) ≤ runes s
unfolding runes trim_left
runes-trim_left [] = omega arith
runes-trim_left (c ∷ s) = ground (arith, runes-trim_left s)

runes-trim_right : (s : String) → runes (trim_right s) ≤ runes s
unfolding runes trim_right
runes-trim_right [] = omega arith
runes-trim_right (c ∷ s) = elim (Bool-cases (is_space (code c) && str_eq (trim_right s) "")) [
  | inl e ↦ rw (e, trim_right) (omega arith)
  | inr e ↦ rw (e, trim_right) (omega (arith, runes-trim_right s))
]

abbrev pub AreSpaces : String → Type 0
AreSpaces [] = Unit
AreSpaces (c ∷ s) = (is_space (code c) ≡ true) × AreSpaces s

-- The text does not begin, or does not end, with a space.
abbrev pub BeginsBare : String → Type 0
BeginsBare [] = Unit
BeginsBare (c ∷ s) = is_space (code c) ≡ false

abbrev pub EndsBare : String → Type 0
EndsBare [] = Unit
EndsBare (c ∷ s) = (s ≡ "" → is_space (code c) ≡ false) × EndsBare s

-- `t` is the first `n` code points of `s`, less the spaces around them, and an ellipsis.
abbrev pub IsCut : ℕ → String → String → Type 0
IsCut n s t =
    (head rest lead kept tail : String) × (s ≡ head ++ rest)
    × (runes head ≡ n)
    × (head ≡ lead ++ (kept ++ tail))
    × AreSpaces lead
    × AreSpaces tail
    × BeginsBare kept
    × EndsBare kept
    × (t ≡ kept ++ "…")

first_runes_lem :
    (n : ℕ) (s : String)
    → n ≤ runes s
    → ((rest : String) × (s ≡ first_runes n s ++ rest)) × (runes (first_runes n s) ≡ n)
unfolding runes first_runes
first_runes_lem zero s h = ((s, sym (append.nil s)), refl)
first_runes_lem (suc n) [] h = absurd (omega (arith, h))
first_runes_lem (suc n) (c ∷ s) h =
    let ((rest, e), l) = first_runes_lem n s (omega (arith, h)) in
    ((rest, ap (λ t. c ∷ t) e ∙ sym (append.cons c (first_runes n s) rest)), omega (arith, l))

trim_left_lem :
    (s : String)
    → ((lead : String) × (s ≡ lead ++ trim_left s) × AreSpaces lead) × BeginsBare (trim_left s)
unfolding trim_left
trim_left_lem [] = (("", sym (append.nil ""), tt), tt)
trim_left_lem (c ∷ s) = elim (Bool-cases (is_space (code c))) [
  | inl e ↦
      let ((lead, q, h), b) = trim_left_lem s in
      rw (e, trim_left)
        ((c ∷ lead, ap (λ t. c ∷ t) q ∙ sym (append.cons c lead (trim_left s)), (e, h)), b)
  | inr e ↦ rw (e, trim_left) (("", sym (append.nil (c ∷ s)), tt), e)
]

trim_right_lem :
    (s : String)
    → ((tail : String) × (s ≡ trim_right s ++ tail) × AreSpaces tail) × EndsBare (trim_right s)
unfolding trim_right
trim_right_lem [] = (("", sym (append.nil ""), tt), tt)
trim_right_lem (c ∷ s) =
    let ((tail, q, h), b) = trim_right_lem s in
    elim (Bool-cases (is_space (code c) && str_eq (trim_right s) "")) [
      | inl e ↦
          let gone : trim_right s ≡ "" = (eq_iff (trim_right s) "").0 (ground arith) in
          rw (e, trim_right)
            (
              (
                c ∷ tail,
                ap (λ t. c ∷ t) (q ∙ ap (λ t. t ++ tail) gone ∙ append.nil tail)
                    ∙ sym (append.nil (c ∷ tail)),
                (ground arith, h),
              ),
              tt,
            )
      | inr e ↦
          rw (e, trim_right)
            (
              (tail, ap (λ t. c ∷ t) q ∙ sym (append.cons c (trim_right s) tail), h),
              ((λ g. ground (arith, (eq_iff (trim_right s) "").1 g)), b),
            )
    ]

BeginsBare-trim_right : (s : String) → BeginsBare s → BeginsBare (trim_right s)
unfolding trim_right
BeginsBare-trim_right [] h = tt
BeginsBare-trim_right (c ∷ s) h = rw (h, trim_right) h

-- A text of at most `n` code points stays as it is. A longer one is cut to its first `n` code points, less
-- the spaces around them, and an ellipsis; the result has at most one code point more than `n`.
pub truncate_lem :
    (s : String) (n : ℕ)
    → (runes (truncate s n) ≤ suc n)
      × (((runes s ≤ n) × (truncate s n ≡ s)) ⊎ ((n < runes s) × IsCut n s (truncate s n)))
unfolding truncate trim_space
truncate_lem s n = elim (Bool-cases (leb (runes s) n)) [
  | inl fits ↦ rw (fits, truncate) (ground arith, inl (ground arith, refl))
  | inr long ↦
      let head = first_runes n s in
      let ((rest, e), l) = first_runes_lem n s (ground arith) in
      let ((lead, f, a), b) = trim_left_lem head in
      let ((tail, g, k), m) = trim_right_lem (trim_left head) in
      rw (long, truncate)
        (
          omega (
            arith,
            runes-append (trim_space head) "…",
            runes-trim_right (trim_left head),
            runes-trim_left head,
            runes-first_runes n s,
          ),
          inr (
            ground arith,
            (
              head,
              rest,
              lead,
              trim_space head,
              tail,
              e,
              l,
              f ∙ ap (λ t. lead ++ t) g,
              a,
              k,
              BeginsBare-trim_right (trim_left head) b,
              m,
              refl,
            ),
          ),
        )
]
