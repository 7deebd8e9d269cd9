-- ===== src/Rca/Fit/Search.antt =====
-- What Go's binary search finds, and so what `most` of `fit` (rca.go) does: no order of the answers is
-- needed for this.
use kubehealth.Prelude.{
  ◌≡◌, refl, sym, subst, ◌⊎◌, inl, inr, ℕ, zero, suc, ◌+◌, ◌-◌, ◌/◌, ◌≤◌, ◌<◌, Bool, true, false,
  not, arith, ltb, Bool-cases,
}
use kubehealth.Rca.Fit.{search_loop, sort_search, most}

-- The test fails just below the place found, if that is not the start, and holds there, if that is not
-- the end.
abbrev IsFound : (ℕ → Bool) → ℕ → ℕ → ℕ → Type 0
IsFound f lo hi r =
    (lo ≤ r) × (r ≤ hi) × ((r ≡ lo) ⊎ (f (r - 1) ≡ false)) × ((r ≡ hi) ⊎ (f r ≡ true))

search_loop_lem :
    (fuel : ℕ) (f : ℕ → Bool) (lo hi i j : ℕ)
    → j - i < fuel
    → lo ≤ i
    → i ≤ j
    → j ≤ hi
    → (i ≡ lo) ⊎ (f (i - 1) ≡ false)
    → (j ≡ hi) ⊎ (f j ≡ true)
    → IsFound f lo hi (search_loop fuel f i j)
unfolding search_loop
search_loop_lem zero f lo hi i j lt a b c below above = absurd (omega arith)
search_loop_lem (suc fuel) f lo hi i j lt a b c below above = elim (Bool-cases (ltb i j)) [
  | inr stop ↦
      rw (stop, search_loop)
        (
          a,
          omega arith,
          below,
          subst (λ (n : ℕ). (n ≡ hi) ⊎ (f n ≡ true)) (let q : j ≡ i = ground (arith, stop) in q)
              above,
        )
  | inl go ↦ elim (Bool-cases (f ((i + j) / 2))) [
    | inl t ↦
        rw (go, t, search_loop)
          (search_loop_lem fuel f lo hi i ((i + j) / 2) (ground (arith, go)) a (ground (arith, go))
            (ground (arith, go)) below (inr t))
    | inr u ↦
        rw (go, u, search_loop)
          (search_loop_lem fuel f lo hi ((i + j) / 2 + 1) j (ground (arith, go))
            (ground (arith, go)) (ground (arith, go)) c
            (inr (
              subst (λ (n : ℕ). f n ≡ false)
                (let q : (i + j) / 2 ≡ (i + j) / 2 + 1 - 1 = omega arith in q) u))
            above)
  ]
]

abbrev pub IsMost : ℕ → (ℕ → Bool) → ℕ → Type 0
IsMost total ok n =
    (n ≤ total)
    × ((n ≡ 0) ⊎ (ok n ≡ true))
    × ((n ≡ total) ⊎ ((ok 0 ≡ false) ⊎ (ok (suc n) ≡ false)))

not-true : (b : Bool) → not b ≡ true → b ≡ false
not-true true h = sym h
not-true false h = refl

not-false : (b : Bool) → not b ≡ false → b ≡ true
not-false true h = refl
not-false false h = sym h

found-IsMost :
    (total : ℕ) (ok : ℕ → Bool) (r : ℕ)
    → IsFound (λ n. not (ok n)) 0 (total + 1) r
    → IsMost total ok (r - 1)
found-IsMost total ok zero (a, b, below, above) = (
  omega arith,
  inl (omega arith),
  elim above [ inl e ↦ absurd (omega (arith, e)) | inr f ↦ inr (inl (not-true (ok 0) f)) ],
)
found-IsMost total ok (suc r) (a, b, below, above) =
    let q : r ≡ suc r - 1 = omega arith in
    subst (IsMost total ok) q (
      omega (arith, b),
      elim below [
        | inl e ↦ absurd (omega (arith, e))
        | inr f ↦ inr (not-false (ok r) (subst (λ (n : ℕ). not (ok n) ≡ false) (sym q) f))
      ],
      elim above [ inl e ↦ inl (omega (arith, e)) | inr f ↦ inr (inr (not-true (ok (suc r)) f)) ],
    )

-- Of the sizes up to `total` the search finds one that fits, or 0; the next one does not fit, unless the
-- found one is `total`, or 0 does not fit itself.
pub most_lem : (total : ℕ) (ok : ℕ → Bool) → IsMost total ok (most total ok)
unfolding most sort_search
most_lem total ok =
    let h =
      search_loop_lem (suc (total + 1)) (λ n. not (ok n)) 0 (total + 1) 0 (total + 1) (omega arith)
        (omega arith) (omega arith) (omega arith) (inl refl) (inl refl) in
    found-IsMost total ok _ h
