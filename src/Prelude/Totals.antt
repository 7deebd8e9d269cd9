-- ===== src/Prelude/Totals.antt =====
-- Sums over lists, lists put together, and how often a list has an element by a Boolean equality.
use mathlib.Core.List.{Permᴰ}
use kubehealth.Prelude.{
  ◌≡◌, refl, sym, ap, ◌∙◌, ℕ, ◌+◌, Bool, true, false, List, [], ◌∷◌, ◌++◌, map, keep, any, arith,
  All, ltb, Bool-cases, inl, inr, if◌then◌else◌,
}

module _ {ℓ} {A : Type ℓ} where
  unfoldable pub total : (A → ℕ) → List A → ℕ
  total f [] = 0
  total f (x ∷ xs) = f x + total f xs

  unfoldable pub concat : List (List A) → List A
  concat [] = []
  concat (xs ∷ xss) = xs ++ concat xss

module _ {ℓ} {A : Type ℓ} where
  pub total-append : (f : A → ℕ) (xs ys : List A) → total f (xs ++ ys) ≡ total f xs + total f ys
  unfolding total
  total-append f [] ys = omega arith
  total-append f (x ∷ xs) ys = omega (arith, total-append f xs ys)

  pub total-perm : (f : A → ℕ) {xs ys : List A} → Permᴰ xs ys → total f xs ≡ total f ys
  unfolding total
  total-perm f Permᴰ.nil = refl
  total-perm f (Permᴰ.cons e p) = omega (arith, ap f e, total-perm f p)
  total-perm f (Permᴰ.swap e g) = omega (arith, ap f e, ap f g)
  total-perm f (Permᴰ.trans p q) = total-perm f p ∙ total-perm f q

  pub total-eq : (f g : A → ℕ) (xs : List A) → All (λ x. f x ≡ g x) xs → total f xs ≡ total g xs
  unfolding total
  total-eq f g [] h = refl
  total-eq f g (x ∷ xs) h = omega (arith, h.0, total-eq f g xs h.1)

  pub total-add : (f g : A → ℕ) (xs : List A) → total (λ x. f x + g x) xs ≡ total f xs + total g xs
  unfolding total
  total-add f g [] = omega arith
  total-add f g (x ∷ xs) = omega (arith, total-add f g xs)

  pub total_zero : (xs : List A) → total (λ x. 0) xs ≡ 0
  unfolding total
  total_zero [] = refl
  total_zero (x ∷ xs) = omega (arith, total_zero xs)

module _ {ℓ κ} {A : Type ℓ} {B : Type κ} where
  -- Two sums in either order.
  pub total-total :
      (f : A → B → ℕ) (xs : List A) (ys : List B)
      → total (λ x. total (f x) ys) xs ≡ total (λ y. total (λ x. f x y) xs) ys
  unfolding total
  total-total f [] ys = sym (total_zero ys)
  total-total f (x ∷ xs) ys =
      ap (λ n. total (f x) ys + n) (total-total f xs ys)
      ∙ sym (total-add (f x) (λ y. total (λ z. f z y) xs) ys)

  pub total-map :
      (f : B → ℕ) (g : A → B) (xs : List A) → total f (map g xs) ≡ total (λ x. f (g x)) xs
  unfolding total
  total-map f g [] = refl
  total-map f g (x ∷ xs) = omega (arith, total-map f g xs)

module _ {ℓ} {A : Type ℓ} where
  pub total-concat : (f : A → ℕ) (xss : List (List A)) → total f (concat xss) ≡ total (total f) xss
  unfolding total concat
  total-concat f [] = refl
  total-concat f (xs ∷ xss) = omega (arith, total-append f xs (concat xss), total-concat f xss)

-- 1 where the test holds.
abbrev pub indicator : Bool → ℕ
indicator true = 1
indicator false = 0

module _ {ℓ} {A : Type ℓ} (same : A → A → Bool) where
  abbrev pub count : A → List A → ℕ
  count x = total (λ y. indicator (same x y))

  pub any-count : (x : A) (xs : List A) → any (same x) xs ≡ ltb 0 (count x xs)
  unfolding total
  any-count x [] = refl
  any-count x (y ∷ xs) = elim (Bool-cases (same x y)) [
    | inl e ↦ rw (e, any) (ground arith)
    | inr e ↦ rw (e, any) (any-count x xs ∙ ground arith)
  ]

module _ {ℓ} {A : Type ℓ} (same : A → A → Bool) (sound : (x y : A) → same x y ≡ true → x ≡ y) where
  pub count-keep :
      (test : A → Bool) (x : A) (xs : List A)
      → count same x (keep test xs) ≡ (if test x then count same x xs else 0)
  unfolding total
  count-keep test x [] = elim (Bool-cases (test x)) [ inl t ↦ rw t refl | inr t ↦ rw t refl ]
  count-keep test x (y ∷ xs) =
      let ih = count-keep test x xs in
      elim (Bool-cases (same x y)) [
        | inl e ↦
            let q = ap test (sound x y e) in
            elim (Bool-cases (test y)) [
              | inl t ↦ let u = q ∙ t in rw (t, keep, e, u) (omega (arith, rw u at ih))
              | inr t ↦ let u = q ∙ t in rw (t, keep, u) (rw u at ih)
            ]
        | inr e ↦ elim (Bool-cases (test y)) [
          | inl t ↦
              rw (t, keep, e)
                (elim (Bool-cases (test x)) [
                  | inl u ↦ rw u (omega (arith, rw u at ih))
                  | inr u ↦ rw u (omega (arith, rw u at ih))
                ])
          | inr t ↦
              rw (t, keep, e)
                (elim (Bool-cases (test x)) [
                  | inl u ↦ rw u (omega (arith, rw u at ih))
                  | inr u ↦ rw u (omega (arith, rw u at ih))
                ])
        ]
      ]
