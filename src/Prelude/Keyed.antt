-- ===== src/Prelude/Keyed.antt =====
-- Lists whose elements carry a text as key: the first element with a key, and keys that are all different.
use mathlib.Core.Path.{subst, subst₂}
use mathlib.Core.List.{Permᴰ}
use kubehealth.Prelude.{
  ◌≡◌, refl, sym, ◌∙◌, ap, ◌≢◌, String, Option, none, some, List, [], ◌∷◌, ◌++◌, arith, All,
  All-perm, Pairs, str_eq, eq_iff, Bool-cases, inl, inr, if◌then◌else◌,
}

module _ {ℓ} {A : Type ℓ} (key : A → String) where
  unfoldable pub find : String → List A → Option A
  find k [] = none
  find k (x ∷ xs) = if str_eq (key x) k then some x else find k xs

  abbrev pub IsDistinct : List A → Type 0
  IsDistinct = Pairs (λ x y. key x ≢ key y)

  -- No element has the key.
  abbrev pub IsFresh : String → List A → Type 0
  IsFresh k = All (λ y. k ≢ key y)

  pub find-IsFresh : (k : String) (xs : List A) → IsFresh k xs → find k xs ≡ none
  unfolding find
  find-IsFresh k [] h = refl
  find-IsFresh k (x ∷ xs) h = ground (arith, eq_iff (key x) k, find-IsFresh k xs h.1)

  pub find-append :
      (k : String) (xs ys : List A)
      → find k (xs ++ ys) ≡ elim (find k xs) [ some x ↦ some x | none ↦ find k ys ]
  unfolding find
  find-append k [] ys = refl
  find-append k (x ∷ xs) ys = ground (arith, find-append k xs ys)

  -- What is found has the key.
  pub find-key : (k : String) (xs : List A) (x : A) → find k xs ≡ some x → key x ≡ k
  unfolding find
  find-key k [] x h = cc
  find-key k (y ∷ xs) x h = ground (arith, eq_iff (key y) k, find-key k xs x)

  pub IsFresh-find : (k : String) (xs : List A) → find k xs ≡ none → IsFresh k xs
  unfolding find
  IsFresh-find k [] h = tt
  IsFresh-find k (y ∷ xs) h = elim (Bool-cases (str_eq (key y) k)) [
    | inl e ↦ absurd (ground arith)
    | inr e ↦ ((λ p. ground (arith, eq_iff (key y) k, sym p)), IsFresh-find k xs (ground arith))
  ]

  pub IsDistinct-perm : {xs ys : List A} → Permᴰ xs ys → IsDistinct xs → IsDistinct ys
  IsDistinct-perm Permᴰ.nil h = h
  IsDistinct-perm (Permᴰ.cons {a = a} {l₂ = m} e p) h =
      (subst (λ b. IsFresh (key b) m) e (All-perm _ p h.0), IsDistinct-perm p h.1)
  IsDistinct-perm (Permᴰ.swap {a = a} {b = b} {l = l} e f) h =
      subst₂ (λ u v. IsDistinct (v ∷ u ∷ l)) e f (((λ p. h.0.0 (sym p)), h.1.0), (h.0.1, h.1.1))
  IsDistinct-perm (Permᴰ.trans p q) h = IsDistinct-perm q (IsDistinct-perm p h)

  find-step :
      (k : String) {x y : A} (xs ys : List A)
      → x ≡ y
      → find k xs ≡ find k ys
      → find k (x ∷ xs) ≡ find k (y ∷ ys)
  unfolding find
  find-step k xs ys e h = ground (arith, ap key e)

  find-swap :
      (k : String) (a b : A) (l : List A) → key a ≢ key b → find k (a ∷ b ∷ l) ≡ find k (b ∷ a ∷ l)
  unfolding find
  find-swap k a b l h = ground (arith, eq_iff (key a) k, eq_iff (key b) k)

  -- With different keys the order does not matter to a search.
  pub find-perm :
      (k : String) {xs ys : List A} → Permᴰ xs ys → IsDistinct xs → find k xs ≡ find k ys
  find-perm k Permᴰ.nil h = refl
  find-perm k (Permᴰ.cons {l₁ = xs} {l₂ = ys} e p) h = find-step k xs ys e (find-perm k p h.1)
  find-perm k (Permᴰ.swap {a = a} {b = b} {l = l} e f) h =
      find-swap k a b l h.0.0 ∙ find-step k (a ∷ l) _ f (find-step k l l e refl)
  find-perm k (Permᴰ.trans p q) h = find-perm k p h ∙ find-perm k q (IsDistinct-perm p h)
