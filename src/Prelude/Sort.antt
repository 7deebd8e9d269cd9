-- ===== src/Prelude/Sort.antt =====
-- `sort.Slice` and `sort.SliceStable`: a stable sort by a comparison. A stable sort has one result, and
-- where no two elements tie every sort has that result, so this stands for both library functions.
use mathlib.Core.Path.{subst, subst₂, ap₂}
use mathlib.Core.List.{Permᴰ}
use kubehealth.Prelude.{
  ◌≡◌, refl, sym, ◌∙◌, ◌⊎◌, inl, inr, Bool, true, false, List, [], ◌∷◌, arith, All, All-perm, Pairs,
  Bool-cases, if◌then◌else◌,
}
use kubehealth.Prelude.Order.{IsOrder}

module _ {ℓ} {A : Type ℓ} (less : A → A → Bool) where
  -- `x` goes in front of the first element that does not stand before it.
  unfoldable pub insert_by : A → List A → List A
  insert_by x [] = x ∷ []
  insert_by x (y ∷ ys) = if less y x then y ∷ insert_by x ys else x ∷ y ∷ ys

  unfoldable pub sort_by : List A → List A
  unfolding insert_by
  sort_by [] = []
  sort_by (x ∷ xs) = insert_by x (sort_by xs)

  -- No element stands before an earlier one.
  abbrev pub IsSorted : List A → Type 0
  IsSorted = Pairs (λ x y. less y x ≡ false)

  -- The comparison tells every two elements apart.
  abbrev pub IsApart : List A → Type 0
  IsApart = Pairs (λ x y. (less x y ≡ true) ⊎ (less y x ≡ true))

module _ {ℓ κ} {A : Type ℓ} (less : A → A → Bool) (P : A → Type κ) where
  pub All-insert_by : (x : A) (ys : List A) → P x → All P ys → All P (insert_by less x ys)
  unfolding insert_by
  All-insert_by x [] p h = (p, h)
  All-insert_by x (y ∷ ys) p h = elim (Bool-cases (less y x)) [
    | inl e ↦ rw e (h.0, All-insert_by x ys p h.1)
    | inr e ↦ rw e (p, h)
  ]

  pub All-sort_by : (xs : List A) → All P xs → All P (sort_by less xs)
  unfolding sort_by
  All-sort_by [] h = h
  All-sort_by (x ∷ xs) h = All-insert_by x (sort_by less xs) h.0 (All-sort_by xs h.1)

module _ {ℓ} {A : Type ℓ} {less : A → A → Bool} (o : IsOrder less) where
  above :
      (x y : A) (ys : List A)
      → less y x ≡ false
      → All (λ z. less z y ≡ false) ys
      → All (λ z. less z x ≡ false) ys
  above x y [] h k = tt
  above x y (z ∷ ys) h k = (o.neg_trans x y z h k.0, above x y ys h k.1)

  insert_by-IsSorted :
      (x : A) (ys : List A) → IsSorted less ys → IsSorted less (insert_by less x ys)
  unfolding insert_by
  insert_by-IsSorted x [] s = (tt, tt)
  insert_by-IsSorted x (y ∷ ys) s = elim (Bool-cases (less y x)) [
    | inl e ↦ rw e (
      All-insert_by less (λ z. less z y ≡ false) x ys (o.asym y x e) s.0,
      insert_by-IsSorted x ys s.1,
    )
    | inr e ↦ rw e ((e, above x y ys e s.0), s)
  ]

  pub sort_by-IsSorted : (xs : List A) → IsSorted less (sort_by less xs)
  unfolding sort_by
  sort_by-IsSorted [] = tt
  sort_by-IsSorted (x ∷ xs) = insert_by-IsSorted x (sort_by less xs) (sort_by-IsSorted xs)

  -- Two elements that do not tie may be inserted in either order.
  insert_by_comm :
      (x y : A) (l : List A)
      → less x y ≡ true
      → insert_by less x (insert_by less y l) ≡ insert_by less y (insert_by less x l)
  unfolding insert_by
  insert_by_comm x y [] h = ground (arith, o.asym x y)
  insert_by_comm x y (z ∷ l) h = ground (
    arith,
    o.asym x y,
    o.asym z x,
    o.asym z y,
    o.asym x z,
    o.neg_trans z y x,
    o.neg_trans x z y,
    o.neg_trans y x z,
    o.neg_trans z x y,
    o.neg_trans y z x,
    o.neg_trans x y z,
    insert_by_comm x y l h,
  )

  insert_by_swap :
      (x y : A) (l : List A)
      → (less x y ≡ true) ⊎ (less y x ≡ true)
      → insert_by less x (insert_by less y l) ≡ insert_by less y (insert_by less x l)
  insert_by_swap x y l (inl h) = insert_by_comm x y l h
  insert_by_swap x y l (inr h) = sym (insert_by_comm y x l h)

  IsApart-perm : {xs ys : List A} → Permᴰ xs ys → IsApart less xs → IsApart less ys
  IsApart-perm Permᴰ.nil h = h
  IsApart-perm (Permᴰ.cons {a = a} {l₂ = m} e p) h = (
    subst (λ b. All (λ y. (less b y ≡ true) ⊎ (less y b ≡ true)) m) e (All-perm _ p h.0),
    IsApart-perm p h.1,
  )
  IsApart-perm (Permᴰ.swap {a = a} {b = b} {l = l} e f) h =
      subst₂ (λ u v. IsApart less (v ∷ u ∷ l)) e f ((turn h.0.0, h.1.0), (h.0.1, h.1.1))
    where
      turn : (less a b ≡ true) ⊎ (less b a ≡ true) → (less b a ≡ true) ⊎ (less a b ≡ true)
      turn (inl t) = inr t
      turn (inr t) = inl t
  IsApart-perm (Permᴰ.trans p q) h = IsApart-perm q (IsApart-perm p h)

  -- Where no two elements tie, the order in which they came does not show in the sorted list.
  pub sort_by-perm_eq :
      {xs ys : List A} → Permᴰ xs ys → IsApart less xs → sort_by less xs ≡ sort_by less ys
  unfolding sort_by
  sort_by-perm_eq Permᴰ.nil h = refl
  sort_by-perm_eq (Permᴰ.cons e p) h = ap₂ (insert_by less) e (sort_by-perm_eq p h.1)
  sort_by-perm_eq (Permᴰ.swap {a = a} {b = b} {l = l} e f) h =
      insert_by_swap a b (sort_by less l) h.0.0
      ∙ ap₂ (λ u v. insert_by less u (insert_by less v (sort_by less l))) f e
  sort_by-perm_eq (Permᴰ.trans p q) h = sort_by-perm_eq p h ∙ sort_by-perm_eq q (IsApart-perm p h)

module _ {ℓ} {A : Type ℓ} where
  perm_self : (xs : List A) → Permᴰ xs xs
  perm_self [] = Permᴰ.nil
  perm_self (x ∷ xs) = Permᴰ.cons refl (perm_self xs)

module _ {ℓ} {A : Type ℓ} (less : A → A → Bool) where
  insert_by-perm : (x : A) (ys : List A) → Permᴰ (x ∷ ys) (insert_by less x ys)
  unfolding insert_by
  insert_by-perm x [] = Permᴰ.cons refl Permᴰ.nil
  insert_by-perm x (y ∷ ys) = elim (Bool-cases (less y x)) [
    | inl e ↦ rw e (Permᴰ.trans (Permᴰ.swap refl refl) (Permᴰ.cons refl (insert_by-perm x ys)))
    | inr e ↦ rw e (perm_self (x ∷ y ∷ ys))
  ]

  -- Sorting loses and invents nothing.
  pub sort_by-perm : (xs : List A) → Permᴰ xs (sort_by less xs)
  unfolding sort_by
  sort_by-perm [] = Permᴰ.nil
  sort_by-perm (x ∷ xs) =
      Permᴰ.trans (Permᴰ.cons refl (sort_by-perm xs)) (insert_by-perm x (sort_by less xs))
