-- ===== src/Prelude/Lists.antt =====
-- Lists measured by native numbers, and predicates on lists by recursion.
use Prim.Native.Nat.{ℕ, zero, suc, ◌+◌, ◌≤◌}
use mathlib.Core.Path.{◌≡◌, refl, sym, ap, ◌∙◌, subst}
use mathlib.Core.Logic.{◌⊎◌, inl, inr}
use mathlib.Core.Bool.{Bool, true, false}
use mathlib.Core.Option.{Option, none, some}
use mathlib.Core.List.{List, [], ◌∷◌, ◌++◌, Permᴰ}
use native.Mathlib.Omega.{arith}

module _ {ℓ} {A : Type ℓ} where
  abbrev pub length : List A → ℕ
  length [] = 0
  length (x ∷ xs) = suc (length xs)

  abbrev pub get_elem? : List A → ℕ → Option A
  get_elem? [] i = none
  get_elem? (x ∷ xs) zero = some x
  get_elem? (x ∷ xs) (suc i) = get_elem? xs i

  abbrev pub take : ℕ → List A → List A
  take zero xs = []
  take (suc n) [] = []
  take (suc n) (x ∷ xs) = x ∷ take n xs

  abbrev pub drop : ℕ → List A → List A
  drop zero xs = xs
  drop (suc n) [] = []
  drop (suc n) (x ∷ xs) = drop n xs

  -- `for _, x := range xs { if test(x) { out = append(out, x) } }`
  abbrev pub keep : (A → Bool) → List A → List A
  keep test [] = []
  keep test (x ∷ xs) = elim (test x) [ true ↦ x ∷ keep test xs | false ↦ keep test xs ]

  abbrev pub any : (A → Bool) → List A → Bool
  any test [] = false
  any test (x ∷ xs) = elim (test x) [ true ↦ true | false ↦ any test xs ]

  pub length-append : (xs ys : List A) → length (xs ++ ys) ≡ length xs + length ys
  length-append [] ys = omega arith
  length-append (x ∷ xs) ys = omega (arith, length-append xs ys)

  pub length-take-le : (n : ℕ) (xs : List A) → length (take n xs) ≤ n
  length-take-le zero xs = omega arith
  length-take-le (suc n) [] = omega arith
  length-take-le (suc n) (x ∷ xs) = omega (arith, length-take-le n xs)

-- A predicate by recursion computes to tuples, which the tactics read and build.
abbrev pub All {ℓ κ} : {A : Type ℓ} → (A → Type κ) → List A → Type κ
All P [] = Unit
All P (x ∷ xs) = P x × All P xs

-- Every element is related to all later ones.
abbrev pub Pairs {ℓ κ} : {A : Type ℓ} → (A → A → Type κ) → List A → Type κ
Pairs R [] = Unit
Pairs R (x ∷ xs) = All (R x) xs × Pairs R xs

module _ {ℓ κ} {A : Type ℓ} (P : A → Type κ) where
  pub All-append : (xs ys : List A) → All P xs → All P ys → All P (xs ++ ys)
  All-append [] ys hx hy = hy
  All-append (x ∷ xs) ys hx hy = (hx.0, All-append xs ys hx.1 hy)

  pub All-perm : {xs ys : List A} → Permᴰ xs ys → All P xs → All P ys
  All-perm Permᴰ.nil h = h
  All-perm (Permᴰ.cons e p) h = (subst P e h.0, All-perm p h.1)
  All-perm (Permᴰ.swap e f) h = (subst P f h.1.0, (subst P e h.0, h.1.1))
  All-perm (Permᴰ.trans p q) h = All-perm q (All-perm p h)

bool_cases : (b : Bool) → (b ≡ true) ⊎ (b ≡ false)
bool_cases true = inl refl
bool_cases false = inr refl

-- The positions of a list that hold `x`.
pub data Nowhere {ℓ} : Type ℓ where

abbrev pub In {ℓ} : {A : Type ℓ} → A → List A → Type ℓ
In x [] = Nowhere
In x (y ∷ ys) = (y ≡ x) ⊎ In x ys

module _ {ℓ} {A : Type ℓ} where
  pub In-append_left : (x : A) (xs ys : List A) → In x xs → In x (xs ++ ys)
  In-append_left x [] ys i = elim i [ ]
  In-append_left x (y ∷ xs) ys (inl e) = inl e
  In-append_left x (y ∷ xs) ys (inr i) = inr (In-append_left x xs ys i)

  pub In-append_right : (x : A) (xs ys : List A) → In x ys → In x (xs ++ ys)
  In-append_right x [] ys i = i
  In-append_right x (y ∷ xs) ys i = inr (In-append_right x xs ys i)

  pub In-append : (x : A) (xs ys : List A) → In x (xs ++ ys) → In x xs ⊎ In x ys
  In-append x [] ys i = inr i
  In-append x (y ∷ xs) ys (inl e) = inl (inl e)
  In-append x (y ∷ xs) ys (inr i) = elim (In-append x xs ys i) [
    | inl l ↦ inl (inr l)
    | inr r ↦ inr r
  ]

  pub In-perm : (x : A) {xs ys : List A} → Permᴰ xs ys → In x xs → In x ys
  In-perm x Permᴰ.nil i = i
  In-perm x (Permᴰ.cons e p) (inl q) = inl (sym e ∙ q)
  In-perm x (Permᴰ.cons e p) (inr i) = inr (In-perm x p i)
  In-perm x (Permᴰ.swap e f) (inl q) = inr (inl (sym e ∙ q))
  In-perm x (Permᴰ.swap e f) (inr (inl q)) = inl (sym f ∙ q)
  In-perm x (Permᴰ.swap e f) (inr (inr i)) = inr (inr i)
  In-perm x (Permᴰ.trans p q) i = In-perm x q (In-perm x p i)

  pub perm_sym : {xs ys : List A} → Permᴰ xs ys → Permᴰ ys xs
  perm_sym Permᴰ.nil = Permᴰ.nil
  perm_sym (Permᴰ.cons e p) = Permᴰ.cons (sym e) (perm_sym p)
  perm_sym (Permᴰ.swap e f) = Permᴰ.swap (sym f) (sym e)
  perm_sym (Permᴰ.trans p q) = Permᴰ.trans (perm_sym q) (perm_sym p)

  -- `keep` keeps exactly the elements that pass the test.
  pub In-keep :
      (test : A → Bool) (x : A) (xs : List A) → In x xs → test x ≡ true → In x (keep test xs)
  In-keep test x [] i t = elim i [ ]
  In-keep test x (y ∷ xs) (inl e) t = rw (ap test e ∙ t, keep) (inl e)
  In-keep test x (y ∷ xs) (inr i) t = elim (bool_cases (test y)) [
    | inl p ↦ rw (p, keep) (inr (In-keep test x xs i t))
    | inr p ↦ rw (p, keep) (In-keep test x xs i t)
  ]

  pub In-kept :
      (test : A → Bool) (x : A) (xs : List A) → In x (keep test xs) → In x xs × (test x ≡ true)
  In-kept test x [] i = elim i [ ]
  In-kept test x (y ∷ xs) i = elim (bool_cases (test y)) [
    | inl p ↦ kept p (In-kept test x xs) (rw (p, keep) at i)
    | inr p ↦ let r = In-kept test x xs (rw (p, keep) at i) in (inr r.0, r.1)
  ]
    where
      kept :
          test y ≡ true
          → (In x (keep test xs) → In x xs × (test x ≡ true))
          → In x (y ∷ keep test xs)
          → In x (y ∷ xs) × (test x ≡ true)
      kept p ih (inl e) = (inl e, sym (ap test e) ∙ p)
      kept p ih (inr j) = let r = ih j in (inr r.0, r.1)

pub List-cases {ℓ} :
    {A : Type ℓ} (xs : List A) → (xs ≡ []) ⊎ ((x : A) × (more : List A) × (xs ≡ x ∷ more))
List-cases [] = inl refl
List-cases (x ∷ more) = inr (x, more, refl)
