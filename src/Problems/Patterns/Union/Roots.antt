-- ===== src/Problems/Patterns/Union/Roots.antt =====
-- The union-find of problems.go finds a root with the fuel that it is given, and only unites what links join.
use kubehealth.Prelude.{
  ◌≡◌, refl, sym, ap, ◌∙◌, subst, ◌⊎◌, inl, inr, ℕ, zero, suc, ◌+◌, ◌-◌, ◌≤◌, true, false, List, [],
  ◌∷◌, arith, ◌==◌, ==_iff, Bool-cases, length,
}
use kubehealth.Problems.Patterns.Union.{set, start, find_root, union, unite}

-- From `y` a root is at most `k` parents away.
abbrev pub IsRooted : ℕ → (ℕ → ℕ) → ℕ → Type 0
IsRooted zero p y = p y ≡ y
IsRooted (suc k) p y = (p y ≡ y) ⊎ IsRooted k p (p y)

root-IsRooted : (k : ℕ) (p : ℕ → ℕ) (y : ℕ) → p y ≡ y → IsRooted k p y
root-IsRooted zero p y h = h
root-IsRooted (suc k) p y h = inl h

suc-IsRooted : (k : ℕ) (p : ℕ → ℕ) (y : ℕ) → IsRooted k p y → IsRooted (suc k) p y
suc-IsRooted zero p y h = inl h
suc-IsRooted (suc k) p y (inl h) = inl h
suc-IsRooted (suc k) p y (inr h) = inr (suc-IsRooted k p (p y) h)

pub parent-IsRooted : (k : ℕ) (p : ℕ → ℕ) (y : ℕ) → IsRooted k p y → IsRooted k p (p y)
parent-IsRooted zero p y h = ap p h
parent-IsRooted (suc k) p y (inl h) = inl (ap p h)
parent-IsRooted (suc k) p y (inr h) = suc-IsRooted k p (p y) h

add-IsRooted : (j k : ℕ) (p : ℕ → ℕ) (y : ℕ) → IsRooted k p y → IsRooted (j + k) p y
add-IsRooted zero k p y h = subst (λ n. IsRooted n p y) {x = k} (omega arith) h
add-IsRooted (suc j) k p y h =
    subst (λ n. IsRooted n p y) {x = suc (j + k)} (omega arith)
      (suc-IsRooted (j + k) p y (add-IsRooted j k p y h))

pub set_other : (p : ℕ → ℕ) (x v y : ℕ) → (y == x) ≡ false → set p x v y ≡ p y
set_other p x v y h = rw h refl

pub set_same : (p : ℕ → ℕ) (x v y : ℕ) → (y == x) ≡ true → set p x v y ≡ v
set_same p x v y h = rw h refl

-- Halving a path leaves every root where it is, and no root further away.
module _ (p : ℕ → ℕ) (x : ℕ) where
  abbrev pub halved : ℕ → ℕ
  halved = set p x (p (p x))

  pub halved_root : (y : ℕ) → p y ≡ y → halved y ≡ y
  halved_root y h = elim (Bool-cases (y == x)) [
    | inl e ↦ set_same p x (p (p x)) y e ∙ ap (λ z. p (p z)) (sym ((==_iff y x).0 e)) ∙ ap p h ∙ h
    | inr e ↦ set_other p x (p (p x)) y e ∙ h
  ]

  pub halved-IsRooted : (k : ℕ) (y : ℕ) → IsRooted k p y → IsRooted k halved y
  halved-IsRooted zero y h = halved_root y h
  halved-IsRooted (suc k) y (inl h) = inl (halved_root y h)
  halved-IsRooted (suc k) y (inr h) = elim (Bool-cases (y == x)) [
    | inr e ↦
        inr (
          subst (IsRooted k halved) (sym (set_other p x (p (p x)) y e)) (halved-IsRooted k (p y) h))
    | inl e ↦ inr (
        subst (IsRooted k halved)
          (ap (λ z. p (p z)) ((==_iff y x).0 e) ∙ sym (set_same p x (p (p x)) y e))
          (halved-IsRooted k (p (p y)) (parent-IsRooted k p (p y) h)))
  ]

-- Setting the parent of a root to another root puts every root at most one step further away.
module _ (p : ℕ → ℕ) (ra rb : ℕ) (a : p ra ≡ ra) (b : p rb ≡ rb) where
  joined_root : (k y : ℕ) → p y ≡ y → IsRooted (suc k) (set p ra rb) y
  joined_root k y h = elim (Bool-cases (y == ra)) [
    | inl e ↦ inr (
        subst (IsRooted k (set p ra rb)) (sym (set_same p ra rb y e))
          (root-IsRooted k _ rb (ground (arith, b))))
    | inr e ↦ inl (set_other p ra rb y e ∙ h)
  ]

  joined-IsRooted : (k y : ℕ) → IsRooted k p y → IsRooted (suc k) (set p ra rb) y
  joined-IsRooted zero y h = joined_root 0 y h
  joined-IsRooted (suc k) y (inl h) = joined_root (suc k) y h
  joined-IsRooted (suc k) y (inr h) = elim (Bool-cases (y == ra)) [
    | inl e ↦ joined_root (suc k) y (ap p ((==_iff y ra).0 e) ∙ a ∙ sym ((==_iff y ra).0 e))
    | inr e ↦ inr (
        subst (IsRooted (suc k) (set p ra rb)) (sym (set_other p ra rb y e))
          (joined-IsRooted k (p y) h))
  ]

-- Every root is at most `k` away.
abbrev pub IsShallow : ℕ → (ℕ → ℕ) → Type 0
IsShallow k p = (y : ℕ) → IsRooted k p y

-- The search ends at a root of the table that it leaves, every old root is one in it, and none is further away.
abbrev pub IsFound : (ℕ → ℕ) → ℕ × (ℕ → ℕ) → Type 0
IsFound p (r, q) =
    (q r ≡ r) × ((y : ℕ) → p y ≡ y → q y ≡ y) × ((k y : ℕ) → IsRooted k p y → IsRooted k q y)

pub below :
    (fuel : ℕ) (p : ℕ → ℕ) (x : ℕ)
    → IsRooted (suc fuel) p x
    → (p x == x) ≡ false
    → IsRooted fuel (halved p x) (halved p x x)
below fuel p x (inl z) e = absurd (ground arith)
below fuel p x (inr z) e =
    subst (IsRooted fuel (halved p x)) (sym (set_same p x (p (p x)) x (ground arith)))
      (halved-IsRooted p x fuel (p (p x)) (parent-IsRooted fuel p (p x) z))

pub find_root-IsFound :
    (fuel : ℕ) (p : ℕ → ℕ) (x : ℕ) → IsRooted fuel p x → IsFound p (find_root fuel p x)
unfolding find_root
find_root-IsFound zero p x h = (h, (λ y e. e), λ k y e. e)
find_root-IsFound (suc fuel) p x h = elim (Bool-cases (p x == x)) [
  | inl e ↦ rw (e, find_root) ((==_iff (p x) x).0 e, (λ y e. e), λ k y e. e)
  | inr e ↦
      rw (e, find_root)
        (let (r, s, t) = find_root-IsFound fuel (halved p x) (halved p x x) (below fuel p x h e) in
          (r, (λ y z. s y (halved_root p x y z)), λ k y z. t k y (halved-IsRooted p x k y z)))
]

pub union-IsShallow :
    (k fuel : ℕ) (p : ℕ → ℕ) (a b : ℕ)
    → ((q : ℕ → ℕ) → IsShallow k q → IsShallow fuel q)
    → IsShallow k p
    → IsShallow (suc k) (union fuel p a b)
unfolding union
union-IsShallow k fuel p a b enough h =
    let (ra, old, near) = find_root-IsFound fuel p a (enough p h a) in
    let h1 : IsShallow k (find_root fuel p a).1 = λ y. near k y (h y) in
    let (rb, old', near') = find_root-IsFound fuel (find_root fuel p a).1 b (enough _ h1 b) in
    λ y. joined-IsRooted _ _ _ (old' _ ra) rb k y (near' k y (h1 y))

pub more-IsShallow : (j k : ℕ) (q : ℕ → ℕ) → k ≤ j → IsShallow k q → IsShallow j q
more-IsShallow j k q le h y =
    subst (λ n. IsRooted n q y) {x = (j - k) + k} (omega (arith, le))
      (add-IsRooted (j - k) k q y (h y))

pub unite-IsShallow :
    (links : List (ℕ × ℕ)) (k fuel : ℕ) (p : ℕ → ℕ)
    → k + length links ≤ fuel
    → IsShallow k p
    → IsShallow fuel (unite fuel p links)
unfolding unite
unite-IsShallow [] k fuel p le h = more-IsShallow fuel k p (omega (arith, le)) h
unite-IsShallow ((a, b) ∷ links) k fuel p le h =
    unite-IsShallow links (suc k) fuel _ (omega (arith, le))
      (union-IsShallow k fuel p a b (λ q. more-IsShallow fuel k q (omega (arith, le))) h)

-- However many links there are: with as much fuel as links every search in the table that they make
-- ends at a root.
pub unite_lem : (links : List (ℕ × ℕ)) → IsShallow (length links) (unite (length links) start links)
unfolding start
unite_lem links = unite-IsShallow links 0 (length links) start (omega arith) (λ y. refl)
