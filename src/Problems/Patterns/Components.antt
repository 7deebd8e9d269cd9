-- ===== src/Problems/Patterns/Components.antt =====
-- The components that `groupPatterns` (problems.go) makes rows of.
use kubehealth.Prelude.{
  ◌≡◌, ◌≢◌, sym, ◌∙◌, subst, inl, inr, ℕ, ◌+◌, Bool, List, [], ◌∷◌, ◌++◌, arith, ◌==◌, ==_iff,
  Bool-cases, In, All, All-append, Pairs, length, if◌then◌else◌,
}
use kubehealth.Problems.Patterns.{
  Indexed, Component, add_component, components, components_of, all_links,
}
use kubehealth.Problems.Patterns.Union.{start, find_root, unite}
use kubehealth.Problems.Patterns.Union.Roots.{IsShallow, unite_lem, find_root-IsFound}
use kubehealth.Problems.Patterns.Union.Joined.{
  Leads, rooted-Leads, Leads-unique, IsKept, find_root-Leads, Joined, unite-Joined,
}

-- How many of some problems pass a test, alone and over all components.
abbrev pub tested : (Indexed → Bool) → List Indexed → ℕ
tested test [] = 0
tested test (x ∷ xs) = if test x then 1 + tested test xs else tested test xs

abbrev pub tested_in : (Indexed → Bool) → List Component → ℕ
tested_in test [] = 0
tested_in test (c ∷ comps) = tested test c.members + tested_in test comps

tested-append :
    (test : Indexed → Bool) (xs ys : List Indexed)
    → tested test (xs ++ ys) ≡ tested test xs + tested test ys
tested-append test [] ys = omega arith
tested-append test (x ∷ xs) ys = ground (arith, tested-append test xs ys)

add_component-tested :
    (test : Indexed → Bool) (r : ℕ) (x : Indexed) (comps : List Component)
    → tested_in test (add_component r x comps) ≡ tested test (x ∷ []) + tested_in test comps
unfolding add_component
add_component-tested test r x [] = omega arith
add_component-tested test r x (c ∷ comps) = elim (Bool-cases (c.root == r)) [
  | inl e ↦ rw (e, add_component) (omega (arith, tested-append test c.members (x ∷ [])))
  | inr e ↦ rw (e, add_component) (omega (arith, add_component-tested test r x comps))
]

-- The roots of the components are different.
abbrev pub HasRoots : List Component → Type 0
HasRoots = Pairs (λ c d. c.root ≢ d.root)

module _ (p : ℕ → ℕ) where
  -- Every member leads to the root of its component.
  abbrev pub IsOneRoot : Component → Type 0
  IsOneRoot c = All (λ x. Leads p x.0 c.root) c.members

  add_component-IsOneRoot :
      (r : ℕ) (x : Indexed) (comps : List Component)
      → Leads p x.0 r
      → All IsOneRoot comps
      → All IsOneRoot (add_component r x comps)
  unfolding add_component
  add_component-IsOneRoot r x [] l h = ((l, tt), tt)
  add_component-IsOneRoot r x (c ∷ comps) l h = elim (Bool-cases (c.root == r)) [
    | inl e ↦
        rw (e, add_component)
          (
            All-append (λ (y : Indexed). Leads p y.0 c.root) c.members (x ∷ []) h.0
                (subst (Leads p x.0) (sym ((==_iff c.root r).0 e)) l, tt),
            h.1,
          )
    | inr e ↦ rw (e, add_component) (h.0, add_component-IsOneRoot r x comps l h.1)
  ]

  add_component-All :
      (s r : ℕ) (x : Indexed) (comps : List Component)
      → s ≢ r
      → All (λ (c : Component). s ≢ c.root) comps
      → All (λ (c : Component). s ≢ c.root) (add_component r x comps)
  unfolding add_component
  add_component-All s r x [] d h = (d, tt)
  add_component-All s r x (c ∷ comps) d h = elim (Bool-cases (c.root == r)) [
    | inl e ↦ rw (e, add_component) h
    | inr e ↦ rw (e, add_component) (h.0, add_component-All s r x comps d h.1)
  ]

  add_component-HasRoots :
      (r : ℕ) (x : Indexed) (comps : List Component)
      → HasRoots comps
      → HasRoots (add_component r x comps)
  unfolding add_component
  add_component-HasRoots r x [] h = (tt, tt)
  add_component-HasRoots r x (c ∷ comps) h = elim (Bool-cases (c.root == r)) [
    | inl e ↦ rw (e, add_component) h
    | inr e ↦
        rw (e, add_component)
          (
            add_component-All c.root r x comps (λ q. ground arith) h.0,
            add_component-HasRoots r x comps h.1,
          )
  ]

  module _ (fuel : ℕ) (shallow : IsShallow fuel p) where
    -- The searches change the table, but no root.
    abbrev IsSame : (ℕ → ℕ) → Type 0
    IsSame q = IsShallow fuel q × IsKept p q

    found_root :
        (q : ℕ → ℕ) (y : ℕ)
        → IsSame q
        → Leads p y (find_root fuel q y).0 × IsSame (find_root fuel q y).1
    found_root q y (h, k) =
        let (found, kept) = find_root-Leads fuel q y (h y) in
        let (root, old, near) = find_root-IsFound fuel q y (h y) in
        let (s, l) = rooted-Leads fuel p y (shallow y) in
        (
          subst (Leads p y) (Leads-unique q y s _ (k y s l) found) l,
          ((λ z. near fuel z (h z)), λ z r m. kept z r (k z r m)),
        )

    components-IsSplit :
        (idx : List Indexed) (q : ℕ → ℕ) (comps : List Component)
        → IsSame q
        → All IsOneRoot comps
        → HasRoots comps
        → All IsOneRoot (components fuel q idx comps)
          × HasRoots (components fuel q idx comps)
          × ((test : Indexed → Bool)
              → tested_in test (components fuel q idx comps)
                ≡ tested_in test comps + tested test idx)
    unfolding components
    components-IsSplit [] q comps s h d = (h, d, λ test. omega arith)
    components-IsSplit (x ∷ idx) q comps s h d =
        let (l, s') = found_root q x.0 s in
        let (a, b, c) =
          components-IsSplit idx _ _ s' (add_component-IsOneRoot _ x comps l h)
            (add_component-HasRoots _ x comps d) in
        (
          a,
          b,
          λ test.
              c test ∙ grind (arith, add_component-tested test (find_root fuel q x.0).0 x comps),
        )

-- Any two members of a component are joined by links.
abbrev pub AreJoined : List (ℕ × ℕ) → Component → Type 0
AreJoined links c = (x y : Indexed) → In x c.members → In y c.members → Joined links x.0 y.0

-- No member of the one is joined to one of the other.
abbrev pub AreApart : List (ℕ × ℕ) → Component → Component → Type 0
AreApart links c d = (x y : Indexed) → In x c.members → In y d.members → ¬ Joined links x.0 y.0

All-In :
    (p : ℕ → ℕ) (r : ℕ) (xs : List Indexed) (x : Indexed)
    → All (λ y. Leads p y.0 r) xs
    → In x xs
    → Leads p x.0 r
All-In p r [] x h i = elim i [ ]
All-In p r (y ∷ xs) x h (inl e) = subst (λ z. Leads p z.0 r) e h.0
All-In p r (y ∷ xs) x h (inr i) = All-In p r xs x h.1 i

module _ (links : List (ℕ × ℕ)) where
  abbrev table : ℕ → ℕ
  table = unite (length links) start links

  one_root-AreJoined :
      (comps : List Component) → All (IsOneRoot table) comps → All (AreJoined links) comps
  one_root-AreJoined [] h = tt
  one_root-AreJoined (c ∷ comps) h = (
    (λ x y i j.
        (unite-Joined links x.0 y.0).0
          (c.root, All-In table c.root c.members x h.0 i, All-In table c.root c.members y h.0 j)),
    one_root-AreJoined comps h.1,
  )

  apart :
      (c : Component) (comps : List Component)
      → IsOneRoot table c
      → All (IsOneRoot table) comps
      → All (λ (d : Component). c.root ≢ d.root) comps
      → All (AreApart links c) comps
  apart c [] hc h d = tt
  apart c (e ∷ comps) hc h d = (
    (λ x y i j joined.
        let (r, l, m) = (unite-Joined links x.0 y.0).1 joined in
        d.0 (
          Leads-unique table x.0 c.root r (All-In table c.root c.members x hc i) l
          ∙ Leads-unique table y.0 r e.root m (All-In table e.root e.members y h.0 j))),
    apart c comps hc h.1 d.1,
  )

  roots-AreApart :
      (comps : List Component)
      → All (IsOneRoot table) comps
      → HasRoots comps
      → Pairs (AreApart links) comps
  roots-AreApart [] h d = tt
  roots-AreApart (c ∷ comps) h d = (apart c comps h.0 h.1 d.0, roots-AreApart comps h.1 d.1)

-- The components are the classes of the problems that links join: each problem of a namespace is in
-- them as often as in the list; two problems of one component are joined by a chain of links, and two
-- of different components are not.
pub components_of_lem :
    (idx : List Indexed)
    → ((test : Indexed → Bool) → tested_in test (components_of idx) ≡ tested test idx)
      × All (AreJoined (all_links idx)) (components_of idx)
      × Pairs (AreApart (all_links idx)) (components_of idx)
unfolding components_of
components_of_lem idx =
    let links = all_links idx in
    let (a, b, c) =
      components-IsSplit (table links) (length links) (unite_lem links) idx (table links) []
        ((unite_lem links), λ y r l. l) tt tt in
    ((λ test. c test ∙ omega arith), one_root-AreJoined links _ a, roots-AreApart links _ a b)
