-- ===== src/Problems/Patterns/Tiers.antt =====
-- `groupPatterns` (problems.go) never merges problems of different tiers.
use kubehealth.Prelude.{
  ◌≡◌, refl, sym, ◌∙◌, subst, inl, inr, ℕ, suc, ◌≤◌, ◌&&◌, true, String, List, [], ◌∷◌, arith, leb,
  ◌==◌, Bool-cases, In, All, All-append, length, str_eq, eq_iff, if◌then◌else◌,
}
use kubehealth.Problems.{Problem, is_infra}
use kubehealth.Problems.Patterns.{
  Indexed, Component, Shared, add_component, components, components_of, all_links, indexed,
  pair_links, links_of, are_linked, reason_links, links_from, by_reason, share, spaces,
}
use kubehealth.Problems.Patterns.Rows.{primary}
use kubehealth.Problems.Patterns.Union.{find_root}
use kubehealth.Problems.Patterns.Union.Joined.{Joined, same, link, flip, chain}
use kubehealth.Problems.Patterns.Components.{components_of_lem, AreJoined}

module _ (t : ℕ → String) where
  -- `t` is the tier at every index of the list.
  abbrev HasTiers : List Indexed → Type 0
  HasTiers = All (λ (x : Indexed). t x.0 ≡ x.1.tier)

  -- Both ends of a link have one tier.
  abbrev IsLevel : List (ℕ × ℕ) → Type 0
  IsLevel = All (λ (l : ℕ × ℕ). t l.0 ≡ t l.1)

  links_of-IsLevel :
      (a : Indexed) (idx : List Indexed)
      → t a.0 ≡ a.1.tier
      → HasTiers idx
      → IsLevel (links_of a idx)
  unfolding links_of are_linked
  links_of-IsLevel a [] ha h = tt
  links_of-IsLevel a (b ∷ idx) ha h = elim (Bool-cases (are_linked a.1 b.1)) [
    | inl e ↦ rw (e, links_of) (ha ∙ tiers e ∙ sym h.0, links_of-IsLevel a idx ha h.1)
    | inr e ↦ rw (e, links_of) (links_of-IsLevel a idx ha h.1)
  ]
    where
      tiers : are_linked a.1 b.1 ≡ true → a.1.tier ≡ b.1.tier
      tiers e = ground (arith, eq_iff a.1.tier b.1.tier)

  pair_links-IsLevel : (idx : List Indexed) → HasTiers idx → IsLevel (pair_links idx)
  unfolding pair_links
  pair_links-IsLevel [] h = tt
  pair_links-IsLevel (a ∷ idx) h =
      All-append _ (links_of a idx) (pair_links idx) (links_of-IsLevel a idx h.0 h.1)
        (pair_links-IsLevel idx h.1)

  -- All problems under a reason and tier have this tier.
  abbrev IsShared : Shared → Type 0
  IsShared s = (t s.first.0 ≡ s.tier) × All (λ (x : Indexed). t x.0 ≡ s.tier) s.others

  share-IsShared :
      (x : Indexed) (shared : List Shared)
      → t x.0 ≡ x.1.tier
      → All IsShared shared
      → All IsShared (share x shared)
  unfolding share
  share-IsShared x [] hx h = ((hx, tt), tt)
  share-IsShared x (s ∷ shared) hx h =
      elim (Bool-cases (str_eq s.reason (primary x.1) && str_eq s.tier x.1.tier)) [
        | inl e ↦
            rw (e, share)
              (
                (
                  h.0.0,
                  All-append _ s.others (x ∷ []) h.0.1
                      (hx ∙ ground (arith, eq_iff s.tier x.1.tier), tt),
                ),
                h.1,
              )
        | inr e ↦ rw (e, share) (h.0, share-IsShared x shared hx h.1)
      ]

  by_reason-IsShared :
      (shared : List Shared) (idx : List Indexed)
      → HasTiers idx
      → All IsShared shared
      → All IsShared (by_reason shared idx)
  unfolding by_reason
  by_reason-IsShared shared [] h s = s
  by_reason-IsShared shared (x ∷ idx) h s = elim (Bool-cases (is_infra (primary x.1))) [
    | inl e ↦
        rw (e, by_reason)
          (by_reason-IsShared (share x shared) idx h.1 (share-IsShared x shared h.0 s))
    | inr e ↦ rw (e, by_reason) (by_reason-IsShared shared idx h.1 s)
  ]

  links_from-IsLevel :
      (a : ℕ) (tier : String) (xs : List Indexed)
      → t a ≡ tier
      → All (λ (x : Indexed). t x.0 ≡ tier) xs
      → IsLevel (links_from a xs)
  unfolding links_from
  links_from-IsLevel a tier [] ha h = tt
  links_from-IsLevel a tier (x ∷ xs) ha h = (ha ∙ sym h.0, links_from-IsLevel a tier xs ha h.1)

  reason_links-IsLevel :
      (shared : List Shared) → All IsShared shared → IsLevel (reason_links shared)
  unfolding reason_links
  reason_links-IsLevel [] h = tt
  reason_links-IsLevel (s ∷ shared) h =
      elim (Bool-cases (leb 3 (length (spaces [] (s.first ∷ s.others))))) [
        | inl e ↦
            rw (e, reason_links)
              (All-append _ (links_from s.first.0 s.others) (reason_links shared)
                (links_from-IsLevel s.first.0 s.tier s.others h.0.0 h.0.1)
                (reason_links-IsLevel shared h.1))
        | inr e ↦ rw (e, reason_links) (reason_links-IsLevel shared h.1)
      ]

  all_links-IsLevel : (idx : List Indexed) → HasTiers idx → IsLevel (all_links idx)
  unfolding all_links
  all_links-IsLevel idx h =
      All-append _ (pair_links idx) (reason_links (by_reason [] idx)) (pair_links-IsLevel idx h)
        (reason_links-IsLevel _ (by_reason-IsShared [] idx h tt))

  link_level : (links : List (ℕ × ℕ)) (x y : ℕ) → IsLevel links → In (x, y) links → t x ≡ t y
  link_level [] x y h i = elim i [ ]
  link_level ((a, b) ∷ links) x y h (inl e) = subst (λ (l : ℕ × ℕ). t l.0 ≡ t l.1) e h.0
  link_level ((a, b) ∷ links) x y h (inr i) = link_level links x y h.1 i

  joined_level : (links : List (ℕ × ℕ)) (x y : ℕ) → IsLevel links → Joined links x y → t x ≡ t y
  joined_level links x y h (same _) = refl
  joined_level links x y h (link _ _ i) = link_level links x y h i
  joined_level links x y h (flip _ _ j) = sym (joined_level links y x h j)
  joined_level links x y h (chain _ z _ i j) =
      joined_level links x z h i ∙ joined_level links z y h j

  add_component-HasTiers :
      (r : ℕ) (x : Indexed) (comps : List Component)
      → t x.0 ≡ x.1.tier
      → All (λ (c : Component). HasTiers c.members) comps
      → All (λ (c : Component). HasTiers c.members) (add_component r x comps)
  unfolding add_component
  add_component-HasTiers r x [] hx h = ((hx, tt), tt)
  add_component-HasTiers r x (c ∷ comps) hx h = elim (Bool-cases (c.root == r)) [
    | inl e ↦ rw (e, add_component) (All-append _ c.members (x ∷ []) h.0 (hx, tt), h.1)
    | inr e ↦ rw (e, add_component) (h.0, add_component-HasTiers r x comps hx h.1)
  ]

  components-HasTiers :
      (fuel : ℕ) (idx : List Indexed) (p : ℕ → ℕ) (comps : List Component)
      → HasTiers idx
      → All (λ (c : Component). HasTiers c.members) comps
      → All (λ (c : Component). HasTiers c.members) (components fuel p idx comps)
  unfolding components
  components-HasTiers fuel [] p comps h k = k
  components-HasTiers fuel (x ∷ idx) p comps h k =
      components-HasTiers fuel idx (find_root fuel p x.0).1 _ h.1
        (add_component-HasTiers _ x comps h.0 k)

  tier-In : (xs : List Indexed) (x : Indexed) → HasTiers xs → In x xs → t x.0 ≡ x.1.tier
  tier-In [] x h i = elim i [ ]
  tier-In (y ∷ xs) x h (inl e) = subst (λ (z : Indexed). t z.0 ≡ z.1.tier) e h.0
  tier-In (y ∷ xs) x h (inr i) = tier-In xs x h.1 i

-- All problems of a component have one tier.
abbrev pub HasOneTier : Component → Type 0
HasOneTier c = (x y : Indexed) → In x c.members → In y c.members → x.1.tier ≡ y.1.tier

one_tier :
    (t : ℕ → String) (links : List (ℕ × ℕ)) (comps : List Component)
    → IsLevel t links
    → All (λ (c : Component). HasTiers t c.members) comps
    → All (AreJoined links) comps
    → All HasOneTier comps
one_tier t links [] l h j = tt
one_tier t links (c ∷ comps) l h j = (
  (λ x y i k.
      sym (tier-In t c.members x h.0 i)
      ∙ joined_level t links x.0 y.0 l (j.0 x y i k)
      ∙ tier-In t c.members y h.0 k),
  one_tier t links comps l h.1 j.1,
)

-- The tier of the problem at an index, in a list whose first index is `n`.
tier_at : ℕ → List Problem → ℕ → String
tier_at n [] i = ""
tier_at n (p ∷ ps) i = if i == n then p.tier else tier_at (suc n) ps i

abbrev IsAt : ℕ → List Problem → Indexed → Type 0
IsAt n ps x = (n ≤ x.0) × (tier_at n ps x.0 ≡ x.1.tier)

later-IsAt :
    (n : ℕ) (p : Problem) (ps : List Problem) (xs : List Indexed)
    → All (IsAt (suc n) ps) xs
    → All (IsAt n (p ∷ ps)) xs
unfolding tier_at
later-IsAt n p ps [] h = tt
later-IsAt n p ps (x ∷ xs) h =
    ((omega (arith, h.0.0), ground (arith, h.0.0, h.0.1)), later-IsAt n p ps xs h.1)

indexed-IsAt : (n : ℕ) (ps : List Problem) → All (IsAt n ps) (indexed n ps)
unfolding indexed tier_at
indexed-IsAt n [] = tt
indexed-IsAt n (p ∷ ps) = elim (Bool-cases (str_eq p.scope "namespace")) [
  | inl e ↦
      rw (e, indexed) ((omega arith, ground arith), later-IsAt n p ps _ (indexed-IsAt (suc n) ps))
  | inr e ↦ rw (e, indexed) (later-IsAt n p ps _ (indexed-IsAt (suc n) ps))
]

at_tiers : (ps : List Problem) (xs : List Indexed) → All (IsAt 0 ps) xs → HasTiers (tier_at 0 ps) xs
at_tiers ps [] h = tt
at_tiers ps (x ∷ xs) h = (h.0.1, at_tiers ps xs h.1)

-- Problems of one component have one tier, so no pattern mixes new, ongoing and chronic problems.
pub components-HasOneTier :
    (problems : List Problem) → All HasOneTier (components_of (indexed 0 problems))
unfolding components_of
components-HasOneTier problems =
    let idx = indexed 0 problems in
    let tiers = at_tiers problems idx (indexed-IsAt 0 problems) in
    one_tier (tier_at 0 problems) (all_links idx) (components_of idx)
      (all_links-IsLevel _ idx tiers) (components-HasTiers _ _ idx _ [] tiers tt)
      (components_of_lem idx).1
