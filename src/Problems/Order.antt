-- ===== src/Problems/Order.antt =====
-- The order of the home page's rows (problems.go, `sortProblems`).
use mathlib.Core.List.{Permᴰ}
use kubehealth.Prelude.{
  ◌≡◌, ◌≢◌, ◌⊎◌, ◌≤◌, Bool, true, false, bool_eq, ◌==◌, if◌then◌else◌, List, [], ◌∷◌, arith, All,
  Pairs, eq_iff,
}
use kubehealth.Prelude.Order.{
  IsOrder, IsOrder-ltb, IsTie-ltb, IsOrder-str_ltb, IsTie-str_ltb, IsOrder-on, IsOrder-flip,
  IsOrder-ext, IsOrder-lex,
}
use kubehealth.Prelude.Sort.{IsSorted, IsApart, sort_by-IsSorted, sort_by-perm_eq}
use kubehealth.Prelude.Keyed.{IsDistinct}
use kubehealth.Problems.{Problem, tier_order, stands_before, sort_problems}

less_bool : Bool → Bool → Bool
less_bool a b = if bool_eq a b then false else a

IsOrder-less_bool : IsOrder less_bool
unfolding less_bool
IsOrder-less_bool = record { asym = λ a b h. ground arith; neg_trans = λ a b c h k. ground arith }

stands_before-IsOrder : IsOrder stands_before
unfolding stands_before less_bool
stands_before-IsOrder =
    IsOrder-ext (λ a b. ground arith)
      (IsOrder-lex (λ a b. IsTie-ltb (tier_order a.tier) (tier_order b.tier))
        (IsOrder-on (λ (p : Problem). tier_order p.tier) IsOrder-ltb)
        (IsOrder-lex {same = λ a b. bool_eq a.cascade b.cascade} (λ a b. ground arith)
          (IsOrder-on (λ (p : Problem). p.cascade) IsOrder-less_bool)
          (IsOrder-lex {same = λ a b. bool_eq a.idle b.idle} (λ a b. ground arith)
            (IsOrder-on (λ (p : Problem). p.idle) (IsOrder-flip IsOrder-less_bool))
            (IsOrder-lex {same = λ a b. a.last_seen == b.last_seen} (λ a b. ground arith)
              (IsOrder-on (λ (p : Problem). p.last_seen) (IsOrder-flip IsOrder-ltb))
              (IsOrder-on (λ (p : Problem). p.key) IsOrder-str_ltb)))))

stands_before-All :
    (a : Problem) (ps : List Problem)
    → All (λ b. a.key ≢ b.key) ps
    → All (λ b. (stands_before a b ≡ true) ⊎ (stands_before b a ≡ true)) ps
unfolding stands_before
stands_before-All a [] h = tt
stands_before-All a (b ∷ ps) h =
    (ground (arith, IsTie-str_ltb a.key b.key, eq_iff a.key b.key), stands_before-All a ps h.1)

stands_before-IsApart : (ps : List Problem) → IsDistinct (λ p. p.key) ps → IsApart stands_before ps
stands_before-IsApart [] h = tt
stands_before-IsApart (a ∷ ps) h = (stands_before-All a ps h.0, stands_before-IsApart ps h.1)

-- Of what the comparison looks at, the tier comes first.
tiers : (a b : Problem) → stands_before b a ≡ false → tier_order a.tier ≤ tier_order b.tier
unfolding stands_before
tiers a b h = ground arith

-- The tiers of a list do not go down.
abbrev pub HasRisingTiers : List Problem → Type 0
HasRisingTiers = Pairs (λ a b. tier_order a.tier ≤ tier_order b.tier)

tiers-All :
    (a : Problem) (ps : List Problem)
    → All (λ b. stands_before b a ≡ false) ps
    → All (λ b. tier_order a.tier ≤ tier_order b.tier) ps
tiers-All a [] h = tt
tiers-All a (b ∷ ps) h = (tiers a b h.0, tiers-All a ps h.1)

rising : (ps : List Problem) → IsSorted stands_before ps → HasRisingTiers ps
rising [] h = tt
rising (a ∷ ps) h = (tiers-All a ps h.0, rising ps h.1)

-- Problems with different keys come out in one order, whatever order the maps gave them in: new ones,
-- then ongoing ones, then chronic ones, and within that sorted by the whole comparison.
pub sort_problems_canonical :
    {ps qs : List Problem}
    → Permᴰ ps qs
    → IsDistinct (λ p. p.key) ps
    → (sort_problems ps ≡ sort_problems qs)
      × HasRisingTiers (sort_problems ps)
      × IsSorted stands_before (sort_problems ps)
unfolding sort_problems
sort_problems_canonical {ps} p h = (
  sort_by-perm_eq stands_before-IsOrder p (stands_before-IsApart ps h),
  rising _ (sort_by-IsSorted stands_before-IsOrder ps),
  sort_by-IsSorted stands_before-IsOrder ps,
)
