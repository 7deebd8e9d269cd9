-- ===== src/Problems/Patterns/Totals.antt =====
-- What the row of a pattern (problems.go, `makePattern`) keeps of its members.
use mathlib.Core.List.{Permᴰ}
use kubehealth.Prelude.{
  Pairs, In, ◌+◌, ◌≤◌, ◌⊎◌, inl, inr, false, str_ltb, Bool-cases, subst, ◌≡◌, refl, sym, ap, ◌∙◌,
  ◌<◌, String, List, [], ◌∷◌, ◌++◌, arith, All, length, map,
}
use kubehealth.Prelude.Int.{pos_part, neg_part, ltb_ℤ}
use kubehealth.Prelude.Order.{IsOrder, IsOrder-str_ltb}
use kubehealth.Prelude.Sort.{sort_by, sort_by-perm, All-sort_by, IsSorted, sort_by-IsSorted}
use kubehealth.Time.{Time, after}
use kubehealth.Problems.{Problem, PatternItem, ReasonCount, set_timing}
use kubehealth.Problems.Patterns.Rows.{
  first_namespace, primary, Gathered, no_gathered, gather, gather_one, item_of, busier, pattern_row,
  first_member, make_pattern,
}

length-perm : {xs ys : List Problem} → Permᴰ xs ys → length xs ≡ length ys
length-perm Permᴰ.nil = refl
length-perm (Permᴰ.cons e p) = omega (arith, length-perm p)
length-perm (Permᴰ.swap {l = l} e f) = refl
length-perm (Permᴰ.trans p q) = length-perm p ∙ length-perm q

append-map :
    (items : List PatternItem) (m : Problem) (ms : List Problem)
    → (items ++ item_of m ∷ []) ++ map item_of ms ≡ items ++ map item_of (m ∷ ms)
append-map [] m ms = refl
append-map (i ∷ items) m ms = ap (λ l. i ∷ l) (append-map items m ms)

append_nil : (items : List PatternItem) → items ≡ items ++ []
append_nil [] = refl
append_nil (i ∷ items) = ap (λ l. i ∷ l) (append_nil items)

gather-items :
    (first : Problem) (g : Gathered) (ms : List Problem)
    → (gather first g ms).row.items ≡ g.row.items ++ map item_of ms
unfolding gather gather_one
gather-items first g [] = append_nil g.row.items
gather-items first g (m ∷ ms) =
    gather-items first (gather_one first g m) ms ∙ append-map g.row.items m ms

-- The busiest stand first, those with as many occurrences in the order of their keys.
abbrev pub IsBusiestFirst : List Problem → Type 0
IsBusiestFirst = Pairs (λ a b.
    (pos_part b.occurrences + neg_part a.occurrences
      < pos_part a.occurrences + neg_part b.occurrences)
    ⊎ ((pos_part b.occurrences + neg_part a.occurrences
          ≡ pos_part a.occurrences + neg_part b.occurrences)
        × (str_ltb b.key a.key ≡ false)))

-- What the item of a member tells.
abbrev pub IsItem : Problem → PatternItem → Type 0
IsItem m i =
    (((m.namespaces ≡ []) × (i.namespace ≡ ""))
      ⊎ ((more : List String) × (m.namespaces ≡ i.namespace ∷ more)))
    × (((m.reasons ≡ []) × (i.reason ≡ ""))
        ⊎ ((r : ReasonCount) × (more : List ReasonCount) × (m.reasons ≡ r ∷ more)
            × (i.reason ≡ r.reason)))
    × (i.kind ≡ m.kind)
    × (i.name ≡ m.title)
    × (i.occurrences ≡ m.occurrences)
    × (i.last ≡ m.last)
    × (i.idle ≡ m.idle)
    × (i.focus ≡ m.focus)

-- One item for each member, in their order.
abbrev pub AreItems : List Problem → List PatternItem → Type 0
AreItems [] items = items ≡ []
AreItems (m ∷ ms) items =
    (i : PatternItem) × (rest : List PatternItem) × (items ≡ i ∷ rest)
    × IsItem m i
    × AreItems ms rest

-- When the members were last seen, and the message of one that was seen then.
abbrev pub IsLastOf : List Problem → Time → String → Type 0
IsLastOf ms last message =
    All (λ m. m.last_seen ≤ last) ms
    × (((last ≡ 0) × (message ≡ ""))
        ⊎ ((m : Problem) × In m ms × (m.last_seen ≡ last) × (m.message ≡ message)))

item_of-IsItem : (m : Problem) → IsItem m (item_of m)
unfolding item_of first_namespace primary
item_of-IsItem m = (place m.namespaces, why m.reasons, refl, refl, refl, refl, refl, refl)
  where
    place :
        (spaces : List String)
        → let n : String = elim spaces [ [] ↦ "" | n ∷ ns ↦ n ] in
          ((spaces ≡ []) × (n ≡ "")) ⊎ ((more : List String) × (spaces ≡ n ∷ more))
    place [] = inl (refl, refl)
    place (n ∷ ns) = inr (ns, refl)

    why :
        (reasons : List ReasonCount)
        → let n : String = elim reasons [ [] ↦ "" | r ∷ rs ↦ r.reason ] in
          ((reasons ≡ []) × (n ≡ ""))
          ⊎ ((r : ReasonCount) × (more : List ReasonCount) × (reasons ≡ r ∷ more) × (n ≡ r.reason))
    why [] = inl (refl, refl)
    why (r ∷ rs) = inr (r, rs, refl, refl)

map-AreItems : (ms : List Problem) → AreItems ms (map item_of ms)
map-AreItems [] = refl
map-AreItems (m ∷ ms) = (item_of m, map item_of ms, refl, item_of-IsItem m, map-AreItems ms)

busier-IsOrder : IsOrder busier
unfolding busier
busier-IsOrder = record {
  asym = λ a b h. ground (arith, IsOrder-str_ltb.asym a.key b.key);
  neg_trans = λ a b c h k. ground (arith, IsOrder-str_ltb.neg_trans a.key b.key c.key);
}

IsSorted-IsBusiestFirst : (ms : List Problem) → IsSorted busier ms → IsBusiestFirst ms
unfolding busier
IsSorted-IsBusiestFirst [] h = tt
IsSorted-IsBusiestFirst (m ∷ ms) h = (above ms h.0, IsSorted-IsBusiestFirst ms h.1)
  where
    above :
        (ns : List Problem)
        → All (λ n. busier n m ≡ false) ns
        → All
            (λ n.
              (pos_part n.occurrences + neg_part m.occurrences
                < pos_part m.occurrences + neg_part n.occurrences)
              ⊎ ((pos_part n.occurrences + neg_part m.occurrences
                    ≡ pos_part m.occurrences + neg_part n.occurrences)
                  × (str_ltb n.key m.key ≡ false)))
            ns
    above [] k = tt
    above (n ∷ ns) k = (
      elim (Bool-cases (ltb_ℤ n.occurrences m.occurrences)) [
        | inl p ↦ inl (ground arith)
        | inr p ↦ inr (ground (arith, k.0), ground (arith, k.0))
      ],
      above ns k.1,
    )

abbrev IsLastAfter : Problem → List Problem → Problem → Type 0
IsLastAfter old ms r =
    (old.last_seen ≤ r.last_seen)
    × All (λ m. m.last_seen ≤ r.last_seen) ms
    × (((r.last_seen ≡ old.last_seen) × (r.message ≡ old.message))
        ⊎ ((m : Problem) × In m ms × (m.last_seen ≡ r.last_seen) × (m.message ≡ r.message)))

last_step :
    (first : Problem) (g : Gathered) (m : Problem) (ms : List Problem) (r : Problem)
    → IsLastAfter (gather_one first g m).row ms r
    → IsLastAfter g.row (m ∷ ms) r
unfolding gather_one
last_step first g m ms r (le, all, at) = elim (Bool-cases (after m.last_seen g.row.last_seen)) [
  | inl p ↦
      let since : (gather_one first g m).row.last_seen ≡ m.last_seen = rw (p, gather_one) refl in
      let told : (gather_one first g m).row.message ≡ m.message = rw (p, gather_one) refl in
      (
        ground (arith, le),
        (ground (arith, le), all),
        elim at [
          | inl (q, t) ↦ inr (m, inl refl, sym (q ∙ since), sym (t ∙ told))
          | inr (n, i, q, t) ↦ inr (n, inr i, q, t)
        ],
      )
  | inr p ↦
      let since : (gather_one first g m).row.last_seen ≡ g.row.last_seen =
        rw (p, gather_one) refl in
      let told : (gather_one first g m).row.message ≡ g.row.message = rw (p, gather_one) refl in
      (
        ground (arith, le),
        (ground (arith, le), all),
        elim at [
          | inl (q, t) ↦ inl (q ∙ since, t ∙ told)
          | inr (n, i, q, t) ↦ inr (n, inr i, q, t)
        ],
      )
]

-- The loop keeps the last time and its message.
gather-last :
    (first : Problem) (g : Gathered) (ms : List Problem)
    → IsLastAfter g.row ms (gather first g ms).row
unfolding gather
gather-last first g [] = (omega arith, tt, inl (refl, refl))
gather-last first g (m ∷ ms) =
    last_step first g m ms (gather first (gather_one first g m) ms).row
      (gather-last first (gather_one first g m) ms)

module _ (format_local : String → Time → String) where
  first_tier :
      (ms : List Problem) (tier : String)
      → 0 < length ms
      → All (λ p. p.tier ≡ tier) ms
      → (first_member format_local ms).tier ≡ tier
  first_tier [] tier lt h = absurd (omega arith)
  first_tier (m ∷ ms) tier lt h = h.0

  -- The row of a pattern of one tier has that tier, and one item for each of its members: the members are
  -- in the order of their occurrences, the most first, and then of their keys; an item has its member's
  -- first namespace and reason, its kind, title and occurrences, and how long ago it was seen. The row was
  -- last seen when the last member was, and its message is of a member that was seen then.
  pub make_pattern_lem :
      (m : Problem) (ps : List Problem) (tier : String) (now : Time)
      → All (λ p. p.tier ≡ tier) (m ∷ ps)
      → let row = make_pattern format_local (m ∷ ps) now in
        (row.tier ≡ tier)
        × ((ms : List Problem) × Permᴰ (m ∷ ps) ms
            × IsBusiestFirst ms
            × AreItems ms row.items
            × IsLastOf ms row.last_seen row.message)
  unfolding make_pattern pattern_row set_timing
  make_pattern_lem m ps tier now h =
      let ms = sort_by busier (m ∷ ps) in
      let shuffle = sort_by-perm busier (m ∷ ps) in
      let first = first_member format_local ms in
      let (le, all, at) = gather-last first no_gathered ms in
      (
        first_tier ms tier (omega (arith, length-perm shuffle))
            (All-sort_by busier (λ p. p.tier ≡ tier) (m ∷ ps) h),
        (
          ms,
          shuffle,
          IsSorted-IsBusiestFirst ms (sort_by-IsSorted busier-IsOrder (m ∷ ps)),
          subst (AreItems ms) (sym (gather-items first no_gathered ms)) (map-AreItems ms),
          (all, at),
        ),
      )
