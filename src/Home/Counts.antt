-- ===== src/Home/Counts.antt =====
-- The counts of the home page's summary (problems.go, `buildHome`).
use kubehealth.Prelude.{
  ◌≡◌, ap, ℕ, suc, ◌+◌, Bool, false, String, List, [], ◌∷◌, arith, length, str_eq, eq_iff,
  Bool-cases, inl, inr, if◌then◌else◌,
}
use kubehealth.Events.{EventSummary}
use kubehealth.Caches.Maps.{Map}
use kubehealth.Problems.{Problem}
use kubehealth.Home.{Summary, count_row, Tallies, no_tallies, tally_row, tally_rows, build_home}

-- How many rows have a tier.
abbrev pub rows_of : String → List Problem → ℕ
rows_of tier [] = 0
rows_of tier (p ∷ ps) = if str_eq p.tier tier then suc (rows_of tier ps) else rows_of tier ps

-- `t` counts the rows of the list more than `s`.
abbrev HasCounted : Summary → List Problem → Summary → Type 0
HasCounted s ps t =
    (t.problems ≡ s.problems + length ps)
    × (t.new ≡ s.new + rows_of "new" ps)
    × (t.ongoing ≡ s.ongoing + rows_of "ongoing" ps)
    × (t.new + t.ongoing + t.chronic ≡ s.new + s.ongoing + s.chronic + length ps)

count_row-HasCounted : (p : Problem) (s : Summary) → HasCounted s (p ∷ []) (count_row p s)
unfolding count_row
count_row-HasCounted p s = elim (Bool-cases (str_eq p.tier "new")) [
  | inl n ↦
      rw (n, count_row)
        (let other : str_eq p.tier "ongoing" ≡ false =
            ap (λ tier. str_eq tier "ongoing") ((eq_iff p.tier "new").0 n) in
          rw other (omega arith, omega arith, omega arith, omega arith))
  | inr n ↦ elim (Bool-cases (str_eq p.tier "ongoing")) [
    | inl o ↦ rw (n, count_row, o) (omega arith, omega arith, omega arith, omega arith)
    | inr o ↦ rw (n, count_row, o) (omega arith, omega arith, omega arith, omega arith)
  ]
]

tally_row-HasCounted :
    (truncated : Map Bool) (t : Tallies) (p : Problem)
    → HasCounted t.summary (p ∷ []) (tally_row truncated t p).summary
unfolding tally_row
tally_row-HasCounted truncated t p = elim (Bool-cases (str_eq p.scope "cluster")) [
  | inl c ↦ rw (c, tally_row) (count_row-HasCounted p t.summary)
  | inr n ↦ rw (n, tally_row) (count_row-HasCounted p t.summary)
]

HasCounted-trans :
    (s t u : Summary) (p : Problem) (ps : List Problem)
    → HasCounted s (p ∷ []) t
    → HasCounted t ps u
    → HasCounted s (p ∷ ps) u
HasCounted-trans s t u p ps h k = ground arith

tally_rows-HasCounted :
    (truncated : Map Bool) (t : Tallies) (ps : List Problem)
    → HasCounted t.summary ps (tally_rows truncated t ps).summary
unfolding tally_rows
tally_rows-HasCounted truncated t [] = ground arith
tally_rows-HasCounted truncated t (p ∷ ps) =
    HasCounted-trans t.summary (tally_row truncated t p).summary
      (tally_rows truncated (tally_row truncated t p) ps).summary p ps
      (tally_row-HasCounted truncated t p)
      (tally_rows-HasCounted truncated (tally_row truncated t p) ps)

-- The summary counts every row of the home page once, in one of its three tiers: a row of no known
-- tier counts as chronic.
pub build_home_counts :
    (all_ns : List String) (truncated : Map Bool) (events : Map (List EventSummary))
    (ps : List Problem)
    → ((build_home all_ns truncated events ps).0.problems ≡ length ps)
      × ((build_home all_ns truncated events ps).0.new ≡ rows_of "new" ps)
      × ((build_home all_ns truncated events ps).0.ongoing ≡ rows_of "ongoing" ps)
      × ((build_home all_ns truncated events ps).0.new
            + (build_home all_ns truncated events ps).0.ongoing
            + (build_home all_ns truncated events ps).0.chronic
          ≡ length ps)
unfolding build_home
build_home_counts all_ns truncated events ps =
    ground (arith, tally_rows-HasCounted truncated no_tallies ps)
