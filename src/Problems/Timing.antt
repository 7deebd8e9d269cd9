-- ===== src/Problems/Timing.antt =====
-- What `fillFromWarnings` and `setTiming` (problems.go) make of a list of warnings.
use kubehealth.Prelude.{
  ◌≡◌, ◌≢◌, Pairs, ◌⊎◌, inl, inr, refl, sym, ap, ◌∙◌, subst, ℕ, ◌+◌, ◌^◌, ◌≤◌, ◌<◌, String, true,
  false, List, [], ◌∷◌, arith, All, In, str_eq, eq_iff, ltb, Bool-cases, if◌then◌else◌,
}
use kubehealth.Prelude.Int.{ℤ, pos, negsuc, pos_part, neg_part, add_int64, add_int64_exact}
use kubehealth.Time.{Time, sub, after}
use kubehealth.Prelude.Sort.{All-sort_by}
use kubehealth.Problems.Words.{truncate}
use kubehealth.Caches.Maps.{Map, lookup_or, store, lookup, lookup_or-store}
use kubehealth.Events.{EventSummary}
use kubehealth.Problems.{
  Problem, ReasonCount, entries, sorted_reasons, more_frequent, Tally, tally_one, tally, no_tally,
  began, add_count, fill_from_warnings, set_timing, tier_of, message_max_len,
}

-- The sum of the counts of a list, and of those with one reason.
abbrev pub total : List EventSummary → ℕ
total [] = 0
total (e ∷ evs) = pos_part e.count + total evs

abbrev pub total_of : String → List EventSummary → ℕ
total_of r [] = 0
total_of r (e ∷ evs) =
    if str_eq e.reason r then pos_part e.count + total_of r evs else total_of r evs

-- Counts are not negative, and every event has a time at which it began.
abbrev pub IsCounted : EventSummary → Type 0
IsCounted e = (neg_part e.count ≡ 0) × (0 < began e)

-- A time is the start of one of the events and not after that of any.
abbrev pub IsStart : Time → List EventSummary → Type 0
IsStart t evs = ((e : EventSummary) × In e evs × (began e ≡ t)) × All (λ e. t ≤ began e) evs

abbrev pub IsNewest : EventSummary → List EventSummary → Type 0
IsNewest n evs = In n evs × All (λ e. e.last_time ≤ n.last_time) evs

exact : (z : ℤ) → neg_part z ≡ 0 → z ≡ pos (pos_part z)
exact (pos n) h = refl
exact (negsuc n) h = absurd (omega arith)

add_exact :
    (a : ℕ) (y z : ℤ)
    → y ≡ pos a
    → neg_part z ≡ 0
    → a + pos_part z < 2 ^ 63
    → add_int64 y z ≡ pos (a + pos_part z)
add_exact a y z e h lt =
    ap (λ u. add_int64 u z) e
    ∙ ap (add_int64 (pos a)) (exact z h)
    ∙ add_int64_exact a (pos_part z) lt

total_of-le : (r : String) (evs : List EventSummary) → total_of r evs ≤ total evs
total_of-le r [] = omega arith
total_of-le r (e ∷ evs) = ground (arith, total_of-le r evs)

-- No sum wraps around where the sum of all counts is an int64.
occurrences_exact :
    (a : ℕ) (t : Tally) (evs : List EventSummary)
    → t.occurrences ≡ pos a
    → All IsCounted evs
    → a + total evs < 2 ^ 63
    → (tally t evs).occurrences ≡ pos (a + total evs)
unfolding tally tally_one
occurrences_exact a t [] e h lt = e ∙ ap pos (omega arith)
occurrences_exact a t (x ∷ evs) e h lt =
    occurrences_exact (a + pos_part x.count) (tally_one t x) evs
      (add_exact a t.occurrences x.count e h.0.0 (omega (arith, lt))) h.1 (omega (arith, lt))
    ∙ ap pos (omega arith)

counts_exact :
    (r : String) (a : ℕ) (t : Tally) (evs : List EventSummary)
    → lookup_or (pos 0) r t.counts ≡ pos a
    → All IsCounted evs
    → a + total evs < 2 ^ 63
    → lookup_or (pos 0) r (tally t evs).counts ≡ pos (a + total_of r evs)
unfolding tally tally_one add_count
counts_exact r a t [] e h lt = e ∙ ap pos (omega arith)
counts_exact r a t (x ∷ evs) e h lt = elim (Bool-cases (str_eq x.reason r)) [
  | inl same ↦ rw same (
      counts_exact r (a + pos_part x.count) (tally_one t x) evs
        (lookup_or-store (pos 0) x.reason r _ t.counts
          ∙ rw same (
              add_exact a _ x.count
                (ap (λ k. lookup_or (pos 0) k t.counts) ((eq_iff x.reason r).0 same) ∙ e) h.0.0
                (omega (arith, lt))))
        h.1 (omega (arith, lt))
      ∙ ap pos (omega arith))
  | inr other ↦ rw other (
      counts_exact r a (tally_one t x) evs
        (lookup_or-store (pos 0) x.reason r _ t.counts ∙ rw other e) h.1 (omega (arith, lt)))
]

-- With a start before the loop: what it ends with is that start or one of the events'.
start_lem :
    (t : Tally) (evs : List EventSummary)
    → 0 < t.first_seen
    → All IsCounted evs
    → ((tally t evs).first_seen ≤ t.first_seen)
      × All (λ e. (tally t evs).first_seen ≤ began e) evs
      × (((tally t evs).first_seen ≡ t.first_seen)
          ⊎ ((e : EventSummary) × In e evs × (began e ≡ (tally t evs).first_seen)))
unfolding tally tally_one
start_lem t [] lt h = (omega arith, tt, inl refl)
start_lem t (x ∷ evs) lt h = elim (Bool-cases (ltb (began x) t.first_seen)) [
  | inl e ↦
      let (le, all, from) = start_lem (tally_one t x) evs (ground (arith, h.0.1)) h.1 in
      (
        ground arith,
        (ground arith, all),
        inr (elim from [ inl same ↦ (x, inl refl, ground arith) | inr (y, i, b) ↦ (y, inr i, b) ]),
      )
  | inr e ↦
      let (le, all, from) = start_lem (tally_one t x) evs (ground (arith, h.0.1)) h.1 in
      (
        ground arith,
        (ground arith, all),
        elim from [ inl same ↦ inl (ground arith) | inr (y, i, b) ↦ inr (y, inr i, b) ],
      )
]

newest_lem :
    (t : Tally) (evs : List EventSummary)
    → (t.newest.last_time ≤ (tally t evs).newest.last_time)
      × All (λ e. e.last_time ≤ (tally t evs).newest.last_time) evs
      × (((tally t evs).newest ≡ t.newest) ⊎ In (tally t evs).newest evs)
unfolding tally tally_one
newest_lem t [] = (omega arith, tt, inl refl)
newest_lem t (x ∷ evs) =
    let (le, all, from) = newest_lem (tally_one t x) evs in
    elim (Bool-cases (after x.last_time t.newest.last_time)) [
      | inl e ↦ (
        ground arith,
        (ground arith, all),
        inr (elim from [ inl same ↦ inl (sym (same ∙ taken e)) | inr i ↦ inr i ]),
      )
      | inr e ↦ (
        ground arith,
        (ground arith, all),
        elim from [ inl same ↦ inl (same ∙ left e) | inr i ↦ inr (inr i) ],
      )
    ]
  where
    taken : after x.last_time t.newest.last_time ≡ true → (tally_one t x).newest ≡ x
    taken e = rw e refl

    left : after x.last_time t.newest.last_time ≡ false → (tally_one t x).newest ≡ t.newest
    left e = rw e refl

-- Each key once, as the keys of a map are.
IsMap : Map ℤ → Type 0
IsMap = Pairs (λ x y. x.0 ≢ y.0)

store-All :
    (k j : String) (v : ℤ) (m : Map ℤ)
    → j ≢ k
    → All (λ y. j ≢ y.0) m
    → All (λ y. j ≢ y.0) (store k v m)
unfolding store
store-All k j v [] d h = (d, tt)
store-All k j v ((i, w) ∷ m) d h = elim (Bool-cases (str_eq i k)) [
  | inl e ↦ rw e (d, h.1)
  | inr e ↦ rw e (h.0, store-All k j v m d h.1)
]

store-IsMap : (k : String) (v : ℤ) (m : Map ℤ) → IsMap m → IsMap (store k v m)
unfolding store IsMap
store-IsMap k v [] h = (tt, tt)
store-IsMap k v ((i, w) ∷ m) (h, u) = elim (Bool-cases (str_eq i k)) [
  | inl e ↦ rw e (subst (λ s. All (λ y. s ≢ y.0) m) ((eq_iff i k).0 e) h, u)
  | inr e ↦ rw e (store-All k i v m (λ q. ground (arith, eq_iff i k)) h, store-IsMap k v m u)
]

tally-IsMap : (t : Tally) (evs : List EventSummary) → IsMap t.counts → IsMap (tally t evs).counts
unfolding tally tally_one add_count
tally-IsMap t [] h = h
tally-IsMap t (x ∷ evs) h = tally-IsMap (tally_one t x) evs (store-IsMap x.reason _ t.counts h)

-- In a map each entry is what its key finds.
finds-cons :
    (i : String) (w : ℤ) (m ys : Map ℤ)
    → All (λ y. i ≢ y.0) ys
    → All (λ y. lookup_or (pos 0) y.0 m ≡ y.1) ys
    → All (λ y. lookup_or (pos 0) y.0 ((i, w) ∷ m) ≡ y.1) ys
unfolding lookup_or lookup
finds-cons i w m [] d h = tt
finds-cons i w m ((k, v) ∷ ys) d h =
    (ground (arith, d.0, h.0, eq_iff i k), finds-cons i w m ys d.1 h.1)

finds : (m : Map ℤ) → IsMap m → All (λ y. lookup_or (pos 0) y.0 m ≡ y.1) m
unfolding lookup_or lookup IsMap
finds [] h = tt
finds ((i, w) ∷ m) (h, u) = (ground (arith, eq_iff i i), finds-cons i w m m h (finds m u))

module _ (counted : String → ℕ) (m : Map ℤ)
    (h : (r : String) → lookup_or (pos 0) r m ≡ pos (counted r)) where
  entries-All :
      (ys : Map ℤ)
      → All (λ y. lookup_or (pos 0) y.0 m ≡ y.1) ys
      → All (λ (c : ReasonCount). c.count ≡ pos (counted c.reason)) (entries ys)
  unfolding entries
  entries-All [] g = tt
  entries-All ((k, v) ∷ ys) g = (sym g.0 ∙ h k, entries-All ys g.1)

module _ (e : EventSummary) (evs : List EventSummary) (h : All IsCounted (e ∷ evs))
    (lt : total (e ∷ evs) < 2 ^ 63) where
  reasons_exact :
      (t : Tally)
      → t.counts ≡ []
      → All
          (λ (c : ReasonCount). c.count ≡ pos (total_of c.reason (e ∷ evs)))
          (sorted_reasons (tally t (e ∷ evs)).counts)
  unfolding sorted_reasons lookup_or lookup IsMap
  reasons_exact t none_yet = All-sort_by more_frequent _ _ (
      entries-All (λ r. total_of r (e ∷ evs)) _
        (λ r.
          counts_exact r 0 t (e ∷ evs) (ap (lookup_or (pos 0) r) none_yet) h (omega (arith, lt))
          ∙ ap pos (omega arith))
        _ (finds _ (tally-IsMap t (e ∷ evs) (subst IsMap (sym none_yet) tt))))

  tally-IsStart : (t : Tally) → t.first_seen ≡ 0 → IsStart (tally t (e ∷ evs)).first_seen (e ∷ evs)
  unfolding tally tally_one
  tally-IsStart t zero_yet =
      let s : (tally_one t e).first_seen ≡ began e = ground (arith, zero_yet) in
      let (le, all, from) = start_lem (tally_one t e) evs (subst (λ u. 0 < u) (sym s) h.0.1) h.1 in
      (
        elim from [ inl same ↦ (e, inl refl, sym (same ∙ s)) | inr (x, i, b) ↦ (x, inr i, b) ],
        (omega (arith, le, s), all),
      )

  tally-IsNewest : (t : Tally) → t.newest ≡ e → IsNewest (tally t (e ∷ evs)).newest (e ∷ evs)
  unfolding tally tally_one
  tally-IsNewest t is_e =
      let s : (tally_one t e).newest ≡ e = once is_e in
      let (le, all, from) = newest_lem (tally_one t e) evs in
      (
        elim from [ inl same ↦ inl (sym (same ∙ s)) | inr i ↦ inr i ],
        (subst (λ n. n.last_time ≤ (tally (tally_one t e) evs).newest.last_time) s le, all),
      )
    where
      once : t.newest ≡ e → (tally_one t e).newest ≡ e
      once p = elim (Bool-cases (after e.last_time t.newest.last_time)) [
        | inl later ↦ rw later refl
        | inr sooner ↦ rw sooner p
      ]

  -- Of warnings with counts that are not negative and add up to an int64, all with a time: the problem
  -- starts when the first of them began, and its tier is by that; it was last seen when the newest was
  -- observed, whose message it shows, cut to 240 characters; it counts all their occurrences, and for
  -- each reason that it lists those with this reason.
  pub fill_from_warnings_lem :
      (p : Problem) (now : Time)
      → p.first_seen ≡ 0
      → p.occurrences ≡ pos 0
      → IsStart (fill_from_warnings p (e ∷ evs) now).first_seen (e ∷ evs)
        × ((fill_from_warnings p (e ∷ evs) now).tier
            ≡ tier_of (sub now (fill_from_warnings p (e ∷ evs) now).first_seen))
        × ((n : EventSummary) × IsNewest n (e ∷ evs)
            × ((fill_from_warnings p (e ∷ evs) now).last_seen ≡ n.last_time)
            × ((fill_from_warnings p (e ∷ evs) now).message ≡ truncate n.message message_max_len))
        × ((fill_from_warnings p (e ∷ evs) now).occurrences ≡ pos (total (e ∷ evs)))
        × All
            (λ (c : ReasonCount). c.count ≡ pos (total_of c.reason (e ∷ evs)))
            (fill_from_warnings p (e ∷ evs) now).reasons
  unfolding fill_from_warnings set_timing
  fill_from_warnings_lem p now unseen uncounted = (
    tally-IsStart (no_tally p e) unseen,
    refl,
    (_, tally-IsNewest (no_tally p e) refl, refl, refl),
    occurrences_exact 0 (no_tally p e) (e ∷ evs) uncounted h (omega (arith, lt))
        ∙ ap pos (omega arith),
    reasons_exact (no_tally p e) refl,
  )
