-- ===== src/Correlate/Span.antt =====
-- When an object's own events began and ended (correlate.go, the first loop of `buildCorrelateResponse`).
use kubehealth.Prelude.{
  ◌≡◌, ◌≢◌, refl, sym, ◌⊎◌, inl, inr, ◌≤◌, not, ◌&&◌, ◌||◌, List, [], ◌∷◌, arith, All, In,
  Bool-cases, ==_iff, false, subst, if◌then◌else◌,
}
use kubehealth.Time.{Time, after, before, is_zero}
use kubehealth.Events.{EventSummary}
use kubehealth.Correlate.{span, times_of}

-- The latest of the events' last times; 0 where none has one.
abbrev pub IsLatest : List EventSummary → Time → Type 0
IsLatest evs to =
    All (λ e. e.last_time ≤ to) evs
    × ((to ≡ 0) ⊎ ((e : EventSummary) × In e evs × (e.last_time ≡ to)))

-- The earliest of the events' first times that are given, or `to` where none is.
abbrev pub IsEarliest : List EventSummary → Time → Time → Type 0
IsEarliest evs to from =
    (All (λ e. e.first_time ≡ 0) evs × (from ≡ to))
    ⊎ ((from ≢ 0)
        × All (λ e. (e.first_time ≡ 0) ⊎ (from ≤ e.first_time)) evs
        × ((e : EventSummary) × In e evs × (e.first_time ≡ from)))

-- What the loop makes of the latest time so far.
abbrev IsLater : List EventSummary → Time → Time → Type 0
IsLater evs l r =
    (l ≤ r)
    × All (λ e. e.last_time ≤ r) evs
    × ((r ≡ l) ⊎ ((e : EventSummary) × In e evs × (e.last_time ≡ r)))

abbrev earlier_of : EventSummary → Time → Time
earlier_of e a =
    if not (is_zero e.first_time) && (is_zero a || before e.first_time a) then e.first_time else a

abbrev later_of : EventSummary → Time → Time
later_of e l = if after e.last_time l then e.last_time else l

IsLater-step :
    (e : EventSummary) (evs : List EventSummary) (l r : Time)
    → IsLater evs (later_of e l) r
    → IsLater (e ∷ evs) l r
IsLater-step e evs l r h = elim (Bool-cases (after e.last_time l)) [
  | inl p ↦
      let now_at : later_of e l ≡ e.last_time = rw p refl in
      let (le, all, at) = subst (λ x. IsLater evs x r) now_at h in
      (
        ground (arith, le),
        (le, all),
        elim at [ inl q ↦ inr (e, inl refl, sym q) | inr (f, i, q) ↦ inr (f, inr i, q) ],
      )
  | inr p ↦
      let now_at : later_of e l ≡ l = rw p refl in
      let (le, all, at) = subst (λ x. IsLater evs x r) now_at h in
      (le, (ground (arith, le), all), elim at [ inl q ↦ inl q | inr (f, i, q) ↦ inr (f, inr i, q) ])
]

span-latest : (evs : List EventSummary) (a l : Time) → IsLater evs l (span (a, l) evs).1
unfolding span
span-latest [] a l = (omega arith, tt, inl refl)
span-latest (e ∷ evs) a l = IsLater-step e evs l _ (span-latest evs (earlier_of e a) (later_of e l))

-- What the loop makes of the earliest time so far.
abbrev IsEarlier : List EventSummary → Time → Time → Type 0
IsEarlier evs a r =
    (r ≡ 0 → (a ≡ 0) × All (λ e. e.first_time ≡ 0) evs)
    × (a ≢ 0 → r ≤ a)
    × All (λ e. (e.first_time ≡ 0) ⊎ (r ≤ e.first_time)) evs
    × ((r ≡ a) ⊎ ((e : EventSummary) × In e evs × (e.first_time ≡ r)))

IsEarlier-step :
    (e : EventSummary) (evs : List EventSummary) (a r : Time)
    → IsEarlier evs (earlier_of e a) r
    → IsEarlier (e ∷ evs) a r
IsEarlier-step e evs a r h =
    elim (Bool-cases (not (is_zero e.first_time) && (is_zero a || before e.first_time a))) [
      | inl p ↦
          let now_at : earlier_of e a ≡ e.first_time = rw p refl in
          let (gone, le, all, at) = subst (λ x. IsEarlier evs x r) now_at h in
          let given : e.first_time ≢ 0 = λ q. ground (arith, q) in
          (
            (λ q. absurd (given (gone q).0)),
            (λ n. ground (arith, n, le given)),
            (inr (le given), all),
            elim at [ inl q ↦ inr (e, inl refl, sym q) | inr (f, i, q) ↦ inr (f, inr i, q) ],
          )
      | inr p ↦
          let now_at : earlier_of e a ≡ a = rw p refl in
          let (gone, le, all, at) = subst (λ x. IsEarlier evs x r) now_at h in
          (
            (λ q. ((gone q).0, (ground (arith, (gone q).0), (gone q).1))),
            le,
            (unchanged p le, all),
            elim at [ inl q ↦ inl q | inr (f, i, q) ↦ inr (f, inr i, q) ],
          )
    ]
  where
    unchanged :
        (not (is_zero e.first_time) && (is_zero a || before e.first_time a)) ≡ false
        → (a ≢ 0 → r ≤ a)
        → (e.first_time ≡ 0) ⊎ (r ≤ e.first_time)
    unchanged p le = elim (Bool-cases (is_zero e.first_time)) [
      | inl z ↦ inl (ground arith)
      | inr z ↦ inr (ground (arith, le (λ q. ground (arith, q))))
    ]

span-earliest : (evs : List EventSummary) (a l : Time) → IsEarlier evs a (span (a, l) evs).0
unfolding span
span-earliest [] a l = ((λ q. (q, tt)), (λ n. omega arith), tt, inl refl)
span-earliest (e ∷ evs) a l =
    IsEarlier-step e evs a _ (span-earliest evs (earlier_of e a) (later_of e l))

pub times_of_lem :
    (evs : List EventSummary)
    → IsLatest evs (times_of evs).1 × IsEarliest evs (times_of evs).1 (times_of evs).0
unfolding times_of
times_of_lem evs =
    let (le, all, at) = span-latest evs 0 0 in
    let (gone, first, early, from) = span-earliest evs 0 0 in
    (
      (all, at),
      elim (Bool-cases (is_zero (span (0, 0) evs).0)) [
        | inl z ↦ rw z (inl ((gone ((==_iff _ 0).0 z)).1, refl))
        | inr n ↦ rw n (
            inr (
              (λ q. ground (arith, q)),
              early,
              elim from [ inl q ↦ absurd (ground (arith, q)) | inr found ↦ found ],
            ))
      ],
    )
