-- ===== src/Events/Merge.antt =====
-- `mergeEvents`: what a name finds in the merged list.
use kubehealth.Prelude.{
  ◌<◌, ◌≤◌, ◌+◌, ltb, Bool-cases, ◌≡◌, refl, sym, ◌∙◌, subst, ◌⊎◌, ◌≢◌, true, false, String, Option,
  none, some, List, [], ◌∷◌, ◌++◌, arith, All-append, str_eq, eq_iff, Option-cases, inl, inr,
}
use kubehealth.Prelude.Int.{pos_part, neg_part, ltb_ℤ}
use kubehealth.Prelude.Keyed.{
  find, IsDistinct, IsFresh, find-perm, IsDistinct-perm, find-append, find-IsFresh,
}
use kubehealth.Prelude.Sort.{sort_by-perm, IsSorted, sort_by-IsSorted}
use kubehealth.Events.{EventSummary, newer, pick, replace, merge_one, merge_into, merge_events}
use kubehealth.Events.Ordering.{newer-IsOrder}

abbrev pub by_name : EventSummary → String
by_name e = e.name

-- One namespace's events: their names are all different.
abbrev pub HasNames : List EventSummary → Type 0
HasNames = IsDistinct by_name

-- Where both lists have an event, `pick` chooses the copy.
abbrev pub merged : Option EventSummary → Option EventSummary → Option EventSummary
merged none o = o
merged (some a) none = some a
merged (some a) (some b) = some (pick a b)

merged-none : (o : Option EventSummary) → merged o none ≡ o
merged-none none = refl
merged-none (some a) = refl

-- Which of two copies of an event is kept: the one of `extra` if it was seen later or has the higher count,
-- even with an earlier time, and else the one of `base`.
abbrev pub IsPicked : EventSummary → EventSummary → EventSummary → Type 0
IsPicked a b r =
    ((a.last_time < b.last_time) × (r ≡ b))
    ⊎ ((pos_part a.count + neg_part b.count < pos_part b.count + neg_part a.count) × (r ≡ b))
    ⊎ ((b.last_time ≤ a.last_time)
        × (pos_part b.count + neg_part a.count ≤ pos_part a.count + neg_part b.count)
        × (r ≡ a))

pick-IsPicked : (a b : EventSummary) → IsPicked a b (pick a b)
unfolding pick
pick-IsPicked a b = elim (Bool-cases (ltb a.last_time b.last_time)) [
  | inl later ↦ inl (ground arith, rw (later, pick) refl)
  | inr late ↦ elim (Bool-cases (ltb_ℤ a.count b.count)) [
    | inl more ↦ inr (inl (ground arith, rw (late, pick, more) refl))
    | inr less ↦ inr (inr (ground arith, ground arith, rw (late, pick, less) refl))
  ]
]

-- What a name has after the merge, by what it has in the two lists.
abbrev pub IsMerged : Option EventSummary → Option EventSummary → Option EventSummary → Type 0
IsMerged none o r = r ≡ o
IsMerged (some a) none r = r ≡ some a
IsMerged (some a) (some b) r = (kept : EventSummary) × (r ≡ some kept) × IsPicked a b kept

merged-IsMerged : (o p : Option EventSummary) → IsMerged o p (merged o p)
merged-IsMerged none o = refl
merged-IsMerged (some a) none = refl
merged-IsMerged (some a) (some b) = (pick a b, refl, pick-IsPicked a b)

name-pick : (a b : EventSummary) → a.name ≡ b.name → (pick a b).name ≡ a.name
unfolding pick
name-pick a b h = ground arith

replace-IsFresh :
    (e : EventSummary) (out : List EventSummary) → IsFresh by_name e.name out → replace e out ≡ none
unfolding replace
replace-IsFresh e [] h = refl
replace-IsFresh e (x ∷ out) h = ground (arith, replace-IsFresh e out h.1, eq_iff x.name e.name)

IsFresh-replace :
    (e : EventSummary) (out : List EventSummary) → replace e out ≡ none → IsFresh by_name e.name out
unfolding replace
IsFresh-replace e [] h = tt
IsFresh-replace e (x ∷ out) h =
    ((λ p. ground (arith, eq_iff x.name e.name)), IsFresh-replace e out (ground arith))

-- What a name finds after `e` was merged into a list that has `o` under it.
abbrev stepped : String → EventSummary → Option EventSummary → Option EventSummary
stepped n e o = elim (str_eq e.name n) [ true ↦ merged o (some e) | false ↦ o ]

find-replace-cons :
    (n : String) (e x : EventSummary) (out out' : List EventSummary)
    → IsFresh by_name x.name out
    → replace e (x ∷ out) ≡ some out'
    → ((out'' : List EventSummary)
        → replace e out ≡ some out''
        → find by_name n out'' ≡ stepped n e (find by_name n out))
    → find by_name n out' ≡ stepped n e (find by_name n (x ∷ out))
unfolding replace find
find-replace-cons n e x out out' fresh h ih = elim (Option-cases (replace e out)) [
  | inl gone ↦ ground (
    arith,
    eq_iff x.name e.name,
    eq_iff (pick x e).name n,
    eq_iff x.name n,
    eq_iff e.name n,
    name-pick x e,
  )
  | inr (out'', found) ↦ ground (
    arith,
    eq_iff x.name n,
    eq_iff e.name n,
    ih out'' found,
    λ (p : x.name ≡ e.name). replace-IsFresh e out (subst (λ k. IsFresh by_name k out) p fresh),
  )
]

-- With different names the last position of a name is its only one.
find-replace :
    (n : String) (e : EventSummary) (out out' : List EventSummary)
    → HasNames out
    → replace e out ≡ some out'
    → find by_name n out' ≡ stepped n e (find by_name n out)
unfolding replace
find-replace n e [] out' d h = cc
find-replace n e (x ∷ out) out' d h =
    find-replace-cons n e x out out' d.0 h (λ out'' found. find-replace n e out out'' d.1 found)

find-merge_one :
    (n : String) (e : EventSummary) (out : List EventSummary)
    → HasNames out
    → find by_name n (merge_one out e) ≡ stepped n e (find by_name n out)
unfolding merge_one find
find-merge_one n e out d = elim (Option-cases (replace e out)) [
  | inl gone ↦ ground (
    arith,
    find-append by_name n out (e ∷ []),
    eq_iff e.name n,
    find-IsFresh by_name e.name out (IsFresh-replace e out gone),
  )
  | inr (out', found) ↦ ground (arith, find-replace n e out out' d found)
]

-- How a replacement in a list with a head came about.
replace-cons :
    (e x : EventSummary) (out out' : List EventSummary)
    → replace e (x ∷ out) ≡ some out'
    → ((out'' : List EventSummary) × (replace e out ≡ some out'') × (out' ≡ x ∷ out''))
      ⊎ ((x.name ≡ e.name) × (out' ≡ pick x e ∷ out))
unfolding replace
replace-cons e x out out' h = elim (Option-cases (replace e out)) [
  | inl gone ↦ inr (ground (arith, eq_iff x.name e.name), ground arith)
  | inr (out'', found) ↦ inl (out'', found, ground arith)
]

-- A replaced event keeps its name, so the names of the list stay as they are.
IsFresh-replaced :
    (k : String) (e : EventSummary) (out out' : List EventSummary)
    → replace e out ≡ some out'
    → IsFresh by_name k out
    → IsFresh by_name k out'
unfolding replace
IsFresh-replaced k e [] out' h f = cc
IsFresh-replaced k e (x ∷ out) out' h f = elim (replace-cons e x out out' h) [
  | inl (out'', found, q) ↦ rw q (f.0, IsFresh-replaced k e out out'' found f.1)
  | inr (same, q) ↦ rw q (rw (name-pick x e same) f.0, f.1)
]

HasNames-replaced :
    (e : EventSummary) (out out' : List EventSummary)
    → replace e out ≡ some out'
    → HasNames out
    → HasNames out'
unfolding replace
HasNames-replaced e [] out' h d = cc
HasNames-replaced e (x ∷ out) out' h d = elim (replace-cons e x out out' h) [
  | inl (out'', found, q) ↦
      rw q (IsFresh-replaced x.name e out out'' found d.0, HasNames-replaced e out out'' found d.1)
  | inr (same, q) ↦ rw q (subst (λ k. IsFresh by_name k out) (sym (name-pick x e same)) d.0, d.1)
]

-- Appending an element whose key no element has.
HasNames-append :
    (out : List EventSummary) (e : EventSummary)
    → IsFresh by_name e.name out
    → HasNames out
    → HasNames (out ++ e ∷ [])
HasNames-append [] e f d = (tt, tt)
HasNames-append (x ∷ out) e f d = (
  All-append (λ y. x.name ≢ y.name) out (e ∷ []) d.0 ((λ p. f.0 (sym p)), tt),
  HasNames-append out e f.1 d.1,
)

HasNames-merge_one :
    (out : List EventSummary) (e : EventSummary) → HasNames out → HasNames (merge_one out e)
unfolding merge_one
HasNames-merge_one out e d = elim (Option-cases (replace e out)) [
  | inl gone ↦ rw (gone, merge_one) (HasNames-append out e (IsFresh-replace e out gone) d)
  | inr (out', found) ↦ rw (found, merge_one) (HasNames-replaced e out out' found d)
]

HasNames-merge_into :
    (out extra : List EventSummary) → HasNames out → HasNames (merge_into out extra)
unfolding merge_into
HasNames-merge_into out [] d = d
HasNames-merge_into out (e ∷ extra) d =
    HasNames-merge_into (merge_one out e) extra (HasNames-merge_one out e d)

find-merge_into :
    (n : String) (out extra : List EventSummary)
    → HasNames out
    → HasNames extra
    → find by_name n (merge_into out extra) ≡ merged (find by_name n out) (find by_name n extra)
unfolding merge_into find
find-merge_into n out [] d u = ground arith
find-merge_into n out (e ∷ extra) d u = ground (
  arith,
  find-merge_into n (merge_one out e) extra (HasNames-merge_one out e d) u.1,
  find-merge_one n e out d,
  find-IsFresh by_name e.name extra u.0,
  eq_iff e.name n,
)

-- For two lists of one namespace's events, each with different names: the merged list has different
-- names, and under every name it has the one event that either list has; where both have one, it is the
-- copy of `extra` if that was seen later or has the higher count, and else the copy of `base`. The merged
-- list is in the order of `newer`, except that an empty `extra` returns `base` as it is.
pub merge_events_lem :
    (base extra : List EventSummary)
    → HasNames base
    → HasNames extra
    → HasNames (merge_events base extra)
      × ((n : String)
          → IsMerged
              (find by_name n base)
              (find by_name n extra)
              (find by_name n (merge_events base extra)))
      × (((extra ≡ []) × (merge_events base extra ≡ base))
          ⊎ IsSorted newer (merge_events base extra))
unfolding merge_events find
merge_events_lem base [] d u = (
  d,
  (λ n.
      subst (IsMerged (find by_name n base) none) (merged-none (find by_name n base))
        (merged-IsMerged (find by_name n base) none)),
  inl (refl, refl),
)
merge_events_lem base (e ∷ extra) d u =
    let shuffle = sort_by-perm newer (merge_into base (e ∷ extra)) in
    let names = HasNames-merge_into base (e ∷ extra) d in
    (
      IsDistinct-perm by_name shuffle names,
      (λ n.
          subst (IsMerged (find by_name n base) (find by_name n (e ∷ extra)))
            (sym (sym (find-perm by_name n shuffle names) ∙ find-merge_into n base (e ∷ extra) d u))
            (merged-IsMerged (find by_name n base) (find by_name n (e ∷ extra)))),
      inr (sort_by-IsSorted newer-IsOrder (merge_into base (e ∷ extra))),
    )
