-- ===== src/Problems/Groups/Placed.antt =====
-- Where the loop of `buildProblems` puts each warning.
use kubehealth.Prelude.{
  ◌≡◌, refl, ℕ, ◌+◌, Bool, true, not, ◌&&◌, ◌||◌, String, List, [], ◌∷◌, arith, All, All-append,
  Pairs, false, ◌++◌, str_eq, eq_iff, Bool-cases, inl, inr, if◌then◌else◌,
}
use kubehealth.Time.{Time}
use kubehealth.Events.{EventSummary}
use kubehealth.Owners.{ObjRef, Owners}
use kubehealth.Owners.Chain.{owner_chain}
use kubehealth.Problems.Groups.{
  same_ref, new_group, ProblemGroup, is_warning, touch_group, join_group, root_of, add_event,
  add_events,
}

abbrev pub object_of : EventSummary → ObjRef
object_of e = record { kind = e.kind; name = e.object_name }

-- A warning about an object of a namespace, and one about an object of the cluster.
abbrev pub is_placed : EventSummary → Bool
is_placed e =
    is_warning e
    && (not (str_eq e.kind "")
        && (not (str_eq e.object_name "") && not (str_eq e.object_namespace "")))

abbrev pub is_cluster : EventSummary → Bool
is_cluster e =
    is_warning e
    && (not (str_eq e.kind "") && (not (str_eq e.object_name "") && str_eq e.object_namespace ""))

abbrev pub number_of : (EventSummary → Bool) → List EventSummary → ℕ
number_of test [] = 0
number_of test (e ∷ evs) = if test e then 1 + number_of test evs else number_of test evs

number_of-append :
    (test : EventSummary → Bool) (evs : List EventSummary) (e : EventSummary)
    → number_of test (evs ++ e ∷ [])
      ≡ (if test e then 1 + number_of test evs else number_of test evs)
number_of-append test [] e = ground arith
number_of-append test (x ∷ evs) e = ground (arith, number_of-append test evs e)

-- The warnings of all groups together that pass the test.
abbrev pub warnings_in : (EventSummary → Bool) → List ProblemGroup → ℕ
warnings_in test [] = 0
warnings_in test (g ∷ groups) = number_of test g.warnings + warnings_in test groups

-- Groups have different roots.
abbrev pub HaveOwnRoots : List ProblemGroup → Type 0
HaveOwnRoots = Pairs (λ g h. same_ref g.root h.root ≡ false)

module _ (o : Owners) (now : Time) (ns : String) where
  -- The event is a warning about an object whose owner chain ends at the root.
  abbrev pub IsAt : ObjRef → EventSummary → Type 0
  IsAt root e =
      (is_placed e ≡ true) × (same_ref root (root_of (owner_chain o now ns (object_of e)).0) ≡ true)

  abbrev pub IsPlaced : ProblemGroup → Type 0
  IsPlaced g = (g.ns ≡ ns) × All (IsAt g.root) g.warnings

  module _ (chain : List ObjRef) (inferred : Bool) (e : EventSummary) (obj : ObjRef) where
    touched_number :
        (test : EventSummary → Bool) (g : ProblemGroup)
        → number_of test (touch_group chain inferred obj e g).warnings ≡ (
            if is_warning e && test e
            then 1 + number_of test g.warnings
            else number_of test g.warnings)
    unfolding touch_group
    touched_number test g = ground (arith, number_of-append test g.warnings e)

    join_group-number :
        (test : EventSummary → Bool) (root : ObjRef) (groups : List ProblemGroup)
        → warnings_in test (join_group ns chain inferred root obj e groups) ≡ (
            if is_warning e && test e then 1 + warnings_in test groups else warnings_in test groups)
    unfolding join_group
    join_group-number test root [] = ground (arith, touched_number test (new_group ns root))
    join_group-number test root (g ∷ groups) =
        ground (arith, touched_number test g, join_group-number test root groups)

    touch_group-root : (g : ProblemGroup) → (touch_group chain inferred obj e g).root ≡ g.root
    unfolding touch_group
    touch_group-root g = refl

    join_group-All :
        (P : ObjRef → Type 0) (root : ObjRef) (groups : List ProblemGroup)
        → P root
        → All (λ g. P g.root) groups
        → All (λ g. P g.root) (join_group ns chain inferred root obj e groups)
    unfolding join_group touch_group
    join_group-All P root [] p h = (p, tt)
    join_group-All P root (g ∷ groups) p h = elim (Bool-cases (same_ref g.root root)) [
      | inl s ↦ rw (s, join_group) h
      | inr s ↦ rw (s, join_group) (h.0, join_group-All P root groups p h.1)
    ]

    join_group-HaveOwnRoots :
        (root : ObjRef) (groups : List ProblemGroup)
        → HaveOwnRoots groups
        → HaveOwnRoots (join_group ns chain inferred root obj e groups)
    unfolding join_group touch_group
    join_group-HaveOwnRoots root [] h = (tt, tt)
    join_group-HaveOwnRoots root (g ∷ groups) h = elim (Bool-cases (same_ref g.root root)) [
      | inl s ↦ rw (s, join_group) h
      | inr s ↦
          rw (s, join_group)
            (
              join_group-All (λ r. same_ref g.root r ≡ false) root groups s h.0,
              join_group-HaveOwnRoots root groups h.1,
            )
    ]

    touch_group-IsPlaced :
        (g : ProblemGroup)
        → (is_warning e ≡ true → IsAt g.root e)
        → IsPlaced g
        → IsPlaced (touch_group chain inferred obj e g)
    unfolding touch_group
    touch_group-IsPlaced g at (n, h) = elim (Bool-cases (is_warning e)) [
      | inl w ↦ rw (w, touch_group) (n, All-append (IsAt g.root) g.warnings (e ∷ []) h (at w, tt))
      | inr w ↦ rw (w, touch_group) (n, h)
    ]

    join_group-IsPlaced :
        (root : ObjRef) (groups : List ProblemGroup)
        → ((r : ObjRef) → same_ref r root ≡ true → is_warning e ≡ true → IsAt r e)
        → All IsPlaced groups
        → All IsPlaced (join_group ns chain inferred root obj e groups)
    unfolding join_group
    join_group-IsPlaced root [] at h = (
      touch_group-IsPlaced (new_group ns root)
          (at root (ground (arith, eq_iff root.kind root.kind, eq_iff root.name root.name)))
          (refl, tt),
      tt,
    )
    join_group-IsPlaced root (g ∷ groups) at h = elim (Bool-cases (same_ref g.root root)) [
      | inl s ↦ rw (s, join_group) (touch_group-IsPlaced g (at g.root s) h.0, h.1)
      | inr s ↦ rw (s, join_group) (h.0, join_group-IsPlaced root groups at h.1)
    ]

  IsTidy : List ProblemGroup × List EventSummary → Type 0
  IsTidy (groups, cluster) =
      All IsPlaced groups × HaveOwnRoots groups × All (λ e. is_cluster e ≡ true) cluster

  add_event-IsTidy :
      (e : EventSummary) (s : List ProblemGroup × List EventSummary)
      → IsTidy s
      → IsTidy (add_event o now ns e s)
  unfolding add_event IsTidy
  add_event-IsTidy e (groups, cluster) (h, p, k) =
      elim (Bool-cases (str_eq e.kind "" || str_eq e.object_name "")) [
        | inl skip ↦ rw (skip, add_event) (h, p, k)
        | inr named ↦ elim (Bool-cases (str_eq e.object_namespace "")) [
          | inl c ↦ elim (Bool-cases (is_warning e)) [
            | inl w ↦
                rw (named, add_event, c, w)
                  (h, p, All-append _ cluster (e ∷ []) k (ground arith, tt))
            | inr w ↦ rw (named, add_event, c, w) (h, p, k)
          ]
          | inr q ↦
              rw (named, add_event, q)
                (
                  join_group-IsPlaced _ _ e _ _ groups (λ r s w. (ground arith, s)) h,
                  join_group-HaveOwnRoots _ _ e _ _ groups p,
                  k,
                )
        ]
      ]

  add_event-number :
      (test : EventSummary → Bool) (e : EventSummary) (groups : List ProblemGroup)
      (cluster : List EventSummary)
      → (warnings_in test (add_event o now ns e (groups, cluster)).0 ≡ (
          if is_placed e && test e then 1 + warnings_in test groups else warnings_in test groups))
        × (number_of test (add_event o now ns e (groups, cluster)).1 ≡ (
            if is_cluster e && test e then 1 + number_of test cluster else number_of test cluster))
  unfolding add_event
  add_event-number test e groups cluster =
      elim (Bool-cases (str_eq e.kind "" || str_eq e.object_name "")) [
        | inl skip ↦ rw (skip, add_event) (ground arith, ground arith)
        | inr named ↦ elim (Bool-cases (str_eq e.object_namespace "")) [
          | inl c ↦
              rw (named, add_event, c)
                (ground arith, ground (arith, number_of-append test cluster e))
          | inr p ↦
              rw (named, add_event, p)
                (
                  ground (
                    arith,
                    join_group-number (owner_chain o now ns (object_of e)).0
                        (owner_chain o now ns (object_of e)).1 e (object_of e) test
                        (root_of (owner_chain o now ns (object_of e)).0) groups,
                  ),
                  ground arith,
                )
        ]
      ]

  add_events-IsTidy :
      (evs : List EventSummary) (s : List ProblemGroup × List EventSummary)
      → IsTidy s
      → IsTidy (add_events o now ns evs s)
  unfolding add_events
  add_events-IsTidy [] s h = h
  add_events-IsTidy (e ∷ evs) s h = add_events-IsTidy evs _ (add_event-IsTidy e s h)

  add_events-number :
      (test : EventSummary → Bool) (evs : List EventSummary) (groups : List ProblemGroup)
      (cluster : List EventSummary)
      → (warnings_in test (add_events o now ns evs (groups, cluster)).0
          ≡ warnings_in test groups + number_of (λ e. is_placed e && test e) evs)
        × (number_of test (add_events o now ns evs (groups, cluster)).1
            ≡ number_of test cluster + number_of (λ e. is_cluster e && test e) evs)
  unfolding add_events
  add_events-number test [] groups cluster = (omega arith, omega arith)
  add_events-number test (e ∷ evs) groups cluster =
      let (a, b) = add_event-number test e groups cluster in
      let (c, d) =
        add_events-number test evs (add_event o now ns e (groups, cluster)).0
          (add_event o now ns e (groups, cluster)).1 in
      (ground arith, ground arith)

  -- Of a namespace's events, every warning about a named object of a namespace goes into the one group
  -- of its root: no two groups have the same root, and each has only warnings about objects whose owner
  -- chain ends at it. The warnings about objects of the cluster are kept apart. No event is lost, counted
  -- twice or exchanged for another: whatever one asks of an event, as many of either kind pass as before.
  pub add_events_lem :
      (evs : List EventSummary) (cluster : List EventSummary)
      → All (λ e. is_cluster e ≡ true) cluster
      → let (groups, apart) = add_events o now ns evs ([], cluster) in
        All IsPlaced groups
        × HaveOwnRoots groups
        × All (λ e. is_cluster e ≡ true) apart
        × ((test : EventSummary → Bool)
            → (warnings_in test groups ≡ number_of (λ e. is_placed e && test e) evs)
              × (number_of test apart
                  ≡ number_of test cluster + number_of (λ e. is_cluster e && test e) evs))
  unfolding IsTidy
  add_events_lem evs cluster h =
      let (a, p, b) = add_events-IsTidy evs ([], cluster) (tt, tt, h) in
      (a, p, b, λ test. let (c, d) = add_events-number test evs [] cluster in (omega (arith, c), d))
