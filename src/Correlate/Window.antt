-- ===== src/Correlate/Window.antt =====
-- Which events `buildCorrelateResponse` (correlate.go) returns.
use kubehealth.Prelude.{
  ◌≡◌, refl, sym, ap, ◌∙◌, subst, ◌⊎◌, inl, inr, true, String, some, List, [], ◌∷◌, arith, In, ◌≢◌,
  Option, none, In-append, In-append_left, In-append_right, In-perm, perm_sym, Bool-cases,
}
use kubehealth.Prelude.Order.{
  IsOrder, IsOrder-ltb, IsOrder-str_ltb, IsTie-str_ltb, IsOrder-on, IsOrder-flip, IsOrder-lex,
}
use kubehealth.Prelude.Sort.{IsSorted, sort_by-perm, sort_by-IsSorted}
use kubehealth.Time.{Time}
use kubehealth.Events.{EventSummary}
use kubehealth.Caches.{Caches, namespace_events, scope_events, all_namespace_events}
use kubehealth.Caches.Maps.{Map}
use kubehealth.Caches.Views.{IsKnown, all_namespace_events_lem}
use kubehealth.Correlate.Span.{IsLatest, IsEarliest, times_of_lem}
use kubehealth.Correlate.{
  CorrelatedEvent, is_correlated, correlated, collect_one, collect, shown_before, Response, respond,
  build_correlate_response, anchors, times_of,
}
use kubehealth.Correlate.Near.{IsLike, IsAround, is_correlated_lem, In-anchors}

shown_before-IsOrder : IsOrder shown_before
unfolding shown_before
shown_before-IsOrder =
    IsOrder-lex (λ a b. ground arith)
      (IsOrder-on (λ (e : CorrelatedEvent). e.last_time) (IsOrder-flip IsOrder-ltb))
      (IsOrder-lex (λ a b. IsTie-str_ltb a.namespace b.namespace)
        (IsOrder-on (λ (e : CorrelatedEvent). e.namespace) IsOrder-str_ltb)
        (IsOrder-lex (λ a b. IsTie-str_ltb a.kind b.kind)
          (IsOrder-on (λ (e : CorrelatedEvent). e.kind) IsOrder-str_ltb)
          (IsOrder-lex (λ a b. IsTie-str_ltb a.object_name b.object_name)
            (IsOrder-on (λ (e : CorrelatedEvent). e.object_name) IsOrder-str_ltb)
            (IsOrder-lex (λ a b. IsTie-str_ltb a.reason b.reason)
              (IsOrder-on (λ (e : CorrelatedEvent). e.reason) IsOrder-str_ltb)
              (IsOrder-on (λ (e : CorrelatedEvent). e.message) IsOrder-str_ltb)))))

-- The entry of such an event of a namespace that is known.
abbrev pub IsNear : Caches → String → String → String → Time × Time → CorrelatedEvent → Type 0
IsNear c ns kind name times d =
    (other : String) × ((e : EventSummary) × IsKnown c other
      × In e (namespace_events c other)
      × IsAround ns kind name times other e
      × (correlated other e ≡ d))

module _ (ns kind name : String) (times : Time × Time) where
  -- The entry of an event of one of the lists that passes the test.
  abbrev IsPassed : Map (List EventSummary) → CorrelatedEvent → Type 0
  IsPassed all c =
      (other : String) × (evs : List EventSummary) × (e : EventSummary) × In (other, evs) all
      × In e evs
      × (is_correlated ns kind name times other e ≡ true)
      × (correlated other e ≡ c)

  collect_one-IsPassed :
      (other : String) (evs : List EventSummary) (c : CorrelatedEvent)
      → In c (collect_one ns kind name times other evs)
      → (e : EventSummary) × In e evs
        × (is_correlated ns kind name times other e ≡ true)
        × (correlated other e ≡ c)
  unfolding collect_one
  collect_one-IsPassed other [] c i = elim i [ ]
  collect_one-IsPassed other (e ∷ evs) c i =
      elim (Bool-cases (is_correlated ns kind name times other e)) [
        | inl p ↦ kept p (collect_one-IsPassed other evs c) (rw (p, collect_one) at i)
        | inr p ↦
            let (f, j, q, r) = collect_one-IsPassed other evs c (rw (p, collect_one) at i) in
            (f, inr j, q, r)
      ]
    where
      kept :
          is_correlated ns kind name times other e ≡ true
          → (In c (collect_one ns kind name times other evs)
              → (f : EventSummary) × In f evs
                × (is_correlated ns kind name times other f ≡ true)
                × (correlated other f ≡ c))
          → (correlated other e ≡ c) ⊎ In c (collect_one ns kind name times other evs)
          → (f : EventSummary) × In f (e ∷ evs)
            × (is_correlated ns kind name times other f ≡ true)
            × (correlated other f ≡ c)
      kept p ih (inl q) = (e, inl refl, p, q)
      kept p ih (inr j) = let (f, k, q, r) = ih j in (f, inr k, q, r)

  In-collect_one :
      (other : String) (evs : List EventSummary) (e : EventSummary)
      → In e evs
      → is_correlated ns kind name times other e ≡ true
      → In (correlated other e) (collect_one ns kind name times other evs)
  unfolding collect_one
  In-collect_one other [] e i p = elim i [ ]
  In-collect_one other (f ∷ evs) e (inl q) p =
      rw (ap (is_correlated ns kind name times other) q ∙ p, collect_one)
        (inl (ap (correlated other) q))
  In-collect_one other (f ∷ evs) e (inr i) p =
      elim (Bool-cases (is_correlated ns kind name times other f)) [
        | inl q ↦ rw (q, collect_one) (inr (In-collect_one other evs e i p))
        | inr q ↦ rw (q, collect_one) (In-collect_one other evs e i p)
      ]

  collect-IsPassed :
      (all : Map (List EventSummary)) (c : CorrelatedEvent)
      → In c (collect ns kind name times all)
      → IsPassed all c
  unfolding collect
  collect-IsPassed [] c i = elim i [ ]
  collect-IsPassed ((other, evs) ∷ all) c i =
      elim (In-append c (collect_one ns kind name times other evs) _ i) [
        | inl j ↦
            let (e, k, p, q) = collect_one-IsPassed other evs c j in
            (other, evs, e, inl refl, k, p, q)
        | inr j ↦ let (o, l, e, m, k, p, q) = collect-IsPassed all c j in (o, l, e, inr m, k, p, q)
      ]

  In-collect :
      (all : Map (List EventSummary)) (c : CorrelatedEvent)
      → IsPassed all c
      → In c (collect ns kind name times all)
  unfolding collect
  In-collect [] c (other, evs, e, i, k, p, q) = elim i [ ]
  In-collect ((o, l) ∷ all) c (other, evs, e, inl i, k, p, q) =
      In-append_left c (collect_one ns kind name times o l) _ (
        subst (λ d. In d (collect_one ns kind name times o l)) q
          (subst
            (λ (x : String × List EventSummary).
              In (correlated other e) (collect_one ns kind name times x.0 x.1))
            (sym i) (In-collect_one other evs e k p)))
  In-collect ((o, l) ∷ all) c (other, evs, e, inr i, k, p, q) =
      In-append_right c (collect_one ns kind name times o l) _
        (In-collect all c (other, evs, e, i, k, p, q))

module _ (c : Caches) (ns kind name : String) where
  IsPassed-IsNear :
      (from to : Time) (d : CorrelatedEvent)
      → (IsPassed ns kind name (from, to) (all_namespace_events c) d
          → IsNear c ns kind name (from, to) d)
        × (IsNear c ns kind name (from, to) d
            → IsPassed ns kind name (from, to) (all_namespace_events c) d)
  IsPassed-IsNear from to d = (
    (λ (other, evs, e, i, k, p, q).
        let (known, same) = (all_namespace_events_lem c other).0 evs i in
        (
          other,
          (e, known, subst (In e) same k, (is_correlated_lem ns kind name other e from to).0 p, q),
        )),
    λ (other, (e, known, k, p, q)). (
      other,
      namespace_events c other,
      e,
      (all_namespace_events_lem c other).1 known,
      k,
      (is_correlated_lem ns kind name other e from to).1 p,
      q,
    ),
  )

  -- The response to an object, given its own events.
  abbrev pub IsResponse : List EventSummary → Response → Type 0
  IsResponse own r =
      IsLatest own r.time_to
      × IsEarliest own r.time_to r.time_from
      × ((d : CorrelatedEvent)
          → (In d r.correlated → IsNear c ns kind name (r.time_from, r.time_to) d)
            × (IsNear c ns kind name (r.time_from, r.time_to) d → In d r.correlated))
      × IsSorted shown_before r.correlated

  abbrev pub IsExact : Option Response → Type 0
  IsExact o =
      (own : List EventSummary) × ((e : EventSummary)
        → (In e own → In e (scope_events c ns) × IsLike kind name e)
          × (In e (scope_events c ns) → IsLike kind name e → In e own))
      × (((own ≡ []) × (o ≡ none))
          ⊎ ((own ≢ []) × ((r : Response) × (o ≡ some r) × IsResponse own r)))

  respond-IsExact :
      (own : List EventSummary)
      → ((own ≡ []) × (respond c ns kind name own ≡ none))
        ⊎ ((own ≢ []) × ((r : Response) × (respond c ns kind name own ≡ some r) × IsResponse own r))
  unfolding respond
  respond-IsExact [] = inl (refl, refl)
  respond-IsExact (e ∷ evs) =
      let times = times_of (e ∷ evs) in
      let all = collect ns kind name times (all_namespace_events c) in
      let order = sort_by-perm shown_before all in
      inr (
        (λ q. ground (arith, q)),
        (
          _,
          refl,
          (
            (times_of_lem (e ∷ evs)).0,
            (times_of_lem (e ∷ evs)).1,
            (λ d. (
              (λ i. (IsPassed-IsNear times.0 times.1 d).0 (
                  collect-IsPassed ns kind name times (all_namespace_events c) d
                    (In-perm d (perm_sym order) i))),
              λ n. In-perm d order (
                  In-collect ns kind name times (all_namespace_events c) d
                    ((IsPassed-IsNear times.0 times.1 d).1 n)),
            )),
            sort_by-IsSorted shown_before-IsOrder all,
          ),
        ),
      )

  -- An object has a response exactly if its page has events of its own, of its kind in whatever case and its
  -- name. The response then gives the latest of their last times, and the earliest of their first times
  -- that are given, or the latest time where none is. It lists exactly the events of all known namespaces
  -- that are not the object's own and were last seen less than five minutes before that start or after
  -- that end, each as its entry, newest first.
  pub build_correlate_response_lem : IsExact (build_correlate_response c ns kind name)
  unfolding build_correlate_response
  build_correlate_response_lem = (
    anchors kind name (scope_events c ns),
    (λ e. In-anchors kind name e (scope_events c ns)),
    respond-IsExact (anchors kind name (scope_events c ns)),
  )
