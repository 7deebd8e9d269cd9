-- ===== src/Caches/Views.antt =====
-- Which page an event shows on: `scopeEvents` splits the events of the caches between the namespace
-- pages and the page of cluster-scoped objects, and drops none.
use mathlib.Core.List.{Permᴰ}
use kubehealth.Prelude.{
  ◌⊎◌, sym, ap, ◌∙◌, subst, any, ◌++◌, ◌≡◌, ◌≢◌, refl, inl, inr, Bool, true, false, not, String,
  List, [], ◌∷◌, ◌||◌, arith, str_eq, eq_iff, keep, In, In-append_left, In-append_right, In-append,
  In-perm, perm_sym, In-keep, In-kept, Bool-cases,
}
use kubehealth.Prelude.Sort.{sort_by-perm}
use kubehealth.Events.{EventSummary, newer, sort_newest_first}
use kubehealth.Caches.Maps.{keys}
use kubehealth.Caches.{
  add_names, Caches, cluster_scope_ns, is_cluster_scoped, cluster_scoped, known_names, events_for,
  namespace_events, all_namespace_events, scope_events,
}

-- An event about a cluster-scoped object: it names a kind and no namespace.
abbrev pub IsClusterScoped : EventSummary → Type 0
IsClusterScoped e = (e.object_namespace ≡ "") × (e.kind ≢ "")

is_cluster_scoped_lem :
    (e : EventSummary)
    → (is_cluster_scoped e ≡ true → IsClusterScoped e)
      × (IsClusterScoped e → is_cluster_scoped e ≡ true)
is_cluster_scoped_lem e = (
  λ h. (
    (eq_iff e.object_namespace "").0 (ground arith),
    λ q. ground (arith, (eq_iff e.kind "").1 q),
  ),
  λ (a, b). ground (arith, eq_iff e.object_namespace "", eq_iff e.kind ""),
)

-- A namespace that the program knows of: one of its caches holds a list for it, the namespace cache or
-- the feed of warnings.
abbrev pub IsKnown : Caches → String → Type 0
IsKnown c ns = In ns (keys c.ns_cache) ⊎ In ns (keys c.feed.by_ns)

-- A name that is already in the list is found there.
found-In : (n : String) (names : List String) → any (str_eq n) names ≡ true → In n names
found-In n [] h = absurd (ground arith)
found-In n (m ∷ names) h = elim (Bool-cases (str_eq n m)) [
  | inl e ↦ inl (sym ((eq_iff n m).0 e))
  | inr e ↦ inr (found-In n names (ground arith))
]

-- The set of names has exactly the names of both lists.
In-add_names :
    (n : String) (names more : List String)
    → (In n (add_names names more) → In n names ⊎ In n more)
      × (In n names ⊎ In n more → In n (add_names names more))
unfolding add_names
In-add_names n names [] = (inl, λ h. elim h [ inl i ↦ i | inr i ↦ elim i [ ] ])
In-add_names n names (m ∷ more) = elim (Bool-cases (any (str_eq m) names)) [
  | inl old ↦ rw old (
    (λ i. elim ((In-add_names n names more).0 i) [ inl a ↦ inl a | inr b ↦ inr (inr b) ]),
    λ h. elim h [
      | inl a ↦ (In-add_names n names more).1 (inl a)
      | inr (inl e) ↦
          (In-add_names n names more).1 (inl (subst (λ k. In k names) e (found-In m names old)))
      | inr (inr b) ↦ (In-add_names n names more).1 (inr b)
    ],
  )
  | inr new ↦ rw new (
    (λ i. elim ((In-add_names n (names ++ m ∷ []) more).0 i) [
      | inl a ↦ elim (In-append n names (m ∷ []) a) [
        | inl b ↦ inl b
        | inr (inl e) ↦ inr (inl e)
        | inr (inr b) ↦ elim b [ ]
      ]
      | inr b ↦ inr (inr b)
    ]),
    λ h. (In-add_names n (names ++ m ∷ []) more).1 (elim h [
      | inl a ↦ inl (In-append_left n names (m ∷ []) a)
      | inr (inl e) ↦ inl (In-append_right n names (m ∷ []) (inl e))
      | inr (inr b) ↦ inr b
    ]),
  )
]

known_names_lem :
    (c : Caches) (ns : String)
    → (In ns (known_names c) → IsKnown c ns) × (IsKnown c ns → In ns (known_names c))
unfolding known_names
known_names_lem c ns =
    let first = In-add_names ns [] (keys c.ns_cache) in
    let both = In-add_names ns (add_names [] (keys c.ns_cache)) (keys c.feed.by_ns) in
    (
      (λ i. elim (both.0 i) [
        | inl a ↦ elim (first.0 a) [ inl b ↦ elim b [ ] | inr b ↦ inl b ]
        | inr b ↦ inr b
      ]),
      λ h. both.1 (elim h [ inl a ↦ inl (first.1 (inr a)) | inr b ↦ inr b ]),
    )

sort_newest_first-perm : (evs : List EventSummary) → Permᴰ evs (sort_newest_first evs)
unfolding sort_newest_first
sort_newest_first-perm evs = sort_by-perm newer evs

module _ (c : Caches) where
  -- The map of all events has exactly the known namespaces, each with its merged events.
  In-events_for :
      (names : List String) (ns : String)
      → In ns names
      → In (ns, namespace_events c ns) (events_for c names)
  unfolding events_for
  In-events_for [] ns i = elim i [ ]
  In-events_for (n ∷ names) ns (inl p) = inl (ap (λ k. (k, namespace_events c k)) p)
  In-events_for (n ∷ names) ns (inr i) = inr (In-events_for names ns i)

  events_for-In :
      (names : List String) (ns : String) (evs : List EventSummary)
      → In (ns, evs) (events_for c names)
      → In ns names × (evs ≡ namespace_events c ns)
  unfolding events_for
  events_for-In [] ns evs i = elim i [ ]
  events_for-In (n ∷ names) ns evs (inl p) =
      (inl (ap (λ x. x.0) p), ap (λ x. x.1) (sym p) ∙ ap (λ x. namespace_events c x.0) p)
  events_for-In (n ∷ names) ns evs (inr i) = let (j, p) = events_for-In names ns evs i in (inr j, p)

  pub all_namespace_events_lem :
      (ns : String)
      → ((evs : List EventSummary)
          → In (ns, evs) (all_namespace_events c)
          → IsKnown c ns × (evs ≡ namespace_events c ns))
        × (IsKnown c ns → In (ns, namespace_events c ns) (all_namespace_events c))
  unfolding all_namespace_events
  all_namespace_events_lem ns = (
    (λ evs i.
        let (j, p) = events_for-In (known_names c) ns evs i in ((known_names_lem c ns).0 j, p)),
    λ h. In-events_for (known_names c) ns ((known_names_lem c ns).1 h),
  )

module _ (c : Caches) (e : EventSummary) where
  In-cluster_scoped :
      (names : List String) (ns : String)
      → In ns names
      → In e (namespace_events c ns)
      → IsClusterScoped e
      → In e (cluster_scoped (events_for c names))
  unfolding cluster_scoped events_for
  In-cluster_scoped [] ns i j h = elim i [ ]
  In-cluster_scoped (n ∷ names) ns (inl p) j h =
      In-append_left e (keep is_cluster_scoped (namespace_events c n))
        (cluster_scoped (events_for c names))
        (In-keep is_cluster_scoped e (namespace_events c n) (rw p j)
          ((is_cluster_scoped_lem e).1 h))
  In-cluster_scoped (n ∷ names) ns (inr i) j h =
      In-append_right e (keep is_cluster_scoped (namespace_events c n)) _
        (In-cluster_scoped names ns i j h)

  cluster_scoped-In :
      (names : List String)
      → In e (cluster_scoped (events_for c names))
      → IsClusterScoped e × ((ns : String) × In ns names × In e (namespace_events c ns))
  unfolding cluster_scoped events_for
  cluster_scoped-In [] i = elim i [ ]
  cluster_scoped-In (n ∷ names) i =
      elim (In-append e (keep is_cluster_scoped (namespace_events c n)) _ i) [
        | inl l ↦
            let r = In-kept is_cluster_scoped e _ l in
            ((is_cluster_scoped_lem e).0 r.1, (n, inl refl, r.0))
        | inr r ↦ let (h, (ns, known, j)) = cluster_scoped-In names r in (h, (ns, inr known, j))
      ]

  scope_cluster :
      In e (scope_events c cluster_scope_ns) → In e (cluster_scoped (all_namespace_events c))
  unfolding scope_events
  scope_cluster i = In-perm e (perm_sym (sort_newest_first-perm _)) i

  cluster_scope :
      In e (cluster_scoped (all_namespace_events c)) → In e (scope_events c cluster_scope_ns)
  unfolding scope_events
  cluster_scope i = In-perm e (sort_newest_first-perm _) i

  -- The page of cluster-scoped objects has exactly the events that name a kind and no namespace, among the
  -- events of every namespace that the namespace cache or the feed of warnings holds a list for.
  pub scope_events_cluster :
      (In e (scope_events c cluster_scope_ns)
        → IsClusterScoped e × ((ns : String) × IsKnown c ns × In e (namespace_events c ns)))
      × ((ns : String)
          → IsKnown c ns
          → In e (namespace_events c ns)
          → IsClusterScoped e
          → In e (scope_events c cluster_scope_ns))
  unfolding all_namespace_events
  scope_events_cluster = (
    λ i.
        let (h, (ns, known, j)) = cluster_scoped-In (known_names c) (scope_cluster i) in
        (h, (ns, (known_names_lem c ns).0 known, j)),
    λ ns known j h.
        cluster_scope (In-cluster_scoped (known_names c) ns ((known_names_lem c ns).1 known) j h),
  )

  own_page : EventSummary → Bool
  own_page e = not (str_eq e.object_namespace "") || str_eq e.kind ""

  own_page_lem : own_page e ≡ not (is_cluster_scoped e)
  unfolding own_page
  own_page_lem = ground arith

  -- Every other page has exactly the rest of its namespace's events.
  pub scope_events_namespace :
      (ns : String)
      → ns ≢ cluster_scope_ns
      → (In e (scope_events c ns) → In e (namespace_events c ns) × (is_cluster_scoped e ≡ false))
        × (In e (namespace_events c ns) → is_cluster_scoped e ≡ false → In e (scope_events c ns))
  unfolding scope_events own_page
  scope_events_namespace ns h = elim (Bool-cases (str_eq ns cluster_scope_ns)) [
    | inl p ↦ absurd (h ((eq_iff ns cluster_scope_ns).0 p))
    | inr p ↦ (
      λ i.
          let r = In-kept (λ e. own_page e) e _ (rw (p, scope_events) at i) in
          (r.0, ground (arith, own_page_lem)),
      λ i t. rw (p, scope_events) (In-keep (λ e. own_page e) e _ i (ground (arith, own_page_lem))),
    )
  ]
