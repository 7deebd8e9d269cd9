-- ===== src/Correlate/Near.antt =====
-- What `buildCorrelateResponse` (correlate.go) tests of an event, without the order of its tests.
use kubehealth.Prelude.{
  ◌≡◌, subst, ◌⊎◌, inl, inr, true, String, List, [], ◌∷◌, arith, In, ◌+◌, ◌*◌, ◌<◌, ◌&&◌, ◌||◌,
  Bool, false, str_eq, eq_iff, Bool-cases,
}
use kubehealth.Time.{Time, minute}
use kubehealth.Events.{EventSummary}
use kubehealth.Caches.{cluster_scope_ns}
use kubehealth.Correlate.{equal_fold, is_anchor, in_window, is_correlated, anchors}

-- The event names an object of this kind, in whatever case, and this name.
abbrev pub IsLike : String → String → EventSummary → Type 0
IsLike kind name e = (equal_fold e.kind kind ≡ true) × (e.object_name ≡ name)

-- An event of the object itself: on the namespace's page or, for an object of the cluster, on any.
abbrev pub IsOwn : String → String → String → String → EventSummary → Type 0
IsOwn ns kind name other e =
    ((other ≡ ns) ⊎ ((ns ≡ cluster_scope_ns) × (e.object_namespace ≡ ""))) × IsLike kind name e

-- Not one of those, and last seen less than five minutes before or after the object's own events.
abbrev pub IsAround : String → String → String → Time × Time → String → EventSummary → Type 0
IsAround ns kind name (from, to) other e =
    ¬ IsOwn ns kind name other e
    × (from < e.last_time + 5 * minute)
    × (e.last_time < to + 5 * minute)

pub is_anchor_lem :
    (kind name : String) (e : EventSummary)
    → (is_anchor kind name e ≡ true → IsLike kind name e)
      × (IsLike kind name e → is_anchor kind name e ≡ true)
unfolding is_anchor
is_anchor_lem kind name e = (
  λ h. (ground arith, (eq_iff e.object_name name).0 (ground arith)),
  λ (k, n). ground (arith, k, (eq_iff e.object_name name).1 n),
)

module _ (ns kind name : String) (other : String) (e : EventSummary) where
  same_scope : Bool
  same_scope = str_eq other ns || (str_eq ns cluster_scope_ns && str_eq e.object_namespace "")

  same_scope_lem :
      (same_scope ≡ true → (other ≡ ns) ⊎ ((ns ≡ cluster_scope_ns) × (e.object_namespace ≡ "")))
      × ((other ≡ ns) ⊎ ((ns ≡ cluster_scope_ns) × (e.object_namespace ≡ "")) → same_scope ≡ true)
  unfolding same_scope
  same_scope_lem = (
    (λ h. elim (Bool-cases (str_eq other ns)) [
      | inl p ↦ inl ((eq_iff other ns).0 p)
      | inr p ↦ inr (
        (eq_iff ns cluster_scope_ns).0 (ground arith),
        (eq_iff e.object_namespace "").0 (ground arith),
      )
    ]),
    λ h. elim h [
      | inl p ↦ ground (arith, (eq_iff other ns).1 p)
      | inr (p, q) ↦
          ground (arith, (eq_iff ns cluster_scope_ns).1 p, (eq_iff e.object_namespace "").1 q)
    ],
  )

  pub is_correlated_lem :
      (from to : Time)
      → (is_correlated ns kind name (from, to) other e ≡ true
          → IsAround ns kind name (from, to) other e)
        × (IsAround ns kind name (from, to) other e
            → is_correlated ns kind name (from, to) other e ≡ true)
  unfolding is_correlated in_window same_scope
  is_correlated_lem from to = (
    (λ h. (
      (λ (s, own). ground (arith, same_scope_lem.1 s, (is_anchor_lem kind name e).1 own)),
      ground arith,
      ground arith,
    )),
    λ (far, after_from, before_to). elim (Bool-cases same_scope) [
      | inr s ↦ ground (arith, after_from, before_to)
      | inl s ↦ elim (Bool-cases (is_anchor kind name e)) [
        | inl a ↦ absurd (far (same_scope_lem.0 s, (is_anchor_lem kind name e).0 a))
        | inr a ↦ ground (arith, after_from, before_to)
      ]
    ],
  )

-- The object's own events on a page.
module _ (kind name : String) (e : EventSummary) where
  pub In-anchors :
      (evs : List EventSummary)
      → (In e (anchors kind name evs) → In e evs × IsLike kind name e)
        × (In e evs → IsLike kind name e → In e (anchors kind name evs))
  unfolding anchors
  In-anchors [] = ((λ i. elim i [ ]), λ i h. elim i [ ])
  In-anchors (f ∷ evs) =
      let (out, back) = In-anchors evs in
      elim (Bool-cases (is_anchor kind name f)) [
        | inl p ↦
            rw (p, anchors)
              (
                (λ i. elim i [
                  | inl q ↦ (
                    inl q,
                    (is_anchor_lem kind name e).0 (subst (λ g. is_anchor kind name g ≡ true) q p),
                  )
                  | inr j ↦ let (k, h) = out j in (inr k, h)
                ]),
                λ i h. elim i [ inl q ↦ inl q | inr j ↦ inr (back j h) ],
              )
        | inr p ↦
            rw (p, anchors)
              (
                (λ i. let (k, h) = out i in (inr k, h)),
                λ i h. elim i [
                  | inl q ↦ absurd (
                      ground (
                        arith,
                        subst (λ g. is_anchor kind name g ≡ false) q p,
                        (is_anchor_lem kind name e).1 h,
                      ))
                  | inr j ↦ back j h
                ],
              )
      ]
