-- ===== src/Families/Trees/Counted.antt =====
-- How often a tree of objects has a key (main.go, `wire` and `markClaimed`): as often as its root stands
-- among the key's ancestors.
use kubehealth.Prelude.{
  ◌≡◌, refl, ap, fun_ext, perm_sym, ◌∙◌, ℕ, zero, suc, ◌≤◌, Bool, true, false, none, some, List, [],
  ◌∷◌, map, keep, arith, eq_iff, Bool-cases, Option-cases, inl, inr, if◌then◌else◌,
}
use kubehealth.Prelude.Sort.{sort_by-perm}
use kubehealth.Prelude.Totals.{
  total, concat, count, indicator, total-perm, total_zero, total-concat, total-map, total-total,
  count-keep,
}
use kubehealth.Owners.{ObjRef}
use kubehealth.Problems.Groups.{same_ref}
use kubehealth.Families.{ObjectEvents}
use kubehealth.Families.Parents.Levels.{level, IsAbove, detect_parent-IsAbove}
use kubehealth.Families.Trees.{
  obj_key, keys_of, key_before, find_object, has_object, found_parent, is_parent, children_of,
  mark_claimed,
}

pub same_ref_sound : (a b : ObjRef) → same_ref a b ≡ true → a ≡ b
same_ref_sound a b h = ground (arith, eq_iff a.kind b.kind, eq_iff a.name b.name)

pub same_ref_sym : (a b : ObjRef) → same_ref a b ≡ same_ref b a
same_ref_sym a b =
    ground (
      arith,
      eq_iff a.kind b.kind,
      eq_iff b.kind a.kind,
      eq_iff a.name b.name,
      eq_iff b.name a.name,
    )

module _ (objects : List ObjectEvents) where
  -- The key and its ancestors, so many levels up.
  abbrev pub up : ℕ → ObjRef → List ObjRef
  up zero x = x ∷ []
  up (suc n) x = x ∷ elim (found_parent objects x) [ none ↦ [] | some p ↦ up n p ]

  abbrev above : ℕ → ObjRef → List ObjRef
  above n x = elim (found_parent objects x) [ none ↦ [] | some p ↦ up n p ]

  find_object-count :
      (key : ObjRef) (o : ObjectEvents) (os : List ObjectEvents)
      → find_object os key ≡ some o
      → 1 ≤ count same_ref key (keys_of os)
  unfolding find_object total
  find_object-count key o [] h = absurd (ground (arith, h))
  find_object-count key o (x ∷ os) h = elim (Bool-cases (same_ref (obj_key x) key)) [
    | inl e ↦ rw (same_ref_sym key (obj_key x), e) (omega arith)
    | inr e ↦ elim (Option-cases (find_object os key)) [
      | inl f ↦ absurd (ground (arith, h, f, e))
      | inr (y, f) ↦ omega (arith, find_object-count key y os f)
    ]
  ]

  -- The key is that of one object.
  abbrev pub IsOnce : ObjRef → Type 0
  IsOnce x = count same_ref x (keys_of objects) ≡ 1

  pub found_parent-IsAbove :
      (x : ObjRef) → IsAbove (has_object objects) (level x.kind) (found_parent objects x)
  unfolding found_parent
  found_parent-IsAbove x = detect_parent-IsAbove (has_object objects) x.kind x.name

  pub if_once :
      (x : ObjRef) (b : Bool)
      → IsOnce x
      → (if b then count same_ref x (keys_of objects) else 0) ≡ indicator b
  if_once x true h = h
  if_once x false h = refl

  pub count-children_of :
      (x k : ObjRef)
      → IsOnce x
      → count same_ref x (children_of objects (keys_of objects) k)
        ≡ indicator (is_parent k (found_parent objects x))
  unfolding children_of
  count-children_of x k once =
      total-perm (λ y. indicator (same_ref x y))
        (perm_sym (
          sort_by-perm key_before
            (keep (λ c. is_parent k (found_parent objects c)) (keys_of objects))))
      ∙ count-keep same_ref same_ref_sound (λ c. is_parent k (found_parent objects c)) x
          (keys_of objects)
      ∙ if_once x (is_parent k (found_parent objects x)) once

  module _ (unique : (x : ObjRef) → count same_ref x (keys_of objects) ≤ 1) where
    pub parent-IsOnce : (x p : ObjRef) → found_parent objects x ≡ some p → IsOnce p
    parent-IsOnce x p e =
        let h = rw e at (found_parent-IsAbove x) in
        elim (Option-cases (find_object objects p)) [
          | inl f ↦ absurd (ground (arith, rw (f, has_object) at h.0))
          | inr (o, f) ↦ omega (arith, unique p, find_object-count p o objects f)
        ]

    -- Who has `k` for a parent among the ancestors: as often as `k` is above.
    parents_up :
        (n : ℕ) (x k : ObjRef)
        → IsOnce x
        → total (λ y. count same_ref y (children_of objects (keys_of objects) k)) (up n x)
          ≡ count same_ref k (above n x)
    unfolding total
    parents_up zero x k once = elim (Option-cases (found_parent objects x)) [
      | inl e ↦ rw (count-children_of x k once, e, above) refl
      | inr (p, e) ↦ rw (count-children_of x k once, e, above, same_ref_sym k p) refl
    ]
    parents_up (suc n) x k once = elim (Option-cases (found_parent objects x)) [
      | inl e ↦ rw (count-children_of x k once, e, above) refl
      | inr (p, e) ↦
          rw (count-children_of x k once, e, above, same_ref_sym k p)
            (omega (arith, parents_up n p k (parent-IsOnce x p e)))
    ]

    marked :
        (x : ObjRef) (n : ℕ) (k : ObjRef)
        → count same_ref x
            (concat (map (mark_claimed n objects) (children_of objects (keys_of objects) k)))
          ≡ total
              (λ c. count same_ref x (mark_claimed n objects c))
              (children_of objects (keys_of objects) k)
    marked x n k =
        total-concat (λ y. indicator (same_ref x y))
          (map (mark_claimed n objects) (children_of objects (keys_of objects) k))
        ∙ total-map (count same_ref x) (mark_claimed n objects)
            (children_of objects (keys_of objects) k)

    pub mark_claimed-count :
        (n : ℕ) (x k : ObjRef)
        → IsOnce x
        → count same_ref x (mark_claimed (suc n) objects k) ≡ count same_ref k (up n x)
    unfolding mark_claimed total
    mark_claimed-count zero x k once =
        rw (same_ref_sym k x)
          (omega (arith, marked x zero k, total_zero (children_of objects (keys_of objects) k)))
    mark_claimed-count (suc n) x k once =
        let kids = children_of objects (keys_of objects) k in
        let turned : total (λ c. count same_ref x (mark_claimed (suc n) objects c)) kids
            ≡ count same_ref k (above n x) =
          ap (λ f. total f kids) (fun_ext (λ c. mark_claimed-count n x c once))
          ∙ total-total (λ c y. indicator (same_ref c y)) kids (up n x)
          ∙ ap (λ f. total f (up n x))
              (fun_ext
                (λ y. ap (λ g. total g kids) (fun_ext (λ c. ap indicator (same_ref_sym c y)))))
          ∙ parents_up n x k once in
        rw (same_ref_sym k x) (omega (arith, marked x (suc n) k, turned))
