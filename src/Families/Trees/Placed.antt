-- ===== src/Families/Trees/Placed.antt =====
-- Where `buildFamilies` (main.go) puts the objects of a namespace.
use kubehealth.Prelude.{
  ◌≡◌, refl, sym, ap, ◌∙◌, perm_sym, fun_ext, ◌≤◌, Bool, true, false, not, none, some, List, [],
  ◌∷◌, map, keep, any, arith, ltb, Bool-cases, Option-cases, List-cases, String, inl, inr,
}
use kubehealth.Prelude.Sort.{sort_by, sort_by-perm}
use kubehealth.Prelude.Totals.{
  total, count, indicator, total-perm, total-concat, total-map, total-total, count-keep, any-count,
}
use kubehealth.Owners.{ObjRef}
use kubehealth.Problems.Groups.{same_ref}
use kubehealth.Families.{ObjectEvents}
use kubehealth.Families.Parents.Levels.{level}
use kubehealth.Families.Trees.{
  obj_key, keys_of, key_before, family_before, found_parent, is_parent, children_of, member_objects,
  mark_claimed, tree_levels, is_root, roots, claimed, orphans, make_families, build_families,
}
use kubehealth.Families.Trees.Counted.{
  IsOnce, same_ref_sound, same_ref_sym, found_parent-IsAbove, parent-IsOnce, count-children_of, up,
  mark_claimed-count, if_once,
}
use kubehealth.Families.Trees.Walked.{
  family_keys, make_families-keys, roots-IsFound, same_ref_refl, columns, group_by_kind-columns,
}

-- The object has a parent or children.
abbrev pub is_joined : List ObjectEvents → ObjRef → Bool
is_joined objects x = elim (found_parent objects x) [
  | some _ ↦ true
  | none ↦ elim (children_of objects (keys_of objects) x) [ [] ↦ false | _ ∷ _ ↦ true ]
]

level-le : (kind : String) → level kind ≤ 2
level-le kind = ground arith

ltb-indicator : (b : Bool) → ltb 0 (indicator b) ≡ b
ltb-indicator true = refl
ltb-indicator false = refl

keys_of-keep :
    (t : ObjRef → Bool) (objects : List ObjectEvents)
    → keys_of (keep (λ o. t (obj_key o)) objects) ≡ keep t (keys_of objects)
keys_of-keep t [] = refl
keys_of-keep t (o ∷ objects) = elim (Bool-cases (t (obj_key o))) [
  | inl e ↦ rw (e, keep) (ap (λ l. obj_key o ∷ l) (keys_of-keep t objects))
  | inr e ↦ rw (e, keep) (keys_of-keep t objects)
]

module _ (objects : List ObjectEvents) where
  roots-count :
      (y : ObjRef)
      → IsOnce objects y
      → count same_ref y (roots objects) ≡ indicator (is_root objects y)
  unfolding roots
  roots-count y once =
      total-perm (λ z. indicator (same_ref y z))
        (perm_sym (sort_by-perm key_before (keep (is_root objects) (keys_of objects))))
      ∙ count-keep same_ref same_ref_sound (is_root objects) y (keys_of objects)
      ∙ if_once objects y (is_root objects y) once

  module _ (unique : (x : ObjRef) → count same_ref x (keys_of objects) ≤ 1) where
    -- A parent that has no parent is a root.
    parent-is_root :
        (x p : ObjRef)
        → IsOnce objects x
        → found_parent objects x ≡ some p
        → found_parent objects p ≡ none
        → is_root objects p ≡ true
    unfolding total
    parent-is_root x p once e f = elim (List-cases (children_of objects (keys_of objects) p)) [
      | inl g ↦
          let one = count-children_of objects x p once in
          absurd (omega (arith, rw (g, e, is_parent, same_ref_refl p) at one))
      | inr (c, more, g) ↦ rw (f, g, is_root) refl
    ]

    roots-up :
        (x : ObjRef)
        → IsOnce objects x
        → total (λ y. count same_ref y (roots objects)) (up objects 2 x)
          ≡ indicator (is_joined objects x)
    unfolding total
    roots-up x once = elim (Option-cases (found_parent objects x)) [
      | inl e ↦ rw (roots-count x once, e, is_root, is_joined) (omega arith)
      | inr (p, e) ↦
          let up_p = rw e at (found_parent-IsAbove objects x) in
          let once_p = parent-IsOnce objects unique x p e in
          elim (Option-cases (found_parent objects p)) [
            | inl f ↦
                rw
                  (
                    roots-count x once,
                    e,
                    roots-count p once_p,
                    parent-is_root x p once e f,
                    f,
                    is_root,
                    is_joined,
                  )
                  (omega arith)
            | inr (q, f) ↦
                let up_q = rw f at (found_parent-IsAbove objects p) in
                let once_q = parent-IsOnce objects unique p q f in
                elim (Option-cases (found_parent objects q)) [
                  | inr (r, g) ↦
                      let up_r = rw g at (found_parent-IsAbove objects q) in
                      absurd (omega (arith, level-le r.kind, up_p.1, up_q.1, up_r.1))
                  | inl g ↦
                      rw
                        (
                          roots-count x once,
                          e,
                          roots-count p once_p,
                          f,
                          roots-count q once_q,
                          parent-is_root p q once_p f g,
                          is_root,
                          is_joined,
                        )
                        (omega arith)
                ]
          ]
    ]

    claimed-count :
        (x : ObjRef)
        → IsOnce objects x
        → count same_ref x (claimed objects) ≡ indicator (is_joined objects x)
    unfolding claimed
    claimed-count x once =
        total-concat (λ y. indicator (same_ref x y))
          (map (mark_claimed tree_levels objects) (roots objects))
        ∙ total-map (count same_ref x) (mark_claimed tree_levels objects) (roots objects)
        ∙ ap (λ f. total f (roots objects))
            (fun_ext (λ r. mark_claimed-count objects unique 2 x r once))
        ∙ total-total (λ r y. indicator (same_ref r y)) (roots objects) (up objects 2 x)
        ∙ ap (λ f. total f (up objects 2 x))
            (fun_ext (λ y.
              ap (λ g. total g (roots objects)) (fun_ext (λ r. ap indicator (same_ref_sym r y)))))
        ∙ roots-up x once

    families-count :
        (x : ObjRef)
        → IsOnce objects x
        → count same_ref x (family_keys (build_families objects).0)
          ≡ indicator (is_joined objects x)
    unfolding build_families
    families-count x once =
        total-concat (λ y. indicator (same_ref x y))
          (map (λ f. keys_of (member_objects f.root))
            (sort_by family_before (make_families objects (roots objects))))
        ∙ total-map (count same_ref x) (λ f. keys_of (member_objects f.root))
            (sort_by family_before (make_families objects (roots objects)))
        ∙ total-perm (λ f. count same_ref x (keys_of (member_objects f.root)))
            (perm_sym (sort_by-perm family_before (make_families objects (roots objects))))
        ∙ sym (
            total-map (count same_ref x) (λ f. keys_of (member_objects f.root))
              (make_families objects (roots objects)))
        ∙ sym (
            total-concat (λ y. indicator (same_ref x y))
              (map (λ f. keys_of (member_objects f.root)) (make_families objects (roots objects))))
        ∙ ap (count same_ref x) (make_families-keys objects (roots objects) (roots-IsFound objects))
        ∙ unfold claimed in claimed-count x once

    orphans-count :
        (x : ObjRef)
        → IsOnce objects x
        → total (λ o. indicator (same_ref x (obj_key o))) (orphans objects)
          ≡ indicator (not (is_joined objects x))
    unfolding orphans
    orphans-count x once =
        let t = λ (y : ObjRef). not (any (same_ref y) (claimed objects)) in
        sym (total-map (λ y. indicator (same_ref x y)) obj_key (keep (λ o. t (obj_key o)) objects))
        ∙ ap (count same_ref x) (keys_of-keep t objects)
        ∙ count-keep same_ref same_ref_sound t x (keys_of objects)
        ∙ if_once objects x (t x) once
        ∙ ap (λ b. indicator (not b))
            (any-count same_ref x (claimed objects)
              ∙ ap (ltb 0) (claimed-count x once)
              ∙ ltb-indicator (is_joined objects x))

-- For objects of which each has a kind and name of its own: an object with a detected parent or with
-- children stands in one family, once, and in no column; any other object stands in one column, once,
-- and in no family.
pub build_families_lem :
    (objects : List ObjectEvents)
    → ((x : ObjRef) → count same_ref x (keys_of objects) ≤ 1)
    → (x : ObjRef) → IsOnce objects x
    → (count same_ref x (family_keys (build_families objects).0) ≡ indicator (is_joined objects x))
      × (columns (λ o. indicator (same_ref x (obj_key o))) (build_families objects).1
          ≡ indicator (not (is_joined objects x)))
unfolding build_families
build_families_lem objects unique x once = (
  families-count objects unique x once,
  group_by_kind-columns (λ o. indicator (same_ref x (obj_key o))) (orphans objects)
      ∙ orphans-count objects unique x once,
)
