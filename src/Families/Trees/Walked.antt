-- ===== src/Families/Trees/Walked.antt =====
-- The tree that `wire` builds has the keys that `markClaimed` marks (main.go), in the same order, and
-- columns by kind keep what they are given.
use kubehealth.Prelude.{
  ◌≡◌, refl, sym, ap, ap₂, ◌∙◌, ℕ, zero, suc, ◌+◌, Bool, true, Option, none, some, List, [], ◌∷◌,
  ◌++◌, map, keep, arith, All, str_eq, eq_refl, Bool-cases, Option-cases, inl, inr,
}
use kubehealth.Prelude.Sort.{sort_by-perm, All-sort_by}
use kubehealth.Prelude.Totals.{total, concat, total-perm, total-append}
use kubehealth.Owners.{ObjRef}
use kubehealth.Problems.Groups.{same_ref}
use kubehealth.Families.{
  ObjectEvents, KindGroup, add_to_kind, add_kinds, group_by_kind, column_before,
}
use kubehealth.Families.Trees.{
  FamilyMember, ObjectFamily, obj_key, keys_of, key_before, find_object, children_of, wire,
  wire_each, mark_claimed, member_objects, member_objects_each, make_family, make_families,
  tree_levels, roots,
}
use kubehealth.Families.Trees.Counted.{same_ref_sound}

abbrev pub IsFound : List ObjectEvents → ObjRef → Type 0
IsFound objects k = (o : ObjectEvents) × (find_object objects k ≡ some o) × (obj_key o ≡ k)

key_or : ObjRef → Option ObjectEvents → ObjRef
key_or k none = k
key_or k (some o) = obj_key o

find_object-key :
    (objects : List ObjectEvents) (k : ObjRef) (o : ObjectEvents)
    → find_object objects k ≡ some o
    → obj_key o ≡ k
unfolding find_object key_or
find_object-key [] k o h = absurd (ground (arith, h))
find_object-key (x ∷ objects) k o h = elim (Option-cases (find_object objects k)) [
  | inr (y, f) ↦ find_object-key objects k o (f ∙ rw (f, find_object) at h)
  | inl f ↦ elim (Bool-cases (same_ref (obj_key x) k)) [
    | inl e ↦ ap (key_or k) (sym (rw (f, e, find_object) at h)) ∙ same_ref_sound (obj_key x) k e
    | inr e ↦ absurd (ground (arith, rw (f, e, find_object) at h))
  ]
]

pub same_ref_refl : (k : ObjRef) → same_ref k k ≡ true
same_ref_refl k = rw (eq_refl k.kind, eq_refl k.name) refl

All-map {ℓ κ μ} :
    {A : Type ℓ} (P : A → Type κ) (Q : A → Type μ) (xs : List A)
    → ((x : A) → P x → Q x)
    → All P xs
    → All Q xs
All-map P Q [] f h = tt
All-map P Q (x ∷ xs) f h = (f x h.0, All-map P Q xs f h.1)

find_later :
    (o : ObjectEvents) (objects : List ObjectEvents) (k : ObjRef)
    → IsFound objects k
    → IsFound (o ∷ objects) k
unfolding find_object
find_later o objects k (x, f, e) = (x, rw (f, find_object) refl, e)

find_first : (o : ObjectEvents) (objects : List ObjectEvents) → IsFound (o ∷ objects) (obj_key o)
unfolding find_object
find_first o objects = elim (Option-cases (find_object objects (obj_key o))) [
  | inr (y, f) ↦ (y, rw (f, find_object) refl, find_object-key objects (obj_key o) y f)
  | inl f ↦ (o, rw (f, same_ref_refl (obj_key o), find_object) refl, refl)
]

keys_of-IsFound : (objects : List ObjectEvents) → All (IsFound objects) (keys_of objects)
keys_of-IsFound [] = tt
keys_of-IsFound (o ∷ objects) = (
  find_first o objects,
  All-map (IsFound objects) (IsFound (o ∷ objects)) (keys_of objects) (find_later o objects)
      (keys_of-IsFound objects),
)

All-keep {ℓ κ} :
    {A : Type ℓ} (P : A → Type κ) (test : A → Bool) (xs : List A) → All P xs → All P (keep test xs)
All-keep P test [] h = tt
All-keep P test (x ∷ xs) h = elim (Bool-cases (test x)) [
  | inl t ↦ rw (t, keep) (h.0, All-keep P test xs h.1)
  | inr t ↦ rw (t, keep) (All-keep P test xs h.1)
]

children_of-IsFound :
    (objects : List ObjectEvents) (k : ObjRef)
    → All (IsFound objects) (children_of objects (keys_of objects) k)
unfolding children_of
children_of-IsFound objects k =
    All-sort_by key_before (IsFound objects) _
      (All-keep (IsFound objects) _ (keys_of objects) (keys_of-IsFound objects))

pub roots-IsFound : (objects : List ObjectEvents) → All (IsFound objects) (roots objects)
unfolding roots
roots-IsFound objects =
    All-sort_by key_before (IsFound objects) _
      (All-keep (IsFound objects) _ (keys_of objects) (keys_of-IsFound objects))

abbrev keys_in : Option FamilyMember → List ObjRef
keys_in none = []
keys_in (some m) = keys_of (member_objects m)

map-append : (xs ys : List ObjectEvents) → keys_of (xs ++ ys) ≡ keys_of xs ++ keys_of ys
map-append [] ys = refl
map-append (x ∷ xs) ys = ap (λ l. obj_key x ∷ l) (map-append xs ys)

wire_each-keys :
    (objects : List ObjectEvents) (wire_child : ObjRef → Option FamilyMember)
    (mark : ObjRef → List ObjRef) (kids : List ObjRef)
    → ((k : ObjRef) → IsFound objects k → keys_in (wire_child k) ≡ mark k)
    → All (IsFound objects) kids
    → keys_of (member_objects_each (wire_each wire_child kids)) ≡ concat (map mark kids)
unfolding wire_each concat member_objects
wire_each-keys objects wire_child mark [] same h = refl
wire_each-keys objects wire_child mark (k ∷ kids) same h =
    let ih = wire_each-keys objects wire_child mark kids same h.1 in
    elim (Option-cases (wire_child k)) [
      | inl e ↦ rw (e, wire_each, sym (same k h.0), e) ih
      | inr (m, e) ↦
          rw (e, wire_each, sym (same k h.0), e)
            (map-append (member_objects m) _ ∙ ap (λ l. keys_of (member_objects m) ++ l) ih)
    ]

wire-keys :
    (fuel : ℕ) (objects : List ObjectEvents) (k : ObjRef) (depth : ℕ)
    → IsFound objects k
    → keys_in (wire fuel objects k depth) ≡ mark_claimed fuel objects k
unfolding wire mark_claimed member_objects
wire-keys zero objects k depth found = refl
wire-keys (suc fuel) objects k depth (o, f, e) =
    rw (f, wire)
      (ap₂ (λ x l. x ∷ l) e
        (wire_each-keys objects _ _ (children_of objects (keys_of objects) k)
          (λ c found. wire-keys fuel objects c (suc depth) found) (children_of-IsFound objects k)))

-- The keys of some families, one after the other.
abbrev pub family_keys : List ObjectFamily → List ObjRef
family_keys families = concat (map (λ f. keys_of (member_objects f.root)) families)

pub make_families-keys :
    (objects : List ObjectEvents) (rs : List ObjRef)
    → All (IsFound objects) rs
    → family_keys (make_families objects rs) ≡ concat (map (mark_claimed tree_levels objects) rs)
unfolding make_families make_family concat
make_families-keys objects [] h = refl
make_families-keys objects (r ∷ rs) h =
    let keys = wire-keys tree_levels objects r 0 h.0 in
    let ih = make_families-keys objects rs h.1 in
    elim (Option-cases (wire tree_levels objects r 0)) [
      | inl e ↦ rw (e, make_families, sym keys, e) ih
      | inr (m, e) ↦
          rw (e, make_families, sym keys, e) (ap (λ l. keys_of (member_objects m) ++ l) ih)
    ]

module _ (weight : ObjectEvents → ℕ) where
  -- What the objects of some columns weigh.
  abbrev pub columns : List KindGroup → ℕ
  columns = total (λ g. total weight g.objects)

  add_to_kind-columns :
      (o : ObjectEvents) (groups : List KindGroup)
      → columns (add_to_kind o groups) ≡ weight o + columns groups
  unfolding add_to_kind total
  add_to_kind-columns o [] = omega arith
  add_to_kind-columns o (g ∷ groups) = elim (Bool-cases (str_eq g.kind o.kind)) [
    | inl e ↦ rw (e, add_to_kind, total-append weight g.objects (o ∷ [])) (omega arith)
    | inr e ↦ rw (e, add_to_kind) (omega (arith, add_to_kind-columns o groups))
  ]

  add_kinds-columns :
      (objects : List ObjectEvents) (groups : List KindGroup)
      → columns (add_kinds objects groups) ≡ total weight objects + columns groups
  unfolding add_kinds total
  add_kinds-columns [] groups = omega arith
  add_kinds-columns (o ∷ objects) groups =
      omega (arith, add_kinds-columns objects (add_to_kind o groups), add_to_kind-columns o groups)

  pub group_by_kind-columns :
      (objects : List ObjectEvents) → columns (group_by_kind objects) ≡ total weight objects
  unfolding group_by_kind
  group_by_kind-columns objects =
      sym (
        total-perm (λ g. total weight g.objects)
          (sort_by-perm column_before (add_kinds objects [])))
      ∙ add_kinds-columns objects []
      ∙ unfold total in omega arith
