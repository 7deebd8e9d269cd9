-- ===== src/Families/Trees.antt =====
-- The families of a namespace page: `buildFamilies` (main.go). Objects are known by kind and name.
pub mod Counted
pub mod Walked
pub mod Placed
use kubehealth.Prelude.{
  ℕ, zero, suc, ◌+◌, Bool, true, false, not, ◌&&◌, ◌||◌, String, Option, none, some, List, [], ◌∷◌,
  ◌++◌, map, keep, any, bool_eq, str_eq, str_ltb, if◌then◌else◌,
}
use kubehealth.Prelude.Sort.{sort_by}
use kubehealth.Prelude.Totals.{total, concat}
use kubehealth.Owners.{ObjRef}
use kubehealth.Problems.Groups.{same_ref}
use kubehealth.Families.{ObjectEvents, KindGroup, group_by_kind}
use kubehealth.Families.Parents.{detect_parent}

-- `FamilyMember`
mutual
  pub data FamilyMember : Type 0 where
    member : ObjectEvents → ℕ → Members → FamilyMember

  pub data Members : Type 0 where
    nil : Members
    cons : FamilyMember → Members → Members

pub record ObjectFamily : Type 0 where
  pub root : FamilyMember
  pub has_warning : Bool
  pub idle : Bool
  pub cascade_failure : Bool
  pub warning_count : ℕ
  pub normal_count : ℕ
  pub kinds : List String

abbrev pub obj_key : ObjectEvents → ObjRef
obj_key o = record { kind = o.kind; name = o.object_name }

-- `byKey`: of two objects with one key the later.
unfoldable pub find_object : List ObjectEvents → ObjRef → Option ObjectEvents
find_object [] key = none
find_object (o ∷ objects) key = elim (find_object objects key) [
  | some found ↦ some found
  | none ↦ if same_ref (obj_key o) key then some o else none
]

-- `has`
abbrev pub has_object : List ObjectEvents → String → String → Bool
has_object objects kind name = elim (find_object objects (record { kind = kind; name = name })) [
  | some _ ↦ true
  | none ↦ false
]

-- `parentOf`, of the object's own kind and name.
unfoldable pub found_parent : List ObjectEvents → ObjRef → Option ObjRef
unfolding detect_parent find_object
found_parent objects key = detect_parent key.kind key.name (has_object objects)

abbrev pub is_parent : ObjRef → Option ObjRef → Bool
is_parent key none = false
is_parent key (some p) = same_ref p key

abbrev pub key_before : ObjRef → ObjRef → Bool
key_before a b = if not (str_eq a.kind b.kind) then str_ltb a.kind b.kind else str_ltb a.name b.name

-- `childrenOf[key]` of the objects with these keys, sorted as `wire` does.
unfoldable pub children_of : List ObjectEvents → List ObjRef → ObjRef → List ObjRef
unfolding found_parent sort_by
children_of objects keys key =
    sort_by key_before (keep (λ c. is_parent key (found_parent objects c)) keys)

abbrev pub keys_of : List ObjectEvents → List ObjRef
keys_of = map obj_key

wire_each : (ObjRef → Option FamilyMember) → List ObjRef → Members
wire_each wire_child [] = Members.nil
wire_each wire_child (k ∷ kids) = elim (wire_child k) [
  | none ↦ wire_each wire_child kids
  | some m ↦ Members.cons m (wire_each wire_child kids)
]

-- `wire`, with the most levels that a tree has as fuel.
unfoldable pub wire : ℕ → List ObjectEvents → ObjRef → ℕ → Option FamilyMember
unfolding wire_each children_of find_object
wire zero objects key depth = none
wire (suc fuel) objects key depth = elim (find_object objects key) [
  | none ↦ none
  | some o ↦ some (
      FamilyMember.member o depth (
        wire_each (λ k. wire fuel objects k (suc depth))
          (children_of objects (keys_of objects) key)))
]

-- `markClaimed`: the keys that it marks.
unfoldable pub mark_claimed : ℕ → List ObjectEvents → ObjRef → List ObjRef
unfolding children_of concat
mark_claimed zero objects key = []
mark_claimed (suc fuel) objects key =
    key ∷ concat (map (mark_claimed fuel objects) (children_of objects (keys_of objects) key))

-- A Pod below a ReplicaSet below a Deployment, and the like.
abbrev pub tree_levels : ℕ
tree_levels = 3

abbrev pub is_root : List ObjectEvents → ObjRef → Bool
is_root objects key = elim (found_parent objects key) [
  | some _ ↦ false
  | none ↦ elim (children_of objects (keys_of objects) key) [ [] ↦ false | _ ∷ _ ↦ true ]
]

unfoldable pub roots : List ObjectEvents → List ObjRef
unfolding found_parent children_of sort_by
roots objects = sort_by key_before (keep (is_root objects) (keys_of objects))

abbrev pub node : FamilyMember → ObjectEvents
node (FamilyMember.member o depth children) = o

-- The objects of a tree, in the order in which `walk` meets them.
unfoldable mutual
  pub member_objects : FamilyMember → List ObjectEvents
  member_objects (FamilyMember.member o depth children) = o ∷ member_objects_each children

  pub member_objects_each : Members → List ObjectEvents
  member_objects_each Members.nil = []
  member_objects_each (Members.cons m members) = member_objects m ++ member_objects_each members

-- `checkLeaves`
unfoldable mutual
  pub leaves_warn : FamilyMember → Bool
  leaves_warn (FamilyMember.member o depth Members.nil) = o.has_warning
  leaves_warn (FamilyMember.member o depth (Members.cons m members)) =
      leaves_warn m && leaves_warn_each members

  pub leaves_warn_each : Members → Bool
  leaves_warn_each Members.nil = true
  leaves_warn_each (Members.cons m members) = leaves_warn m && leaves_warn_each members

insert_kind : String → List String → List String
insert_kind k [] = k ∷ []
insert_kind k (j ∷ kinds) =
    let rest = insert_kind k kinds in if str_eq j k then j ∷ kinds else j ∷ rest

kind_set : List ObjectEvents → List String
unfolding insert_kind
kind_set [] = []
kind_set (o ∷ objects) = insert_kind o.kind (kind_set objects)

-- The family of a wired root.
unfoldable pub make_family : FamilyMember → ObjectFamily
unfolding member_objects leaves_warn kind_set sort_by
make_family m = record {
  root = m;
  has_warning = any (λ o. o.has_warning) (member_objects m);
  idle =
      any (λ o. o.has_warning) (member_objects m)
      && not (any (λ o. o.has_warning && not o.idle) (member_objects m));
  cascade_failure = (node m).has_warning && leaves_warn m;
  warning_count = total (λ o. o.warning_count) (member_objects m);
  normal_count = total (λ o. o.normal_count) (member_objects m);
  kinds = sort_by str_ltb (kind_set (member_objects m));
}

abbrev pub family_before : ObjectFamily → ObjectFamily → Bool
family_before a b =
    if not (bool_eq a.cascade_failure b.cascade_failure)
    then a.cascade_failure
    else if not (bool_eq a.has_warning b.has_warning)
    then a.has_warning
    else str_ltb (node a.root).object_name (node b.root).object_name

unfoldable pub make_families : List ObjectEvents → List ObjRef → List ObjectFamily
unfolding wire make_family
make_families objects [] = []
make_families objects (r ∷ rs) = elim (wire tree_levels objects r 0) [
  | none ↦ make_families objects rs
  | some m ↦ make_family m ∷ make_families objects rs
]

-- The keys of all trees.
unfoldable pub claimed : List ObjectEvents → List ObjRef
unfolding mark_claimed roots concat
claimed objects = concat (map (mark_claimed tree_levels objects) (roots objects))

unfoldable pub orphans : List ObjectEvents → List ObjectEvents
unfolding claimed
orphans objects = keep (λ o. not (any (same_ref (obj_key o)) (claimed objects))) objects

-- `buildFamilies`
unfoldable pub build_families : List ObjectEvents → List ObjectFamily × List KindGroup
unfolding make_families orphans group_by_kind roots sort_by
build_families objects =
    (sort_by family_before (make_families objects (roots objects)), group_by_kind (orphans objects))
