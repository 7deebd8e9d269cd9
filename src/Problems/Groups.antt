-- ===== src/Problems/Groups.antt =====
-- The groups of `buildProblems` (problems.go): the events of a namespace by the top of their owner chain.
pub mod Placed
use kubehealth.Prelude.{
  ℕ, ◌-◌, Bool, true, false, not, ◌&&◌, ◌||◌, String, Option, none, some, List, [], ◌∷◌, ◌++◌, ltb,
  length, str_eq, if◌then◌else◌,
}
use kubehealth.Time.{Time, after}
use kubehealth.Events.{EventSummary}
use kubehealth.Owners.{ObjRef, Owners}
use kubehealth.Owners.Chain.{owner_chain, last_of}

abbrev pub same_ref : ObjRef → ObjRef → Bool
same_ref a b = str_eq a.kind b.kind && str_eq a.name b.name

-- `groupMember`, with the key and the chain that the group's two maps keep it under.
pub record Member : Type 0 where
  pub ref : ObjRef
  pub chain : List ObjRef
  pub depth : ℕ
  pub warn : Bool
  pub last : Time

-- `problemGroup`
pub record ProblemGroup : Type 0 where
  pub ns : String
  pub root : ObjRef
  pub has_links : Bool
  pub confirmed_link : Bool
  pub inferred : Bool
  pub members : List Member
  pub warnings : List EventSummary

abbrev pub is_warning : EventSummary → Bool
is_warning e = str_eq e.type "Warning"

-- What a warning changes of a member.
see : EventSummary → Member → Member
see e m =
    if is_warning e
    then record m { warn = true; last = if after e.last_time m.last then e.last_time else m.last }
    else m

-- The event's object becomes a member with its first event.
touch_member : List ObjRef → ObjRef → EventSummary → List Member → List Member
unfolding see
touch_member chain obj e [] =
    see e (record { ref = obj; chain = chain; depth = length chain - 1; warn = false; last = 0 })
    ∷ []
touch_member chain obj e (m ∷ members) =
    let rest = touch_member chain obj e members in
    if same_ref m.ref obj then see e m ∷ members else m ∷ rest

touch_group : List ObjRef → Bool → ObjRef → EventSummary → ProblemGroup → ProblemGroup
unfolding touch_member
touch_group chain inferred obj e g =
    let linked = ltb 1 (length chain) in
    record g {
      has_links = linked || g.has_links;
      confirmed_link = g.confirmed_link || (linked && not inferred);
      members = touch_member chain obj e g.members;
      warnings = if is_warning e then g.warnings ++ e ∷ [] else g.warnings;
    }

abbrev pub new_group : String → ObjRef → ProblemGroup
new_group ns root = record {
  ns = ns;
  root = root;
  has_links = false;
  confirmed_link = false;
  inferred = false;
  members = [];
  warnings = [];
}

-- The group of a root, made with its first event.
join_group :
    String
    → List ObjRef
    → Bool
    → ObjRef
    → ObjRef
    → EventSummary
    → List ProblemGroup
    → List ProblemGroup
unfolding touch_group
join_group ns chain inferred root obj e [] =
    touch_group chain inferred obj e (new_group ns root) ∷ []
join_group ns chain inferred root obj e (g ∷ groups) =
    let rest = join_group ns chain inferred root obj e groups in
    if same_ref g.root root then touch_group chain inferred obj e g ∷ groups else g ∷ rest

-- `chain[len(chain)-1]`
abbrev pub root_of : List ObjRef → ObjRef
root_of [] = record { kind = ""; name = "" }
root_of (r ∷ chain) = last_of r chain

-- One event of the loop: the groups of its namespace, and the warnings about cluster-scoped objects.
-- `chainOf` only saves the second computation of a chain, so the chain is computed here.
unfoldable pub add_event :
    Owners
    → Time
    → String
    → EventSummary
    → List ProblemGroup × List EventSummary
    → List ProblemGroup × List EventSummary
unfolding join_group owner_chain
add_event o now ns e (groups, cluster) =
    if str_eq e.kind "" || str_eq e.object_name ""
    then (groups, cluster)
    else if str_eq e.object_namespace ""
    then (groups, (if is_warning e then cluster ++ e ∷ [] else cluster))
    else (let obj : ObjRef = record { kind = e.kind; name = e.object_name } in
        let (chain, inferred) = owner_chain o now ns obj in
        (join_group ns chain inferred (root_of chain) obj e groups, cluster))

unfoldable pub add_events :
    Owners
    → Time
    → String
    → List EventSummary
    → List ProblemGroup × List EventSummary
    → List ProblemGroup × List EventSummary
unfolding add_event
add_events o now ns [] s = s
add_events o now ns (e ∷ evs) s = add_events o now ns evs (add_event o now ns e s)
