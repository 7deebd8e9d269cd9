-- ===== src/Problems/Members.antt =====
-- From a group to its row (problems.go): `confirmOwners`, `groupProblem` and `buildProblems`.
-- Parameter: `format_local`, the text of a time in the zone of the machine, by a layout.
pub mod Newest
use kubehealth.Prelude.{
  ℕ, zero, suc, ◌+◌, ◌∷◌, Bool, true, false, not, ◌&&◌, ◌||◌, String, Option, none, some, List, [],
  ◌++◌, ltb, leb, ◌==◌, any, take, length, str_eq, str_ltb, text_of, join, decimal, if◌then◌else◌,
}
use kubehealth.Prelude.Sort.{sort_by}
use kubehealth.Time.{Time, after, before}
use kubehealth.Events.{EventSummary}
use kubehealth.Caches.Maps.{Map}
use kubehealth.Owners.{ObjRef, Owners}
use kubehealth.Owners.Chain.{cron_job_failing_since}
use kubehealth.Owners.Queue.{request_root_lookup, request_owner_confirmation}
use kubehealth.Problems.{Problem, no_problem, fill_from_warnings, set_timing, sort_problems}
use kubehealth.Problems.Words.{plural}
use kubehealth.Problems.Cluster.{cluster_problems}
use kubehealth.Problems.Groups.{Member, ProblemGroup, add_events}

-- The failing members, newest first.
candidates : List Member → List Member
candidates [] = []
candidates (m ∷ members) = let rest = candidates members in if m.warn then m ∷ rest else rest

newest_first : List Member → List Member
unfolding candidates sort_by
newest_first members = sort_by (λ a b. after a.last b.last) (candidates members)

-- The loop stops at the first candidate through which the chain can still be confirmed.
request_first : Time → String → List Member → Owners → Owners
unfolding request_owner_confirmation
request_first now ns [] o = o
request_first now ns (m ∷ members) o =
    let (asked, o') = request_owner_confirmation now ns m.chain o in
    let rest = request_first now ns members o' in if asked then o' else rest

-- `confirmOwners`
unfoldable pub confirm_owners : Time → ProblemGroup → Owners → Owners
unfolding newest_first request_first request_root_lookup
confirm_owners now g o =
    if not g.inferred
    then o
    else request_first now g.ns (take 3 (newest_first g.members))
        (if str_eq g.root.kind "CronJob" then request_root_lookup now g.ns g.root o else o)

-- How many members of one kind there are.
pub record KindCount : Type 0 where
  pub kind : String
  pub depth : ℕ
  pub total : ℕ
  pub failing : ℕ

abbrev one_if : Bool → ℕ
one_if b = if b then 1 else 0

add_member : Member → List KindCount → List KindCount
add_member m [] =
    record { kind = m.ref.kind; depth = m.depth; total = 1; failing = one_if m.warn } ∷ []
add_member m (k ∷ kinds) =
    let rest = add_member m kinds in
    if str_eq k.kind m.ref.kind
    then record k { total = k.total + 1; failing = k.failing + one_if m.warn } ∷ kinds
    else k ∷ rest

count_kinds : List Member → List KindCount → List KindCount
unfolding add_member
count_kinds [] kinds = kinds
count_kinds (m ∷ members) kinds =
    count_kinds members (if m.depth == 0 then kinds else add_member m kinds)

kind_before : KindCount → KindCount → Bool
kind_before a b = if not (a.depth == b.depth) then ltb a.depth b.depth else str_ltb a.kind b.kind

kind_texts : List KindCount → List String
unfolding plural decimal
kind_texts [] = []
kind_texts (k ∷ kinds) =
    (if k.failing == k.total
      then text_of (decimal k.total ∷ " " ∷ plural k.kind k.total ∷ [])
      else text_of (
          decimal k.failing
          ∷ " of "
          ∷ decimal k.total
          ∷ " "
          ∷ plural k.kind k.total
          ∷ " failing"
          ∷ []))
    ∷ kind_texts kinds

-- The text of the member counts, below the root, ordered by depth.
unfoldable pub members_text : List Member → String
unfolding count_kinds kind_texts kind_before sort_by
members_text members = join " · " (kind_texts (sort_by kind_before (count_kinds members [])))

-- One round of the loop that picks the newest failing Pod; the state is its name and its time.
unfoldable pub newer_pod : Member → String × Time → String × Time
newer_pod m (pod, newest) =
    let newer =
      after m.last newest
      || (m.last == newest && (not (str_eq pod "") && str_ltb m.ref.name pod)) in
    if str_eq m.ref.kind "Pod" && (m.warn && newer) then (m.ref.name, m.last) else (pod, newest)

unfoldable pub newest_pod : String × Time → List Member → String × Time
unfolding newer_pod
newest_pod s [] = s
newest_pod s (m ∷ members) = newest_pod (newer_pod m s) members

unfoldable pub max_depth : List Member → ℕ
max_depth [] = 0
max_depth (m ∷ members) = let d = max_depth members in if ltb d m.depth then m.depth else d

-- A failing member at a depth, at two depths, and a member at the deepest level that does not fail.
unfoldable pub fails_at : ℕ → List Member → Bool
fails_at d [] = false
fails_at d (m ∷ members) = (m.warn && m.depth == d) || fails_at d members

-- `len(warnDepths) >= 2`
unfoldable pub fails_at_two : List Member → Bool
unfolding fails_at
fails_at_two [] = false
fails_at_two (m ∷ members) =
    fails_at_two members || (m.warn && any (λ k. k.warn && not (k.depth == m.depth)) members)

unfoldable pub all_fail_at : ℕ → List Member → Bool
all_fail_at d [] = true
all_fail_at d (m ∷ members) = not (m.depth == d && not m.warn) && all_fail_at d members

-- Warnings at two or more levels, and every member at the deepest level failing.
unfoldable pub is_cascade : List Member → Bool
unfolding fails_at_two all_fail_at max_depth
is_cascade members = fails_at_two members && all_fail_at (max_depth members) members

module _ (format_local : String → Time → String) where
  -- The since of a CronJob: when it last succeeded, if that is before its first event.
  cron_since : Owners → Time → ProblemGroup → Problem → Problem
  unfolding cron_job_failing_since set_timing
  cron_since o now g p =
      if not (str_eq g.root.kind "CronJob")
      then p
      else elim (cron_job_failing_since o now g.ns g.root.name) [
        | none ↦ p
        | some (since, never) ↦
            if before since p.first_seen
            then set_timing now (record p {
              first_seen = since;
              since_note =
                  if never
                  then text_of ("Never succeeded; created " ∷ format_local "2 Jan 15:04" since ∷ [])
                  else text_of ("Last successful run " ∷ format_local "2 Jan 15:04" since ∷ []);
            })
            else p
      ]

  -- `groupProblem`
  unfoldable pub group_problem : Owners → Time → ProblemGroup → Problem
  unfolding cron_since fill_from_warnings members_text newest_pod is_cascade
  group_problem o now g =
      let kind = if str_eq g.root.kind "" then "Workload" else g.root.kind in
      let p = cron_since o now g (
        fill_from_warnings
          (record no_problem {
            key = text_of ("ns:" ∷ g.ns ∷ "/" ∷ g.root.name ∷ []);
            scope = "namespace";
            kind = kind;
            title = g.root.name;
            namespaces = g.ns ∷ [];
            open_ns = g.ns;
            focus = text_of (kind ∷ "/" ∷ g.root.name ∷ []);
            inferred = g.inferred;
          })
          g.warnings now) in
      record p {
        members = members_text g.members;
        pod = (newest_pod ("", 0) g.members).0;
        cascade = is_cascade g.members;
      }

  -- The problems of a namespace's groups; each may ask the resolver for the owners.
  unfoldable pub group_problems : Time → List ProblemGroup → Owners → List Problem × Owners
  unfolding group_problem confirm_owners
  group_problems now [] o = ([], o)
  group_problems now (g ∷ groups) o =
      let marked : ProblemGroup = record g { inferred = g.has_links && not g.confirmed_link } in
      let (skipped, o1) = group_problems now groups o in
      let (problems, o2) = group_problems now groups (confirm_owners now marked o) in
      elim g.warnings [
        | [] ↦ (skipped, o1)
        | w ∷ ws ↦ (group_problem (confirm_owners now marked o) now marked ∷ problems, o2)
      ]

  -- The loop over the namespaces: the problems, the warnings about objects of the cluster, the owners.
  unfoldable pub namespace_problems :
      Time
      → Map (List EventSummary)
      → List EventSummary
      → Owners
      → List Problem × List EventSummary × Owners
  unfolding add_events group_problems
  namespace_problems now [] cluster o = ([], cluster, o)
  namespace_problems now ((ns, evs) ∷ events) cluster o =
      let (groups, cluster') = add_events o now ns evs ([], cluster) in
      let (here, o') = group_problems now groups o in
      let (rest, all, last) = namespace_problems now events cluster' o' in (here ++ rest, all, last)
