-- ===== src/Problems/Patterns.antt =====
-- `groupPatterns` of problems.go: problems that look like one cause become one row.
-- Parameter: `format_local`, as for the groups.
pub mod Union
pub mod Rows
pub mod Totals
pub mod Components
pub mod Tiers
use kubehealth.Prelude.{
  ℕ, suc, ◌+◌, ◌-◌, ◌^◌, Bool, true, false, not, ◌&&◌, ◌||◌, String, List, [], ◌∷◌, ◌++◌, leb, ◌==◌,
  any, length, str_eq, if◌then◌else◌,
}
use kubehealth.Prelude.Int.{ℤ, pos, negsuc, leb_ℤ}
use kubehealth.Time.{Time, sub}
use kubehealth.Problems.{Problem, ReasonCount, is_infra, pattern_start_window}
use Union.{unite, find_root, start}
use Rows.{make_pattern, first_namespace, primary}

-- A problem with its index.
abbrev pub Indexed : Type 0
Indexed = ℕ × Problem

-- The problems of namespaces; `n` is the index of the first.
unfoldable pub indexed : ℕ → List Problem → List Indexed
indexed n [] = []
indexed n (p ∷ ps) =
    let rest = indexed (suc n) ps in if str_eq p.scope "namespace" then (n, p) ∷ rest else rest

-- `if d < 0 { d = -d }` on an int64: the smallest one has no opposite and stays.
abbrev pub abs_int64 : ℤ → ℤ
abs_int64 (pos n) = pos n
abs_int64 (negsuc n) = if n == 2 ^ 63 - 1 then negsuc n else pos (n + 1)

-- Whether two problems are linked by when they started, or by their name and reason.
unfoldable pub are_linked : Problem → Problem → Bool
unfolding first_namespace primary
are_linked a b =
    if str_eq (first_namespace a) (first_namespace b) || not (str_eq a.tier b.tier)
    then false
    else leb_ℤ (abs_int64 (sub a.first_seen b.first_seen)) (pos pattern_start_window)
      || (str_eq a.title b.title && str_eq (primary a) (primary b))

links_of : Indexed → List Indexed → List (ℕ × ℕ)
unfolding are_linked
links_of a [] = []
links_of a (b ∷ idx) =
    let rest = links_of a idx in if are_linked a.1 b.1 then (a.0, b.0) ∷ rest else rest

-- The pairs that the first loop unites, in its order.
unfoldable pub pair_links : List Indexed → List (ℕ × ℕ)
unfolding links_of
pair_links [] = []
pair_links (a ∷ idx) = links_of a idx ++ pair_links idx

-- The problems of one infrastructure reason and tier.
pub record Shared : Type 0 where
  pub reason : String
  pub tier : String
  pub first : Indexed
  pub others : List Indexed

share : Indexed → List Shared → List Shared
unfolding primary
share x [] = record { reason = primary x.1; tier = x.1.tier; first = x; others = [] } ∷ []
share x (s ∷ shared) =
    let rest = share x shared in
    if str_eq s.reason (primary x.1) && str_eq s.tier x.1.tier
    then record s { others = s.others ++ x ∷ [] } ∷ shared
    else s ∷ rest

-- `byReason`
unfoldable pub by_reason : List Shared → List Indexed → List Shared
unfolding share primary
by_reason shared [] = shared
by_reason shared (x ∷ idx) =
    by_reason (if is_infra (primary x.1) then share x shared else shared) idx

-- The namespaces of some problems, each once.
unfoldable pub spaces : List String → List Indexed → List String
unfolding first_namespace
spaces nss [] = nss
spaces nss (x ∷ xs) =
    spaces (if any (str_eq (first_namespace x.1)) nss then nss else nss ++ first_namespace x.1 ∷ [])
      xs

links_from : ℕ → List Indexed → List (ℕ × ℕ)
links_from a [] = []
links_from a (x ∷ xs) = (a, x.0) ∷ links_from a xs

-- The pairs that the second loop unites: those of a reason in three or more namespaces.
unfoldable pub reason_links : List Shared → List (ℕ × ℕ)
unfolding links_from spaces
reason_links [] = []
reason_links (s ∷ shared) =
    (if leb 3 (length (spaces [] (s.first ∷ s.others))) then links_from s.first.0 s.others else [])
    ++ reason_links shared

-- The problems of one root.
pub record Component : Type 0 where
  pub root : ℕ
  pub members : List Indexed

-- `comps[find(i)] = append(comps[find(i)], i)`
unfoldable pub add_component : ℕ → Indexed → List Component → List Component
add_component r x [] = record { root = r; members = x ∷ [] } ∷ []
add_component r x (c ∷ comps) =
    let rest = add_component r x comps in
    if c.root == r then record c { members = c.members ++ x ∷ [] } ∷ comps else c ∷ rest

unfoldable pub components : ℕ → (ℕ → ℕ) → List Indexed → List Component → List Component
unfolding add_component find_root
components fuel parent [] comps = comps
components fuel parent (x ∷ idx) comps =
    let (r, parent') = find_root fuel parent x.0 in
    components fuel parent' idx (add_component r x comps)

-- All links; as many are fuel enough for the searches for a root.
unfoldable pub all_links : List Indexed → List (ℕ × ℕ)
unfolding pair_links by_reason reason_links
all_links idx = pair_links idx ++ reason_links (by_reason [] idx)

unfoldable pub components_of : List Indexed → List Component
unfolding all_links unite start components
components_of idx =
    let links = all_links idx in components (length links) (unite (length links) start links) idx []

abbrev pub is_wide : Component → Bool
is_wide c = leb 2 (length (spaces [] c.members))

abbrev pub problems_of : List Indexed → List Problem
problems_of [] = []
problems_of (x ∷ xs) = x.1 ∷ problems_of xs

-- The indexes that stand in a pattern: `merged`.
unfoldable pub merged : ℕ → List Component → Bool
unfolding spaces
merged i [] = false
merged i (c ∷ comps) = (is_wide c && any (λ x. x.0 == i) c.members) || merged i comps

unfoldable pub left_over : ℕ → List Component → List Problem → List Problem
unfolding merged
left_over n comps [] = []
left_over n comps (p ∷ ps) =
    let rest = left_over (suc n) comps ps in if merged n comps then rest else p ∷ rest

module _ (format_local : String → Time → String) where
  unfoldable pub patterns : Time → List Component → List Problem
  unfolding make_pattern spaces
  patterns now [] = []
  patterns now (c ∷ comps) =
      let rest = patterns now comps in
      if is_wide c then make_pattern format_local (problems_of c.members) now ∷ rest else rest

  -- `groupPatterns`
  unfoldable pub group_patterns : List Problem → Time → List Problem
  unfolding patterns components_of indexed left_over
  group_patterns problems now =
      let comps = components_of (indexed 0 problems) in
      patterns now comps ++ left_over 0 comps problems
