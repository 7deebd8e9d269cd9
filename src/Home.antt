-- ===== src/Home.antt =====
-- The home page's summary and rail (problems.go, `buildHome`).
pub mod Counts
pub mod Rail
use kubehealth.Prelude.{
  ℕ, ◌+◌, ◌*◌, Bool, true, false, not, ◌||◌, String, Option, none, some, List, [], ◌∷◌, ◌++◌, ltb,
  ◌==◌, any, length, str_eq, str_ltb, join, if◌then◌else◌,
}
use kubehealth.Prelude.Sort.{sort_by}
use kubehealth.Events.{EventSummary}
use kubehealth.Caches.Maps.{Map, lookup_or, keys}
use kubehealth.Problems.{Problem, tier_order}
use kubehealth.Problems.Words.{plural}

-- `railNS`
pub record RailNs : Type 0 where
  pub name : String
  pub problems : ℕ
  pub state : String
  pub truncated : Bool
  pub rank : ℕ

-- `homeSummary`
pub record Summary : Type 0 where
  pub problems : ℕ
  pub namespaces : ℕ
  pub cluster : Bool
  pub new : ℕ
  pub ongoing : ℕ
  pub chronic : ℕ

-- `stateRank`
unfoldable pub state_rank : Problem → String × ℕ
state_rank p =
    let r = tier_order p.tier * 3 in
    if p.cascade then ("cascade", r) else if p.idle then ("idle", r + 2) else ("warn", r + 1)

-- One more problem of an entry; its state is that of its highest problem.
bump : String × ℕ → RailNs → RailNs
bump (state, rank) a = record a {
  problems = a.problems + 1;
  state = if ltb rank a.rank then state else a.state;
  rank = if ltb rank a.rank then rank else a.rank;
}

bump_active : Map Bool → String × ℕ → String → List RailNs → List RailNs
unfolding bump
bump_active truncated (state, rank) ns [] =
    bump (state, rank)
      (record {
        name = ns;
        problems = 0;
        state = state;
        truncated = lookup_or false ns truncated;
        rank = rank;
      })
    ∷ []
bump_active truncated (state, rank) ns (a ∷ active) =
    let rest = bump_active truncated (state, rank) ns active in
    if str_eq a.name ns then bump (state, rank) a ∷ active else a ∷ rest

unfoldable pub bump_each : Map Bool → String × ℕ → List String → List RailNs → List RailNs
unfolding bump_active
bump_each truncated s [] active = active
bump_each truncated s (ns ∷ names) active =
    bump_each truncated s names (bump_active truncated s ns active)

bump_cluster : String × ℕ → Option RailNs → RailNs
unfolding bump
bump_cluster (state, rank) none =
    bump (state, rank)
      (record { name = ""; problems = 0; state = state; truncated = false; rank = rank })
bump_cluster s (some c) = bump s c

-- What the loop over the problems keeps.
pub record Tallies : Type 0 where
  pub summary : Summary
  pub cluster : Option RailNs
  pub kinds : List String
  pub active : List RailNs

-- A row in the summary.
count_row : Problem → Summary → Summary
count_row p s =
    let more : Summary = record s { problems = s.problems + 1 } in
    if str_eq p.tier "new"
    then record more { new = s.new + 1 }
    else if str_eq p.tier "ongoing"
    then record more { ongoing = s.ongoing + 1 }
    else record more { chronic = s.chronic + 1 }

unfoldable pub tally_row : Map Bool → Tallies → Problem → Tallies
unfolding count_row bump_cluster bump_each state_rank plural
tally_row truncated t p =
    let s = count_row p t.summary in
    let kind = plural p.kind 2 in
    if str_eq p.scope "cluster"
    then record {
      summary = record s { cluster = true };
      cluster = some (bump_cluster (state_rank p) t.cluster);
      kinds = if any (str_eq kind) t.kinds then t.kinds else t.kinds ++ kind ∷ [];
      active = t.active;
    }
    else record t { summary = s; active = bump_each truncated (state_rank p) p.namespaces t.active }

unfoldable pub tally_rows : Map Bool → Tallies → List Problem → Tallies
unfolding tally_row
tally_rows truncated t [] = t
tally_rows truncated t (p ∷ ps) = tally_rows truncated (tally_row truncated t p) ps

abbrev pub no_tallies : Tallies
no_tallies = record {
  summary = record {
    problems = 0;
    namespaces = 0;
    cluster = false;
    new = 0;
    ongoing = 0;
    chronic = 0;
  };
  cluster = none;
  kinds = [];
  active = [];
}

-- The comparison of the active namespaces.
rail_before : RailNs → RailNs → Bool
rail_before a b = if not (a.rank == b.rank) then ltb a.rank b.rank else str_ltb a.name b.name

name_before : RailNs → RailNs → Bool
name_before a b = str_ltb a.name b.name

-- `hasEvents`
abbrev pub has_events : Map (List EventSummary) → String → Bool
has_events [] ns = false
has_events ((k, evs) ∷ events) ns =
    if str_eq k ns
    then any (λ (e : EventSummary). not (str_eq e.object_namespace "")) evs
    else has_events events ns

abbrev pub quiet_entry : String → RailNs
quiet_entry ns = record { name = ns; problems = 0; state = "quiet"; truncated = false; rank = 0 }

abbrev pub normal_entry : Map Bool → String → RailNs
normal_entry truncated ns = record {
  name = ns;
  problems = 0;
  state = "normal";
  truncated = lookup_or false ns truncated;
  rank = 0;
}

-- The namespaces without problems: those with events, and the others.
module _ (truncated : Map Bool) (events : Map (List EventSummary)) (active : List String) where
  unfoldable pub split_rail : List String → List String → List RailNs × List RailNs
  split_rail seen [] = ([], [])
  split_rail seen (ns ∷ names) =
      let skipped = split_rail seen names in
      let (normal, quiet) = split_rail (ns ∷ seen) names in
      if any (str_eq ns) seen || any (str_eq ns) active
      then skipped
      else if has_events events ns
      then (normal_entry truncated ns ∷ normal, quiet)
      else (normal, quiet_entry ns ∷ quiet)

abbrev pub names_of : List RailNs → List String
names_of [] = []
names_of (a ∷ rest) = a.name ∷ names_of rest

-- `homeRail`
pub record HomeRail : Type 0 where
  pub cluster : Option RailNs
  pub active : List RailNs
  pub normal : List RailNs
  pub quiet : List RailNs

named_cluster : List String → Option RailNs → Option RailNs
unfolding sort_by
named_cluster kinds none = none
named_cluster kinds (some c) = some (record c { name = join ", " (sort_by str_ltb kinds) })

-- The summary and the rail of `buildHome`.
unfoldable pub build_home :
    List String → Map Bool → Map (List EventSummary) → List Problem → Summary × HomeRail
unfolding tally_rows split_rail named_cluster rail_before name_before sort_by keys
build_home all_ns truncated events problems =
    let t = tally_rows truncated no_tallies problems in
    let (normal, quiet) =
      split_rail truncated events (names_of t.active) [] (all_ns ++ keys events) in
    (
      record t.summary { namespaces = length t.active },
      record {
        cluster = named_cluster t.kinds t.cluster;
        active = sort_by rail_before t.active;
        normal = sort_by name_before normal;
        quiet = sort_by name_before quiet;
      },
    )
