-- ===== src/Problems/Patterns/Rows.antt =====
-- `makePattern` of problems.go. A namespace problem has a namespace and a reason; where the code would
-- index an empty list, the model takes an empty text.
use kubehealth.Prelude.{
  ℕ, ◌+◌, ◌-◌, ◌/◌, Bool, true, not, ◌&&◌, ◌||◌, String, List, [], ◌∷◌, ◌++◌, any, length, str_eq,
  str_ltb, text_of, join, decimal, if◌then◌else◌,
}
use kubehealth.Prelude.Int.{ℤ, pos, pos_part, add_int64, ltb_ℤ, leb_ℤ}
use kubehealth.Prelude.Sort.{sort_by}
use kubehealth.Time.{Time, sub, second, after}
use kubehealth.Caches.Maps.{Map}
use kubehealth.Problems.{
  Problem, PatternItem, ReasonCount, no_problem, add_count, sorted_reasons, set_timing, earlier,
  pattern_start_window,
}

unfoldable pub first_namespace : Problem → String
first_namespace p = elim p.namespaces [ [] ↦ "" | n ∷ ns ↦ n ]

-- `primary`: the reason with most occurrences.
unfoldable pub primary : Problem → String
primary p = elim p.reasons [ [] ↦ "" | r ∷ rs ↦ r.reason ]

-- The comparison of the members.
unfoldable pub busier : Problem → Problem → Bool
busier a b =
    if not (leb_ℤ a.occurrences b.occurrences && leb_ℤ b.occurrences a.occurrences)
    then ltb_ℤ b.occurrences a.occurrences
    else str_ltb a.key b.key

add_reasons : List ReasonCount → Map ℤ → Map ℤ
unfolding add_count
add_reasons [] counts = counts
add_reasons (r ∷ rs) counts = add_reasons rs (add_count r.reason r.count counts)

unfoldable pub item_of : Problem → PatternItem
unfolding first_namespace primary
item_of m = record {
  namespace = first_namespace m;
  kind = m.kind;
  name = m.title;
  reason = primary m;
  occurrences = m.occurrences;
  last = m.last;
  idle = m.idle;
  focus = m.focus;
}

-- What the loop over the members keeps.
pub record Gathered : Type 0 where
  pub keys : List String
  pub spaces : List String
  pub counts : Map ℤ
  pub primaries : Map ℤ
  pub same_kind : Bool
  pub same_name : Bool
  pub row : Problem

-- One round, with the first member.
unfoldable pub gather_one : Problem → Gathered → Problem → Gathered
unfolding first_namespace primary add_reasons add_count item_of
gather_one first g m =
    let later = after m.last_seen g.row.last_seen in
    record {
      keys = g.keys ++ m.key ∷ [];
      spaces =
          if any (str_eq (first_namespace m)) g.spaces
          then g.spaces
          else g.spaces ++ first_namespace m ∷ [];
      counts = add_reasons m.reasons g.counts;
      primaries = add_count (primary m) m.occurrences g.primaries;
      same_kind = g.same_kind && str_eq m.kind first.kind;
      same_name = g.same_name && str_eq m.title first.title;
      row = record g.row {
        occurrences = add_int64 g.row.occurrences m.occurrences;
        first_seen = earlier g.row.first_seen m.first_seen;
        last_seen = if later then m.last_seen else g.row.last_seen;
        message = if later then m.message else g.row.message;
        cascade = g.row.cascade || m.cascade;
        items = g.row.items ++ item_of m ∷ [];
      };
    }

unfoldable pub gather : Problem → Gathered → List Problem → Gathered
unfolding gather_one
gather first g [] = g
gather first g (m ∷ ms) = gather first (gather_one first g m) ms

abbrev pub no_gathered : Gathered
no_gathered = record {
  keys = [];
  spaces = [];
  counts = [];
  primaries = [];
  same_kind = true;
  same_name = true;
  row = record no_problem { scope = "pattern" };
}

reason_at : List ReasonCount → String
reason_at [] = ""
reason_at (r ∷ rs) = r.reason

rest_of : List ReasonCount → List ReasonCount
rest_of [] = []
rest_of (r ∷ rs) = rs

-- The title: the name that all share, or their reasons.
pattern_title : Problem → Bool → List ReasonCount → ℕ → String
unfolding reason_at rest_of decimal
pattern_title first same_name prim n =
    let places = text_of (" in " ∷ decimal n ∷ " namespaces" ∷ []) in
    if same_name then text_of (first.title ∷ places ∷ []) else elim (rest_of prim) [
      | [] ↦ text_of (reason_at prim ∷ places ∷ [])
      | r ∷ [] ↦ text_of (reason_at prim ∷ " + " ∷ r.reason ∷ places ∷ [])
      | r ∷ s ∷ rs ↦
          text_of (reason_at prim ∷ " + " ∷ decimal (length prim - 1) ∷ " more" ∷ places ∷ [])
    ]

min_first : Time → List Problem → Time
min_first t [] = t
min_first t (m ∷ ms) = min_first (earlier t m.first_seen) ms

max_first : Time → List Problem → Time
max_first t [] = t
max_first t (m ∷ ms) = max_first (if after m.first_seen t then m.first_seen else t) ms

module _ (format_local : String → Time → String) where
  -- Why the members were grouped.
  pattern_text : Problem → Bool → Time → Time → ℕ → String
  unfolding decimal
  pattern_text first same_name lo hi n =
      let spread = sub hi lo in
      if ltb_ℤ spread (pos second)
      then text_of
          ("All started in the same second, " ∷ format_local "2 Jan 15:04:05" lo ∷ "." ∷ [])
      else if leb_ℤ spread (pos pattern_start_window)
      then text_of (
          "All first seen within "
          ∷ decimal ((pos_part spread + second / 2) / second)
          ∷ "s of each other, "
          ∷ format_local "2 Jan 15:04:05" lo
          ∷ "–"
          ∷ format_local "15:04:05" hi
          ∷ "."
          ∷ [])
      else if same_name
      then text_of (
          "The same workload, "
          ∷ first.title
          ∷ ", failing the same way in "
          ∷ decimal n
          ∷ " namespaces."
          ∷ [])
      else text_of ("The same reason in " ∷ decimal n ∷ " namespaces." ∷ [])

  -- The row of some members, the busiest first.
  unfoldable pub pattern_row : Time → Problem → List Problem → Problem
  unfolding gather pattern_title pattern_text sorted_reasons set_timing min_first max_first sort_by
  pattern_row now first ms =
      let g = gather first no_gathered ms in
      let n = length g.spaces in
      let timed = set_timing now (record g.row { reasons = sorted_reasons g.counts }) in
      record timed {
        key = text_of ("pattern:" ∷ join "," (sort_by str_ltb g.keys) ∷ []);
        namespaces = sort_by str_ltb g.spaces;
        kind = if g.same_kind then first.kind else "";
        tier = first.tier;
        title = pattern_title first g.same_name (sorted_reasons g.primaries) n;
        pattern = pattern_text first g.same_name (min_first 0 ms) (max_first 0 ms) n;
      }

  abbrev pub first_member : List Problem → Problem
  first_member [] = no_problem
  first_member (m ∷ ms) = m

  -- `makePattern`
  unfoldable pub make_pattern : List Problem → Time → Problem
  unfolding pattern_row busier sort_by
  make_pattern ps now = let ms = sort_by busier ps in pattern_row now (first_member ms) ms
