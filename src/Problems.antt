-- ===== src/Problems.antt =====
-- The rows of the home page (problems.go): their types, their timing and their counts of reasons.
pub mod Words
pub mod Timing
pub mod Order
pub mod Cluster
pub mod Groups
pub mod Members
pub mod Patterns
pub mod Build
use kubehealth.Prelude.{
  ℕ, ◌*◌, Bool, true, false, not, ◌||◌, String, List, [], ◌∷◌, ◌==◌, ltb, bool_eq, str_eq, str_ltb,
  any, if◌then◌else◌,
}
use kubehealth.Prelude.Int.{ℤ, pos, add_int64, ltb_ℤ, leb_ℤ, pos_part, neg_part}
use kubehealth.Prelude.Sort.{sort_by}
use kubehealth.Time.{Time, Duration, sub, second, minute, hour, is_zero, before, after}
use kubehealth.Time.Ages.{format_age}
use kubehealth.Caches.Maps.{Map, lookup_or, store}
use kubehealth.Events.{EventSummary}
use Words.{truncate}

abbrev pub tier_new_max : ℕ
tier_new_max = 2 * hour

abbrev pub tier_ongoing_max : ℕ
tier_ongoing_max = 24 * hour

abbrev pub idle_after : ℕ
idle_after = 15 * minute

abbrev pub pattern_start_window : ℕ
pattern_start_window = 10 * second

abbrev pub message_max_len : ℕ
message_max_len = 240

abbrev pub infra_reasons : List String
infra_reasons =
    "FailedToRetrieveImagePullSecret" ∷ "FailedScheduling" ∷ "FailedMount" ∷ "FailedAttachVolume"
    ∷ "FailedCreatePodSandBox" ∷ "NetworkNotReady" ∷ "DNSConfigForming" ∷ "Evicted" ∷ []

abbrev pub is_infra : String → Bool
is_infra reason = any (str_eq reason) infra_reasons

pub record ReasonCount : Type 0 where
  pub reason : String
  pub count : ℤ

pub record PatternItem : Type 0 where
  pub namespace : String
  pub kind : String
  pub name : String
  pub reason : String
  pub occurrences : ℤ
  pub last : String
  pub idle : Bool
  pub focus : String

pub record Problem : Type 0 where
  pub key : String
  pub scope : String
  pub kind : String
  pub title : String
  pub namespaces : List String
  pub open_ns : String
  pub focus : String
  pub tier : String
  pub cascade : Bool
  pub idle : Bool
  pub inferred : Bool
  pub pattern : String
  pub reasons : List ReasonCount
  pub occurrences : ℤ
  pub members : String
  pub first_seen : Time
  pub last_seen : Time
  pub since : String
  pub since_note : String
  pub last : String
  pub message : String
  pub pod : String
  pub items : List PatternItem

-- Go's zero value of the struct.
abbrev pub no_problem : Problem
no_problem = record {
  key = "";
  scope = "";
  kind = "";
  title = "";
  namespaces = [];
  open_ns = "";
  focus = "";
  tier = "";
  cascade = false;
  idle = false;
  inferred = false;
  pattern = "";
  reasons = [];
  occurrences = pos 0;
  members = "";
  first_seen = 0;
  last_seen = 0;
  since = "";
  since_note = "";
  last = "";
  message = "";
  pod = "";
  items = [];
}

-- `counts[reason] += n`
unfoldable pub add_count : String → ℤ → Map ℤ → Map ℤ
add_count reason n counts = store reason (add_int64 (lookup_or (pos 0) reason counts) n) counts

-- The comparison of `sortedReasons`.
unfoldable pub more_frequent : ReasonCount → ReasonCount → Bool
more_frequent a b =
    let differ = not (leb_ℤ a.count b.count) || not (leb_ℤ b.count a.count) in
    if differ then ltb_ℤ b.count a.count else str_ltb a.reason b.reason

unfoldable pub entries : Map ℤ → List ReasonCount
entries [] = []
entries ((r, c) ∷ counts) = record { reason = r; count = c } ∷ entries counts

unfoldable pub sorted_reasons : Map ℤ → List ReasonCount
unfolding entries more_frequent sort_by
sorted_reasons counts = sort_by more_frequent (entries counts)

-- The switch of `setTiming`.
unfoldable pub tier_of : Duration → String
tier_of age =
    if ltb_ℤ age (pos tier_new_max)
    then "new"
    else if ltb_ℤ age (pos tier_ongoing_max)
    then "ongoing"
    else "chronic"

unfoldable pub set_timing : Time → Problem → Problem
unfolding tier_of format_age
set_timing now p =
    let age = sub now p.first_seen in
    record p {
      tier = tier_of age;
      idle = leb_ℤ (pos idle_after) (sub now p.last_seen);
      since = format_age age;
      last = format_age (sub now p.last_seen);
    }

-- When an event began: its first time, or its last if it has none.
abbrev pub began : EventSummary → Time
began e = if is_zero e.first_time then e.last_time else e.first_time

-- `if seen.IsZero() || t.Before(seen) { seen = t }`
abbrev pub earlier : Time → Time → Time
earlier seen t = if is_zero seen || before t seen then t else seen

-- What the loop of `fillFromWarnings` keeps.
pub record Tally : Type 0 where
  pub counts : Map ℤ
  pub occurrences : ℤ
  pub first_seen : Time
  pub newest : EventSummary

-- One round; the newest event starts with the first one.
unfoldable pub tally_one : Tally → EventSummary → Tally
unfolding add_count
tally_one t e = record {
  counts = add_count e.reason e.count t.counts;
  occurrences = add_int64 t.occurrences e.count;
  first_seen = earlier t.first_seen (began e);
  newest = if after e.last_time t.newest.last_time then e else t.newest;
}

unfoldable pub tally : Tally → List EventSummary → Tally
unfolding tally_one
tally t [] = t
tally t (e ∷ evs) = tally (tally_one t e) evs

-- Before the loop, with the event that its first round makes the newest.
abbrev pub no_tally : Problem → EventSummary → Tally
no_tally p e = record {
  counts = [];
  occurrences = p.occurrences;
  first_seen = p.first_seen;
  newest = e;
}

abbrev no_event : EventSummary
no_event = record {
  namespace = "";
  name = "";
  reason = "";
  message = "";
  type = "";
  count = pos 0;
  kind = "";
  object_name = "";
  object_namespace = "";
  first_time = 0;
  last_time = 0;
  age = "";
}

abbrev pub first_event : List EventSummary → EventSummary
first_event [] = no_event
first_event (e ∷ evs) = e

unfoldable pub fill_from_warnings : Problem → List EventSummary → Time → Problem
unfolding tally truncate sorted_reasons set_timing
fill_from_warnings p warnings now =
    let t = tally (no_tally p (first_event warnings)) warnings in
    set_timing now (record p {
      occurrences = t.occurrences;
      first_seen = t.first_seen;
      last_seen = t.newest.last_time;
      message = truncate t.newest.message message_max_len;
      reasons = sorted_reasons t.counts;
    })

abbrev pub tier_order : String → ℕ
tier_order tier = if str_eq tier "ongoing" then 1 else if str_eq tier "chronic" then 2 else 0

-- The comparison of `sortProblems`.
unfoldable pub stands_before : Problem → Problem → Bool
stands_before a b =
    if not (tier_order a.tier == tier_order b.tier)
    then ltb (tier_order a.tier) (tier_order b.tier)
    else if not (bool_eq a.cascade b.cascade)
    then a.cascade
    else if not (bool_eq a.idle b.idle)
    then not a.idle
    else if not (a.last_seen == b.last_seen)
    then after a.last_seen b.last_seen
    else str_ltb a.key b.key

unfoldable pub sort_problems : List Problem → List Problem
unfolding stands_before sort_by
sort_problems ps = sort_by stands_before ps
