-- ===== src/Caches/Feed.antt =====
-- The warning feed of warnings.go: `refreshWarnings` and what it stores, and `toSummary` of main.go.
-- The API server is a parameter: the answer to a list call, by its continue token.
pub mod Refresh
use kubehealth.Prelude.{
  ℕ, zero, suc, ◌+◌, ◌*◌, ◌/◌, ◌≤◌, ◌<◌, ◌≡◌, refl, Bool, true, false, not, String, Option, none,
  some, List, [], ◌∷◌, ◌++◌, ◌||◌, ◌&&◌, arith, ltb, leb, str_eq, if◌then◌else◌, map, text_of,
}
use kubehealth.Prelude.Int.{ℤ, pos, leb_ℤ, ltb_ℤ, pos_part}
use kubehealth.Time.{Time, Duration, second, is_zero, after, sub}
use kubehealth.Time.Ages.{format_duration}
use kubehealth.Events.{EventSummary, sort_newest_first}
use kubehealth.Caches.{Caches, WarnFeed}
use kubehealth.Caches.Maps.{Map, lookup_or, store}

-- The fields of an API event that `toSummary` reads.
pub record Series : Type 0 where
  pub count : ℤ
  pub last_observed_time : Time

pub record ApiEvent : Type 0 where
  pub namespace : String
  pub name : String
  pub reason : String
  pub message : String
  pub type : String
  pub count : ℤ
  pub involved_kind : String
  pub involved_name : String
  pub involved_namespace : String
  pub first_timestamp : Time
  pub last_timestamp : Time
  pub event_time : Time
  pub series : Option Series

-- A zero count: `count == 0`.
abbrev is_zero_count : ℤ → Bool
is_zero_count n = leb_ℤ n (pos 0) && leb_ℤ (pos 0) n

last_of : ApiEvent → Time
last_of e =
    let last : Time = elim e.series [
      | none ↦ e.last_timestamp
      | some s ↦
          if after s.last_observed_time e.last_timestamp
          then s.last_observed_time
          else e.last_timestamp
    ] in
    if is_zero last then e.event_time else last

first_of : ApiEvent → Time → Time
first_of e last =
    let first = if is_zero e.first_timestamp then e.event_time else e.first_timestamp in
    if is_zero first then last else first

count_of : ApiEvent → ℤ
count_of e =
    let n : ℤ = elim e.series [
      | none ↦ e.count
      | some s ↦ if is_zero_count e.count then s.count else e.count
    ] in
    if is_zero_count n then pos 1 else n

-- `toSummary`, with the clock's time.
unfoldable pub to_summary : Time → ApiEvent → EventSummary
unfolding last_of first_of count_of
to_summary now e =
    let last = last_of e in
    record {
      namespace = e.namespace;
      name = e.name;
      reason = e.reason;
      message = e.message;
      type = e.type;
      count = count_of e;
      kind = e.involved_kind;
      object_name = e.involved_name;
      object_namespace = e.involved_namespace;
      first_time = first_of e last;
      last_time = last;
      age = if is_zero last then "unknown" else format_duration (sub now last);
    }

abbrev pub warn_feed_interval : ℕ
warn_feed_interval = 10 * second

abbrev pub warn_feed_max_pages : ℕ
warn_feed_max_pages = 20

-- `warnFeedDue`, with `cfg.AllNS`.
unfoldable pub warn_feed_due : Bool → Time → WarnFeed → Bool
warn_feed_due all_ns now feed =
    if not all_ns
    then false
    else not feed.disabled && leb_ℤ (pos warn_feed_interval) (sub now feed.attempted_at)

-- What a list call answers: a page and the token of the next ("" after the last), or an error. With an
-- error comes whether it is a refusal of access, and whether the call's context had ended.
pub data Answer : Type 0 where
  page : List ApiEvent → String → Answer
  failed : String → Bool → Bool → Answer

-- How the loop over the pages ends.
pub data Fetch : Type 0 where
  fetched : Map (List EventSummary) → Bool → Fetch
  refused : String → Bool → Fetch
  cancelled : Fetch

-- `byNS[e.Namespace] = append(byNS[e.Namespace], toSummary(e))` for each item of a page.
add_items : Time → Map (List EventSummary) → List ApiEvent → Map (List EventSummary)
add_items now by_ns [] = by_ns
add_items now by_ns (e ∷ items) =
    add_items now
      (store e.namespace (lookup_or [] e.namespace by_ns ++ to_summary now e ∷ []) by_ns) items

-- The `for` over the pages, with the number of pages that may still be asked for: the loop leaves with
-- `truncated` on the page that brings it to `warnFeedMaxPages`.
fetch_pages : (String → Answer) → Time → ℕ → String → Map (List EventSummary) → Fetch
unfolding add_items
fetch_pages list now zero token by_ns = fetched by_ns true
fetch_pages list now (suc left) token by_ns = elim (list token) [
  | failed message forbidden done ↦ if done then cancelled else refused message forbidden
  | page items next ↦
      let by_ns' = add_items now by_ns items in
      let rest = fetch_pages list now left next by_ns' in
      if str_eq next "" then fetched by_ns' false else rest
]

sort_all : Map (List EventSummary) → Map (List EventSummary)
sort_all [] = []
sort_all ((ns, evs) ∷ m) = (ns, sort_newest_first evs) ∷ sort_all m

store_fetch : Time → Fetch → WarnFeed → WarnFeed
store_fetch finished (fetched by_ns truncated) feed = record feed {
  by_ns = sort_all by_ns;
  fetched_at = finished;
  truncated = truncated;
  last_err = "";
}
store_fetch finished (refused message forbidden) feed = record feed {
  last_err = message;
  disabled = feed.disabled || forbidden;
}
store_fetch finished cancelled feed = feed

-- `refreshWarnings`: `started` and `finished` are the two readings of the clock.
unfoldable pub refresh_warnings : (String → Answer) → Time → Time → WarnFeed → WarnFeed
unfolding fetch_pages store_fetch sort_all
refresh_warnings list started finished feed =
    store_fetch finished (fetch_pages list started warn_feed_max_pages "" [])
      (record feed { attempted_at = started })

-- `warnFeedStatus`, without the time's text.
pub record FeedStatus : Type 0 where
  pub mode : String
  pub checked : Bool
  pub age_sec : ℕ
  pub truncated : Bool
  pub error : String

unfoldable pub warn_feed_status : Bool → Time → WarnFeed → FeedStatus
warn_feed_status all_ns now feed = record {
  mode = if not all_ns || feed.disabled then "sweep" else "cluster";
  checked = not (is_zero feed.fetched_at);
  age_sec = if is_zero feed.fetched_at then 0 else pos_part (sub now feed.fetched_at) / second;
  truncated = feed.truncated;
  error = feed.last_err;
}
