-- ===== src/Correlate.antt =====
-- Events near those of one object (correlate.go, `buildCorrelateResponse`).
pub mod Span
pub mod Near
pub mod Window
use Prim.Native.Char.{Char, code}
use Prim.Native.String.{[] as empty, ◌∷◌ as cons}
use kubehealth.Prelude.{
  ℕ, ◌+◌, ◌*◌, Bool, true, false, not, ◌&&◌, ◌||◌, String, Option, none, some, List, [], ◌∷◌, ◌++◌,
  ltb, leb, ◌==◌, str_eq, str_ltb, if◌then◌else◌,
}
use kubehealth.Prelude.Int.{ℤ, pos, sub_ℕ, ltb_ℤ}
use kubehealth.Prelude.Sort.{sort_by}
use kubehealth.Time.{Time, is_zero, after, before, minute}
use kubehealth.Events.{EventSummary}
use kubehealth.Caches.{Caches, cluster_scope_ns, scope_events, all_namespace_events}
use kubehealth.Caches.Maps.{Map}

abbrev pub correlate_buffer : ℕ
correlate_buffer = 5 * minute

-- `CorrelatedEvent`
pub record CorrelatedEvent : Type 0 where
  pub namespace : String
  pub kind : String
  pub object_name : String
  pub reason : String
  pub message : String
  pub type : String
  pub age : String
  pub last_time : Time
  pub count : ℤ

lower : ℕ → ℕ
lower c = if leb b'A' c && leb c b'Z' then c + 32 else c

-- `strings.EqualFold`, on the ASCII texts that kinds are.
unfoldable pub equal_fold : String → String → Bool
unfolding lower
equal_fold empty empty = true
equal_fold empty (cons d t) = false
equal_fold (cons c s) empty = false
equal_fold (cons c s) (cons d t) =
    let rest = equal_fold s t in if lower (code c) == lower (code d) then rest else false

-- An event of the object itself.
unfoldable pub is_anchor : String → String → EventSummary → Bool
unfolding equal_fold
is_anchor kind name e = equal_fold e.kind kind && str_eq e.object_name name

unfoldable pub anchors : String → String → List EventSummary → List EventSummary
unfolding is_anchor
anchors kind name [] = []
anchors kind name (e ∷ evs) =
    let rest = anchors kind name evs in if is_anchor kind name e then e ∷ rest else rest

-- The loop over the object's events: the earliest first time and the latest last time.
unfoldable pub span : Time × Time → List EventSummary → Time × Time
span s [] = s
span (earliest, latest) (e ∷ evs) =
    span
      (
        (if not (is_zero e.first_time) && (is_zero earliest || before e.first_time earliest)
            then e.first_time
            else earliest),
        (if after e.last_time latest then e.last_time else latest),
      )
      evs

-- When the object's events began and ended.
unfoldable pub times_of : List EventSummary → Time × Time
unfolding span
times_of evs =
    let (earliest, latest) = span (0, 0) evs in
    ((if is_zero earliest then latest else earliest), latest)

-- Within the buffer around the object's events; the start may lie before Go's zero time.
unfoldable pub in_window : Time × Time → EventSummary → Bool
in_window (from, to) e =
    ltb_ℤ (sub_ℕ from correlate_buffer) (pos e.last_time)
    && before e.last_time (to + correlate_buffer)

-- Not an event of the object itself, and in the window.
unfoldable pub is_correlated : String → String → String → Time × Time → String → EventSummary → Bool
unfolding is_anchor in_window
is_correlated ns kind name times other e =
    let same_scope =
      str_eq other ns || (str_eq ns cluster_scope_ns && str_eq e.object_namespace "") in
    not (same_scope && is_anchor kind name e) && in_window times e

unfoldable pub correlated : String → EventSummary → CorrelatedEvent
correlated other e = record {
  namespace = other;
  kind = e.kind;
  object_name = e.object_name;
  reason = e.reason;
  message = e.message;
  type = e.type;
  age = e.age;
  last_time = e.last_time;
  count = e.count;
}

-- The inner loop, and the loop over the namespaces.
unfoldable pub collect_one :
    String → String → String → Time × Time → String → List EventSummary → List CorrelatedEvent
unfolding is_correlated correlated
collect_one ns kind name times other [] = []
collect_one ns kind name times other (e ∷ evs) =
    let rest = collect_one ns kind name times other evs in
    if is_correlated ns kind name times other e then correlated other e ∷ rest else rest

unfoldable pub collect :
    String → String → String → Time × Time → Map (List EventSummary) → List CorrelatedEvent
unfolding collect_one
collect ns kind name times [] = []
collect ns kind name times ((other, evs) ∷ all) =
    collect_one ns kind name times other evs ++ collect ns kind name times all

-- The comparison: newest first, then by namespace, object and reason.
unfoldable pub shown_before : CorrelatedEvent → CorrelatedEvent → Bool
shown_before a b =
    if not (a.last_time == b.last_time)
    then after a.last_time b.last_time
    else if not (str_eq a.namespace b.namespace)
    then str_ltb a.namespace b.namespace
    else if not (str_eq a.kind b.kind)
    then str_ltb a.kind b.kind
    else if not (str_eq a.object_name b.object_name)
    then str_ltb a.object_name b.object_name
    else if not (str_eq a.reason b.reason)
    then str_ltb a.reason b.reason
    else str_ltb a.message b.message

-- `CorrelateResponse`, of an object that has events: their times and the events near them.
pub record Response : Type 0 where
  pub time_from : Time
  pub time_to : Time
  pub window_from : ℤ
  pub window_to : Time
  pub correlated : List CorrelatedEvent

-- The response, given the object's own events.
unfoldable pub respond : Caches → String → String → String → List EventSummary → Option Response
unfolding times_of collect shown_before all_namespace_events sort_by
respond c ns kind name [] = none
respond c ns kind name (e ∷ evs) =
    let times = times_of (e ∷ evs) in
    some (record {
      time_from = times.0;
      time_to = times.1;
      window_from = sub_ℕ times.0 correlate_buffer;
      window_to = times.1 + correlate_buffer;
      correlated = sort_by shown_before (collect ns kind name times (all_namespace_events c));
    })

-- `buildCorrelateResponse`; none where the object has no events, and the response has only its name.
unfoldable pub build_correlate_response : Caches → String → String → String → Option Response
unfolding anchors respond scope_events
build_correlate_response c ns kind name =
    respond c ns kind name (anchors kind name (scope_events c ns))
