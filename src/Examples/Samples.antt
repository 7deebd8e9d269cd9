-- ===== src/Examples/Samples.antt =====
-- Events of a small cluster.
use kubehealth.Prelude.{◌+◌, ◌*◌, false, String, none, List, [], ◌∷◌, str_eq, if◌then◌else◌}
use kubehealth.Prelude.Int.{pos}
use kubehealth.Time.{Time, minute, hour}
use kubehealth.Events.{EventSummary}
use kubehealth.Caches.{Caches, NsEntry, WarnFeed}
use kubehealth.Caches.Feed.{ApiEvent, Answer, page}

-- A moment some years in.
abbrev pub noon : Time
noon = 1_000_000 * hour

abbrev pub back_off : EventSummary
back_off = record {
  namespace = "shop";
  name = "web-1.17";
  reason = "BackOff";
  message = "Back-off restarting failed container";
  type = "Warning";
  count = pos 4;
  kind = "Pod";
  object_name = "web-7d4b9c8f6d-x2k4p";
  object_namespace = "shop";
  first_time = noon;
  last_time = noon + 3 * minute;
  age = "1m";
}

abbrev pub back_off_later : EventSummary
back_off_later = record back_off { count = pos 5; last_time = noon + 4 * minute }

abbrev pub pulled : EventSummary
pulled = record back_off { name = "web-1.16"; reason = "Pulled"; type = "Normal"; count = pos 1 }

abbrev pub not_ready : EventSummary
not_ready = record back_off {
  namespace = "default";
  name = "node-1.3";
  reason = "NodeNotReady";
  kind = "Node";
  object_name = "node-1";
  object_namespace = "";
}

abbrev pub entry_at : Time → List EventSummary → NsEntry
entry_at t evs = record { events = evs; updated_at = t; truncated = false }

abbrev pub idle_feed : WarnFeed
idle_feed = record {
  by_ns = ("shop", back_off_later ∷ []) ∷ [];
  fetched_at = noon;
  attempted_at = noon;
  truncated = false;
  disabled = false;
  last_err = "";
}

abbrev pub small_cluster : Caches
small_cluster = record {
  ns_cache =
      ("shop", entry_at (noon + minute) (back_off ∷ pulled ∷ []))
      ∷ ("default", entry_at noon (not_ready ∷ []))
      ∷ [];
  feed = idle_feed;
}

abbrev pub api_back_off : ApiEvent
api_back_off = record {
  namespace = "shop";
  name = "web-1.17";
  reason = "BackOff";
  message = "Back-off restarting failed container";
  type = "Warning";
  count = pos 0;
  involved_kind = "Pod";
  involved_name = "web-7d4b9c8f6d-x2k4p";
  involved_namespace = "shop";
  first_timestamp = 0;
  last_timestamp = 0;
  event_time = noon;
  series = none;
}

-- A server with two pages.
abbrev pub two_pages : String → Answer
two_pages token =
    if str_eq token ""
    then page (api_back_off ∷ []) "p2"
    else page (record api_back_off { name = "web-1.18" } ∷ []) ""
