-- ===== src/Rca/Evidence.antt =====
-- The evidence of a first prompt (rca.go): `newestEvents`, and `evidence` with `logLines` and `render`.
use kubehealth.Prelude.{
  ℕ, suc, ◌-◌, min, Bool, String, Option, none, some, List, [], ◌∷◌, map, keep, any, take, ltb, leb,
  ◌==◌, str_eq, length, text_of, decimal, if◌then◌else◌,
}
use kubehealth.Prelude.Sort.{sort_by}
use kubehealth.Prelude.Lines.{cut_line, has_prefix, decimal_ℤ}
use kubehealth.Time.{after}
use kubehealth.Events.{EventSummary}
use kubehealth.Brief.{pick_log_lines}
use kubehealth.Brief.Readable.{LogMatch, readable_log_lines}
use kubehealth.Linked.{LinkedItem, plural_word}

-- Each event with its position.
number : ℕ → List EventSummary → List (ℕ × EventSummary)
number n [] = []
number n (e ∷ evs) = (n, e) ∷ number (suc n) evs

abbrev newer_at : ℕ × EventSummary → ℕ × EventSummary → Bool
newer_at a b = after a.1.last_time b.1.last_time

abbrev is_at : List (ℕ × EventSummary) → ℕ × EventSummary → Bool
is_at picked a = any (λ b. a.0 == b.0) picked

-- `newestEvents`
unfoldable pub newest_events : List EventSummary → ℕ → List EventSummary
unfolding number sort_by
newest_events evs n =
    if leb (length evs) n
    then evs
    else map (λ a. a.1) (keep (is_at (take n (sort_by newer_at (number 0 evs)))) (number 0 evs))

-- `evidence`
pub record Evidence : Type 0 where
  pub head : String
  pub events : List EventSummary
  pub describe : String
  pub kind : String
  pub members : List String
  pub logs_head : String
  pub logs : String
  pub note : String
  pub tail : String
  pub member_events : List EventSummary
  pub linked : String
  pub linked_items : List LinkedItem
  pub linked_trimmed : ℕ

abbrev container_state_prefix : String
container_state_prefix = "Container state: "

-- `logLines`: the line of the containers' state, if there is one, and the lines worth reading.
unfoldable pub log_lines : LogMatch → Evidence → String × List String
unfolding has_prefix cut_line readable_log_lines
log_lines m e =
    if has_prefix e.logs container_state_prefix
    then ((cut_line e.logs).0, readable_log_lines m (cut_line e.logs).1)
    else ("", readable_log_lines m e.logs)

abbrev trimmed_note : ℕ → String → String
trimmed_note n what =
    if ltb 0 n
    then text_of
        ("(" ∷ decimal n ∷ " older " ∷ what ∷ " trimmed to fit the model's context)\n" ∷ [])
    else ""

event_line : EventSummary → String
unfolding decimal_ℤ
event_line ev = text_of (
    "- ["
    ∷ ev.type
    ∷ "] "
    ∷ ev.reason
    ∷ ": "
    ∷ ev.message
    ∷ "  (×"
    ∷ decimal_ℤ ev.count
    ∷ ", "
    ∷ ev.age
    ∷ " ago)\n"
    ∷ [])

events_text : Evidence → ℕ → String
unfolding newest_events event_line plural_word decimal
events_text e n = elim e.events [
  | [] ↦ "No events recorded for this object.\n"
  | ev ∷ more ↦ text_of (
      text_of ("Events (" ∷ decimal (length (ev ∷ more)) ∷ " total):\n" ∷ [])
      ∷ text_of (map event_line (newest_events (ev ∷ more) n))
      ∷ trimmed_note (length (ev ∷ more) - n)
          (plural_word "event" "events" (length (ev ∷ more) - n))
      ∷ [])
]

owned_text : Evidence → ℕ → String
unfolding plural_word decimal
owned_text e n = elim e.members [
  | [] ↦ ""
  | l ∷ more ↦ text_of (
      text_of ("\nWarnings on objects this " ∷ e.kind ∷ " owns:\n" ∷ [])
      ∷ text_of (map (λ l. text_of (l ∷ "\n" ∷ [])) (take n (l ∷ more)))
      ∷ trimmed_note (length (l ∷ more) - n)
          (plural_word "warning" "warnings" (length (l ∷ more) - n))
      ∷ [])
]

-- The logs as fetched (-1 in the source), or so many of their lines.
logs_text : LogMatch → Evidence → Option ℕ → String
unfolding log_lines pick_log_lines decimal
logs_text m e lines =
    if str_eq e.logs ""
    then ""
    else text_of (
        e.logs_head
        ∷ elim lines [
          | none ↦ e.logs
          | some n ↦ text_of (
              (if str_eq (log_lines m e).0 "" then "" else text_of ((log_lines m e).0 ∷ "\n" ∷ []))
              ∷ text_of (
                  map (λ l. text_of (l ∷ "\n" ∷ []))
                    (pick_log_lines m.is_error (log_lines m e).1 n))
              ∷ text_of (
                  "(log lines trimmed to fit the model's context: "
                  ∷ decimal (min n (length (log_lines m e).1))
                  ∷ " of "
                  ∷ decimal (length (log_lines m e).1)
                  ∷ " kept, error lines first)\n"
                  ∷ [])
              ∷ [])
        ]
        ∷ [])

-- `render`; a member's slice never reaches past the end, since it takes all that there are at most.
unfoldable pub render : LogMatch → Evidence → ℕ → ℕ → Option ℕ → String
unfolding events_text owned_text logs_text
render m e n_events n_members n_log_lines = text_of (
    e.head
    ∷ events_text e n_events
    ∷ e.describe
    ∷ owned_text e n_members
    ∷ logs_text m e n_log_lines
    ∷ e.note
    ∷ e.linked
    ∷ e.tail
    ∷ [])
