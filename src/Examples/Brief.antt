-- ===== src/Examples/Brief.antt =====
-- The theorems on brief.go at concrete inputs.
use kubehealth.Prelude.{
  ◌≡◌, refl, min, ◌*◌, ◌/◌, ◌≤◌, ◌<◌, Bool, String, List, [], ◌∷◌, length, str_eq, true, false,
  some, arith,
}
use kubehealth.Brief.{pick_log_lines}
use kubehealth.Prelude.Int.{pos}
use kubehealth.Settings.{acquire_llm_slot}
use kubehealth.Problems.{Problem, no_problem}
use kubehealth.Brief.Notes.{
  Status, Desk, CallEnd, new_brief, maybe_start_brief, preempt_brief, finish_brief, take_stop,
  write_end,
}
use kubehealth.Brief.Notes.Slots.{
  Room, quiet_room, Step, Steps, IsKept, IsResumed, Steps-HasOneSlot,
  finish_brief-maybe_start_brief,
}
use kubehealth.Brief.Picked.{errors, pick_log_lines_lem}

abbrev is_error : String → Bool
is_error l = str_eq l "error"

abbrev six_lines : List String
six_lines = "error" ∷ "a" ∷ "error" ∷ "error" ∷ "b" ∷ "c" ∷ []

picked : pick_log_lines is_error six_lines 3 ≡ "error" ∷ "error" ∷ "c" ∷ []
unfolding pick_log_lines
picked = refl

pick_log_lines_lem_example :
    (length six_lines ≤ 3 → pick_log_lines is_error six_lines 3 ≡ six_lines)
    × (3 < length six_lines → length (pick_log_lines is_error six_lines 3) ≡ 3)
    × (min (errors is_error six_lines) (3 * 2 / 3)
        ≤ errors is_error (pick_log_lines is_error six_lines 3))
pick_log_lines_lem_example = pick_log_lines_lem is_error six_lines 3

abbrev web : Problem
web = record no_problem { key = "ns:shop/web"; tier = "new" }

abbrev fresh_desk : Desk
fresh_desk = record { brief = new_brief; active = 0; has_stop = false }

abbrev stopped : CallEnd
stopped = record {
  err = some "context canceled";
  note = "";
  evidence = "";
  tokens = pos 0;
  budget = pos 0;
}

abbrev started_desk : Desk
started_desk = record {
  brief = record new_brief {
    status = Status.running;
    run_id = "ns:shop/web|new";
    run_target = web;
    seen_id = "ns:shop/web|new";
    seen_at = 100;
  };
  active = 1;
  has_stop = true;
}

first_view : maybe_start_brief true 1 (web ∷ []) 100 fresh_desk ≡ started_desk
unfolding maybe_start_brief acquire_llm_slot
first_view = refl

-- A note whose stop was taken, and which ended before the stop was called: its slot is still held.
abbrev ended_room : Room
ended_room = record {
  desk = write_end web stopped 101 (take_stop started_desk).1;
  taken = 1;
  ended = 1;
  closing = 0;
  others = 0;
}

Steps-HasOneSlot_example : IsKept ended_room
unfolding maybe_start_brief acquire_llm_slot take_stop
Steps-HasOneSlot_example = Steps-HasOneSlot 0 ended_room (
    Steps.next _ _ _
      (Steps.next _ _ _
        (Steps.next _ _ _ (Steps.done (quiet_room 0))
          (Step.view true 1 (web ∷ []) 100 (quiet_room 0)))
        (Step.take (record (quiet_room 0) { desk = started_desk }) refl))
      (Step.finish web stopped 101
        (record (quiet_room 0) { desk = (take_stop started_desk).1; taken = 1 }) refl))

finish_brief-maybe_start_brief_example : IsResumed web (
    maybe_start_brief true 1
      (web ∷ [])
      101
      (finish_brief web stopped 100 (preempt_brief started_desk).1))
unfolding preempt_brief take_stop
finish_brief-maybe_start_brief_example =
    finish_brief-maybe_start_brief web stopped 100 1 web [] 101 (preempt_brief started_desk).1 refl
      (omega arith)
