-- ===== src/Brief/Notes.antt =====
-- The model's note of a brief (brief.go): when one is started, stopped and finished. Parameters: whether
-- a model is configured, the clock, and how the call of the model ended.
pub mod Slots
use kubehealth.Prelude.{
  ℕ, zero, suc, ◌+◌, ◌-◌, ◌*◌, Bool, true, false, not, ◌&&◌, ◌||◌, String, Option, none, some, List,
  [], ◌∷◌, text_of, str_eq, leb, if◌then◌else◌,
}
use kubehealth.Prelude.Int.{ℤ, pos, leb_ℤ}
use kubehealth.Time.{Time, sub, second, before}
use kubehealth.Problems.{Problem, no_problem}
use kubehealth.Settings.{acquire_llm_slot, release_llm_slot}

abbrev pub brief_debounce : ℕ
brief_debounce = 30 * second

abbrev pub brief_settle : ℕ
brief_settle = 20 * second

abbrev pub brief_slot_retry : ℕ
brief_slot_retry = 5 * second

abbrev pub brief_error_retry : ℕ
brief_error_retry = 60 * second

-- `idle` is the empty text that the status is at first.
pub data Status : Type 0 where
  idle : Status
  waiting : Status
  running : Status
  ready : Status
  error : Status

-- `briefState`
pub record BriefState : Type 0 where
  pub status : Status
  pub reason : String
  pub note_id : String
  pub target : Problem
  pub text : String
  pub evidence : String
  pub tokens : ℤ
  pub budget : ℤ
  pub done_at : Time
  pub run_id : String
  pub run_target : Problem
  pub run_evidence : String
  pub partial : String
  pub preempted : Bool
  pub seen_id : String
  pub seen_at : Time
  pub retry_at : Time
  pub force : Bool

abbrev pub new_brief : BriefState
new_brief = record {
  status = idle;
  reason = "";
  note_id = "";
  target = no_problem;
  text = "";
  evidence = "";
  tokens = pos 0;
  budget = pos 0;
  done_at = 0;
  run_id = "";
  run_target = no_problem;
  run_evidence = "";
  partial = "";
  preempted = false;
  seen_id = "";
  seen_at = 0;
  retry_at = 0;
  force = false;
}

-- A brief, the calls of the model that run (`llmActiveCalls`), and whether `briefRuns` has its stop.
pub record Desk : Type 0 where
  pub brief : BriefState
  pub active : ℕ
  pub has_stop : Bool

abbrev pub is_running : Status → Bool
is_running running = true
is_running _ = false

abbrev pub note_id : Problem → String
note_id p = text_of (p.key ∷ "|" ∷ p.tier ∷ [])

abbrev see_top : String → Time → BriefState → BriefState
see_top id now b = if str_eq id b.seen_id then b else record b { seen_id = id; seen_at = now }

abbrev pub is_due : Problem → Time → BriefState → Bool
is_due top now b =
    b.force
    || ((str_eq b.note_id "" && (not top.inferred || leb_ℤ (pos brief_settle) (sub now b.seen_at)))
        || (not (str_eq (note_id top) b.note_id) && leb_ℤ (pos brief_debounce) (sub now b.seen_at)))

abbrev begin_run : Problem → BriefState → BriefState
begin_run top b = record b {
  status = running;
  reason = "";
  partial = "";
  force = false;
  preempted = false;
  run_id = note_id top;
  run_target = top;
  run_evidence = "";
}

abbrev wait_for_slot : Time → BriefState → BriefState
wait_for_slot now b = record b {
  status = waiting;
  reason = "Waiting for the model: an AI analysis or RCA is using it.";
  retry_at = now + brief_slot_retry;
}

-- The end of `maybeStartBrief`, with what `acquireLLMSlot` answered.
unfoldable pub start_run : Problem → Time → Bool × ℕ → Desk → Desk
start_run top now (false, active) d = record d {
  brief = wait_for_slot now d.brief;
  active = active;
}
start_run top now (true, active) d = record {
  brief = begin_run top d.brief;
  active = active;
  has_stop = true;
}

unfoldable pub start_when_due : Problem → ℕ → Time → Desk → Desk
unfolding start_run
start_when_due top max_calls now d =
    if is_running d.brief.status
    then d
    else if not (is_due top now d.brief) || (not d.brief.force && before now d.brief.retry_at)
    then d
    else start_run top now (acquire_llm_slot max_calls d.active) d

-- `maybeStartBrief`
unfoldable pub maybe_start_brief : Bool → ℕ → List Problem → Time → Desk → Desk
unfolding start_when_due
maybe_start_brief enabled max_calls [] now d = d
maybe_start_brief enabled max_calls (top ∷ problems) now d =
    if not enabled
    then d
    else start_when_due top max_calls now (record d { brief = see_top (note_id top) now d.brief })

-- The first of the two locked parts of `regenerateBrief`, after it has ranked the problems.
abbrev pub press_again : BriefState → BriefState
press_again b = record b { force = true }

-- `regenerateBrief`, with the problems it has ranked and nothing between its two parts.
unfoldable pub regenerate_brief : Bool → ℕ → List Problem → Time → Desk → Desk
unfolding maybe_start_brief
regenerate_brief enabled max_calls problems now d =
    maybe_start_brief enabled max_calls problems now (record d { brief = press_again d.brief })

-- `preemptBrief` under the lock of `briefRuns`, where this brief's stop is the one it takes.
unfoldable pub take_stop : Desk → Bool × Desk
take_stop d = if d.has_stop then (true, record d { has_stop = false }) else (false, d)

-- The stop that was taken, under the brief's own lock; it then cancels the call of the model.
abbrev pub mark_preempted : BriefState → BriefState
mark_preempted b = record b { preempted = true }

-- `preemptBrief`, both parts with nothing in between.
unfoldable pub preempt_brief : Desk → Bool × Desk
unfolding take_stop
preempt_brief d =
    let (taken, e) = take_stop d in
    (taken, (if taken then record e { brief = mark_preempted e.brief } else e))

-- How the call of the model ended: its error, and the note that its answer gives.
pub record CallEnd : Type 0 where
  pub err : Option String
  pub note : String
  pub evidence : String
  pub tokens : ℤ
  pub budget : ℤ

abbrev fail : String → Time → BriefState → BriefState
fail reason now b = record b { status = error; reason = reason; retry_at = now + brief_error_retry }

abbrev keep_note : Problem → CallEnd → Time → BriefState → BriefState
keep_note p a now b = record b {
  status = ready;
  reason = "";
  note_id = b.run_id;
  target = p;
  text = a.note;
  evidence = a.evidence;
  tokens = a.tokens;
  budget = a.budget;
  done_at = now;
}

abbrev judge : Problem → CallEnd → Time → BriefState → BriefState
judge p a now b = elim a.err [
  | some e ↦ fail e now b
  | none ↦
      if str_eq a.note "" then fail "The model's answer was empty." now b else keep_note p a now b
]

abbrev pause : Time → BriefState → BriefState
pause now b = record b {
  status = waiting;
  reason = "Paused while an analysis you started uses the model.";
  retry_at = now + brief_slot_retry;
  force = true;
}

unfoldable pub end_run : Problem → CallEnd → Time → BriefState → BriefState
end_run p a now b =
    let c = record b { partial = "" } in if b.preempted then pause now c else judge p a now c

-- The end of `runBrief` under the brief's lock.
unfoldable pub write_end : Problem → CallEnd → Time → Desk → Desk
unfolding end_run
write_end p a now d = record d { brief = end_run p a now d.brief }

-- `setBriefRun(c, nil)`, deferred: whatever stop is registered for the cluster by then.
abbrev pub clear_stop : Desk → Desk
clear_stop d = record d { has_stop = false }

-- `releaseLLMSlot`, deferred.
unfoldable pub give_back : Desk → Desk
unfolding release_llm_slot
give_back d = record d { active = release_llm_slot d.active }

-- The three parts of the end of `runBrief`, with nothing in between.
unfoldable pub finish_brief : Problem → CallEnd → Time → Desk → Desk
unfolding write_end give_back
finish_brief p a now d = give_back (clear_stop (write_end p a now d))
