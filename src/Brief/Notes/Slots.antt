-- ===== src/Brief/Notes/Slots.antt =====
-- The slot of a running note and its stop (brief.go), under any order of page views, requests, other
-- calls of the model, stops and ends of runs.
use kubehealth.Prelude.{
  ◌≡◌, refl, ap, ◌-◌, ◌<◌, ◌∙◌, Option-cases, ℕ, suc, ◌+◌, Bool, true, false, not, ◌&&◌, ◌||◌, ◌⊎◌,
  String, List, [], ◌∷◌, arith, leb, str_eq, Bool-cases, inl, inr, if◌then◌else◌,
}
use kubehealth.Time.{Time, before}
use kubehealth.Problems.{Problem}
use kubehealth.Settings.{acquire_llm_slot, release_llm_slot}
use kubehealth.Brief.Notes.{
  BriefState, Desk, CallEnd, new_brief, is_running, is_due, note_id, see_top, start_run,
  start_when_due, maybe_start_brief, press_again, take_stop, mark_preempted, end_run, write_end,
  clear_stop, give_back, finish_brief,
}

-- A brief and what is under way: the stops that `preemptBrief` has taken and not called yet, the runs that
-- have written their end and still have their stop to clear, those that still have their slot to give
-- back, and the other calls of the model.
pub record Room : Type 0 where
  pub desk : Desk
  pub taken : ℕ
  pub ended : ℕ
  pub closing : ℕ
  pub others : ℕ

-- What happens under one lock, in any order.
pub data Step : Room → Room → Type 0 where
  view :
      (enabled : Bool) (max_calls : ℕ) (problems : List Problem) (now : Time) (r : Room)
      → Step r (record r { desk = maybe_start_brief enabled max_calls problems now r.desk })
  press :
      (r : Room) → Step r (record r { desk = record r.desk { brief = press_again r.desk.brief } })
  take :
      (r : Room)
      → r.desk.has_stop ≡ true
      → Step r (record r { desk = (take_stop r.desk).1; taken = suc r.taken })
  mark :
      (n : ℕ) (r : Room)
      → r.taken ≡ suc n
      → Step r
          (record r { desk = record r.desk { brief = mark_preempted r.desk.brief }; taken = n })
  finish :
      (p : Problem) (a : CallEnd) (now : Time) (r : Room)
      → is_running r.desk.brief.status ≡ true
      → Step r (record r { desk = write_end p a now r.desk; ended = suc r.ended })
  clear :
      (n : ℕ) (r : Room)
      → r.ended ≡ suc n
      → Step r (record r { desk = clear_stop r.desk; ended = n; closing = suc r.closing })
  release :
      (n : ℕ) (r : Room)
      → r.closing ≡ suc n
      → Step r (record r { desk = give_back r.desk; closing = n })
  call :
      (max_calls : ℕ) (r : Room)
      → Step r (record r {
        desk = record r.desk { active = (acquire_llm_slot max_calls r.desk.active).1 };
        others = if (acquire_llm_slot max_calls r.desk.active).0 then suc r.others else r.others;
      })
  hang_up :
      (n : ℕ) (r : Room)
      → r.others ≡ suc n
      → Step r (record r {
        desk = record r.desk { active = release_llm_slot r.desk.active };
        others = n;
      })

pub data Steps : Room → Room → Type 0 where
  done : (r : Room) → Steps r r
  next : (r s t : Room) → Steps r s → Step s t → Steps r t

-- The calls that are counted are a note that runs and `k` others; a stop is at hand only while a note runs
-- or one of the `e` that have ended still has its own to clear.
abbrev IsHeld : ℕ → ℕ → Desk → Type 0
IsHeld k e d =
    (d.active ≡ k + (if is_running d.brief.status then 1 else 0))
    × (d.has_stop ≡ true → (is_running d.brief.status ≡ true) ⊎ (0 < e))

abbrev pub IsKept : Room → Type 0
IsKept r =
    (r.desk.active
      ≡ r.others + r.closing + r.ended + (if is_running r.desk.brief.status then 1 else 0))
    × (r.desk.has_stop ≡ true → (is_running r.desk.brief.status ≡ true) ⊎ (0 < r.ended))

module _ (k e : ℕ) where
  start_run-IsHeld :
      (top : Problem) (max_calls : ℕ) (now : Time) (d : Desk)
      → is_running d.brief.status ≡ false
      → IsHeld k e d
      → IsHeld k e (start_run top now (acquire_llm_slot max_calls d.active) d)
  unfolding start_run acquire_llm_slot
  start_run-IsHeld top max_calls now d idle h = elim (Bool-cases (leb max_calls d.active)) [
    | inl f ↦
        rw (f, acquire_llm_slot, start_run)
          (
            ground (arith, h.0, idle),
            λ s. elim (h.1 s) [
              | inl run ↦ inl (absurd (ground (arith, run)))
              | inr some_end ↦ inr some_end
            ],
          )
    | inr f ↦ rw (f, acquire_llm_slot, start_run) (ground (arith, h.0, idle), λ _. inl refl)
  ]

  see_top-IsHeld :
      (id : String) (now : Time) (d : Desk)
      → IsHeld k e d
      → IsHeld k e (record d { brief = see_top id now d.brief })
  see_top-IsHeld id now d h = elim (Bool-cases (str_eq id d.brief.seen_id)) [
    | inl f ↦ rw f h
    | inr f ↦ rw f h
  ]

  start_when_due-IsHeld :
      (top : Problem) (max_calls : ℕ) (now : Time) (d : Desk)
      → IsHeld k e d
      → IsHeld k e (start_when_due top max_calls now d)
  unfolding start_when_due
  start_when_due-IsHeld top max_calls now d h = elim (Bool-cases (is_running d.brief.status)) [
    | inl r ↦ rw (r, start_when_due) h
    | inr r ↦
        elim (Bool-cases
          (not (is_due top now d.brief) || (not d.brief.force && before now d.brief.retry_at))) [
            | inl w ↦ rw (r, start_when_due, w) h
            | inr w ↦ rw (r, start_when_due, w) (start_run-IsHeld top max_calls now d r h)
          ]
  ]

  maybe_start_brief-IsHeld :
      (enabled : Bool) (max_calls : ℕ) (problems : List Problem) (now : Time) (d : Desk)
      → IsHeld k e d
      → IsHeld k e (maybe_start_brief enabled max_calls problems now d)
  unfolding maybe_start_brief
  maybe_start_brief-IsHeld enabled max_calls [] now d h = h
  maybe_start_brief-IsHeld false max_calls (top ∷ problems) now d h = h
  maybe_start_brief-IsHeld true max_calls (top ∷ problems) now d h =
      start_when_due-IsHeld top max_calls now _ (see_top-IsHeld (note_id top) now d h)

end_run_lem :
    (p : Problem) (a : CallEnd) (now : Time) (b : BriefState)
    → (is_running (end_run p a now b).status ≡ false)
      × ((end_run p a now b).preempted ≡ true
          → is_running (end_run p a now b).status ≡ false
          → (end_run p a now b).force ≡ true)
unfolding end_run
end_run_lem p a now b = elim (Bool-cases b.preempted) [
  | inl f ↦ rw (f, end_run) (refl, λ _ _. refl)
  | inr f ↦ elim (Option-cases a.err) [
    | inl e ↦ elim (Bool-cases (str_eq a.note "")) [
      | inl n ↦ rw (f, end_run, e, n) (refl, λ q _. ground (arith, q))
      | inr n ↦ rw (f, end_run, e, n) (refl, λ q _. ground (arith, q))
    ]
    | inr (m, e) ↦ rw (f, end_run, e) (refl, λ q _. ground (arith, q))
  ]
]

preempted_stays :
    (p : Problem) (a : CallEnd) (now : Time) (b : BriefState)
    → (end_run p a now b).preempted ≡ b.preempted
unfolding end_run
preempted_stays p a now b = elim (Bool-cases b.preempted) [
  | inl f ↦ rw (f, end_run) refl
  | inr f ↦ elim (Option-cases a.err) [
    | inl e ↦ elim (Bool-cases (str_eq a.note "")) [
      | inl n ↦ rw (f, end_run, e, n) refl
      | inr n ↦ rw (f, end_run, e, n) refl
    ]
    | inr (m, e) ↦ rw (f, end_run, e) refl
  ]
]

Step-IsKept : (r s : Room) → Step r s → IsKept r → IsKept s
unfolding take_stop write_end give_back acquire_llm_slot release_llm_slot
Step-IsKept _ _ (Step.view enabled max_calls problems now r) h =
    maybe_start_brief-IsHeld (r.others + r.closing + r.ended) r.ended enabled max_calls problems now
      r.desk h
Step-IsKept _ _ (Step.press r) h = h
Step-IsKept _ _ (Step.take r at) h = rw (at, take_stop) (h.0, λ s. absurd (ground (arith, s)))
Step-IsKept _ _ (Step.mark n r t) h = h
Step-IsKept _ _ (Step.finish p a now r run) h =
    let e = end_run_lem p a now r.desk.brief in
    (ground (arith, h.0, run, e.0), λ _. inr (omega arith))
Step-IsKept _ _ (Step.clear n r e) h = (omega (arith, h.0, e), λ s. absurd (ground (arith, s)))
Step-IsKept _ _ (Step.release n r c) h = (omega (arith, h.0, c), h.1)
Step-IsKept _ _ (Step.call max_calls r) h = elim (Bool-cases (leb max_calls r.desk.active)) [
  | inl f ↦ rw (f, acquire_llm_slot) h
  | inr f ↦ rw (f, acquire_llm_slot) (omega (arith, h.0), h.1)
]
Step-IsKept _ _ (Step.hang_up n r o) h = (omega (arith, h.0, o), h.1)

Steps-IsKept_from : (r s : Room) → Steps r s → IsKept r → IsKept s
Steps-IsKept_from r _ (Steps.done _) h = h
Steps-IsKept_from r _ (Steps.next _ s t st p) h = Step-IsKept s t p (Steps-IsKept_from r s st h)

-- A brief with no note on, while `m` other calls run.
abbrev pub quiet_room : ℕ → Room
quiet_room m = record {
  desk = record { brief = new_brief; active = m; has_stop = false };
  taken = 0;
  ended = 0;
  closing = 0;
  others = m;
}

-- From a brief with no note on, and any number of other calls, whatever the order in which page views,
-- presses of Regenerate, other calls, the two parts of stopping a note and the three of its end come: the
-- calls that are counted are exactly the other ones, one for a note that runs, and one for each that has
-- ended and has not given its slot back yet; and a stop is at hand only while a note runs, or one that
-- has ended still has its own to clear.
pub Steps-HasOneSlot : (m : ℕ) (r : Room) → Steps (quiet_room m) r → IsKept r
Steps-HasOneSlot m r st =
    Steps-IsKept_from (quiet_room m) r st (omega arith, λ s. absurd (ground (arith, s)))

abbrev pub IsResumed : Problem → Desk → Type 0
IsResumed top d =
    (is_running d.brief.status ≡ true)
    × (d.brief.run_target ≡ top)
    × (d.brief.force ≡ false)
    × (d.has_stop ≡ true)

see_top-force : (id : String) (now : Time) (b : BriefState) → (see_top id now b).force ≡ b.force
see_top-force id now b = elim (Bool-cases (str_eq id b.seen_id)) [
  | inl f ↦ rw f refl
  | inr f ↦ rw f refl
]

see_top-status : (id : String) (now : Time) (b : BriefState) → (see_top id now b).status ≡ b.status
see_top-status id now b = elim (Bool-cases (str_eq id b.seen_id)) [
  | inl f ↦ rw f refl
  | inr f ↦ rw f refl
]

start_when_due_forced :
    (top : Problem) (max_calls : ℕ) (now : Time) (d : Desk)
    → is_running d.brief.status ≡ false
    → d.brief.force ≡ true
    → leb max_calls d.active ≡ false
    → IsResumed top (start_when_due top max_calls now d)
unfolding start_when_due start_run acquire_llm_slot
start_when_due_forced top max_calls now d r f l =
    rw (start_when_due, r, f, acquire_llm_slot, l, start_run) (refl, refl, refl, refl)

-- Where a running note was stopped for an analysis and ends, whatever the model answered, the next view
-- of the page at any time, also before `retry_at`, starts a note on the problem that is then first,
-- provided that fewer calls than the maximum run.
pub finish_brief-maybe_start_brief :
    (p : Problem) (a : CallEnd) (ended : Time) (max_calls : ℕ) (top : Problem)
    (problems : List Problem) (now : Time) (d : Desk)
    → d.brief.preempted ≡ true
    → d.active - 1 < max_calls
    → IsResumed top
        (maybe_start_brief true max_calls (top ∷ problems) now (finish_brief p a ended d))
unfolding maybe_start_brief finish_brief write_end give_back end_run release_llm_slot
finish_brief-maybe_start_brief p a ended max_calls top problems now d q lt =
    let b = (finish_brief p a ended d).brief in
    let e = end_run_lem p a ended d.brief in
    start_when_due_forced top max_calls now _
      (ap is_running (see_top-status (note_id top) now b) ∙ e.0)
      (see_top-force (note_id top) now b ∙ e.1 (preempted_stays p a ended d.brief ∙ q) e.0)
      (ground arith)
