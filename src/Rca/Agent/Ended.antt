-- ===== src/Rca/Agent/Ended.antt =====
-- How a run of the agent (rca.go) ends, and what its trail of steps looks like then.
use Prim.Native.String.{len}
use kubehealth.Prelude.{
  ◌/◌, ◌≡◌, ◌≢◌, refl, sym, ap, ◌∙◌, subst, ◌⊎◌, inl, inr, ℕ, zero, suc, ◌+◌, ◌≤◌, false, String,
  List, [], ◌∷◌, ◌++◌, map, arith, All, All-append, length, str_eq, Bool-cases, Option-cases,
  if◌then◌else◌,
}
use kubehealth.Problems.Words.{trim_space}
use kubehealth.Linked.{LinkedItem}
use kubehealth.Rca.Agent.{
  first_msg, Msg, StepStatus, RcaStep, RcaState, ToolCall, Reply, Asked, World, Agent, FirstLogs,
  finish_step, call_step, call_steps, run_rounds, force_conclusion, first_steps, run_rca_agent,
  last_request, is_concluded, offers_tools, new_state, hear, logs_step, linked_step,
}
use kubehealth.Rca.Agent.Outcome.{
  Talk, IsEnded, IsQuiet, content-cases, is_concluded-IsLast, IsQuiet-IsEnded, answered,
  call_steps-Talk,
}

-- The step is over, and belongs to one of the first `n` rounds, or to round 0 before them.
abbrev pub IsOver : ℕ → RcaStep → Type 0
IsOver n s = (s.status ≢ StepStatus.running) × (s.iter ≤ n)

abbrev pub IsTrail : ℕ → RcaState → Type 0
IsTrail max s = (s.iteration ≤ max) × All (IsOver s.iteration) s.steps

All-mono : (m n : ℕ) (steps : List RcaStep) → m ≤ n → All (IsOver m) steps → All (IsOver n) steps
All-mono m n [] le h = tt
All-mono m n (s ∷ steps) le h = ((h.0.0, omega (arith, h.0.1)), All-mono m n steps le h.1)

finish_step-last :
    (steps : List RcaStep) (s : RcaStep)
    → finish_step (length steps) (steps ++ s ∷ [])
      ≡ steps ++ record s { status = StepStatus.done } ∷ []
finish_step-last [] s = refl
finish_step-last (x ∷ steps) s = ap (λ r. x ∷ r) (finish_step-last steps s)

done_ne_running : StepStatus.done ≢ StepStatus.running
done_ne_running h = ground (arith, h)

call_step-steps :
    (w : World) (n : ℕ) (a : Agent) (tc : ToolCall)
    → All (IsOver n) a.state.steps
    → All (IsOver n) (call_step w n a tc).state.steps
unfolding call_step
call_step-steps w n a tc h =
    subst (All (IsOver n)) (sym (finish_step-last a.state.steps _))
      (All-append (IsOver n) a.state.steps _ h ((done_ne_running, omega arith), tt))

call_steps_lem :
    (w : World) (n : ℕ) (a : Agent) (calls : List ToolCall)
    → All (IsOver n) a.state.steps
    → All (IsOver n) (call_steps w n a calls).state.steps
      × IsQuiet a.state (call_steps w n a calls).state
      × ((call_steps w n a calls).state.iteration ≡ a.state.iteration)
unfolding call_steps
call_steps_lem w n a [] h = (h, (refl, refl, refl), refl)
call_steps_lem w n a (tc ∷ calls) h =
    let rest = call_steps_lem w n (call_step w n a tc) calls (call_step-steps w n a tc h) in
    unfold call_step in rest

Asked-cases :
    (x : Asked)
    → ((d : String) × (x ≡ Asked.overflow d))
      ⊎ (((e : String) × (x ≡ Asked.failed e)) ⊎ ((r : Reply) × (x ≡ Asked.replied r)))
Asked-cases (Asked.overflow d) = inl (d, refl)
Asked-cases (Asked.failed e) = inr (inl (e, refl))
Asked-cases (Asked.replied r) = inr (inr (r, refl))

force_conclusion_lem :
    (w : World) (first : List Msg) (a : Agent)
    → Talk w first a.msgs
    → IsEnded w first a.state (force_conclusion w a)
      × ((force_conclusion w a).steps ≡ a.state.steps)
      × ((force_conclusion w a).iteration ≡ a.state.iteration)
unfolding force_conclusion
force_conclusion_lem w first a talk =
    let end = answered w first (a.msgs ++ last_request ∷ []) false (Talk.hurried a.msgs talk) in
    elim (Asked-cases (w.ask (a.msgs ++ last_request ∷ []) false)) [
      | inl (d, e) ↦
          rw (e, force_conclusion)
            (end (Asked.overflow d) a.state _ e (refl, refl, inr (refl, refl, refl)), refl, refl)
      | inr (inl (d, e)) ↦
          rw (e, force_conclusion)
            (end (Asked.failed d) a.state _ e (refl, refl, refl, inr (refl, refl)), refl, refl)
      | inr (inr (r, e)) ↦
          rw (e, force_conclusion)
            (
              end (Asked.replied r) a.state _ e (inr (inr refl), refl, content-cases r, refl, refl),
              refl,
              refl,
            )
    ]

run_rounds_lem :
    (left : ℕ) (w : World) (first : List Msg) (round max : ℕ) (a : Agent)
    → round + left ≡ max
    → a.state.iteration ≡ round
    → All (IsOver round) a.state.steps
    → Talk w first a.msgs
    → IsEnded w first a.state (run_rounds left w round a) × IsTrail max (run_rounds left w round a)
unfolding run_rounds
run_rounds_lem zero w first round max a sum at h talk =
    let f = force_conclusion_lem w first a talk in
    (
      f.0,
      (
        omega (arith, f.2, at),
        subst (λ (n : ℕ). All (IsOver n) (force_conclusion w a).steps) (sym at ∙ sym f.2)
            (subst (All (IsOver round)) (sym f.1) h),
      ),
    )
run_rounds_lem (suc left) w first round max a sum at h talk =
    let mono = All-mono round (suc round) a.state.steps (omega arith) h in
    let end = answered w first a.msgs (offers_tools w a) talk in
    elim (Asked-cases (w.ask a.msgs (offers_tools w a))) [
      | inl (d, e) ↦
          rw (e, run_rounds)
            (end (Asked.overflow d) a.state _ e (refl, refl, inl (refl, refl)), (omega arith, mono))
      | inr (inl (d, e)) ↦
          rw (e, run_rounds)
            (
              end (Asked.failed d) a.state _ e (refl, refl, refl, inl (round, refl)),
              (omega arith, mono),
            )
      | inr (inr (r, e)) ↦ elim (Bool-cases (is_concluded r)) [
        | inl f ↦
            rw (e, f, run_rounds)
              (
                end (Asked.replied r) a.state _ e
                    (is_concluded-IsLast _ r f, refl, content-cases r, refl, refl),
                (omega arith, mono),
              )
        | inr f ↦
            let heard =
              hear r (record a {
                state = record a.state { iteration = suc round; updated_at = w.now };
              }) in
            let c = call_steps_lem w (suc round) heard r.message.tool_calls mono in
            let after = call_steps w (suc round) heard r.message.tool_calls in
            let rest = run_rounds_lem left w first (suc round) max after (omega arith) c.2 c.0 (
              call_steps-Talk w first (suc round) heard r.message.tool_calls
                (Talk.heard a.msgs (offers_tools w a) r talk e)) in
            rw (e, f, run_rounds)
              (
                IsQuiet-IsEnded w first a.state after.state (run_rounds left w (suc round) after)
                    c.1 rest.0,
                rest.1,
              )
      ]
    ]

logs_step-IsOver : (ns : String) (f : FirstLogs) → IsOver 0 (logs_step ns f)
logs_step-IsOver ns f = elim (Option-cases f.err) [
  | inr (m, e) ↦ rw (e, logs_step) ((λ q. ground (arith, q)), omega arith)
  | inl e ↦ elim (Bool-cases (str_eq (trim_space f.logs) "")) [
    | inl g ↦ rw (e, g, logs_step) ((λ q. ground (arith, q)), omega arith)
    | inr g ↦ rw (e, g, logs_step) ((λ q. ground (arith, q)), omega arith)
  ]
]

first_steps-IsOver :
    (w : World) (ns : String) (f : FirstLogs) (items : List LinkedItem)
    → All
        (IsOver 0)
        ((if str_eq f.pod "" then [] else logs_step ns f ∷ []) ++ map linked_step items)
first_steps-IsOver w ns f items =
    All-append (IsOver 0) _ _
      (elim (Bool-cases (str_eq f.pod "")) [
        | inl e ↦ rw e tt
        | inr e ↦ rw e (logs_step-IsOver ns f, tt)
      ])
      (linked items)
  where
    linked : (items : List LinkedItem) → All (IsOver 0) (map linked_step items)
    linked [] = tt
    linked (i ∷ items) = ((done_ne_running, omega arith), linked items)

-- Every run ends, in at most as many rounds as are allowed, by an answer of the model to the
-- first prompt or to what it has grown to by replies and answers of tools: a reply that
-- calls no tool, says that it stops or was given when no tools were offered is the result, without its
-- thoughts; a failed answer, and one that says that the context is full, is the error, with its text.
-- No step of the run's trail is left running then, and none is from a later round than the last.
pub run_rca_agent_lem :
    (w : World) (system text ns : String) (f : FirstLogs) (items : List LinkedItem)
    (trimmed max : ℕ)
    → IsEnded w
        (first_msg "system" system ∷ first_msg "user" text ∷ [])
        (new_state max)
        (run_rca_agent w system text ns f items trimmed (new_state max))
      × IsTrail max (run_rca_agent w system text ns f items trimmed (new_state max))
unfolding run_rca_agent first_steps
run_rca_agent_lem w system text ns f items trimmed max =
    let first = first_msg "system" system ∷ first_msg "user" text ∷ [] in
    let began = first_steps w ns f items trimmed (new_state max) in
    let (a, b) =
      run_rounds_lem max w first 0 max
        (record { state = began; msgs = first; estimated = len system / 4 + len text / 4 })
        (omega arith) refl (first_steps-IsOver w ns f items) Talk.begun in
    (IsQuiet-IsEnded w first (new_state max) began _ (refl, refl, refl) a, b)
