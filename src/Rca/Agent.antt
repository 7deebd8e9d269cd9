-- ===== src/Rca/Agent.antt =====
-- The agent of a root cause analysis (rca.go): `RCAState`, `cleanLMResponse` (ai.go), `rcaStepLabel` and
-- the loop of `runRCAAgent` for a model with an API of its own. Parameters: the model, what a tool call
-- answers after a conversation, the decoded arguments of a call, the clock, and the model's context.
pub mod Outcome
pub mod Ended
use Prim.Native.String.{len}
use kubehealth.Prelude.{
  ℕ, zero, suc, ◌+◌, ◌*◌, ◌/◌, Bool, true, false, ◌&&◌, ◌||◌, String, Option, none, some, List, [],
  ◌∷◌, ◌++◌, map, ltb, leb, ◌==◌, str_eq, text_of, decimal, length, if◌then◌else◌,
}
use kubehealth.Problems.Words.{trim_space}
use kubehealth.Brief.Think.{after_text}
use kubehealth.Linked.{LinkedItem, item_tag}

pub data StepStatus : Type 0 where
  running : StepStatus
  done : StepStatus
  error : StepStatus
  unavailable : StepStatus

-- `RCAStep`
pub record RcaStep : Type 0 where
  pub iter : ℕ
  pub tool : String
  pub label : String
  pub status : StepStatus
  pub initial : Bool

pub data RunStatus : Type 0 where
  running : RunStatus
  done : RunStatus
  error : RunStatus

-- `RCAState`
pub record RcaState : Type 0 where
  pub status : RunStatus
  pub iteration : ℕ
  pub max_iter : ℕ
  pub steps : List RcaStep
  pub result : String
  pub err : String
  pub error_type : String
  pub updated_at : String
  pub linked : List String
  pub linked_trimmed : ℕ

-- `rcaToolCall`
pub record ToolCall : Type 0 where
  pub id : String
  pub name : String
  pub arguments : String

-- `rcaMsg`; no content is a content that is no text.
pub record Msg : Type 0 where
  pub role : String
  pub content : Option String
  pub tool_call_id : String
  pub tool_calls : List ToolCall

-- The first choice of an answer, and the count of its usage.
pub record Reply : Type 0 where
  pub message : Msg
  pub finish_reason : String
  pub prompt_tokens : ℕ

pub data Asked : Type 0 where
  overflow : String → Asked
  failed : String → Asked
  replied : Reply → Asked

-- What the agent asks and calls; the context that the model was loaded with is read once before and
-- again where a conversation does not fit.
pub record World : Type 0 where
  pub ask : List Msg → Bool → Asked
  pub call_tool : List Msg → ToolCall → String
  pub arg : String → String → String
  pub now : String
  pub ctx_len : ℕ
  pub loaded : ℕ

-- `cleanLMResponse`
unfoldable pub clean_lm_response : String → String
unfolding trim_space after_text
clean_lm_response s = elim (after_text "</think>" s) [ some rest ↦ trim_space rest | none ↦ s ]

-- `rcaStepLabel`
unfoldable pub rca_step_label : String → (String → String) → String
rca_step_label tool get =
    if str_eq tool "get_pod_logs"
    then text_of (get "namespace" ∷ " / " ∷ get "pod_name" ∷ [])
    else if str_eq tool "get_object_describe" || str_eq tool "get_object_events"
    then text_of (get "namespace" ∷ " / " ∷ get "kind" ∷ " / " ∷ get "name" ∷ [])
    else if str_eq tool "get_correlated_events"
    then text_of (get "namespace" ∷ " / " ∷ get "kind" ∷ " / " ∷ get "name" ∷ " (cross-ns)" ∷ [])
    else tool

-- The agent's variables.
pub record Agent : Type 0 where
  pub state : RcaState
  pub msgs : List Msg
  pub estimated : ℕ

abbrev finish_step : ℕ → List RcaStep → List RcaStep
finish_step i [] = []
finish_step zero (s ∷ steps) = record s { status = StepStatus.done } ∷ steps
finish_step (suc i) (s ∷ steps) = s ∷ finish_step i steps

abbrev tool_msg : ToolCall → String → Msg
tool_msg tc result = record {
  role = "tool";
  content = some result;
  tool_call_id = tc.id;
  tool_calls = [];
}

-- One round of the loop over `assistantMsg.ToolCalls`.
unfoldable pub call_step : World → ℕ → Agent → ToolCall → Agent
unfolding rca_step_label
call_step w round a tc =
    let started =
      a.state.steps
      ++ record {
        iter = round;
        tool = tc.name;
        label = rca_step_label tc.name (w.arg tc.arguments);
        status = StepStatus.running;
        initial = false;
      }
        ∷ [] in
    let result = w.call_tool a.msgs tc in
    record {
      state = record a.state {
        steps = finish_step (length a.state.steps) started;
        updated_at = w.now;
      };
      msgs = a.msgs ++ tool_msg tc result ∷ [];
      estimated = a.estimated + len result / 4;
    }

unfoldable pub call_steps : World → ℕ → Agent → List ToolCall → Agent
unfolding call_step
call_steps w round a [] = a
call_steps w round a (tc ∷ calls) = call_steps w round (call_step w round a tc) calls

abbrev stop_with : World → String → RcaState → RcaState
stop_with w err s = record s { status = RunStatus.error; err = err; updated_at = w.now }

abbrev overflow_text : ℕ → String
overflow_text ctx_len = text_of (
    "The initial context (events + describe + logs) plus tool definitions exceed the model's loaded context window"
    ∷ (if ltb 0 ctx_len
        then text_of (" (model is loaded with only " ∷ decimal ctx_len ∷ " tokens)" ∷ [])
        else "")
    ∷ ".\n\nFix in LM Studio: click the ⚙ gear icon next to your loaded model, increase Context Length (try 8192 or 16384), then Reload. With llama-server, restart it with a larger --ctx-size."
    ∷ [])

abbrev overflowed : World → RcaState → RcaState
overflowed w s = record s {
  status = RunStatus.error;
  error_type = "context_overflow";
  err = overflow_text w.loaded;
  updated_at = w.now;
}

abbrev content_of : Msg → String
content_of m = elim m.content [ some s ↦ clean_lm_response s | none ↦ "" ]

abbrev conclude : World → Msg → RcaState → RcaState
conclude w m s = record s { status = RunStatus.done; result = content_of m; updated_at = w.now }

-- The conversation and its measured length after an answer.
abbrev hear : Reply → Agent → Agent
hear r a = record a {
  msgs = a.msgs ++ r.message ∷ [];
  estimated = if ltb 0 r.prompt_tokens then r.prompt_tokens else a.estimated;
}

abbrev is_concluded : Reply → Bool
is_concluded r = (length r.message.tool_calls == 0) || str_eq r.finish_reason "stop"

-- Tools are offered until the conversation fills 70% of the context.
abbrev offers_tools : World → Agent → Bool
offers_tools w a = elim (ltb 0 w.ctx_len && ltb (w.ctx_len * 70 / 100) a.estimated) [
  | true ↦ false
  | false ↦ true
]

abbrev last_request : Msg
last_request = record {
  role = "user";
  content =
      some
        "You have reached the maximum investigation steps. Produce the final Root Cause Analysis now based on the evidence gathered so far.";
  tool_call_id = "";
  tool_calls = [];
}

-- After the last round: a conclusion with no tools.
unfoldable pub force_conclusion : World → Agent → RcaState
force_conclusion w a = elim (w.ask (a.msgs ++ last_request ∷ []) false) [
  | overflow detail ↦
      stop_with w (text_of ("final conclusion: context window exceeded: " ∷ detail ∷ [])) a.state
  | failed err ↦ stop_with w (text_of ("final conclusion: " ∷ err ∷ [])) a.state
  | replied r ↦ conclude w r.message a.state
]

-- The rounds that are left, `round` of them are over.
unfoldable pub run_rounds : ℕ → World → ℕ → Agent → RcaState
unfolding force_conclusion call_steps clean_lm_response
run_rounds zero w round a = force_conclusion w a
run_rounds (suc left) w round a =
    let at_round = record a.state { iteration = suc round; updated_at = w.now } in
    elim (w.ask a.msgs (offers_tools w a)) [
      | overflow detail ↦ overflowed w at_round
      | failed err ↦ stop_with w (text_of ("iter " ∷ decimal round ∷ ": " ∷ err ∷ [])) at_round
      | replied r ↦ elim (is_concluded r) [
        | true ↦ conclude w r.message at_round
        | false ↦
            run_rounds left w (suc round) (
              call_steps w (suc round) (hear r (record a { state = at_round }))
                r.message.tool_calls)
      ]
    ]

-- How the logs of the first prompt were read: the Pod, its logs and the error.
pub record FirstLogs : Type 0 where
  pub pod : String
  pub logs : String
  pub err : Option String

abbrev logs_step : String → FirstLogs → RcaStep
logs_step ns f = elim f.err [
  | some e ↦ record {
    iter = 0;
    tool = "get_pod_logs";
    label = text_of (ns ∷ " / " ∷ f.pod ∷ " (error: " ∷ e ∷ ")" ∷ []);
    status = StepStatus.error;
    initial = true;
  }
  | none ↦
      if str_eq (trim_space f.logs) ""
      then record {
        iter = 0;
        tool = "get_pod_logs";
        label = text_of (ns ∷ " / " ∷ f.pod ∷ " (not scheduled / no output)" ∷ []);
        status = StepStatus.unavailable;
        initial = true;
      }
      else record {
        iter = 0;
        tool = "get_pod_logs";
        label = text_of (ns ∷ " / " ∷ f.pod ∷ []);
        status = StepStatus.done;
        initial = true;
      }
]

abbrev linked_step : LinkedItem → RcaStep
linked_step i = record {
  iter = 0;
  tool = "linked_evidence";
  label = text_of (i.kind ∷ " " ∷ i.name ∷ []);
  status = StepStatus.done;
  initial = true;
}

-- The steps of the first prompt.
unfoldable pub first_steps : World → String → FirstLogs → List LinkedItem → ℕ → RcaState → RcaState
unfolding item_tag trim_space
first_steps w ns f items trimmed s = record s {
  steps =
      s.steps ++ ((if str_eq f.pod "" then [] else logs_step ns f ∷ []) ++ map linked_step items);
  linked = s.linked ++ map item_tag items;
  linked_trimmed = trimmed;
  updated_at = w.now;
}

abbrev pub first_msg : String → String → Msg
first_msg role text = record {
  role = role;
  content = some text;
  tool_call_id = "";
  tool_calls = [];
}

-- `runRCAAgent` from the first prompt on.
unfoldable pub run_rca_agent :
    World → String → String → String → FirstLogs → List LinkedItem → ℕ → RcaState → RcaState
unfolding first_steps run_rounds
run_rca_agent w system text ns f items trimmed s = run_rounds s.max_iter w 0 (record {
  state = first_steps w ns f items trimmed s;
  msgs = first_msg "system" system ∷ first_msg "user" text ∷ [];
  estimated = len system / 4 + len text / 4;
})

-- `handleAPIRCAStart` makes this state.
abbrev pub new_state : ℕ → RcaState
new_state max_iter = record {
  status = RunStatus.running;
  iteration = 0;
  max_iter = max_iter;
  steps = [];
  result = "";
  err = "";
  error_type = "";
  updated_at = "";
  linked = [];
  linked_trimmed = 0;
}
