-- ===== src/Examples/Rca.antt =====
-- The theorems on linked.go and rca.go at concrete inputs.
use kubehealth.Prelude.{
  ◌≡◌, refl, ◌⊎◌, ℕ, ◌+◌, ◌≤◌, true, false, String, Option, none, some, List, [], ◌∷◌, length, leb,
  str_eq, if◌then◌else◌,
}
use kubehealth.Tokens.{Estimate, estimate_tokens}
use kubehealth.Linked.{LinkedItem, Block, write_linked, shrink, render_linked}
use kubehealth.Linked.Block.{IsRendered, render_linked_lem}
use kubehealth.Brief.Readable.{LogMatch}
use kubehealth.Rca.Evidence.{Evidence, render}
use kubehealth.Rca.Fit.{fit}
use kubehealth.Rca.Fit.Budget.{IsFitted, fewest, fit_lem}
use kubehealth.Rca.Agent.{
  first_msg, World, Msg, ToolCall, Asked, FirstLogs, run_rca_agent, new_state,
}
use kubehealth.Rca.Agent.Ended.{IsTrail, run_rca_agent_lem}
use kubehealth.Rca.Agent.Outcome.{IsEnded}

-- Every code point is a token.
abbrev runes_count : Estimate
runes_count = record {
  is_letter = λ c. true;
  is_digit = λ c. false;
  weigh = λ l d o s. l + d + o + s;
}

abbrev missing_secret : LinkedItem
missing_secret = record {
  rule = "config";
  kind = "Secret";
  ns = "shop";
  name = "db";
  facts = "does not exist";
  lines = "no Secrets in namespace shop" ∷ [];
}

abbrev a_claim : LinkedItem
a_claim = record {
  rule = "claim";
  kind = "PersistentVolumeClaim";
  ns = "shop";
  name = "data";
  facts = "Pending";
  lines = [];
}

abbrev two_items : List LinkedItem
two_items = missing_secret ∷ a_claim ∷ []

abbrev cut_text : String
cut_text =
    "\nLinked evidence (followed from the evidence above):\n- Secret db: does not exist\n(2 linked evidence lines trimmed to fit the model's context)\n"

cut :
    render_linked runes_count two_items 150
    ≡ some (cut_text, record missing_secret { lines = [] } ∷ [], 2)
unfolding render_linked estimate_tokens write_linked shrink
cut = refl

render_linked_lem_example :
    ((r : Block) × (render_linked runes_count two_items 150 ≡ some r)
      × IsRendered runes_count 150 two_items r)
    × (1 ≤ length two_items
        → (◌≡◌ {A = ℕ} 150 0) ⊎ (estimate_tokens runes_count (write_linked two_items 0) ≤ 150)
        → render_linked runes_count two_items 150 ≡ some (write_linked two_items 0, two_items, 0))
render_linked_lem_example = render_linked_lem runes_count two_items 150

abbrev no_match : LogMatch
no_match = record { is_stack_frame = λ l. false; is_error = λ l. str_eq l "error" }

abbrev some_evidence : Evidence
some_evidence = record {
  head = "Analyse web.\n";
  events = [];
  describe = "Describe web\n";
  kind = "Deployment";
  members = "- Pod web-1 Failed" ∷ [];
  logs_head = "\nLogs:\n";
  logs = "starting\nerror\nstopping";
  note = "";
  tail = "Answer.";
  member_events = [];
  linked = "";
  linked_items = [];
  linked_trimmed = 0;
}

fit_lem_example :
    ((ev : ℕ) × (mem : ℕ) × (lines : Option ℕ) × IsFitted runes_count no_match some_evidence 200
        (fewest some_evidence)
        (fit runes_count no_match some_evidence 200)
        ev
        mem
        lines)
    × ((◌≡◌ {A = ℕ} 200 0)
          ⊎ (estimate_tokens runes_count (render no_match some_evidence 0 1 none) ≤ 200)
        → fit runes_count no_match some_evidence 200 ≡ render no_match some_evidence 0 1 none)
fit_lem_example = fit_lem runes_count no_match some_evidence 200

abbrev describe_call : ToolCall
describe_call = record { id = "1"; name = "get_object_describe"; arguments = "{}" }

abbrev said : String → List ToolCall → Msg
said text calls = record {
  role = "assistant";
  content = some text;
  tool_call_id = "";
  tool_calls = calls;
}

-- A model that calls one tool and then concludes.
abbrev one_call : World
one_call = record {
  ask = λ msgs offered. Asked.replied (record {
    message =
        if leb (length msgs) 2
        then said "" (describe_call ∷ [])
        else said "<think>so</think> out of memory" [];
    finish_reason = "";
    prompt_tokens = 100;
  });
  call_tool = λ msgs tc. "Describe web";
  arg = λ args k. k;
  now = "now";
  ctx_len = 4096;
  loaded = 4096;
}

abbrev no_logs : FirstLogs
no_logs = record { pod = ""; logs = ""; err = none }

concludes :
    (run_rca_agent one_call "system" "text" "shop" no_logs [] 0 (new_state 5)).result
    ≡ "out of memory"
unfolding run_rca_agent
concludes = refl

run_rca_agent_lem_example :
    IsEnded one_call
      (first_msg "system" "system" ∷ first_msg "user" "text" ∷ [])
      (new_state 5)
      (run_rca_agent one_call "system" "text" "shop" no_logs [] 0 (new_state 5))
    × IsTrail 5 (run_rca_agent one_call "system" "text" "shop" no_logs [] 0 (new_state 5))
run_rca_agent_lem_example = run_rca_agent_lem one_call "system" "text" "shop" no_logs [] 0 5
