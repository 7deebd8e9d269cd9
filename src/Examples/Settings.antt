-- ===== src/Examples/Settings.antt =====
-- The theorems on settings.go at concrete inputs.
use kubehealth.Prelude.{◌≡◌, refl, true, false, some, [], ◌∷◌, arith}
use kubehealth.Prelude.Int.{pos, negsuc}
use kubehealth.Settings.{Settings, Payload, post_settings, clamp, acquire_llm_slot}
use kubehealth.Settings.Slots.{
  post_settings-IsBounded, IsPosted, Calls, Step, Steps, IsKept, Steps-IsKept,
}

abbrev at_start : Settings
at_start = record {
  log_tail_lines = pos 150;
  rca_max_iter = pos 5;
  llm_max_calls = pos 3;
  llm_timeout = pos 10;
  emb_ctx_size = pos 8192;
  link_follow = true;
}

abbrev too_much : Payload
too_much = record {
  log_tail_lines = pos 1;
  rca_max_iter = negsuc 0;
  llm_max_calls = pos 99;
  llm_timeout = pos 0;
  link_follow = some false;
}

clamped :
    post_settings too_much at_start
    ≡ record at_start { log_tail_lines = pos 10; llm_max_calls = pos 10; link_follow = false }
unfolding post_settings
clamped = refl

post_settings-IsBounded_example : IsPosted too_much at_start (post_settings too_much at_start)
post_settings-IsBounded_example = post_settings-IsBounded too_much at_start (
  (refl, omega arith, omega arith),
  (refl, omega arith, omega arith),
  (refl, omega arith, omega arith),
  (refl, omega arith, omega arith),
)

abbrev no_calls : Calls
no_calls = record { max_calls = pos 3; active = 0; reads = []; held = 0 }

abbrev lowered : Calls
lowered = record no_calls { max_calls = clamp 1 10 (pos 0) }

abbrev two_read : Calls
two_read = record { max_calls = pos 5; active = 0; reads = 5 ∷ 1 ∷ []; held = 0 }

-- The caller that read first, and read less, takes its slot last.
Steps-IsKept_example : IsKept (record two_read { active = 1; reads = 5 ∷ []; held = 1 })
unfolding clamp acquire_llm_slot
Steps-IsKept_example =
    Steps-IsKept no_calls (record two_read { active = 1; reads = 5 ∷ []; held = 1 })
      (Steps.next _ two_read _
        (Steps.next _ (record two_read { reads = 1 ∷ [] }) _
          (Steps.next _ (record lowered { reads = 1 ∷ [] }) _
            (Steps.next _ lowered _
              (Steps.next _ no_calls _ (Steps.start no_calls) (Step.change (pos 0) no_calls))
              (Step.read lowered))
            (Step.change (pos 5) (record lowered { reads = 1 ∷ [] })))
          (Step.read (record two_read { reads = 1 ∷ [] })))
        (Step.acquire 1 (5 ∷ []) [] two_read refl))
      (refl, omega arith, (refl, omega arith, omega arith), tt)
