-- ===== src/Settings.antt =====
-- The settings (settings.go): their bounds, and the slots for calls of the language model.
pub mod Slots
use kubehealth.Prelude.{
  ℕ, suc, ◌-◌, Bool, true, false, Option, none, some, List, [], ◌∷◌, leb, if◌then◌else◌,
}
use kubehealth.Prelude.Int.{ℤ, pos, ltb_ℤ}

-- `if n < lo { n = lo }`, then `if n > hi { n = hi }`.
unfoldable pub clamp : ℕ → ℕ → ℤ → ℤ
clamp lo hi n =
    let low = if ltb_ℤ n (pos lo) then pos lo else n in if ltb_ℤ (pos hi) low then pos hi else low

-- The values of the package; `link_follow` is of linked.go.
pub record Settings : Type 0 where
  pub log_tail_lines : ℤ
  pub rca_max_iter : ℤ
  pub llm_max_calls : ℤ
  pub llm_timeout : ℤ
  pub emb_ctx_size : ℤ
  pub link_follow : Bool

unfoldable pub set_log_tail_lines : ℤ → Settings → Settings
unfolding clamp
set_log_tail_lines n s = record s { log_tail_lines = clamp 10 5000 n }

unfoldable pub set_rca_max_iter : ℤ → Settings → Settings
unfolding clamp
set_rca_max_iter n s = record s { rca_max_iter = clamp 1 20 n }

unfoldable pub set_llm_max_calls : ℤ → Settings → Settings
unfolding clamp
set_llm_max_calls n s = record s { llm_max_calls = clamp 1 10 n }

unfoldable pub set_llm_timeout : ℤ → Settings → Settings
unfolding clamp
set_llm_timeout n s = record s { llm_timeout = clamp 1 60 n }

unfoldable pub set_embedded_ctx_size : ℤ → Settings → Settings
unfolding clamp
set_embedded_ctx_size n s = record s { emb_ctx_size = clamp 512 131072 n }

-- `SettingsPayload`
pub record Payload : Type 0 where
  pub log_tail_lines : ℤ
  pub rca_max_iter : ℤ
  pub llm_max_calls : ℤ
  pub llm_timeout : ℤ
  pub link_follow : Option Bool

abbrev is_given : ℤ → Bool
is_given n = ltb_ℤ (pos 0) n

abbrev follow : Option Bool → Settings → Settings
follow none s = s
follow (some b) s = record s { link_follow = b }

-- The POST of `handleAPISettings`: what is absent, zero or negative stays.
unfoldable pub post_settings : Payload → Settings → Settings
unfolding set_log_tail_lines set_rca_max_iter set_llm_max_calls set_llm_timeout
post_settings p s =
    let s1 = if is_given p.log_tail_lines then set_log_tail_lines p.log_tail_lines s else s in
    let s2 = if is_given p.rca_max_iter then set_rca_max_iter p.rca_max_iter s1 else s1 in
    let s3 = if is_given p.llm_max_calls then set_llm_max_calls p.llm_max_calls s2 else s2 in
    let s4 = if is_given p.llm_timeout then set_llm_timeout p.llm_timeout s3 else s3 in
    follow p.link_follow s4

-- `acquireLLMSlot`, with the maximum that it has read before it locks the count.
unfoldable pub acquire_llm_slot : ℕ → ℕ → Bool × ℕ
acquire_llm_slot max_calls active =
    if leb max_calls active then (false, active) else (true, suc active)

-- `releaseLLMSlot`; only a caller that holds a slot releases one.
unfoldable pub release_llm_slot : ℕ → ℕ
release_llm_slot active = active - 1
