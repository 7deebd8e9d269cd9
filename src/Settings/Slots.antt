-- ===== src/Settings/Slots.antt =====
-- The bounds of settings.go: after every POST, and of the calls that run at once.
use kubehealth.Prelude.{
  ◌≡◌, refl, ap, subst, sym, ◌∙◌, ℕ, suc, ◌≤◌, Bool, true, false, Option, none, some, List, [], ◌∷◌,
  ◌++◌, arith, All, leb, Bool-cases, inl, inr, if◌then◌else◌,
}
use kubehealth.Prelude.Int.{ℤ, pos_part, neg_part}
use kubehealth.Settings.{
  Settings, Payload, clamp, is_given, follow, set_log_tail_lines, set_rca_max_iter,
  set_llm_max_calls, set_llm_timeout, post_settings, acquire_llm_slot, release_llm_slot,
}

-- A number from `lo` to `hi`.
abbrev pub IsBetween : ℕ → ℕ → ℤ → Type 0
IsBetween lo hi n = (neg_part n ≡ 0) × (lo ≤ pos_part n) × (pos_part n ≤ hi)

abbrev pub IsBounded : Settings → Type 0
IsBounded s =
    IsBetween 10 5000 s.log_tail_lines
    × IsBetween 1 20 s.rca_max_iter
    × IsBetween 1 10 s.llm_max_calls
    × IsBetween 1 60 s.llm_timeout

clamp-IsBetween : (lo hi : ℕ) (n : ℤ) → lo ≤ hi → IsBetween lo hi (clamp lo hi n)
unfolding clamp
clamp-IsBetween lo hi n le = ground arith

-- One value of a request: set within its bounds if it is given, and left as it was if not.
given_lem :
    (lo hi : ℕ) (n old : ℤ)
    → lo ≤ hi
    → IsBetween lo hi old
    → IsBetween lo hi (if is_given n then clamp lo hi n else old)
given_lem lo hi n old le h = elim (Bool-cases (is_given n)) [
  | inl g ↦ rw g (clamp-IsBetween lo hi n le)
  | inr g ↦ rw g h
]

-- The values after a request, one by one.
abbrev after_post : Payload → Settings → Settings
after_post p s = record {
  log_tail_lines =
      if is_given p.log_tail_lines then clamp 10 5000 p.log_tail_lines else s.log_tail_lines;
  rca_max_iter = if is_given p.rca_max_iter then clamp 1 20 p.rca_max_iter else s.rca_max_iter;
  llm_max_calls = if is_given p.llm_max_calls then clamp 1 10 p.llm_max_calls else s.llm_max_calls;
  llm_timeout = if is_given p.llm_timeout then clamp 1 60 p.llm_timeout else s.llm_timeout;
  emb_ctx_size = s.emb_ctx_size;
  link_follow = elim p.link_follow [ none ↦ s.link_follow | some b ↦ b ];
}

log_stage :
    (b : Bool) (n : ℤ) (s : Settings)
    → (if b then set_log_tail_lines n s else s)
      ≡ record s { log_tail_lines = if b then clamp 10 5000 n else s.log_tail_lines }
unfolding set_log_tail_lines
log_stage true n s = refl
log_stage false n s = refl

rca_stage :
    (b : Bool) (n : ℤ) (s : Settings)
    → (if b then set_rca_max_iter n s else s)
      ≡ record s { rca_max_iter = if b then clamp 1 20 n else s.rca_max_iter }
unfolding set_rca_max_iter
rca_stage true n s = refl
rca_stage false n s = refl

calls_stage :
    (b : Bool) (n : ℤ) (s : Settings)
    → (if b then set_llm_max_calls n s else s)
      ≡ record s { llm_max_calls = if b then clamp 1 10 n else s.llm_max_calls }
unfolding set_llm_max_calls
calls_stage true n s = refl
calls_stage false n s = refl

timeout_stage :
    (b : Bool) (n : ℤ) (s : Settings)
    → (if b then set_llm_timeout n s else s)
      ≡ record s { llm_timeout = if b then clamp 1 60 n else s.llm_timeout }
unfolding set_llm_timeout
timeout_stage true n s = refl
timeout_stage false n s = refl

follow_stage :
    (o : Option Bool) (s : Settings)
    → follow o s ≡ record s { link_follow = elim o [ none ↦ s.link_follow | some b ↦ b ] }
follow_stage none s = refl
follow_stage (some b) s = refl

post_parts : (p : Payload) (s : Settings) → post_settings p s ≡ after_post p s
unfolding post_settings
post_parts p s =
    let then_rca =
      λ (t : Settings). if is_given p.rca_max_iter then set_rca_max_iter p.rca_max_iter t else t in
    let then_calls = λ (t : Settings).
      if is_given p.llm_max_calls then set_llm_max_calls p.llm_max_calls t else t in
    let then_timeout =
      λ (t : Settings). if is_given p.llm_timeout then set_llm_timeout p.llm_timeout t else t in
    ap (λ t. follow p.link_follow (then_timeout (then_calls (then_rca t))))
      (log_stage (is_given p.log_tail_lines) p.log_tail_lines s)
    ∙ ap (λ t. follow p.link_follow (then_timeout (then_calls t)))
        (rca_stage (is_given p.rca_max_iter) p.rca_max_iter _)
    ∙ ap (λ t. follow p.link_follow (then_timeout t))
        (calls_stage (is_given p.llm_max_calls) p.llm_max_calls _)
    ∙ ap (follow p.link_follow) (timeout_stage (is_given p.llm_timeout) p.llm_timeout _)
    ∙ follow_stage p.link_follow _

after_post-IsBounded : (p : Payload) (s : Settings) → IsBounded s → IsBounded (after_post p s)
after_post-IsBounded p s (a, b, c, d) = (
  given_lem 10 5000 p.log_tail_lines s.log_tail_lines (omega arith) a,
  given_lem 1 20 p.rca_max_iter s.rca_max_iter (omega arith) b,
  given_lem 1 10 p.llm_max_calls s.llm_max_calls (omega arith) c,
  given_lem 1 60 p.llm_timeout s.llm_timeout (omega arith) d,
)

abbrev pub IsPosted : Payload → Settings → Settings → Type 0
IsPosted p s t =
    IsBounded t
    × (is_given p.log_tail_lines ≡ false → t.log_tail_lines ≡ s.log_tail_lines)
    × (is_given p.rca_max_iter ≡ false → t.rca_max_iter ≡ s.rca_max_iter)
    × (is_given p.llm_max_calls ≡ false → t.llm_max_calls ≡ s.llm_max_calls)
    × (is_given p.llm_timeout ≡ false → t.llm_timeout ≡ s.llm_timeout)
    × (p.link_follow ≡ none → t.link_follow ≡ s.link_follow)

-- What a request sets stays within its bounds, and what it leaves out, or gives as no positive number,
-- stays as it was.
pub post_settings-IsBounded :
    (p : Payload) (s : Settings) → IsBounded s → IsPosted p s (post_settings p s)
post_settings-IsBounded p s h = subst (IsPosted p s) (sym (post_parts p s)) (
  after_post-IsBounded p s h,
  (λ q. rw q refl),
  (λ q. rw q refl),
  (λ q. rw q refl),
  (λ q. rw q refl),
  λ q. rw q refl,
)

-- The setting, the calls that run, the maxima that callers have read and not used yet, and how many
-- callers hold a slot.
pub record Calls : Type 0 where
  pub max_calls : ℤ
  pub active : ℕ
  pub reads : List ℕ
  pub held : ℕ

-- The steps, in any order: a change of the setting, a caller that reads it, any caller that has read it and
-- now tries to take a slot, and one that gives its slot back.
pub data Step : Calls → Calls → Type 0 where
  change : (n : ℤ) (c : Calls) → Step c (record c { max_calls = clamp 1 10 n })
  read : (c : Calls) → Step c (record c { reads = pos_part c.max_calls ∷ c.reads })
  acquire :
      (seen : ℕ) (before after : List ℕ) (c : Calls)
      → c.reads ≡ before ++ seen ∷ after
      → Step c (record c {
        active = (acquire_llm_slot seen c.active).1;
        reads = before ++ after;
        held = if (acquire_llm_slot seen c.active).0 then suc c.held else c.held;
      })
  release :
      (h : ℕ) (c : Calls)
      → c.held ≡ suc h
      → Step c (record c { active = release_llm_slot c.active; held = h })

pub data Steps : Calls → Calls → Type 0 where
  start : (c : Calls) → Steps c c
  next : (c d e : Calls) → Steps c d → Step d e → Steps c e

abbrev pub IsKept : Calls → Type 0
IsKept c =
    (c.active ≡ c.held) × (c.active ≤ 10) × IsBetween 1 10 c.max_calls × All (λ n. n ≤ 10) c.reads

-- What holds of all members holds of one between the others, and of the others.
All-without :
    {A : Type 0} (P : A → Type 0) (x : A) (before after : List A)
    → All P (before ++ x ∷ after)
    → P x × All P (before ++ after)
All-without P x [] after (p, rest) = (p, rest)
All-without P x (y ∷ before) after (p, rest) =
    let (q, others) = All-without P x before after rest in (q, (p, others))

Step-IsKept : (c d : Calls) → Step c d → IsKept c → IsKept d
unfolding acquire_llm_slot release_llm_slot
Step-IsKept _ _ (change n c) (a, b, m, r) = (a, b, clamp-IsBetween 1 10 n (omega arith), r)
Step-IsKept _ _ (read c) (a, b, m, r) = (a, b, m, (m.2, r))
Step-IsKept _ _ (acquire seen before after c e) (a, b, m, r) =
    let (le, all) = All-without (λ n. n ≤ 10) seen before after (subst (All (λ n. n ≤ 10)) e r) in
    elim (Bool-cases (leb seen c.active)) [
      | inl full ↦ rw (full, acquire_llm_slot) (a, b, m, all)
      | inr free ↦ rw (free, acquire_llm_slot) (omega (arith, a), ground (arith, le), m, all)
    ]
Step-IsKept _ _ (release h c e) (a, b, m, r) = (omega (arith, a, e), omega (arith, b), m, r)

-- However the setting changes and callers interleave, `active` is the number of callers that hold a slot,
-- and never more than ten, the largest value of the setting.
pub Steps-IsKept : (c d : Calls) → Steps c d → IsKept c → IsKept d
Steps-IsKept c d (start _) h = h
Steps-IsKept c d (next _ m _ p q) h = Step-IsKept m d q (Steps-IsKept c m p h)
