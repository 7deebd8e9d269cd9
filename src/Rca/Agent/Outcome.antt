-- ===== src/Rca/Agent/Outcome.antt =====
-- What ends a run of the agent (rca.go), and what is written of it.
use kubehealth.Prelude.{
  Bool, true, none, some, eq_iff, text_of, decimal, ◌≡◌, refl, sym, ◌∙◌, subst, ◌⊎◌, inl, inr, ℕ,
  false, String, List, [], ◌∷◌, ◌++◌, arith, Option-cases,
}
use kubehealth.Rca.Agent.{
  clean_lm_response, overflow_text, content_of, tool_msg, Msg, RunStatus, RcaState, ToolCall, Reply,
  Asked, World, Agent, call_step, call_steps, last_request, is_concluded,
}

-- The text that the model's last reply had, without its thoughts; none if its content was no text.
abbrev pub IsConclusion : Reply → String → Type 0
IsConclusion r result =
    ((s : String) × (r.message.content ≡ some s) × (result ≡ clean_lm_response s))
    ⊎ ((r.message.content ≡ none) × (result ≡ ""))

-- The model replied with calls of no tools, or said that it stops, or was asked with no tools.
abbrev pub IsLast : Bool → Reply → Type 0
IsLast tools r = (r.message.tool_calls ≡ []) ⊎ ((r.finish_reason ≡ "stop") ⊎ (tools ≡ false))

-- The answer of the model that ends a run, and what is written of it: the error of a failed answer with
-- the round, or with the note that it was the last request; the text on the context, or the detail, where
-- the conversation does not fit; or the conclusion.
abbrev pub IsEndedBy : World → Bool → Asked → RcaState → RcaState → Type 0
IsEndedBy w tools (Asked.replied r) before after =
    IsLast tools r
    × (after.status ≡ RunStatus.done)
    × IsConclusion r after.result
    × (after.err ≡ before.err)
    × (after.error_type ≡ before.error_type)
IsEndedBy w tools (Asked.failed e) before after =
    (after.status ≡ RunStatus.error)
    × (after.result ≡ before.result)
    × (after.error_type ≡ before.error_type)
    × (((n : ℕ) × (after.err ≡ text_of ("iter " ∷ decimal n ∷ ": " ∷ e ∷ [])))
        ⊎ ((tools ≡ false) × (after.err ≡ text_of ("final conclusion: " ∷ e ∷ []))))
IsEndedBy w tools (Asked.overflow d) before after =
    (after.status ≡ RunStatus.error)
    × (after.result ≡ before.result)
    × (((after.error_type ≡ "context_overflow") × (after.err ≡ overflow_text w.loaded))
        ⊎ ((tools ≡ false)
            × (after.error_type ≡ before.error_type)
            × (after.err ≡ text_of ("final conclusion: context window exceeded: " ∷ d ∷ []))))

-- The conversations of a run that begins with `first`: each reply of the model, each answer of a tool to the
-- conversation before it, and the last request are added at the end.
pub data Talk (w : World) (first : List Msg) : List Msg → Type 0 where
  begun : Talk w first first
  heard :
      (msgs : List Msg) (tools : Bool) (r : Reply)
      → Talk w first msgs
      → w.ask msgs tools ≡ Asked.replied r
      → Talk w first (msgs ++ r.message ∷ [])
  told :
      (msgs : List Msg) (tc : ToolCall)
      → Talk w first msgs
      → Talk w first (msgs ++ tool_msg tc (w.call_tool msgs tc) ∷ [])
  hurried : (msgs : List Msg) → Talk w first msgs → Talk w first (msgs ++ last_request ∷ [])

-- The run is over, by an answer that the model gave to one of its conversations.
abbrev pub IsEnded : World → List Msg → RcaState → RcaState → Type 0
IsEnded w first before after =
    (msgs : List Msg) × ((tools : Bool) × Talk w first msgs
      × IsEndedBy w tools (w.ask msgs tools) before after)

pub content-cases : (r : Reply) → IsConclusion r (content_of r.message)
content-cases r = elim (Option-cases r.message.content) [
  | inl e ↦ inr (e, rw (e, content_of) refl)
  | inr (s, e) ↦ inl (s, e, rw (e, content_of) refl)
]

pub is_concluded-IsLast : (tools : Bool) (r : Reply) → is_concluded r ≡ true → IsLast tools r
is_concluded-IsLast tools r h = below r.message.tool_calls refl
  where
    below : (calls : List ToolCall) → r.message.tool_calls ≡ calls → IsLast tools r
    below [] e = inl e
    below (c ∷ calls) e =
        inr (inl ((eq_iff r.finish_reason "stop").0 (ground (arith, rw (e, is_concluded) at h))))

-- Neither an error nor a result was written.
abbrev pub IsQuiet : RcaState → RcaState → Type 0
IsQuiet s t = (t.err ≡ s.err) × (t.error_type ≡ s.error_type) × (t.result ≡ s.result)

IsQuiet-IsEndedBy :
    (w : World) (tools : Bool) (x : Asked) (s t r : RcaState)
    → IsQuiet s t
    → IsEndedBy w tools x t r
    → IsEndedBy w tools x s r
IsQuiet-IsEndedBy w tools (Asked.replied _) s t r q (l, a, b, c, d) = (l, a, b, c ∙ q.0, d ∙ q.1)
IsQuiet-IsEndedBy w tools (Asked.failed _) s t r q (a, b, c, d) = (a, b ∙ q.2, c ∙ q.1, d)
IsQuiet-IsEndedBy w tools (Asked.overflow _) s t r q (a, b, inl c) = (a, b ∙ q.2, inl c)
IsQuiet-IsEndedBy w tools (Asked.overflow _) s t r q (a, b, inr (l, c, d)) =
    (a, b ∙ q.2, inr (l, c ∙ q.1, d))

pub IsQuiet-IsEnded :
    (w : World) (first : List Msg) (s t r : RcaState)
    → IsQuiet s t
    → IsEnded w first t r
    → IsEnded w first s r
IsQuiet-IsEnded w first s t r q (msgs, (tools, talk, h)) =
    (msgs, (tools, talk, IsQuiet-IsEndedBy w tools (w.ask msgs tools) s t r q h))

-- One answer to a conversation ends the run.
pub answered :
    (w : World) (first msgs : List Msg) (tools : Bool)
    → Talk w first msgs
    → (x : Asked) (s t : RcaState) → w.ask msgs tools ≡ x
    → IsEndedBy w tools x s t
    → IsEnded w first s t
answered w first msgs tools talk x s t e h =
    (msgs, (tools, talk, subst (λ y. IsEndedBy w tools y s t) (sym e) h))

pub call_steps-Talk :
    (w : World) (first : List Msg) (n : ℕ) (a : Agent) (calls : List ToolCall)
    → Talk w first a.msgs
    → Talk w first (call_steps w n a calls).msgs
unfolding call_steps call_step
call_steps-Talk w first n a [] talk = talk
call_steps-Talk w first n a (tc ∷ calls) talk =
    call_steps-Talk w first n (call_step w n a tc) calls (Talk.told a.msgs tc talk)
