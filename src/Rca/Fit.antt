-- ===== src/Rca/Fit.antt =====
-- How a first prompt is cut to the context of the model (rca.go): `promptBudget` and `fit`, with Go's
-- binary search `sort.Search`.
pub mod Search
pub mod Budget
use kubehealth.Prelude.{
  ℕ, zero, suc, ◌+◌, ◌-◌, ◌*◌, ◌/◌, max, Bool, true, false, not, ◌||◌, String, Option, none, some,
  length, ltb, leb, ◌==◌, str_eq, if◌then◌else◌,
}
use kubehealth.Prelude.Int.{ℤ, pos, negsuc}
use kubehealth.Tokens.{Estimate, estimate_tokens}
use kubehealth.Brief.Readable.{LogMatch}
use kubehealth.Rca.Evidence.{Evidence, log_lines, render}

-- `promptBudget`; `promptShare` is 60.
unfoldable pub prompt_budget : ℤ → ℕ → ℕ
prompt_budget (pos zero) overhead = 0
prompt_budget (pos (suc n)) overhead = max (suc n * 60 / 100 - overhead) 1
prompt_budget (negsuc n) overhead = 0

-- The loop of `sort.Search`: each round halves what is between `i` and `j`.
unfoldable pub search_loop : ℕ → (ℕ → Bool) → ℕ → ℕ → ℕ
search_loop zero f i j = i
search_loop (suc fuel) f i j = elim (ltb i j) [
  | false ↦ i
  | true ↦ elim (f ((i + j) / 2)) [
    | false ↦ search_loop fuel f ((i + j) / 2 + 1) j
    | true ↦ search_loop fuel f i ((i + j) / 2)
  ]
]

-- `sort.Search(n, f)`; `n` is fuel enough.
unfoldable pub sort_search : ℕ → (ℕ → Bool) → ℕ
unfolding search_loop
sort_search n f = search_loop (suc n) f 0 n

-- `most` of `fit`: `-` stops at 0, as its `max` does.
unfoldable pub most : ℕ → (ℕ → Bool) → ℕ
unfolding sort_search
most total ok = sort_search (total + 1) (λ n. not (ok n)) - 1

module _ (t : Estimate) (m : LogMatch) (e : Evidence) (budget : ℕ) where
  unfoldable pub fits : ℕ → ℕ → Option ℕ → Bool
  fits ev mem lines = leb (estimate_tokens t (render m e ev mem lines)) budget

  fit_events : ℕ → Option ℕ → String
  fit_events mem lines = render m e (most (length e.events) (λ n. fits n mem lines)) mem lines

  fit_members : Option ℕ → String
  unfolding fit_events
  fit_members lines =
      let mem = most (length e.members) (λ n. fits (length e.events) n lines) in
      if fits (length e.events) mem lines
      then render m e (length e.events) mem lines
      else fit_events mem lines

  fit_logs : String
  unfolding fit_members
  fit_logs =
      let lines =
        most (length (log_lines m e).1) (λ n. fits (length e.events) (length e.members) (some n)) in
      if fits (length e.events) (length e.members) (some lines)
      then render m e (length e.events) (length e.members) (some lines)
      else fit_members (some lines)

  -- `fit`
  unfoldable pub fit : String
  unfolding fit_logs fit_members
  fit =
      let full = render m e (length e.events) (length e.members) none in
      if (budget == 0) || leb (estimate_tokens t full) budget
      then full
      else if str_eq e.logs ""
      then fit_members none
      else fit_logs
