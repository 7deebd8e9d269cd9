-- ===== src/Rca/Fit/Budget.antt =====
-- What `fit` (rca.go) gives up of the evidence, and in which order.
use kubehealth.Prelude.{
  ◌≡◌, refl, sym, ap, ◌∙◌, subst, ◌⊎◌, inl, inr, ℕ, ◌≤◌, true, ◌||◌, String, Option, none, some,
  arith, leb, ◌==◌, str_eq, length, Bool-cases, if◌then◌else◌,
}
use kubehealth.Tokens.{Estimate, estimate_tokens, fits_or, or_fits}
use kubehealth.Brief.Readable.{LogMatch}
use kubehealth.Rca.Evidence.{Evidence, log_lines, render}
use kubehealth.Rca.Fit.{most, fits, fit, fit_logs, fit_members, fit_events}
use kubehealth.Rca.Fit.Search.{most_lem}

-- The fewest log lines: none, or as there are no logs, nothing to count.
abbrev pub fewest : Evidence → Option ℕ
fewest e = if str_eq e.logs "" then none else some 0

module _ (t : Estimate) (m : LogMatch) (e : Evidence) (budget : ℕ) (least : Option ℕ) where
  -- The prompt has these events, members and log lines: members are given up only where no log line is
  -- left, and events only where no member is left, and then only if that is still too long.
  abbrev pub IsFitted : String → ℕ → ℕ → Option ℕ → Type 0
  IsFitted text ev mem lines =
      (text ≡ render m e ev mem lines)
      × (ev ≤ length e.events)
      × (mem ≤ length e.members)
      × ((mem ≡ length e.members) ⊎ (lines ≡ least))
      × ((ev ≡ length e.events) ⊎ ((mem ≡ 0) × (lines ≡ least)))
      × ((budget ≡ 0)
          ⊎ ((estimate_tokens t text ≤ budget) ⊎ ((ev ≡ 0) × (mem ≡ 0) × (lines ≡ least))))

  abbrev HasFitted : String → Type 0
  HasFitted text = (ev : ℕ) × (mem : ℕ) × (lines : Option ℕ) × IsFitted text ev mem lines

  fits_lem :
      (ev mem : ℕ) (lines : Option ℕ)
      → fits t m e budget ev mem lines ≡ true
      → estimate_tokens t (render m e ev mem lines) ≤ budget
  unfolding fits
  fits_lem ev mem lines h = ground (arith, h)

  fit_events_lem : (mem : ℕ) → mem ≡ 0 → HasFitted (fit_events t m e budget mem least)
  unfolding fit_events
  fit_events_lem mem z =
      let h = most_lem (length e.events) (λ n. fits t m e budget n mem least) in
      (
        _,
        mem,
        least,
        (
          refl,
          h.0,
          omega (arith, z),
          inr refl,
          inr (z, refl),
          inr (elim h.1 [
            | inl none_left ↦ inr (none_left, z, refl)
            | inr f ↦ inl (fits_lem _ mem least f)
          ]),
        ),
      )

  fit_members_lem : HasFitted (fit_members t m e budget least)
  unfolding fit_members
  fit_members_lem =
      let h = most_lem (length e.members) (λ n. fits t m e budget (length e.events) n least) in
      elim (Bool-cases (
        fits t m e budget (length e.events)
          (most (length e.members) (λ n. fits t m e budget (length e.events) n least)) least)) [
            | inl f ↦
                rw (fit_members, f)
                  (
                    _,
                    _,
                    least,
                    (refl, omega arith, h.0, inr refl, inl refl, inr (inl (fits_lem _ _ least f))),
                  )
            | inr g ↦
                rw (fit_members, g)
                  (fit_events_lem _
                    (elim h.1 [ inl z ↦ z | inr f ↦ absurd (ground (arith, f, g)) ]))
          ]

  fit_logs_lem : least ≡ some 0 → HasFitted (fit_logs t m e budget)
  unfolding fit_logs
  fit_logs_lem z =
      let n =
        most (length (log_lines m e).1)
          (λ n. fits t m e budget (length e.events) (length e.members) (some n)) in
      let h =
        most_lem (length (log_lines m e).1)
          (λ n. fits t m e budget (length e.events) (length e.members) (some n)) in
      elim (Bool-cases (fits t m e budget (length e.events) (length e.members) (some n))) [
        | inl f ↦
            rw (fit_logs, f)
              (
                _,
                _,
                some n,
                (
                  refl,
                  omega arith,
                  omega arith,
                  inl refl,
                  inl refl,
                  inr (inl (fits_lem _ _ (some n) f)),
                ),
              )
        | inr g ↦
            rw (fit_logs, g)
              (subst (λ (l : Option ℕ). HasFitted (fit_members t m e budget l))
                (z
                  ∙ ap some (elim h.1 [
                    | inl none_left ↦ sym none_left
                    | inr f ↦ absurd (ground (arith, f, g))
                  ]))
                fit_members_lem)
      ]

-- The prompt is within the budget, or there is none, or all is given up that may be. Log lines go
-- first, then members, then events; a prompt that fits as it is is not touched.
pub fit_lem :
    (t : Estimate) (m : LogMatch) (e : Evidence) (budget : ℕ)
    → ((ev : ℕ) × (mem : ℕ) × (lines : Option ℕ) × IsFitted t m e budget
          (fewest e)
          (fit t m e budget)
          ev
          mem
          lines)
      × ((budget ≡ 0)
            ⊎ (estimate_tokens t (render m e (length e.events) (length e.members) none) ≤ budget)
          → fit t m e budget ≡ render m e (length e.events) (length e.members) none)
unfolding fit
fit_lem t m e budget =
    let full = estimate_tokens t (render m e (length e.events) (length e.members) none) in
    (
      elim (Bool-cases ((budget == 0) || leb full budget)) [
        | inl f ↦
            rw (fit, f)
              (_, _, none, (refl, omega arith, omega arith, inl refl, inl refl, fits_or _ _ f))
        | inr f ↦ elim (Bool-cases (str_eq e.logs "")) [
          | inl g ↦ rw (fit, f, g) (fit_members_lem t m e budget none)
          | inr g ↦ rw (fit, f, g) (fit_logs_lem t m e budget (some 0) refl)
        ]
      ],
      λ le. rw (fit, or_fits _ _ le) refl,
    )
