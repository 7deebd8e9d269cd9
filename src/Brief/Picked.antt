-- ===== src/Brief/Picked.antt =====
-- How many lines `pickLogLines` (brief.go) picks, and which.
use kubehealth.Prelude.{
  ◌≡◌, refl, ℕ, suc, min, ◌+◌, ◌-◌, ◌*◌, ◌/◌, ◌≤◌, ◌<◌, Bool, true, false, ◌&&◌, String, List, [],
  ◌∷◌, arith, leb, ltb, length, Bool-cases, inl, inr, if◌then◌else◌,
}
use kubehealth.Brief.{Marked, mark_errors, mark_recent, picked_lines, pick_log_lines}

-- How many lines of a list are error lines, and how many are picked.
abbrev pub errors : (String → Bool) → List String → ℕ
errors is_error [] = 0
errors is_error (l ∷ kept) = if is_error l then suc (errors is_error kept) else errors is_error kept

abbrev marks : List Marked → ℕ
marks [] = 0
marks ((l, b) ∷ kept) = if b then suc (marks kept) else marks kept

-- The picked lines that are error lines.
abbrev error_marks : (String → Bool) → List Marked → ℕ
error_marks is_error [] = 0
error_marks is_error ((l, b) ∷ kept) =
    if b && is_error l then suc (error_marks is_error kept) else error_marks is_error kept

module _ (is_error : String → Bool) where
  mark_errors_lem :
      (quota : ℕ) (kept : List String)
      → ((mark_errors is_error quota kept).1 ≡ min (errors is_error kept) quota)
        × (marks (mark_errors is_error quota kept).0 ≡ (mark_errors is_error quota kept).1)
        × (error_marks is_error (mark_errors is_error quota kept).0
            ≡ (mark_errors is_error quota kept).1)
        × (length (mark_errors is_error quota kept).0 ≡ length kept)
  unfolding mark_errors
  mark_errors_lem quota [] = (omega arith, refl, refl, refl)
  mark_errors_lem quota (l ∷ kept) =
      let ih = mark_errors_lem quota kept in
      elim (Bool-cases (is_error l)) [
        | inl e ↦ elim (Bool-cases (ltb (mark_errors is_error quota kept).1 quota)) [
          | inl f ↦
              rw (e, mark_errors, f)
                (ground (arith, ih), ground (arith, ih), ground (arith, ih, e), ground (arith, ih))
          | inr f ↦
              rw (e, mark_errors, f)
                (ground (arith, ih), ground (arith, ih), ground (arith, ih, e), ground (arith, ih))
        ]
        | inr e ↦
            rw (e, mark_errors)
              (ground (arith, ih), ground (arith, ih), ground (arith, ih, e), ground (arith, ih))
      ]

  mark_recent_lem :
      (limit picked : ℕ) (kept : List Marked)
      → picked ≤ limit
      → ((mark_recent limit picked kept).1 ≡ min limit (picked + (length kept - marks kept)))
        × (marks (mark_recent limit picked kept).0 + picked
            ≡ marks kept + (mark_recent limit picked kept).1)
        × (error_marks is_error kept ≤ error_marks is_error (mark_recent limit picked kept).0)
        × (marks kept ≤ length kept)
        × (picked ≤ (mark_recent limit picked kept).1)
  unfolding mark_recent
  mark_recent_lem limit picked [] le =
      (omega (arith, le), omega arith, omega arith, omega arith, omega arith)
  mark_recent_lem limit picked ((l, true) ∷ kept) le =
      let ih = mark_recent_lem limit picked kept le in
      elim (Bool-cases (ltb (mark_recent limit picked kept).1 limit)) [
        | inl f ↦
            rw (f, mark_recent)
              (
                ground (arith, ih),
                ground (arith, ih),
                ground (arith, ih),
                ground (arith, ih),
                ground (arith, ih),
              )
        | inr f ↦
            rw (f, mark_recent)
              (
                ground (arith, ih),
                ground (arith, ih),
                ground (arith, ih),
                ground (arith, ih),
                ground (arith, ih),
              )
      ]
  mark_recent_lem limit picked ((l, false) ∷ kept) le =
      let ih = mark_recent_lem limit picked kept le in
      elim (Bool-cases (ltb (mark_recent limit picked kept).1 limit)) [
        | inl f ↦
            rw (f, mark_recent)
              (
                ground (arith, ih),
                ground (arith, ih),
                ground (arith, ih),
                ground (arith, ih),
                ground (arith, ih),
              )
        | inr f ↦
            rw (f, mark_recent)
              (
                ground (arith, ih),
                ground (arith, ih),
                ground (arith, ih),
                ground (arith, ih),
                ground (arith, ih),
              )
      ]

  error_marks-picked :
      (kept : List Marked) → errors is_error (picked_lines kept) ≡ error_marks is_error kept
  unfolding picked_lines
  error_marks-picked [] = refl
  error_marks-picked ((l, true) ∷ kept) = ground (arith, error_marks-picked kept)
  error_marks-picked ((l, false) ∷ kept) = error_marks-picked kept

  length-picked_lines : (kept : List Marked) → length (picked_lines kept) ≡ marks kept
  unfolding picked_lines
  length-picked_lines [] = refl
  length-picked_lines ((l, true) ∷ kept) = omega (arith, length-picked_lines kept)
  length-picked_lines ((l, false) ∷ kept) = length-picked_lines kept

  -- Lines that fit are all kept; of more, exactly `limit` are picked, and of the error lines at least as
  -- many as there are or as two thirds of `limit`, whichever is less.
  pub pick_log_lines_lem :
      (kept : List String) (limit : ℕ)
      → (length kept ≤ limit → pick_log_lines is_error kept limit ≡ kept)
        × (limit < length kept → length (pick_log_lines is_error kept limit) ≡ limit)
        × (min (errors is_error kept) (limit * 2 / 3)
            ≤ errors is_error (pick_log_lines is_error kept limit))
  unfolding pick_log_lines
  pick_log_lines_lem kept limit = elim (Bool-cases (leb (length kept) limit)) [
    | inl f ↦ rw (f, pick_log_lines) ((λ _. refl), ground arith, omega arith)
    | inr f ↦
        let m = mark_errors_lem (limit * 2 / 3) kept in
        let r =
          mark_recent_lem limit (mark_errors is_error (limit * 2 / 3) kept).1
            (mark_errors is_error (limit * 2 / 3) kept).0 (omega (arith, m)) in
        rw (f, pick_log_lines, length-picked_lines, error_marks-picked)
          (ground arith, (λ gt. omega (arith, m, r, gt)), omega (arith, m, r))
  ]
