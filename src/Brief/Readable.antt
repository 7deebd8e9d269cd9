-- ===== src/Brief/Readable.antt =====
-- The log lines worth reading: `readableLogLines` and `interestingLogLines` (brief.go). Parameters: the
-- matches of `stackFrameRe` and of `logErrorRe`.
use Prim.Native.Char.{code}
use Prim.Native.String.{[] as empty, ◌∷◌ as cons}
use kubehealth.Prelude.{Bool, not, ◌&&◌, ◌||◌, String, List, keep, map, ◌==◌, str_eq, if◌then◌else◌}
use kubehealth.Prelude.Lines.{split_lines, has_prefix}
use kubehealth.Problems.Words.{trim_space, truncate}

pub record LogMatch : Type 0 where
  pub is_stack_frame : String → Bool
  pub is_error : String → Bool

-- `strings.TrimRight(l, " \t")`
trim_blanks : String → String
trim_blanks empty = ""
trim_blanks (cons c s) =
    let rest = trim_blanks s in
    if (code c == 32 || code c == 9) && str_eq rest "" then "" else cons c rest

unfoldable pub is_readable : LogMatch → String → Bool
unfolding trim_space has_prefix
is_readable m l = not (
    str_eq (trim_space l) ""
    || (m.is_stack_frame l || (has_prefix l "===" || has_prefix l "[previous container run]")))

-- `readableLogLines`
unfoldable pub readable_log_lines : LogMatch → String → List String
unfolding is_readable trim_blanks truncate split_lines
readable_log_lines m logs =
    map (λ l. truncate (trim_blanks l) 200) (keep (is_readable m) (split_lines logs))
