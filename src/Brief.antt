-- ===== src/Brief.antt =====
-- The morning brief (brief.go): which log lines its prompt gets.
-- Parameter: `is_error`, the match of `logErrorRe`.
pub mod Picked
pub mod Notes
pub mod Readable
pub mod Think
use kubehealth.Prelude.{
  ℕ, suc, ◌+◌, ◌*◌, ◌/◌, Bool, true, false, not, ◌&&◌, String, List, [], ◌∷◌, leb, ltb, length,
  if◌then◌else◌,
}

-- A line and whether it is picked; the whole list stands for `kept` and the map `pick`.
abbrev pub Marked : Type 0
Marked = String × Bool

-- The first loop, from the end: error lines, until there are `quota`. Also how many it has picked.
unfoldable pub mark_errors : (String → Bool) → ℕ → List String → List Marked × ℕ
mark_errors is_error quota [] = ([], 0)
mark_errors is_error quota (l ∷ kept) =
    let (rest, n) = mark_errors is_error quota kept in
    if is_error l && ltb n quota then ((l, true) ∷ rest, suc n) else ((l, false) ∷ rest, n)

-- The second loop, from the end: any lines, until `limit` are picked; `picked` have been before it.
unfoldable pub mark_recent : ℕ → ℕ → List Marked → List Marked × ℕ
mark_recent limit picked [] = ([], picked)
mark_recent limit picked ((l, b) ∷ kept) =
    let (rest, n) = mark_recent limit picked kept in
    if ltb n limit then ((l, true) ∷ rest, (if b then n else suc n)) else ((l, b) ∷ rest, n)

unfoldable pub picked_lines : List Marked → List String
picked_lines [] = []
picked_lines ((l, b) ∷ kept) = let rest = picked_lines kept in if b then l ∷ rest else rest

-- `pickLogLines`
unfoldable pub pick_log_lines : (String → Bool) → List String → ℕ → List String
unfolding mark_errors mark_recent picked_lines
pick_log_lines is_error kept limit =
    if leb (length kept) limit
    then kept
    else picked_lines
        (mark_recent limit (mark_errors is_error (limit * 2 / 3) kept).1
          (mark_errors is_error (limit * 2 / 3) kept).0).0
