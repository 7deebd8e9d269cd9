-- ===== src/Linked/Distance.antt =====
-- `editDistance` of linked.go: the rows of the table, from the first texts' prefixes on.
pub mod Least
use kubehealth.Prelude.{
  ℕ, zero, suc, ◌+◌, min, Bool, String, List, [], ◌∷◌, ◌==◌, length, if◌then◌else◌,
}
use kubehealth.Prelude.Bytes.{bytes_of}

-- `prev[j] = j` for the positions from `j` on.
unfoldable pub first_row : ℕ → List ℕ → List ℕ
first_row j [] = j ∷ []
first_row j (y ∷ ys) = j ∷ first_row (suc j) ys

abbrev pub cost : ℕ → ℕ → ℕ
cost x y = if x == y then 0 else 1

-- The inner loop: `left` is `cur[j-1]` and `above` is `prev[j-1]`.
unfoldable pub row_after : ℕ → ℕ → ℕ → List ℕ → List ℕ → List ℕ
row_after x left above [] prev = []
row_after x left above (y ∷ ys) [] = []
row_after x left above (y ∷ ys) (p ∷ prev) =
    let cell = min (min (p + 1) (left + 1)) (above + cost x y) in cell ∷ row_after x cell p ys prev

-- One round of the outer loop.
unfoldable pub next_row : ℕ → ℕ → List ℕ → List ℕ → List ℕ
next_row x i ys [] = []
next_row x i ys (p ∷ prev) = i ∷ row_after x i p ys prev

-- The outer loop, with `i` bytes done.
unfoldable pub last_row : ℕ → List ℕ → List ℕ → List ℕ → List ℕ
last_row i [] ys prev = prev
last_row i (x ∷ xs) ys prev = last_row (suc i) xs ys (next_row x (suc i) ys prev)

-- `prev[n]`
unfoldable pub cell_at : ℕ → List ℕ → ℕ
cell_at n [] = 0
cell_at zero (c ∷ row) = c
cell_at (suc n) (c ∷ row) = cell_at n row

unfoldable pub byte_distance : List ℕ → List ℕ → ℕ
byte_distance xs ys = cell_at (length ys) (last_row 0 xs ys (first_row 0 ys))

-- `editDistance`
unfoldable pub edit_distance : String → String → ℕ
edit_distance a b = byte_distance (bytes_of a) (bytes_of b)
