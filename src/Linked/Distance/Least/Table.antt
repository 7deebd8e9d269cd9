-- ===== src/Linked/Distance/Least/Table.antt =====
-- Every cell of the table of `editDistance` (linked.go) is the least number of edits for its prefixes.
use mathlib.Core.List.{append-nil}
use kubehealth.Prelude.{
  ◌≡◌, refl, sym, ap, ◌∙◌, ℕ, suc, ◌+◌, ◌≤◌, min, String, List, [], ◌∷◌, ◌++◌, arith, length, subst,
  Nowhere,
}
use kubehealth.Prelude.Bytes.{bytes_of}
use kubehealth.Linked.Distance.{
  first_row, cost, row_after, next_row, last_row, cell_at, byte_distance, edit_distance,
}
use kubehealth.Linked.Distance.Least.{
  Edit, kept, changed, inserted, removed, source, target, edits, IsLeast, IsLeast-insert,
  IsLeast-remove, IsLeast-step,
}

-- The cells of a row from one on: for the bytes `xs` against `ys`, then against one more of `more`, and so
-- on. Both are read from the last byte to the first.
abbrev IsRow : List ℕ → List ℕ → List ℕ → List ℕ → Type 0
IsRow xs ys more [] = Nowhere
IsRow xs ys [] (c ∷ row) = IsLeast c xs ys
IsRow xs ys (y ∷ more) (c ∷ row) = IsLeast c xs ys × IsRow xs (y ∷ ys) more row

-- `ys` after the bytes of `more`, from the last to the first.
abbrev onto : List ℕ → List ℕ → List ℕ
onto [] ys = ys
onto (y ∷ more) ys = onto more (y ∷ ys)

first_row-IsRow : (j : ℕ) (ys more : List ℕ) → j ≡ length ys → IsRow [] ys more (first_row j more)
unfolding first_row
first_row-IsRow j ys [] h = subst (λ n. IsLeast n [] ys) (sym h) (IsLeast-insert ys)
first_row-IsRow j ys (y ∷ more) h = (
  subst (λ n. IsLeast n [] ys) (sym h) (IsLeast-insert ys),
  first_row-IsRow (suc j) (y ∷ ys) more (ap suc h),
)

row_after-IsRow :
    (x left above : ℕ) (xs ys more prev : List ℕ)
    → IsLeast left (x ∷ xs) ys
    → IsRow xs ys more (above ∷ prev)
    → IsRow (x ∷ xs) ys more (left ∷ row_after x left above more prev)
unfolding row_after
row_after-IsRow x left above xs ys [] prev l r = l
row_after-IsRow x left above xs ys (y ∷ more) [] l r = elim r.1 [ ]
row_after-IsRow x left above xs ys (y ∷ []) (p ∷ prev) l r = (l, IsLeast-step x y r.1 l r.0)
row_after-IsRow x left above xs ys (y ∷ z ∷ more) (p ∷ prev) l r = (
  l,
  row_after-IsRow x (min (min (p + 1) (left + 1)) (above + cost x y)) p xs (y ∷ ys) (z ∷ more) prev
      (IsLeast-step x y r.1.0 l r.0) r.1,
)

next_row-IsRow :
    (x i : ℕ) (xs more prev : List ℕ)
    → i ≡ length xs
    → IsRow xs [] more prev
    → IsRow (x ∷ xs) [] more (next_row x (suc i) more prev)
unfolding next_row
next_row-IsRow x i xs more [] h r = elim r [ ]
next_row-IsRow x i xs more (p ∷ prev) h r =
    row_after-IsRow x (suc i) p xs [] more prev
      (subst (λ n. IsLeast n (x ∷ xs) []) (ap suc (sym h)) (IsLeast-remove (x ∷ xs))) r

last_row-IsRow :
    (i : ℕ) (todo xs more prev : List ℕ)
    → i ≡ length xs
    → IsRow xs [] more prev
    → IsRow (onto todo xs) [] more (last_row i todo more prev)
unfolding last_row
last_row-IsRow i [] xs more prev h r = r
last_row-IsRow i (x ∷ todo) xs more prev h r =
    last_row-IsRow (suc i) todo (x ∷ xs) more (next_row x (suc i) more prev) (ap suc h)
      (next_row-IsRow x i xs more prev h r)

cell_at-IsLeast :
    (xs ys more row : List ℕ)
    → IsRow xs ys more row
    → IsLeast (cell_at (length more) row) xs (onto more ys)
unfolding cell_at
cell_at-IsLeast xs ys more [] r = elim r [ ]
cell_at-IsLeast xs ys [] (c ∷ row) r = r
cell_at-IsLeast xs ys (y ∷ more) (c ∷ row) r = cell_at-IsLeast xs (y ∷ ys) more row r.1

-- A script read backwards.
abbrev backwards : List Edit → List Edit → List Edit
backwards [] t = t
backwards (e ∷ s) t = backwards s (e ∷ t)

source-backwards : (s t : List Edit) → source (backwards s t) ≡ onto (source s) (source t)
source-backwards [] t = refl
source-backwards (kept x ∷ s) t = source-backwards s (kept x ∷ t)
source-backwards (changed x y ∷ s) t = source-backwards s (changed x y ∷ t)
source-backwards (inserted y ∷ s) t = source-backwards s (inserted y ∷ t)
source-backwards (removed x ∷ s) t = source-backwards s (removed x ∷ t)

target-backwards : (s t : List Edit) → target (backwards s t) ≡ onto (target s) (target t)
target-backwards [] t = refl
target-backwards (kept x ∷ s) t = target-backwards s (kept x ∷ t)
target-backwards (changed x y ∷ s) t = target-backwards s (changed x y ∷ t)
target-backwards (inserted y ∷ s) t = target-backwards s (inserted y ∷ t)
target-backwards (removed x ∷ s) t = target-backwards s (removed x ∷ t)

edits-backwards : (s t : List Edit) → edits (backwards s t) ≡ edits s + edits t
edits-backwards [] t = omega arith
edits-backwards (kept x ∷ s) t = edits-backwards s (kept x ∷ t)
edits-backwards (changed x y ∷ s) t = omega (arith, edits-backwards s (changed x y ∷ t))
edits-backwards (inserted y ∷ s) t = omega (arith, edits-backwards s (inserted y ∷ t))
edits-backwards (removed x ∷ s) t = omega (arith, edits-backwards s (removed x ∷ t))

onto-onto : (xs ys zs : List ℕ) → onto (onto xs ys) zs ≡ onto ys (xs ++ zs)
onto-onto [] ys zs = refl
onto-onto (x ∷ xs) ys zs = onto-onto xs (x ∷ ys) zs

twice : (xs : List ℕ) → onto (onto xs []) [] ≡ xs
twice xs = onto-onto xs [] [] ∙ append-nil xs

byte_distance-IsLeast : (xs ys : List ℕ) → IsLeast (byte_distance xs ys) (onto xs []) (onto ys [])
unfolding byte_distance
byte_distance-IsLeast xs ys =
    cell_at-IsLeast (onto xs []) [] ys (last_row 0 xs ys (first_row 0 ys))
      (last_row-IsRow 0 xs [] ys (first_row 0 ys) refl (first_row-IsRow 0 [] ys refl))

-- Lists of edits are the same read from either end.
IsLeast-onto : (d : ℕ) (xs ys : List ℕ) → IsLeast d (onto xs []) (onto ys []) → IsLeast d xs ys
IsLeast-onto d xs ys r = record {
  script = backwards r.script [];
  is_script = record {
    from = source-backwards r.script [] ∙ ap (λ l. onto l []) r.is_script.from ∙ twice xs;
    to = target-backwards r.script [] ∙ ap (λ l. onto l []) r.is_script.to ∙ twice ys;
    size = edits-backwards r.script [] ∙ omega (arith, r.is_script.size);
  };
  least = λ s h k. omega (
    arith,
    edits-backwards s [],
    r.least (backwards s []) (source-backwards s [] ∙ ap (λ l. onto l []) h)
        (target-backwards s [] ∙ ap (λ l. onto l []) k),
  );
}

-- The distance of two texts is the number of edits of some list of insertions, removals and changes of
-- bytes that makes the second of the first, and no such list has fewer edits.
pub edit_distance_lem :
    (a b : String) (s : List Edit)
    → source s ≡ bytes_of a
    → target s ≡ bytes_of b
    → (edit_distance a b ≤ edits s)
      × ((best : List Edit) × (source best ≡ bytes_of a)
          × (target best ≡ bytes_of b)
          × (edits best ≡ edit_distance a b))
unfolding edit_distance
edit_distance_lem a b s h k =
    let r =
      IsLeast-onto _ (bytes_of a) (bytes_of b) (byte_distance-IsLeast (bytes_of a) (bytes_of b)) in
    (r.least s h k, (r.script, r.is_script.from, r.is_script.to, r.is_script.size))
