-- ===== src/Problems/Patterns/Union.antt =====
-- The union-find of `groupPatterns` (problems.go). The slice `parent` is a function of the index.
pub mod Roots
pub mod Joined
use kubehealth.Prelude.{ℕ, zero, suc, List, [], ◌∷◌, ◌==◌, if◌then◌else◌}

-- `parent[x] = v`
abbrev pub set : (ℕ → ℕ) → ℕ → ℕ → ℕ → ℕ
set parent x v y = if y == x then v else parent y

-- Every problem is its own parent.
unfoldable pub start : ℕ → ℕ
start x = x

-- `find`, with path halving; the fuel bounds the rounds of its loop.
unfoldable pub find_root : ℕ → (ℕ → ℕ) → ℕ → ℕ × (ℕ → ℕ)
find_root zero parent x = (x, parent)
find_root (suc fuel) parent x =
    let halved = set parent x (parent (parent x)) in
    let rest = find_root fuel halved (halved x) in if parent x == x then (x, parent) else rest

-- `parent[find(a)] = find(b)`
unfoldable pub union : ℕ → (ℕ → ℕ) → ℕ → ℕ → (ℕ → ℕ)
unfolding find_root
union fuel parent a b =
    let (ra, parent1) = find_root fuel parent a in
    let (rb, parent2) = find_root fuel parent1 b in set parent2 ra rb

unfoldable pub unite : ℕ → (ℕ → ℕ) → List (ℕ × ℕ) → (ℕ → ℕ)
unfolding union
unite fuel parent [] = parent
unite fuel parent ((a, b) ∷ links) = unite fuel (union fuel parent a b) links
