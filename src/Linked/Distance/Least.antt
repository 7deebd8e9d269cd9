-- ===== src/Linked/Distance/Least.antt =====
-- `editDistance` of linked.go is the least number of edits: insertions, removals and changes of bytes.
pub mod Table
use kubehealth.Prelude.{
  ◌≡◌, refl, sym, ap, ◌∙◌, ◌⊎◌, inl, inr, ℕ, zero, suc, ◌+◌, ◌≤◌, min, Bool, true, false, String,
  List, [], ◌∷◌, arith, ◌==◌, leb, length, subst, Bool-cases, if◌then◌else◌,
}
use kubehealth.Linked.Distance.{cost}

pub data Edit : Type 0 where
  kept : ℕ → Edit
  changed : ℕ → ℕ → Edit
  inserted : ℕ → Edit
  removed : ℕ → Edit

-- What a list of edits is for, from left to right.
abbrev pub source : List Edit → List ℕ
source [] = []
source (kept x ∷ s) = x ∷ source s
source (changed x y ∷ s) = x ∷ source s
source (inserted y ∷ s) = source s
source (removed x ∷ s) = x ∷ source s

-- What it makes.
abbrev pub target : List Edit → List ℕ
target [] = []
target (kept x ∷ s) = x ∷ target s
target (changed x y ∷ s) = y ∷ target s
target (inserted y ∷ s) = y ∷ target s
target (removed x ∷ s) = target s

-- How many of them are edits.
abbrev pub edits : List Edit → ℕ
edits [] = 0
edits (kept x ∷ s) = edits s
edits (changed x y ∷ s) = suc (edits s)
edits (inserted y ∷ s) = suc (edits s)
edits (removed x ∷ s) = suc (edits s)

pub record IsScript (n : ℕ) (xs ys : List ℕ) (s : List Edit) : Type 0 where
  pub from : source s ≡ xs
  pub to : target s ≡ ys
  pub size : edits s ≡ n

-- `d` is the least number of edits that make `ys` of `xs`.
pub record IsLeast (d : ℕ) (xs ys : List ℕ) : Type 0 where
  pub script : List Edit
  pub is_script : IsScript d xs ys script
  pub least : (s : List Edit) → source s ≡ xs → target s ≡ ys → d ≤ edits s

length-target : (s : List Edit) → source s ≡ [] → length (target s) ≤ edits s
length-target [] h = omega arith
length-target (kept x ∷ s) h = absurd (ground (arith, h))
length-target (changed x y ∷ s) h = absurd (ground (arith, h))
length-target (inserted y ∷ s) h = omega (arith, length-target s h)
length-target (removed x ∷ s) h = absurd (ground (arith, h))

length-source : (s : List Edit) → target s ≡ [] → length (source s) ≤ edits s
length-source [] h = omega arith
length-source (kept x ∷ s) h = absurd (ground (arith, h))
length-source (changed x y ∷ s) h = absurd (ground (arith, h))
length-source (inserted y ∷ s) h = absurd (ground (arith, h))
length-source (removed x ∷ s) h = omega (arith, length-source s h)

insert_all : List ℕ → List Edit
insert_all [] = []
insert_all (y ∷ ys) = inserted y ∷ insert_all ys

insert_all-IsScript : (ys : List ℕ) → IsScript (length ys) [] ys (insert_all ys)
unfolding insert_all
insert_all-IsScript [] = record { from = refl; to = refl; size = refl }
insert_all-IsScript (y ∷ ys) =
    let r = insert_all-IsScript ys in
    record { from = r.from; to = ap (λ l. y ∷ l) r.to; size = ap suc r.size }

-- Of nothing a list is made by inserting all of it.
pub IsLeast-insert : (ys : List ℕ) → IsLeast (length ys) [] ys
IsLeast-insert ys = record {
  script = insert_all ys;
  is_script = insert_all-IsScript ys;
  least = λ s h k. subst (λ l. length l ≤ edits s) k (length-target s h);
}

remove_all : List ℕ → List Edit
remove_all [] = []
remove_all (x ∷ xs) = removed x ∷ remove_all xs

remove_all-IsScript : (xs : List ℕ) → IsScript (length xs) xs [] (remove_all xs)
unfolding remove_all
remove_all-IsScript [] = record { from = refl; to = refl; size = refl }
remove_all-IsScript (x ∷ xs) =
    let r = remove_all-IsScript xs in
    record { from = ap (λ l. x ∷ l) r.from; to = r.to; size = ap suc r.size }

-- Nothing is made of a list by removing all of it.
pub IsLeast-remove : (xs : List ℕ) → IsLeast (length xs) xs []
IsLeast-remove xs = record {
  script = remove_all xs;
  is_script = remove_all-IsScript xs;
  least = λ s h k. subst (λ l. length l ≤ edits s) h (length-source s k);
}

abbrev Script : ℕ → List ℕ → List ℕ → Type 0
Script n xs ys = (s : List Edit) × IsScript n xs ys s

-- The shorter of two scripts.
shorter : (a b : ℕ) (xs ys : List ℕ) → Script a xs ys → Script b xs ys → Script (min a b) xs ys
shorter a b xs ys s t = elim (Bool-cases (leb a b)) [
  | inl e ↦ subst (λ n. Script n xs ys) (ground arith) s
  | inr e ↦ subst (λ n. Script n xs ys) (ground arith) t
]

with_insert : (n y : ℕ) (xs ys : List ℕ) → Script n xs ys → Script (n + 1) xs (y ∷ ys)
with_insert n y xs ys (s, r) = (
  inserted y ∷ s,
  record { from = r.from; to = ap (λ l. y ∷ l) r.to; size = omega (arith, r.size) },
)

with_remove : (n x : ℕ) (xs ys : List ℕ) → Script n xs ys → Script (n + 1) (x ∷ xs) ys
with_remove n x xs ys (s, r) = (
  removed x ∷ s,
  record { from = ap (λ l. x ∷ l) r.from; to = r.to; size = omega (arith, r.size) },
)

with_cost : (n x y : ℕ) (xs ys : List ℕ) → Script n xs ys → Script (n + cost x y) (x ∷ xs) (y ∷ ys)
with_cost n x y xs ys (s, r) = elim (Bool-cases (x == y)) [
  | inl e ↦ (
    kept x ∷ s,
    record {
      from = ap (λ l. x ∷ l) r.from;
      to = ap (λ l. x ∷ l) r.to ∙ ap (λ z. z ∷ ys) (ground (arith, e));
      size = ground (arith, e, r.size);
    },
  )
  | inr e ↦ (
    changed x y ∷ s,
    record {
      from = ap (λ l. x ∷ l) r.from;
      to = ap (λ l. y ∷ l) r.to;
      size = ground (arith, e, r.size);
    },
  )
]

-- The recurrence of the table, for lists whose first elements are the last bytes of the prefixes.
pub IsLeast-step :
    {p l q : ℕ} {xs ys : List ℕ} (x y : ℕ)
    → IsLeast p xs (y ∷ ys)
    → IsLeast l (x ∷ xs) ys
    → IsLeast q xs ys
    → IsLeast (min (min (p + 1) (l + 1)) (q + cost x y)) (x ∷ xs) (y ∷ ys)
IsLeast-step {p} {l} {q} {xs} {ys} x y above left corner = record {
  script = best.0;
  is_script = best.1;
  least = bound;
}
  where
    best : Script (min (min (p + 1) (l + 1)) (q + cost x y)) (x ∷ xs) (y ∷ ys)
    best =
        shorter _ _ _ _
          (shorter _ _ _ _ (with_remove p x xs (y ∷ ys) (above.script, above.is_script))
            (with_insert l y (x ∷ xs) ys (left.script, left.is_script)))
          (with_cost q x y xs ys (corner.script, corner.is_script))

    bound :
        (s : List Edit)
        → source s ≡ x ∷ xs
        → target s ≡ y ∷ ys
        → min (min (p + 1) (l + 1)) (q + cost x y) ≤ edits s
    bound [] h k = absurd (ground (arith, h))
    bound (kept z ∷ s) h k = ground (arith, h, k, corner.least s)
    bound (changed u v ∷ s) h k = ground (arith, h, k, corner.least s)
    bound (inserted v ∷ s) h k = ground (arith, h, k, left.least s)
    bound (removed u ∷ s) h k = ground (arith, h, k, above.least s)
