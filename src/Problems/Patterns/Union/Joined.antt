-- ===== src/Problems/Patterns/Union/Joined.antt =====
-- Two indexes have one root in the union-find of problems.go exactly where a chain of links joins them.
use kubehealth.Prelude.{
  ◌≡◌, ◌≢◌, refl, sym, ap, ◌∙◌, subst, inl, inr, ℕ, zero, suc, ◌+◌, ◌≤◌, true, false, List, [], ◌∷◌,
  arith, ◌==◌, ==_iff, Bool-cases, In, length,
}
use kubehealth.Problems.Patterns.Union.{set, start, find_root, union, unite}
use kubehealth.Problems.Patterns.Union.Roots.{
  IsRooted, IsShallow, below, halved, halved_root, set_other, set_same, find_root-IsFound,
  unite_lem, union-IsShallow, more-IsShallow,
}

-- The parents of `y` lead to the root `r`.
pub data Leads (p : ℕ → ℕ) : ℕ → ℕ → Type 0 where
  ends : (r : ℕ) → p r ≡ r → Leads p r r
  goes : (y r : ℕ) → Leads p (p y) r → Leads p y r

Leads-root : (p : ℕ → ℕ) (y r : ℕ) → Leads p y r → p r ≡ r
Leads-root p y r (ends _ h) = h
Leads-root p y r (goes _ _ l) = Leads-root p (p y) r l

stays : (p : ℕ → ℕ) (y r : ℕ) → p y ≡ y → Leads p y r → y ≡ r
stays p y r h (ends _ e) = refl
stays p y r h (goes _ _ l) = sym h ∙ stays p (p y) r (ap p h) l

pub Leads-unique : (p : ℕ → ℕ) (y r s : ℕ) → Leads p y r → Leads p y s → r ≡ s
Leads-unique p y r s (ends _ h) m = stays p y s h m
Leads-unique p y r s (goes _ _ l) (ends _ h) = sym (stays p y r h (goes y r l))
Leads-unique p y r s (goes _ _ l) (goes _ _ m) = Leads-unique p (p y) r s l m

pub rooted-Leads : (k : ℕ) (p : ℕ → ℕ) (y : ℕ) → IsRooted k p y → (r : ℕ) × Leads p y r
rooted-Leads zero p y h = (y, ends y h)
rooted-Leads (suc k) p y (inl h) = (y, ends y h)
rooted-Leads (suc k) p y (inr h) = let (r, l) = rooted-Leads k p (p y) h in (r, goes y r l)

at : (p : ℕ → ℕ) (y z r : ℕ) → p y ≡ z → Leads p z r → Leads p y r
at p y z r e l = goes y r (subst (λ w. Leads p w r) (sym e) l)

module _ (p : ℕ → ℕ) (x : ℕ) where
  halved_both : (y r : ℕ) → Leads p y r → Leads (halved p x) y r × Leads (halved p x) (p y) r
  halved_both y r (ends _ h) =
      let l = ends y (halved_root p x y h) in (l, subst (λ w. Leads (halved p x) w y) (sym h) l)
  halved_both y r (goes _ _ l) =
      let (one, two) = halved_both (p y) r l in
      elim (Bool-cases (y == x)) [
        | inl e ↦ (
          at (halved p x) y (p (p y)) r
              (set_same p x _ y e ∙ ap (λ z. p (p z)) (sym ((==_iff y x).0 e))) two,
          one,
        )
        | inr e ↦ (at (halved p x) y (p y) r (set_other p x _ y e) one, one)
      ]

  halved-Leads : (y r : ℕ) → Leads p y r → Leads (halved p x) y r
  halved-Leads y r l = (halved_both y r l).0

-- What a search finds, and that it leaves every root where it is.
abbrev pub IsKept : (ℕ → ℕ) → (ℕ → ℕ) → Type 0
IsKept p q = (y r : ℕ) → Leads p y r → Leads q y r

pub find_root-Leads :
    (fuel : ℕ) (p : ℕ → ℕ) (x : ℕ)
    → IsRooted fuel p x
    → Leads p x (find_root fuel p x).0 × IsKept p (find_root fuel p x).1
unfolding find_root
find_root-Leads zero p x h = (ends x h, λ y r l. l)
find_root-Leads (suc fuel) p x h = elim (Bool-cases (p x == x)) [
  | inl e ↦ rw (e, find_root) (ends x ((==_iff (p x) x).0 e), λ y r l. l)
  | inr e ↦
      rw (e, find_root)
        (let (found, kept) =
            find_root-Leads fuel (halved p x) (halved p x x) (below fuel p x h e) in
          let (s, l) = rooted-Leads (suc fuel) p x h in
          (
            subst (Leads p x)
                (Leads-unique (halved p x) x s _ (halved-Leads p x x s l) (goes x _ found)) l,
            λ y r m. kept y r (halved-Leads p x y r m),
          ))
]

-- The parent of the root `ra` becomes the root `rb`: all that led to `ra` leads to `rb`.
module _ (p : ℕ → ℕ) (ra rb : ℕ) (a : p ra ≡ ra) (b : p rb ≡ rb) where
  moved-end : Leads (set p ra rb) rb rb
  moved-end = ends rb (ground (arith, b))

  moved : (y : ℕ) → Leads p y ra → Leads (set p ra rb) y rb
  moved y (ends _ h) = at (set p ra rb) ra rb rb (ground arith) moved-end
  moved y (goes _ _ l) = elim (Bool-cases (y == ra)) [
    | inl e ↦ at (set p ra rb) y rb rb (set_same p ra rb y e) moved-end
    | inr e ↦ at (set p ra rb) y (p y) rb (set_other p ra rb y e) (moved (p y) l)
  ]

  unmoved : (y r : ℕ) → r ≢ ra → Leads p y r → Leads (set p ra rb) y r
  unmoved y r d (ends _ h) = ends y (set_other p ra rb y (ground (arith, d)) ∙ h)
  unmoved y r d (goes _ _ l) = elim (Bool-cases (y == ra)) [
    | inl e ↦ absurd (d (sym (sym ((==_iff y ra).0 e) ∙ stays p y r (same e) (goes y r l))))
    | inr e ↦ at (set p ra rb) y (p y) r (set_other p ra rb y e) (unmoved (p y) r d l)
  ]
    where
      same : (y == ra) ≡ true → p y ≡ y
      same e = ap p ((==_iff y ra).0 e) ∙ a ∙ sym ((==_iff y ra).0 e)

-- Two indexes with one root.
abbrev pub HaveOneRoot : (ℕ → ℕ) → ℕ → ℕ → Type 0
HaveOneRoot p x y = (r : ℕ) × Leads p x r × Leads p y r

module _ (k fuel : ℕ) (p : ℕ → ℕ) (a b : ℕ) (shallow : IsShallow k p) (le : k ≤ fuel) where
  -- What the two searches of a union find, and the table after them.
  union_parts :
      (ra : ℕ) × (rb : ℕ) × (q : ℕ → ℕ) × (union fuel p a b ≡ set q ra rb)
      × IsKept p q
      × Leads q a ra
      × Leads q b rb
  unfolding union
  union_parts =
      let (found, kept) = find_root-Leads fuel p a (more-IsShallow fuel k p le shallow a) in
      let (root_a, old, near) = find_root-IsFound fuel p a (more-IsShallow fuel k p le shallow a) in
      let h1 : IsShallow fuel (find_root fuel p a).1 =
        λ y. near fuel y (more-IsShallow fuel k p le shallow y) in
      let (found', kept') = find_root-Leads fuel (find_root fuel p a).1 b (h1 b) in
      (
        _,
        _,
        _,
        refl,
        (λ y r l. kept' y r (kept y r l)),
        kept' a _ (kept a _ found),
        kept' b _ found',
      )

  union-keeps : (x y : ℕ) → HaveOneRoot p x y → HaveOneRoot (union fuel p a b) x y
  union-keeps x y (r, l, m) =
      let (ra, rb, q, e, kept, la, lb) = union_parts in
      subst (λ t. HaveOneRoot t x y) (sym e)
        (elim (Bool-cases (r == ra)) [
          | inl s ↦ (
            rb,
            moved q ra rb (Leads-root q a ra la) (Leads-root q b rb lb) x
                (turn q ra r s (kept x r l)),
            moved q ra rb (Leads-root q a ra la) (Leads-root q b rb lb) y
                (turn q ra r s (kept y r m)),
          )
          | inr d ↦ (
            r,
            unmoved q ra rb (Leads-root q a ra la) (Leads-root q b rb lb) x r (differ ra r d)
                (kept x r l),
            unmoved q ra rb (Leads-root q a ra la) (Leads-root q b rb lb) y r (differ ra r d)
                (kept y r m),
          )
        ])
    where
      turn : {y : ℕ} (q : ℕ → ℕ) (ra r : ℕ) → (r == ra) ≡ true → Leads q y r → Leads q y ra
      turn {y} q ra r s l = subst (Leads q y) ((==_iff r ra).0 s) l

      differ : (ra r : ℕ) → (r == ra) ≡ false → r ≢ ra
      differ ra r d e = ground arith

  union-joins : HaveOneRoot (union fuel p a b) a b
  union-joins =
      let (ra, rb, q, e, kept, la, lb) = union_parts in
      subst (λ t. HaveOneRoot t a b) (sym e)
        (elim (Bool-cases (rb == ra)) [
          | inl s ↦ (
            rb,
            moved q ra rb (Leads-root q a ra la) (Leads-root q b rb lb) a la,
            moved q ra rb (Leads-root q a ra la) (Leads-root q b rb lb) b
                (subst (Leads q b) ((==_iff rb ra).0 s) lb),
          )
          | inr d ↦ (
            rb,
            moved q ra rb (Leads-root q a ra la) (Leads-root q b rb lb) a la,
            unmoved q ra rb (Leads-root q a ra la) (Leads-root q b rb lb) b rb (λ s. ground arith)
                lb,
          )
        ])

unite-keeps :
    (links : List (ℕ × ℕ)) (k fuel : ℕ) (p : ℕ → ℕ) (x y : ℕ)
    → k + length links ≤ fuel
    → IsShallow k p
    → HaveOneRoot p x y
    → HaveOneRoot (unite fuel p links) x y
unfolding unite
unite-keeps [] k fuel p x y le h s = s
unite-keeps ((a, b) ∷ links) k fuel p x y le h s =
    unite-keeps links (suc k) fuel _ x y (omega (arith, le))
      (union-IsShallow k fuel p a b (λ q. more-IsShallow fuel k q (omega (arith, le))) h)
      (union-keeps k fuel p a b h (omega (arith, le)) x y s)

unite-joins :
    (links : List (ℕ × ℕ)) (k fuel : ℕ) (p : ℕ → ℕ) (x y : ℕ)
    → k + length links ≤ fuel
    → IsShallow k p
    → In (x, y) links
    → HaveOneRoot (unite fuel p links) x y
unfolding unite
unite-joins [] k fuel p x y le h i = elim i [ ]
unite-joins ((a, b) ∷ links) k fuel p x y le h (inl e) =
    subst (λ l. HaveOneRoot (unite fuel (union fuel p a b) links) l.0 l.1) e
      (unite-keeps links (suc k) fuel _ a b (omega (arith, le))
        (union-IsShallow k fuel p a b (λ q. more-IsShallow fuel k q (omega (arith, le))) h)
        (union-joins k fuel p a b h (omega (arith, le))))
unite-joins ((a, b) ∷ links) k fuel p x y le h (inr i) =
    unite-joins links (suc k) fuel _ x y (omega (arith, le))
      (union-IsShallow k fuel p a b (λ q. more-IsShallow fuel k q (omega (arith, le))) h) i

-- A chain of links, in either direction, from one index to another.
pub data Joined (links : List (ℕ × ℕ)) : ℕ → ℕ → Type 0 where
  same : (x : ℕ) → Joined links x x
  link : (x y : ℕ) → In (x, y) links → Joined links x y
  flip : (x y : ℕ) → Joined links x y → Joined links y x
  chain : (x y z : ℕ) → Joined links x y → Joined links y z → Joined links x z

module _ (all : List (ℕ × ℕ)) where
  -- Every parent is joined to its child.
  abbrev HasJoined : (ℕ → ℕ) → Type 0
  HasJoined p = (x : ℕ) → Joined all x (p x)

  Leads-Joined : (p : ℕ → ℕ) (y r : ℕ) → HasJoined p → Leads p y r → Joined all y r
  Leads-Joined p y r h (ends _ e) = same y
  Leads-Joined p y r h (goes _ _ l) = chain y (p y) r (h y) (Leads-Joined p (p y) r h l)

  set-HasJoined : (p : ℕ → ℕ) (x v : ℕ) → Joined all x v → HasJoined p → HasJoined (set p x v)
  set-HasJoined p x v j h y = elim (Bool-cases (y == x)) [
    | inl e ↦
        subst (Joined all y) (sym (set_same p x v y e))
          (subst (λ z. Joined all z v) (sym ((==_iff y x).0 e)) j)
    | inr e ↦ subst (Joined all y) (sym (set_other p x v y e)) (h y)
  ]

  find_root-HasJoined :
      (fuel : ℕ) (p : ℕ → ℕ) (x : ℕ)
      → HasJoined p
      → Joined all x (find_root fuel p x).0 × HasJoined (find_root fuel p x).1
  unfolding find_root
  find_root-HasJoined zero p x h = (same x, h)
  find_root-HasJoined (suc fuel) p x h = elim (Bool-cases (p x == x)) [
    | inl e ↦ rw (e, find_root) (same x, h)
    | inr e ↦
        rw (e, find_root)
          (let h' = set-HasJoined p x (p (p x)) (chain x (p x) _ (h x) (h (p x))) h in
            let (j, k) = find_root-HasJoined fuel (halved p x) (halved p x x) h' in
            (chain x _ _ (h' x) j, k))
  ]

  unite-HasJoined :
      (links : List (ℕ × ℕ)) (fuel : ℕ) (p : ℕ → ℕ)
      → ((x y : ℕ) → In (x, y) links → Joined all x y)
      → HasJoined p
      → HasJoined (unite fuel p links)
  unfolding unite union
  unite-HasJoined [] fuel p into h = h
  unite-HasJoined ((a, b) ∷ links) fuel p into h =
      let (ja, h1) = find_root-HasJoined fuel p a h in
      let (jb, h2) = find_root-HasJoined fuel (find_root fuel p a).1 b h1 in
      unite-HasJoined links fuel _ (λ x y i. into x y (inr i))
        (set-HasJoined _ _ _ (chain _ a _ (flip a _ ja) (chain a b _ (into a b (inl refl)) jb)) h2)

  joined-Leads : (x y : ℕ) → Joined all x y → HaveOneRoot (unite (length all) start all) x y
  unfolding start
  joined-Leads x y (same _) =
      let (r, l) = rooted-Leads (length all) _ x (unite_lem all x) in (r, l, l)
  joined-Leads x y (link _ _ i) =
      unite-joins all 0 (length all) start x y (omega arith) (λ z. refl) i
  joined-Leads x y (flip _ _ j) = let (r, l, m) = joined-Leads y x j in (r, m, l)
  joined-Leads x y (chain _ z _ i j) =
      let (r, l, m) = joined-Leads x z i in
      let (s, n, o) = joined-Leads z y j in (r, l, subst (Leads _ y) (Leads-unique _ z s r n m) o)

-- Two indexes have one root in the table that all links make exactly where links join them.
pub unite-Joined :
    (links : List (ℕ × ℕ)) (x y : ℕ)
    → (HaveOneRoot (unite (length links) start links) x y → Joined links x y)
      × (Joined links x y → HaveOneRoot (unite (length links) start links) x y)
unfolding start
unite-Joined links x y = (
  (λ (r, l, m).
      let h =
        unite-HasJoined links links (length links) start (λ x y i. link x y i) (λ x. same x) in
      chain x r y (Leads-Joined links _ x r h l) (flip y r (Leads-Joined links _ y r h m))),
  joined-Leads links x y,
)
