-- ===== src/Home/Rail.antt =====
-- The rail of the home page (problems.go, `buildHome`): each namespace stands in it once.
use mathlib.Core.List.{Permᴰ}
use kubehealth.Prelude.{
  ◌≡◌, refl, sym, ap₂, ◌∙◌, ℕ, suc, ◌+◌, Bool, true, false, ◌||◌, String, List, [], ◌∷◌, ◌++◌, ◌==◌,
  subst, arith, any, str_eq, eq_iff, Bool-cases, inl, inr, if◌then◌else◌,
}
use kubehealth.Prelude.Sort.{sort_by, sort_by-perm}
use kubehealth.Events.{EventSummary}
use kubehealth.Caches.Maps.{Map, keys}
use kubehealth.Problems.{Problem}
use kubehealth.Home.{
  RailNs, no_tallies, tally_rows, split_rail, has_events, normal_entry, quiet_entry, names_of,
  rail_before, name_before, build_home,
}

-- How often a namespace stands in a part of the rail.
abbrev pub times : String → List RailNs → ℕ
times ns [] = 0
times ns (a ∷ rail) = if str_eq a.name ns then suc (times ns rail) else times ns rail

times_swap :
    (ns : String) (a b : RailNs) (l : List RailNs) → times ns (a ∷ b ∷ l) ≡ times ns (b ∷ a ∷ l)
times_swap ns a b l = ground arith

times-perm : (ns : String) {xs ys : List RailNs} → Permᴰ xs ys → times ns xs ≡ times ns ys
times-perm ns Permᴰ.nil = refl
times-perm ns (Permᴰ.cons e p) =
    ap₂ (λ (a : RailNs) (n : ℕ). if str_eq a.name ns then suc n else n) e (times-perm ns p)
times-perm ns (Permᴰ.swap {a = a} {b = b} {l = l} e f) =
    times_swap ns a b l ∙ ap₂ (λ u v. times ns (v ∷ u ∷ l)) e f
times-perm ns (Permᴰ.trans p q) = times-perm ns p ∙ times-perm ns q

module _ (truncated : Map Bool) (events : Map (List EventSummary)) (active : List String) where
  abbrev expected : String → List String → List String → ℕ
  expected ns seen names =
      if any (str_eq ns) seen || any (str_eq ns) active
      then 0
      else if any (str_eq ns) names
      then 1
      else 0

  passed :
      (ns name : String) (seen names : List String)
      → (any (str_eq name) seen || any (str_eq name) active) ≡ true
      → expected ns seen names ≡ expected ns seen (name ∷ names)
  passed ns name seen names h = elim (Bool-cases (str_eq ns name)) [
    | inl e ↦
        rw
          (subst (λ s. (any (str_eq s) seen || any (str_eq s) active) ≡ true)
            (sym ((eq_iff ns name).0 e)) h)
          refl
    | inr e ↦ ground (arith, e)
  ]

  -- One more entry of a name that has not been seen.
  expected-new :
      (ns name : String) (seen names : List String)
      → (any (str_eq name) seen || any (str_eq name) active) ≡ false
      → (if str_eq name ns then 1 else 0) + expected ns (name ∷ seen) names
        ≡ expected ns seen (name ∷ names)
  expected-new ns name seen names h = elim (Bool-cases (str_eq name ns)) [
    | inl e ↦
        let same : name ≡ ns = (eq_iff name ns).0 e in
        let unseen : (any (str_eq ns) seen || any (str_eq ns) active) ≡ false =
          subst (λ s. (any (str_eq s) seen || any (str_eq s) active) ≡ false) same h in
        let there : str_eq ns name ≡ true = (eq_iff ns name).1 (sym same) in
        ground (arith, e, unseen, there)
    | inr e ↦
        let other : str_eq ns name ≡ false = ground (arith, eq_iff ns name, eq_iff name ns) in
        ground (arith, e, other)
  ]

  first :
      (ns name : String) (seen names : List String)
      → (any (str_eq name) seen || any (str_eq name) active) ≡ false
      → (normal quiet : List RailNs)
      → times ns normal + times ns quiet ≡ expected ns (name ∷ seen) names
      → times ns (normal_entry truncated name ∷ normal) + times ns quiet
        ≡ expected ns seen (name ∷ names)
  first ns name seen names h normal quiet ih = ground (arith, expected-new ns name seen names h, ih)

  second :
      (ns name : String) (seen names : List String)
      → (any (str_eq name) seen || any (str_eq name) active) ≡ false
      → (normal quiet : List RailNs)
      → times ns normal + times ns quiet ≡ expected ns (name ∷ seen) names
      → times ns normal + times ns (quiet_entry name ∷ quiet) ≡ expected ns seen (name ∷ names)
  second ns name seen names h normal quiet ih =
      ground (arith, expected-new ns name seen names h, ih)

  -- A namespace without problems stands in one of the two lists, once, unless it has been seen.
  times-split_rail :
      (ns : String) (seen names : List String)
      → times ns (split_rail truncated events active seen names).0
          + times ns (split_rail truncated events active seen names).1
        ≡ expected ns seen names
  unfolding split_rail
  times-split_rail ns seen [] = ground arith
  times-split_rail ns seen (name ∷ names) =
      elim (Bool-cases (any (str_eq name) seen || any (str_eq name) active)) [
        | inl skip ↦
            rw (skip, split_rail) (times-split_rail ns seen names ∙ passed ns name seen names skip)
        | inr new ↦ elim (Bool-cases (has_events events name)) [
          | inl e ↦
              rw (new, split_rail, e)
                (first ns name seen names new _ _ (times-split_rail ns (name ∷ seen) names))
          | inr e ↦
              rw (new, split_rail, e)
                (second ns name seen names new _ _ (times-split_rail ns (name ∷ seen) names))
        ]
      ]

named-times :
    (ns : String) (rail : List RailNs)
    → any (str_eq ns) (names_of rail) ≡ (if times ns rail == 0 then false else true)
named-times ns [] = refl
named-times ns (a ∷ rail) = ground (arith, named-times ns rail, eq_iff ns a.name, eq_iff a.name ns)

-- Of the known namespaces and those with events, each without problems stands once among the normal or
-- the quiet ones, each with problems in neither, and no other namespace does.
pub build_home_rail :
    (all_ns : List String) (truncated : Map Bool) (events : Map (List EventSummary))
    (ps : List Problem) (ns : String)
    → times ns (build_home all_ns truncated events ps).1.normal
        + times ns (build_home all_ns truncated events ps).1.quiet
      ≡ (if any (str_eq ns) (names_of (build_home all_ns truncated events ps).1.active)
          then 0
          else if any (str_eq ns) (all_ns ++ keys events)
          then 1
          else 0)
unfolding build_home
build_home_rail all_ns truncated events ps ns =
    let t = tally_rows truncated no_tallies ps in
    let (normal, quiet) =
      split_rail truncated events (names_of t.active) [] (all_ns ++ keys events) in
    let main : times ns normal + times ns quiet
        ≡ expected truncated events (names_of t.active) ns [] (all_ns ++ keys events) =
      times-split_rail truncated events (names_of t.active) ns [] (all_ns ++ keys events) in
    let a = times-perm ns (sort_by-perm rail_before t.active) in
    let n = times-perm ns (sort_by-perm name_before normal) in
    let q = times-perm ns (sort_by-perm name_before quiet) in
    let before = named-times ns t.active in
    let sorted = named-times ns (sort_by rail_before t.active) in
    ground (arith, main, a, n, q, before, sorted)
