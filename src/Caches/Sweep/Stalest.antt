-- ===== src/Caches/Sweep/Stalest.antt =====
-- Which namespace a tick refreshes.
use kubehealth.Prelude.{
  ◌≤◌, ◌<◌, ◌≡◌, ◌≢◌, refl, sym, subst, ◌⊎◌, inl, inr, true, false, String, none, some, List, [],
  ◌∷◌, ◌||◌, arith, str_eq, eq_iff, In, All, Option-cases, Bool-cases,
}
use kubehealth.Time.{Time, before}
use kubehealth.Caches.{NsEntry}
use kubehealth.Caches.Maps.{Map, lookup}
use kubehealth.Caches.Sweep.{pick_stalest, stalest}

module _ (cache : Map NsEntry) where
  -- The entry of `ns` is not older than `time`.
  abbrev NotOlder : Time → String → Type 0
  NotOlder time ns = (e : NsEntry) × (lookup ns cache ≡ some e) × (time ≤ e.updated_at)

  -- What the loop has found: a namespace with an entry of that time.
  abbrev IsBest : String → Time → Type 0
  IsBest ns time = (ns ≢ "") × ((e : NsEntry) × (lookup ns cache ≡ some e) × (e.updated_at ≡ time))

  -- `r` has no entry, or has one and no name of the list has an older one.
  abbrev pub IsStalest : String → List String → Type 0
  IsStalest r names =
      (lookup r cache ≡ none)
      ⊎ ((e : NsEntry) × (lookup r cache ≡ some e) × All (NotOlder e.updated_at) names)

  -- The result of the loop from a best entry of age `time`.
  abbrev IsPicked : String → Time → List String → String → Type 0
  IsPicked best time names r =
      ((r ≡ best) ⊎ In r names)
      × ((lookup r cache ≡ none)
          ⊎ ((e : NsEntry) × (lookup r cache ≡ some e)
              × (e.updated_at ≤ time)
              × All (NotOlder e.updated_at) names))

  IsPicked-newer :
      (best ns r : String) (time : Time) (names : List String) (f : NsEntry)
      → lookup ns cache ≡ some f
      → f.updated_at < time
      → IsPicked ns f.updated_at names r
      → IsPicked best time (ns ∷ names) r
  IsPicked-newer best ns r time names f found lt (from, old) = (inr (here from), step old)
    where
      here : (r ≡ ns) ⊎ In r names → (ns ≡ r) ⊎ In r names
      here (inl p) = inl (sym p)
      here (inr i) = inr i

      step :
          (lookup r cache ≡ none)
            ⊎ ((e : NsEntry) × (lookup r cache ≡ some e)
                × (e.updated_at ≤ f.updated_at)
                × All (NotOlder e.updated_at) names)
          → (lookup r cache ≡ none)
            ⊎ ((e : NsEntry) × (lookup r cache ≡ some e)
                × (e.updated_at ≤ time)
                × All (NotOlder e.updated_at) (ns ∷ names))
      step (inl gone) = inl gone
      step (inr (e, g, h, rest)) = inr (e, g, omega arith, ((f, found, h), rest))

  IsPicked-older :
      (best ns r : String) (time : Time) (names : List String) (f : NsEntry)
      → lookup ns cache ≡ some f
      → time ≤ f.updated_at
      → IsPicked best time names r
      → IsPicked best time (ns ∷ names) r
  IsPicked-older best ns r time names f found le (from, old) = (here from, step old)
    where
      here : (r ≡ best) ⊎ In r names → (r ≡ best) ⊎ ((ns ≡ r) ⊎ In r names)
      here (inl p) = inl p
      here (inr i) = inr (inr i)

      step :
          (lookup r cache ≡ none)
            ⊎ ((e : NsEntry) × (lookup r cache ≡ some e)
                × (e.updated_at ≤ time)
                × All (NotOlder e.updated_at) names)
          → (lookup r cache ≡ none)
            ⊎ ((e : NsEntry) × (lookup r cache ≡ some e)
                × (e.updated_at ≤ time)
                × All (NotOlder e.updated_at) (ns ∷ names))
      step (inl gone) = inl gone
      step (inr (e, g, h, rest)) = inr (e, g, h, ((f, found, omega arith), rest))

  IsPicked-missing :
      (best ns : String) (time : Time) (names : List String)
      → lookup ns cache ≡ none
      → IsPicked best time (ns ∷ names) ns
  IsPicked-missing best ns time names gone = (inr (inl refl), inl gone)

  pick_missing :
      (best ns : String) (time : Time) (names : List String)
      → lookup ns cache ≡ none
      → ns ≡ pick_stalest cache best time (ns ∷ names)
  unfolding pick_stalest
  pick_missing best ns time names gone = rw (gone, pick_stalest) refl

  pick_newer :
      (best ns : String) (time : Time) (names : List String) (f : NsEntry)
      → lookup ns cache ≡ some f
      → (str_eq best "" || before f.updated_at time) ≡ true
      → pick_stalest cache ns f.updated_at names ≡ pick_stalest cache best time (ns ∷ names)
  unfolding pick_stalest
  pick_newer best ns time names f found h = rw (found, pick_stalest, h) refl

  pick_older :
      (best ns : String) (time : Time) (names : List String) (f : NsEntry)
      → lookup ns cache ≡ some f
      → (str_eq best "" || before f.updated_at time) ≡ false
      → pick_stalest cache best time names ≡ pick_stalest cache best time (ns ∷ names)
  unfolding pick_stalest
  pick_older best ns time names f found h = rw (found, pick_stalest, h) refl

  pick_stalest_lem :
      (best : String) (time : Time) (names : List String)
      → IsBest best time
      → All (λ n. n ≢ "") names
      → IsPicked best time names (pick_stalest cache best time names)
  unfolding pick_stalest
  pick_stalest_lem best time [] (named, (e, found, age)) h =
      (inl refl, inr (e, found, omega arith, tt))
  pick_stalest_lem best time (ns ∷ names) (named, b) h = elim (Option-cases (lookup ns cache)) [
    | inl gone ↦
        subst (IsPicked best time (ns ∷ names)) (pick_missing best ns time names gone)
          (IsPicked-missing best ns time names gone)
    | inr (f, found) ↦ elim (Bool-cases (before f.updated_at time)) [
      | inl older ↦
          subst (IsPicked best time (ns ∷ names))
            (pick_newer best ns time names f found (ground (arith, eq_iff best "")))
            (IsPicked-newer best ns _ time names f found (ground arith)
              (pick_stalest_lem ns f.updated_at names (h.0, (f, found, refl)) h.1))
      | inr newer ↦
          subst (IsPicked best time (ns ∷ names))
            (pick_older best ns time names f found (ground (arith, eq_iff best "")))
            (IsPicked-older best ns _ time names f found (ground arith)
              (pick_stalest_lem best time names (named, b) h.1))
    ]
  ]

  IsChosen : List String → String → Type 0
  IsChosen names r = In r names × IsStalest r names

  IsChosen-cons :
      (n r : String) (names : List String) (f : NsEntry)
      → lookup n cache ≡ some f
      → IsPicked n f.updated_at names r
      → IsChosen (n ∷ names) r
  unfolding IsChosen
  IsChosen-cons n r names f found (inl p, inl gone) = (inl (sym p), inl gone)
  IsChosen-cons n r names f found (inr i, inl gone) = (inr i, inl gone)
  IsChosen-cons n r names f found (inl p, inr (e, g, h', rest)) =
      (inl (sym p), inr (e, g, ((f, found, h'), rest)))
  IsChosen-cons n r names f found (inr i, inr (e, g, h', rest)) =
      (inr i, inr (e, g, ((f, found, h'), rest)))

  -- Of some namespaces with names, the loop picks one of them that was never fetched, or else one that
  -- was fetched longest ago, when all have been.
  pub stalest_lem :
      (n : String) (names : List String)
      → All (λ m. m ≢ "") (n ∷ names)
      → In (stalest cache (n ∷ names)) (n ∷ names)
        × IsStalest (stalest cache (n ∷ names)) (n ∷ names)
  unfolding stalest pick_stalest IsChosen
  stalest_lem n names h = elim (Option-cases (lookup n cache)) [
    | inl gone ↦ subst (IsChosen (n ∷ names)) (pick_missing "" n 0 names gone) (inl refl, inl gone)
    | inr (f, found) ↦ subst (IsChosen (n ∷ names)) (pick_newer "" n 0 names f found refl) (
        IsChosen-cons n _ names f found
          (pick_stalest_lem n f.updated_at names (h.0, (f, found, refl)) h.1))
  ]
