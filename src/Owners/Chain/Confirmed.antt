-- ===== src/Owners/Chain/Confirmed.antt =====
-- What `inferred` means in owners.go: without it every link of the chain is an answer of the API.
use kubehealth.Prelude.{
  ◌*◌, ◌∙◌, sym, ap, subst, none, text_of, ℕ, zero, suc, ◌≤◌, ◌≡◌, ◌≢◌, refl, Bool, true, false,
  String, some, List, [], ◌∷◌, arith, length, Bool-cases, Option-cases, inl, inr, ◌⊎◌, str_eq,
  eq_iff,
}
use kubehealth.Prelude.Int.{pos, ltb_ℤ}
use kubehealth.Time.{Time, sub, minute}
use kubehealth.Caches.Maps.{lookup}
use kubehealth.Owners.{ObjRef, OwnerEntry, Owners, owner_key, owner_max_depth, fresh}
use kubehealth.Owners.Names.{infer_parent}
use kubehealth.Owners.Chain.{
  confirmed, guessed, top, link, answer, guess, walk, finish, owner_chain, last_of, top_unknown,
}

some_lem {ℓ} : {A : Type ℓ} {a b : A} → some a ≡ some b → a ≡ b
some_lem {a = a} h = ap (λ o. elim o [ some x ↦ x | none ↦ a ]) h

module _ (o : Owners) (now : Time) (ns : String) where
  -- The API's answer about an object that counts: it is known, it was not "missing", and it is not as old
  -- as the thirty minutes that an answer is kept for.
  abbrev pub IsAnswered : ObjRef → OwnerEntry → Type 0
  IsAnswered r e =
      (lookup (owner_key ns r.kind r.name) o.known ≡ some e)
      × (e.missing ≡ false)
      × (ltb_ℤ (sub now e.at) (pos (30 * minute)) ≡ true)

  IsAnswered-answer : (r : ObjRef) (e : OwnerEntry) → IsAnswered r e → answer o now ns r ≡ some e
  unfolding answer fresh
  IsAnswered-answer r e (found, here, young) = ground arith

  answer-IsAnswered : (r : ObjRef) (e : OwnerEntry) → answer o now ns r ≡ some e → IsAnswered r e
  unfolding answer fresh
  answer-IsAnswered r e h = elim (Option-cases (lookup (owner_key ns r.kind r.name) o.known)) [
    | inl gone ↦ absurd (ground arith)
    | inr (f, found) ↦ elim (Bool-cases f.missing) [
      | inl m ↦ absurd (ground arith)
      | inr m ↦ elim (Bool-cases (ltb_ℤ (sub now f.at) (pos (30 * minute)))) [
        | inr old ↦ absurd (ground arith)
        | inl young ↦
            subst (IsAnswered r) (some_lem (sym (IsAnswered-answer r f (found, m, young)) ∙ h))
              (found, m, young)
      ]
    ]
  ]

  -- Nothing leads further from an object: an answer that counts names no parent, or there is no such answer
  -- and its name tells nothing either.
  abbrev pub IsTop : ObjRef → Type 0
  IsTop r =
      ((e : OwnerEntry) × IsAnswered r e × (e.parent.name ≡ ""))
      ⊎ (((e : OwnerEntry) → ¬ IsAnswered r e) × (infer_parent r ≡ none))

  unguessed : (r : ObjRef) → guess o ns r ≡ none → infer_parent r ≡ none
  unfolding guess
  unguessed r h = elim (Option-cases (infer_parent r)) [
    | inl gone ↦ gone
    | inr (p, told) ↦ elim (Option-cases (lookup (text_of (ns ∷ "/" ∷ p.name ∷ [])) o.kind_of)) [
      | inl strange ↦ absurd (ground arith)
      | inr (k, known) ↦ absurd (ground arith)
    ]
  ]

  -- The name of the object tells the owner's name; the kind is the usual one, or what a sibling's answer told.
  abbrev pub IsGuessed : ObjRef → ObjRef → Type 0
  IsGuessed r p =
      (g : ObjRef) × (infer_parent r ≡ some g)
      × (p.name ≡ g.name)
      × ((p.kind ≡ g.kind) ⊎ (lookup (text_of (ns ∷ "/" ∷ g.name ∷ [])) o.kind_of ≡ some p.kind))

  guess-IsGuessed : (r p : ObjRef) → guess o ns r ≡ some p → IsGuessed r p
  unfolding guess
  guess-IsGuessed r p h = elim (Option-cases (infer_parent r)) [
    | inl gone ↦ absurd (ground arith)
    | inr (g, told) ↦ elim (Option-cases (lookup (text_of (ns ∷ "/" ∷ g.name ∷ [])) o.kind_of)) [
      | inl strange ↦
          let found : guess o ns r ≡ some g = rw (told, guess, strange) refl in
          let same : g ≡ p = some_lem (sym found ∙ h) in
          (g, told, ap (λ x. x.name) (sym same), inl (ap (λ x. x.kind) (sym same)))
      | inr (k, known) ↦
          let found : guess o ns r ≡ some (record g { kind = k }) = rw (told, guess, known) refl in
          let same : record g { kind = k } ≡ p = some_lem (sym found ∙ h) in
          (
            g,
            told,
            ap (λ (x : ObjRef). x.name) (sym same),
            inr (known ∙ ap (λ (x : ObjRef). some x.kind) same),
          )
    ]
  ]

  -- Each object of the list is the parent that an answer names for the one before it, or a guess where there
  -- is no answer that counts.
  abbrev pub IsLed : ObjRef → List ObjRef → Type 0
  IsLed r [] = Unit
  IsLed r (p ∷ ps) =
      (((e : OwnerEntry) × IsAnswered r e × (e.parent ≡ p))
        ⊎ (((e : OwnerEntry) → ¬ IsAnswered r e) × IsGuessed r p))
      × IsLed p ps

  -- Each object of the list is the parent that the API gave for the one before it.
  abbrev pub IsConfirmed : ObjRef → List ObjRef → Type 0
  IsConfirmed r [] = Unit
  IsConfirmed r (p ∷ ps) =
      ((e : OwnerEntry) × IsAnswered r e × (e.parent ≡ p)) × (p.name ≢ "") × IsConfirmed p ps

  -- How a link comes about.
  link-cases :
      (r : ObjRef)
      → ((link o now ns r ≡ top) × IsTop r)
        ⊎ (((p : ObjRef) × (link o now ns r ≡ guessed p)
              × ((e : OwnerEntry) → ¬ IsAnswered r e)
              × IsGuessed r p)
            ⊎ ((e : OwnerEntry) × (link o now ns r ≡ confirmed e.parent)
                × (answer o now ns r ≡ some e)
                × (e.parent.name ≢ "")))
  unfolding link
  link-cases r = elim (Option-cases (answer o now ns r)) [
    | inl gone ↦ elim (Option-cases (guess o ns r)) [
      | inl silent ↦ inl (
        rw (gone, link, silent) refl,
        inr ((λ e a. ground (arith, IsAnswered-answer r e a)), unguessed r silent),
      )
      | inr (p, told) ↦ inr (
          inl (
            p,
            rw (gone, link, told) refl,
            (λ e a. ground (arith, IsAnswered-answer r e a)),
            guess-IsGuessed r p told,
          ))
    ]
    | inr (e, found) ↦ elim (Bool-cases (str_eq e.parent.name "")) [
      | inl t ↦ inl (
        rw (found, link, t) refl,
        inl (e, answer-IsAnswered r e found, (eq_iff e.parent.name "").0 t),
      )
      | inr f ↦
          inr
            (inr (e, rw (found, link, f) refl, found, λ q. ground (arith, eq_iff e.parent.name "")))
    ]
  ]

  -- The rounds that are left were used up, or nothing leads further from the last object.
  abbrev pub IsWhole : ℕ → ObjRef → List ObjRef → Type 0
  IsWhole rounds r ps = (length ps ≡ rounds) ⊎ IsTop (last_of r ps)

  abbrev IsWalked : ℕ → ObjRef → Bool → List ObjRef × Bool → Type 0
  IsWalked rounds r inferred (ps, inf) =
      (length ps ≤ rounds)
      × IsWhole rounds r ps
      × IsLed r ps
      × (inf ≡ false → (inferred ≡ false) × IsConfirmed r ps)

  walk-IsWalked :
      (rounds : ℕ) (r : ObjRef) (inferred : Bool)
      → IsWalked rounds r inferred (walk o now ns rounds r inferred)
  unfolding walk
  walk-IsWalked zero r inferred = (omega arith, inl refl, tt, λ h. (h, tt))
  walk-IsWalked (suc rounds) r inferred = elim (link-cases r) [
    | inl (t, done) ↦ rw (t, walk) (omega arith, inr done, tt, λ h. (h, tt))
    | inr (inl (p, g, unknown, led)) ↦
        rw (g, walk) (guess_step p _ unknown led (walk-IsWalked rounds p true))
    | inr (inr (e, g, found, named)) ↦
        rw (g, walk) (answer_step e _ found named (walk-IsWalked rounds e.parent inferred))
  ]
    where
      whole :
          (p : ObjRef) (ps : List ObjRef) → IsWhole rounds p ps → IsWhole (suc rounds) r (p ∷ ps)
      whole p ps (inl l) = inl (omega (arith, l))
      whole p ps (inr t) = inr t

      guess_step :
          (p : ObjRef) (w : List ObjRef × Bool)
          → ((e : OwnerEntry) → ¬ IsAnswered r e)
          → IsGuessed r p
          → IsWalked rounds p true w
          → IsWalked (suc rounds) r inferred (p ∷ w.0, w.1)
      guess_step p _ unknown led (le, w, l, h) = (
        omega (arith, le),
        whole p _ w,
        (inr (unknown, led), l),
        λ q. absurd (ground (arith, (h q).0)),
      )

      answer_step :
          (e : OwnerEntry) (w : List ObjRef × Bool)
          → answer o now ns r ≡ some e
          → e.parent.name ≢ ""
          → IsWalked rounds e.parent inferred w
          → IsWalked (suc rounds) r inferred (e.parent ∷ w.0, w.1)
      answer_step e _ found named (le, w, l, h) = (
        omega (arith, le),
        whole e.parent _ w,
        (inl (e, answer-IsAnswered r e found, refl), l),
        λ q. ((h q).0, ((e, answer-IsAnswered r e found, refl), named, (h q).1)),
      )

  -- Thirty minutes for an answer that found the object, and five for one that did not.
  abbrev pub IsUnexpired : OwnerEntry → Type 0
  IsUnexpired e =
      ((e.missing ≡ false) × (ltb_ℤ (sub now e.at) (pos (30 * minute)) ≡ true))
      ⊎ ((e.missing ≡ true) × (ltb_ℤ (sub now e.at) (pos (5 * minute)) ≡ true))

  fresh-IsUnexpired : (e : OwnerEntry) → fresh now e ≡ true → IsUnexpired e
  unfolding fresh
  fresh-IsUnexpired e h = elim (Bool-cases e.missing) [
    | inl m ↦ inr (m, ground arith)
    | inr m ↦ inl (m, ground arith)
  ]

  -- A longer chain that is not inferred has asked about its top: an entry that has not expired.
  abbrev pub IsToppedOut : ObjRef → List ObjRef → Type 0
  IsToppedOut r [] = Unit
  IsToppedOut r (p ∷ ps) =
      let t = last_of p ps in
      (e : OwnerEntry) × (lookup (owner_key ns t.kind t.name) o.known ≡ some e) × IsUnexpired e

  top_known :
      (r : ObjRef)
      → top_unknown o now ns r ≡ false
      → (e : OwnerEntry) × (lookup (owner_key ns r.kind r.name) o.known ≡ some e) × IsUnexpired e
  unfolding top_unknown
  top_known r h = elim (Option-cases (lookup (owner_key ns r.kind r.name) o.known)) [
    | inl gone ↦ absurd (ground arith)
    | inr (e, found) ↦ (e, found, fresh-IsUnexpired e (ground arith))
  ]

  IsChain : ObjRef → List ObjRef × Bool → Type 0
  IsChain obj (chain, inf) =
      (rest : List ObjRef) × (chain ≡ obj ∷ rest)
      × (length rest ≤ owner_max_depth)
      × IsWhole owner_max_depth obj rest
      × IsLed obj rest
      × (inf ≡ false → IsConfirmed obj rest × IsToppedOut obj rest)

  finish-IsChain :
      (obj : ObjRef) (w : List ObjRef × Bool)
      → IsWalked owner_max_depth obj false w
      → IsChain obj (finish o now ns obj w)
  unfolding finish IsChain
  finish-IsChain obj ([], inf) (le, w, l, h) = ([], refl, le, w, l, λ q. ((h q).1, tt))
  finish-IsChain obj (p ∷ ps, inf) (le, w, l, h) =
      elim (Bool-cases (top_unknown o now ns (last_of p ps))) [
        | inl t ↦ rw t (p ∷ ps, refl, le, w, l, λ q. absurd (ground arith))
        | inr f ↦ rw f (p ∷ ps, refl, le, w, l, λ q. ((h q).1, top_known (last_of p ps) f))
      ]

  -- An owner chain starts with the object and has at most four owners; if it has fewer it ends where nothing
  -- leads further: where an answer of the API names no parent, or where there is no answer and the name
  -- tells none. Each owner is the parent that an answer names for the object before it or, where there is
  -- no answer, the one that its name tells. An answer counts only if it found the object and is younger
  -- than thirty minutes. If the chain is not marked as inferred, each owner is the parent that such an
  -- answer names, and the top of a longer chain has an unexpired entry.
  pub owner_chain_lem :
      (obj : ObjRef)
      → (rest : List ObjRef) × ((owner_chain o now ns obj).0 ≡ obj ∷ rest)
        × (length rest ≤ owner_max_depth)
        × IsWhole owner_max_depth obj rest
        × IsLed obj rest
        × ((owner_chain o now ns obj).1 ≡ false → IsConfirmed obj rest × IsToppedOut obj rest)
  unfolding owner_chain IsChain
  owner_chain_lem obj = finish-IsChain obj _ (walk-IsWalked owner_max_depth obj false)
