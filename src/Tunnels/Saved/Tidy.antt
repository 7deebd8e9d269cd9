-- ===== src/Tunnels/Saved/Tidy.antt =====
-- What holds of the saved tunnels (tunnels.go) after every change.
use kubehealth.Prelude.{
  ◌≡◌, ◌≢◌, refl, sym, subst, ◌⊎◌, inl, inr, Bool, false, String, Option, none, List, [], ◌∷◌, ◌++◌,
  arith, All, All-append, Pairs, str_eq, eq_iff, Bool-cases, Option-cases, if◌then◌else◌,
}
use kubehealth.Tunnels.{TunnelDef, Url, endpoint, validate}
use kubehealth.Tunnels.Saved.{
  overlap, clash, Kept, stopped, kept, keep_one, leave_one, keep_others, save_tunnel, drop_named,
  delete_tunnel,
}

module _ (parse : String → Option Url) where
  -- The later tunnel has another name, no context in common and another endpoint, if it has one.
  abbrev pub IsBeside : TunnelDef → TunnelDef → Type 0
  IsBeside t d =
      (t.name ≢ d.name)
      × (overlap d.contexts t.contexts ≡ false)
      × ((endpoint parse d ≡ "") ⊎ (endpoint parse d ≢ endpoint parse t))

  abbrev pub IsTidy : List TunnelDef → Type 0
  IsTidy defs = All (λ d. validate parse d ≡ none) defs × Pairs IsBeside defs

  clash-IsBeside : (d t : TunnelDef) → clash parse d t ≡ none → IsBeside t d
  unfolding clash
  clash-IsBeside d t h = elim (Bool-cases (str_eq t.name d.name)) [
    | inl e ↦ absurd (ground arith)
    | inr e ↦ elim (Bool-cases (overlap d.contexts t.contexts)) [
      | inl o ↦ absurd (ground arith)
      | inr o ↦ ((λ q. ground (arith, eq_iff t.name d.name)), o, ends)
    ]
  ]
    where
      ends : (endpoint parse d ≡ "") ⊎ (endpoint parse d ≢ endpoint parse t)
      ends = elim (Bool-cases (str_eq (endpoint parse d) "")) [
        | inl e ↦ inl ((eq_iff (endpoint parse d) "").0 e)
        | inr e ↦ inr (λ q. ground (arith, eq_iff (endpoint parse d) (endpoint parse t)))
      ]

  -- What holds of each tunnel holds of those that the loop keeps.
  module _ (d : TunnelDef) (previous : String) where
    abbrev IsKept : (TunnelDef → Type 0) → Kept → Type 0
    IsKept P (stopped e) = Unit
    IsKept P (kept cs out) = All P out

    keep_one-IsKept :
        (P : TunnelDef → Type 0) (t : TunnelDef) (k : Kept)
        → P t
        → IsKept P k
        → IsKept P (keep_one t k)
    unfolding keep_one
    keep_one-IsKept P t (stopped e) p h = tt
    keep_one-IsKept P t (kept cs out) p h = (p, h)

    leave_one-IsKept :
        (P : TunnelDef → Type 0) (t : TunnelDef) (k : Kept) → IsKept P k → IsKept P (leave_one t k)
    unfolding leave_one
    leave_one-IsKept P t (stopped e) h = tt
    leave_one-IsKept P t (kept cs out) h = h

    keep_others-All :
        (P : TunnelDef → Type 0) (tunnels : List TunnelDef)
        → All P tunnels
        → IsKept P (keep_others parse d previous tunnels)
    unfolding keep_others
    keep_others-All P [] h = tt
    keep_others-All P (t ∷ tunnels) h = elim (Bool-cases (str_eq t.name previous)) [
      | inl e ↦ rw (e, keep_others) (leave_one-IsKept P t _ (keep_others-All P tunnels h.1))
      | inr e ↦ elim (Option-cases (clash parse d t)) [
        | inl c ↦ rw (e, keep_others, c) (keep_one-IsKept P t _ h.0 (keep_others-All P tunnels h.1))
        | inr (x, c) ↦ rw (e, keep_others, c) tt
      ]
    ]

    keep_others-IsBeside :
        (tunnels : List TunnelDef)
        → IsKept (λ t. IsBeside t d) (keep_others parse d previous tunnels)
    unfolding keep_others
    keep_others-IsBeside [] = tt
    keep_others-IsBeside (t ∷ tunnels) = elim (Bool-cases (str_eq t.name previous)) [
      | inl e ↦ rw (e, keep_others) (leave_one-IsKept _ t _ (keep_others-IsBeside tunnels))
      | inr e ↦ elim (Option-cases (clash parse d t)) [
        | inl c ↦
            rw (e, keep_others, c)
              (keep_one-IsKept _ t _ (clash-IsBeside d t c) (keep_others-IsBeside tunnels))
        | inr (x, c) ↦ rw (e, keep_others, c) tt
      ]
    ]

    abbrev IsPaired : Kept → Type 0
    IsPaired (stopped e) = Unit
    IsPaired (kept cs out) = Pairs IsBeside out

    keep_one-IsPaired :
        (t : TunnelDef) (k : Kept) → IsKept (IsBeside t) k → IsPaired k → IsPaired (keep_one t k)
    unfolding keep_one
    keep_one-IsPaired t (stopped e) p h = tt
    keep_one-IsPaired t (kept cs out) p h = (p, h)

    leave_one-IsPaired : (t : TunnelDef) (k : Kept) → IsPaired k → IsPaired (leave_one t k)
    unfolding leave_one
    leave_one-IsPaired t (stopped e) h = tt
    leave_one-IsPaired t (kept cs out) h = h

    keep_others-IsPaired :
        (tunnels : List TunnelDef)
        → Pairs IsBeside tunnels
        → IsPaired (keep_others parse d previous tunnels)
    unfolding keep_others
    keep_others-IsPaired [] h = tt
    keep_others-IsPaired (t ∷ tunnels) h = elim (Bool-cases (str_eq t.name previous)) [
      | inl e ↦ rw (e, keep_others) (leave_one-IsPaired t _ (keep_others-IsPaired tunnels h.1))
      | inr e ↦ elim (Option-cases (clash parse d t)) [
        | inl c ↦
            rw (e, keep_others, c)
              (keep_one-IsPaired t _ (keep_others-All (IsBeside t) tunnels h.0)
                (keep_others-IsPaired tunnels h.1))
        | inr (x, c) ↦ rw (e, keep_others, c) tt
      ]
    ]

  Pairs-snoc :
      (d : TunnelDef) (out : List TunnelDef)
      → Pairs IsBeside out
      → All (λ t. IsBeside t d) out
      → Pairs IsBeside (out ++ d ∷ [])
  Pairs-snoc d [] h k = (tt, tt)
  Pairs-snoc d (t ∷ out) h k =
      (All-append (IsBeside t) out (d ∷ []) h.0 (k.0, tt), Pairs-snoc d out h.1 k.1)

  saved-IsTidy :
      (written : Bool) (d : TunnelDef) (previous : String) (tunnels : List TunnelDef) (k : Kept)
      → validate parse d ≡ none
      → IsTidy tunnels
      → k ≡ keep_others parse d (if str_eq previous "" then d.name else previous) tunnels
      → IsTidy (save_tunnel parse written d previous tunnels).1
  unfolding save_tunnel
  saved-IsTidy written d previous tunnels (stopped e) v h eq = rw (v, save_tunnel, sym eq) h
  saved-IsTidy written d previous tunnels (kept cs out) v h eq =
      let name = if str_eq previous "" then d.name else previous in
      let valid =
        subst (IsKept d name (λ t. validate parse t ≡ none)) (sym eq)
          (keep_others-All d name (λ t. validate parse t ≡ none) tunnels h.0) in
      let beside =
        subst (IsKept d name (λ t. IsBeside t d)) (sym eq) (keep_others-IsBeside d name tunnels) in
      let paired = subst (IsPaired d name) (sym eq) (keep_others-IsPaired d name tunnels h.1) in
      rw (v, save_tunnel, sym eq)
        (
          All-append (λ t. validate parse t ≡ none) out (d ∷ []) valid (v, tt),
          Pairs-snoc d out paired beside,
        )

  drop_named-All :
      (P : TunnelDef → Type 0) (name : String) (tunnels : List TunnelDef)
      → All P tunnels
      → All P (drop_named name tunnels).1
  unfolding drop_named
  drop_named-All P name [] h = tt
  drop_named-All P name (t ∷ tunnels) h = elim (Bool-cases (str_eq t.name name)) [
    | inl e ↦ rw (e, drop_named) (drop_named-All P name tunnels h.1)
    | inr e ↦ rw (e, drop_named) (h.0, drop_named-All P name tunnels h.1)
  ]

  drop_named-Pairs :
      (name : String) (tunnels : List TunnelDef)
      → Pairs IsBeside tunnels
      → Pairs IsBeside (drop_named name tunnels).1
  unfolding drop_named
  drop_named-Pairs name [] h = tt
  drop_named-Pairs name (t ∷ tunnels) h = elim (Bool-cases (str_eq t.name name)) [
    | inl e ↦ rw (e, drop_named) (drop_named-Pairs name tunnels h.1)
    | inr e ↦
        rw (e, drop_named)
          (drop_named-All (IsBeside t) name tunnels h.0, drop_named-Pairs name tunnels h.1)
  ]

  deleted-IsTidy :
      (written : Bool) (name : String) (tunnels : List TunnelDef)
      → IsTidy tunnels
      → IsTidy (delete_tunnel written name tunnels).1
  unfolding delete_tunnel
  deleted-IsTidy written name tunnels h = elim (Option-cases (drop_named name tunnels).0) [
    | inl e ↦ rw (e, delete_tunnel) h
    | inr (cs, e) ↦
        rw (e, delete_tunnel)
          (
            drop_named-All (λ t. validate parse t ≡ none) name tunnels h.0,
            drop_named-Pairs name tunnels h.1,
          )
  ]

  -- Saving or deleting a tunnel, whether or not it is refused and whether or not the file is written,
  -- leaves only valid tunnels, each with a name of its own, no context in two of them, and no local
  -- endpoint in two of them.
  pub change-IsTidy :
      (written : Bool) (d : TunnelDef) (previous name : String) (tunnels : List TunnelDef)
      → IsTidy tunnels
      → IsTidy (save_tunnel parse written d previous tunnels).1
        × IsTidy (delete_tunnel written name tunnels).1
  unfolding save_tunnel
  change-IsTidy written d previous name tunnels h = elim (Option-cases (validate parse d)) [
    | inl v ↦
        (saved-IsTidy written d previous tunnels _ v h refl, deleted-IsTidy written name tunnels h)
    | inr (e, v) ↦ rw (v, save_tunnel) (h, deleted-IsTidy written name tunnels h)
  ]
