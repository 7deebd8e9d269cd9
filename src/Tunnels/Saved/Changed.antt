-- ===== src/Tunnels/Saved/Changed.antt =====
-- Which contexts go through another tunnel after `saveTunnel` (tunnels.go).
use mathlib.Core.List.{Permᴰ}
use kubehealth.Prelude.{
  ◌≡◌, ◌≢◌, refl, sym, ap, ap₂, ◌∙◌, subst, inl, inr, Bool, true, false, ◌||◌, String, Option, none,
  some, List, [], ◌∷◌, ◌++◌, arith, any, str_eq, str_ltb, eq_iff, Bool-cases, Option-cases,
  if◌then◌else◌,
}
use kubehealth.Prelude.Sort.{sort_by, sort_by-perm}
use kubehealth.Tunnels.{TunnelDef, Url, validate}
use kubehealth.Tunnels.Saved.{
  changed, refused, SaveError, not_valid, overlap, clash, compact, Kept, stopped, kept, keep_one,
  leave_one, keep_others, save_tunnel, tunnel_for_context,
}

module _ (ctx : String) where
  abbrev has : List String → Bool
  has cs = any (str_eq ctx) cs

  has-append : (xs ys : List String) → has (xs ++ ys) ≡ (has xs || has ys)
  has-append [] ys = refl
  has-append (x ∷ xs) ys = ground (arith, has-append xs ys)

  has-step :
      (x y : String) (xs ys : List String) → x ≡ y → has xs ≡ has ys → has (x ∷ xs) ≡ has (y ∷ ys)
  has-step x y xs ys e h = ground (arith, ap (str_eq ctx) e, h)

  has-perm : {xs ys : List String} → Permᴰ xs ys → has xs ≡ has ys
  has-perm Permᴰ.nil = refl
  has-perm (Permᴰ.cons e p) = has-step _ _ _ _ e (has-perm p)
  has-perm (Permᴰ.swap {a = a} {b = b} {l = l} e f) =
      has_swap a b l ∙ ap₂ (λ u v. has (v ∷ u ∷ l)) e f
    where
      has_swap : (x y : String) (zs : List String) → has (x ∷ y ∷ zs) ≡ has (y ∷ x ∷ zs)
      has_swap x y zs = ground arith
  has-perm (Permᴰ.trans p q) = has-perm p ∙ has-perm q

  has-compact : (xs : List String) → has (compact xs) ≡ has xs
  unfolding compact
  has-compact [] = refl
  has-compact (x ∷ []) = refl
  has-compact (x ∷ y ∷ xs) =
      ground (arith, has-compact (y ∷ xs), eq_iff x y, eq_iff ctx x, eq_iff ctx y)

  for-append :
      (d : TunnelDef) (out : List TunnelDef)
      → tunnel_for_context ctx (out ++ d ∷ []) ≡ elim (tunnel_for_context ctx out) [
        | some t ↦ some t
        | none ↦ if has d.contexts then some d else none
      ]
  unfolding tunnel_for_context
  for-append d [] = ground arith
  for-append d (t ∷ out) = ground (arith, for-append d out)

  module _ (parse : String → Option Url) (d : TunnelDef) (previous : String) where
    -- The kept tunnels serve the context as all did, unless it is one of a tunnel that was left out.
    abbrev IsServed : List TunnelDef → Kept → Type 0
    IsServed tunnels (stopped e) = Unit
    IsServed tunnels (kept cs out) =
        has cs ≡ false → tunnel_for_context ctx tunnels ≡ tunnel_for_context ctx out

    leave-IsServed :
        (t : TunnelDef) (tunnels : List TunnelDef) (k : Kept)
        → IsServed tunnels k
        → IsServed (t ∷ tunnels) (leave_one t k)
    unfolding leave_one tunnel_for_context
    leave-IsServed t tunnels (stopped e) h = tt
    leave-IsServed t tunnels (kept cs out) h = λ q. ground (arith, has-append t.contexts cs, h)

    keep-IsServed :
        (t : TunnelDef) (tunnels : List TunnelDef) (k : Kept)
        → IsServed tunnels k
        → IsServed (t ∷ tunnels) (keep_one t k)
    unfolding keep_one tunnel_for_context
    keep-IsServed t tunnels (stopped e) h = tt
    keep-IsServed t tunnels (kept cs out) h =
        λ q. ap (λ o. if has t.contexts then some t else o) (h q)

    keep_others-IsServed :
        (tunnels : List TunnelDef) → IsServed tunnels (keep_others parse d previous tunnels)
    unfolding keep_others
    keep_others-IsServed [] = λ q. refl
    keep_others-IsServed (t ∷ tunnels) = elim (Bool-cases (str_eq t.name previous)) [
      | inl e ↦ rw (e, keep_others) (leave-IsServed t tunnels _ (keep_others-IsServed tunnels))
      | inr e ↦ elim (Option-cases (clash parse d t)) [
        | inl c ↦ rw (e, keep_others, c) (keep-IsServed t tunnels _ (keep_others-IsServed tunnels))
        | inr (x, c) ↦ rw (e, keep_others, c) tt
      ]
    ]

    -- A context of the new tunnel is in none of the kept ones.
    abbrev IsFree : Kept → Type 0
    IsFree (stopped e) = Unit
    IsFree (kept cs out) = tunnel_for_context ctx out ≡ none

    overlap_none : (bs cs : List String) → has bs ≡ true → overlap bs cs ≡ false → has cs ≡ false
    unfolding overlap
    overlap_none [] cs h o = absurd (ground arith)
    overlap_none (b ∷ bs) cs h o = elim (Bool-cases (str_eq ctx b)) [
      | inl e ↦ subst (λ s. any (str_eq s) cs ≡ false) (sym ((eq_iff ctx b).0 e)) (ground arith)
      | inr e ↦ overlap_none bs cs (ground arith) (ground arith)
    ]

    keep-IsFree :
        (t : TunnelDef) (k : Kept) → has t.contexts ≡ false → IsFree k → IsFree (keep_one t k)
    unfolding keep_one tunnel_for_context
    keep-IsFree t (stopped e) h f = tt
    keep-IsFree t (kept cs out) h f = rw h f

    leave-IsFree : (t : TunnelDef) (k : Kept) → IsFree k → IsFree (leave_one t k)
    unfolding leave_one
    leave-IsFree t (stopped e) f = tt
    leave-IsFree t (kept cs out) f = f

    keep_others-IsFree :
        (tunnels : List TunnelDef)
        → has d.contexts ≡ true
        → IsFree (keep_others parse d previous tunnels)
    unfolding keep_others clash tunnel_for_context
    keep_others-IsFree [] h = refl
    keep_others-IsFree (t ∷ tunnels) h = elim (Bool-cases (str_eq t.name previous)) [
      | inl e ↦ rw (e, keep_others) (leave-IsFree t _ (keep_others-IsFree tunnels h))
      | inr e ↦ elim (Option-cases (clash parse d t)) [
        | inl c ↦
            rw (e, keep_others, c)
              (keep-IsFree t _ (overlap_none d.contexts t.contexts h (ground arith))
                (keep_others-IsFree tunnels h))
        | inr (x, c) ↦ rw (e, keep_others, c) tt
      ]
    ]

    -- What the loop left, against the answer and the tunnels after it.
    kept-IsServed :
        (tunnels out : List TunnelDef) (cs : List String)
        → IsServed tunnels (kept cs out)
        → (has d.contexts ≡ true → IsFree (kept cs out))
        → (has (compact (sort_by str_ltb (cs ++ d.contexts))) ≡ false
            → tunnel_for_context ctx tunnels ≡ tunnel_for_context ctx (out ++ d ∷ []))
          × (has d.contexts ≡ true → tunnel_for_context ctx (out ++ d ∷ []) ≡ some d)
    kept-IsServed tunnels out cs h f =
        let all = has-compact (sort_by str_ltb (cs ++ d.contexts)) in
        let sorted = has-perm (sort_by-perm str_ltb (cs ++ d.contexts)) in
        let parts = has-append cs d.contexts in
        let after = for-append d out in
        (
          (λ q. h (ground arith) ∙ sym (after ∙ other (ground arith))),
          λ q. after ∙ rw (f q) (rw q refl),
        )
      where
        other :
            has d.contexts ≡ false
            → (elim (tunnel_for_context ctx out) [
              | some t ↦ some t
              | none ↦ if has d.contexts then some d else none
            ])
              ≡ tunnel_for_context ctx out
        other q = elim (Option-cases (tunnel_for_context ctx out)) [
          | inl e ↦ rw (e, q) refl
          | inr (t, e) ↦ rw e refl
        ]

module _ (parse : String → Option Url) (d : TunnelDef) (previous : String)
    (tunnels : List TunnelDef) where
  never : (e : SaveError) (cs : List String) → refused e ≢ changed cs
  never e cs h = ground arith

  same : (cs ds : List String) → changed cs ≡ changed ds → ds ≡ cs
  same cs ds h = ground arith

  saved_parts :
      (k : Kept) (cs : List String)
      → k ≡ keep_others parse d (if str_eq previous "" then d.name else previous) tunnels
      → (save_tunnel parse true d previous tunnels).0 ≡ changed cs
      → (cs0 : List String) × (out : List TunnelDef) × (kept cs0 out
          ≡ keep_others parse d (if str_eq previous "" then d.name else previous) tunnels)
        × (cs ≡ compact (sort_by str_ltb (cs0 ++ d.contexts)))
        × ((save_tunnel parse true d previous tunnels).1 ≡ out ++ d ∷ [])
  unfolding save_tunnel
  saved_parts (stopped e) cs eq h = elim (Option-cases (validate parse d)) [
    | inl v ↦ absurd (never e cs (rw (v, save_tunnel, sym eq) at h))
    | inr (x, v) ↦ absurd (never (not_valid x) cs (rw (v, save_tunnel) at h))
  ]
  saved_parts (kept cs0 out) cs eq h = elim (Option-cases (validate parse d)) [
    | inl v ↦ (
      cs0,
      out,
      eq,
      same _ cs (rw (v, save_tunnel, sym eq) at h),
      rw (v, save_tunnel, sym eq) refl,
    )
    | inr (x, v) ↦ absurd (never (not_valid x) cs (rw (v, save_tunnel) at h))
  ]

  -- A saved tunnel serves each of its contexts from then on, and every context that is not among the
  -- changed ones that `saveTunnel` returns keeps its tunnel, or goes on having none.
  pub save_tunnel_changed :
      (ctx : String) (cs : List String)
      → (save_tunnel parse true d previous tunnels).0 ≡ changed cs
      → (any (str_eq ctx) cs ≡ false
          → tunnel_for_context ctx tunnels
            ≡ tunnel_for_context ctx (save_tunnel parse true d previous tunnels).1)
        × (any (str_eq ctx) d.contexts ≡ true
            → tunnel_for_context ctx (save_tunnel parse true d previous tunnels).1 ≡ some d)
  save_tunnel_changed ctx cs h =
      let (cs0, out, eq, names, after) = saved_parts _ cs refl h in
      let name = if str_eq previous "" then d.name else previous in
      let (kept_one, new) =
        kept-IsServed ctx parse d name tunnels out cs0
          (subst (IsServed ctx parse d name tunnels) (sym eq)
            (keep_others-IsServed ctx parse d name tunnels))
          (λ q.
            subst (IsFree ctx parse d name) (sym eq)
              (keep_others-IsFree ctx parse d name tunnels q)) in
      (
        (λ q.
            kept_one (sym (ap (λ l. any (str_eq ctx) l) names) ∙ q)
            ∙ ap (tunnel_for_context ctx) (sym after)),
        λ q. ap (tunnel_for_context ctx) after ∙ new q,
      )
