-- ===== src/Problems/Members/Newest.antt =====
-- What a row shows of its members does not depend on the order in which the map gives them.
use Prim.Native.String.compare
use Prim.Native.String.{[] as empty, ◌∷◌ as cons}
use mathlib.Core.List.{Permᴰ}
use kubehealth.Prelude.{
  ◌≡◌, refl, sym, ap, ap₂, ◌∙◌, Bool, true, false, not, ◌&&◌, ◌||◌, String, List, arith, str_eq,
  str_ltb, eq_iff, ◌==◌, Bool-cases, inl, inr, if◌then◌else◌,
}
use kubehealth.Prelude.Order.{IsOrder-str_ltb, IsTie-str_ltb}
use kubehealth.Time.{Time, after}
use kubehealth.Problems.Groups.{Member}
use kubehealth.Problems.Members.{newer_pod, newest_pod}

-- A candidate against the best so far: a failing Pod with a name.
abbrev beats : String → Time → String → Time → Bool
beats name time pod newest =
    after time newest || (time == newest && (not (str_eq pod "") && str_ltb name pod))

abbrev step : String → Time → String × Time → String × Time
step name time (pod, newest) = if beats name time pod newest then (name, time) else (pod, newest)

abbrev is_candidate : Member → Bool
is_candidate m = str_eq m.ref.kind "Pod" && m.warn

taken :
    (m : Member) (s : String × Time)
    → is_candidate m ≡ true
    → newer_pod m s ≡ step m.ref.name m.last s
unfolding newer_pod
taken m s h = ground arith

skipped : (m : Member) (s : String × Time) → is_candidate m ≡ false → newer_pod m s ≡ s
unfolding newer_pod
skipped m s h = ground arith

nil_least : (a : String) → str_ltb a "" ≡ false
nil_least empty = refl
nil_least (cons c s) = rw (compare.cons-nil c s) refl

step_comm :
    (a b : String) (t u : Time) (s : String × Time) → step a t (step b u s) ≡ step b u (step a t s)
step_comm a b t u (pod, newest) = ground (
  arith,
  IsTie-str_ltb a b,
  IsOrder-str_ltb.asym a b,
  IsOrder-str_ltb.asym b a,
  IsOrder-str_ltb.neg_trans b pod a,
  IsOrder-str_ltb.neg_trans a pod b,
  IsOrder-str_ltb.asym a pod,
  IsOrder-str_ltb.asym b pod,
  nil_least a,
  nil_least b,
  nil_least pod,
  IsTie-str_ltb a "",
  IsTie-str_ltb b "",
  eq_iff a b,
  eq_iff a "",
  eq_iff b "",
  eq_iff pod "",
)

newer_pod_comm :
    (a b : Member) (s : String × Time) → newer_pod a (newer_pod b s) ≡ newer_pod b (newer_pod a s)
newer_pod_comm a b s = elim (Bool-cases (is_candidate a)) [
  | inl p ↦ elim (Bool-cases (is_candidate b)) [
    | inl q ↦
        taken a _ p
        ∙ ap (step a.ref.name a.last) (taken b s q)
        ∙ step_comm a.ref.name b.ref.name a.last b.last s
        ∙ ap (step b.ref.name b.last) (sym (taken a s p))
        ∙ sym (taken b _ q)
    | inr q ↦ ap (newer_pod a) (skipped b s q) ∙ sym (skipped b _ q)
  ]
  | inr p ↦ skipped a _ p ∙ ap (newer_pod b) (sym (skipped a s p))
]

-- The Pod of a row, for logs and analysis, is the same in whatever order the map gives the members.
newest_pod-perm :
    (s : String × Time) {ms ns : List Member} → Permᴰ ms ns → newest_pod s ms ≡ newest_pod s ns
unfolding newest_pod
newest_pod-perm s Permᴰ.nil = refl
newest_pod-perm s (Permᴰ.cons {a = a} {l₂ = l} e p) =
    newest_pod-perm (newer_pod a s) p ∙ ap (λ m. newest_pod (newer_pod m s) l) e
newest_pod-perm s (Permᴰ.swap {a = a} {b = b} {l = l} e f) =
    ap (λ u. newest_pod u l) (newer_pod_comm b a s)
    ∙ ap₂ (λ u v. newest_pod (newer_pod u (newer_pod v s)) l) e f
newest_pod-perm s (Permᴰ.trans p q) = newest_pod-perm s p ∙ newest_pod-perm s q
