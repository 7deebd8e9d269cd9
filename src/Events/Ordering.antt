-- ===== src/Events/Ordering.antt =====
-- `sortNewestFirst` puts lists merged from maps in one order.
use mathlib.Core.List.{Permᴰ}
use kubehealth.Prelude.{◌≡◌, ◌≢◌, ◌⊎◌, true, List, [], ◌∷◌, arith, All, Pairs, eq_iff}
use kubehealth.Prelude.Order.{
  IsOrder, IsOrder-ltb, IsOrder-str_ltb, IsTie-str_ltb, IsOrder-on, IsOrder-flip, IsOrder-lex,
}
use kubehealth.Prelude.Sort.{IsSorted, IsApart, sort_by-IsSorted, sort_by-perm_eq}
use kubehealth.Events.{EventSummary, newer, sort_newest_first}

pub newer-IsOrder : IsOrder newer
unfolding newer
newer-IsOrder =
    IsOrder-lex (λ a b. ground arith)
      (IsOrder-on (λ (e : EventSummary). e.last_time) (IsOrder-flip IsOrder-ltb))
      (IsOrder-lex (λ a b. IsTie-str_ltb a.namespace b.namespace)
        (IsOrder-on (λ (e : EventSummary). e.namespace) IsOrder-str_ltb)
        (IsOrder-on (λ (e : EventSummary). e.name) IsOrder-str_ltb))

-- Event names are unique per namespace.
abbrev pub HasIdentities : List EventSummary → Type 0
HasIdentities = Pairs (λ a b. (a.namespace ≢ b.namespace) ⊎ (a.name ≢ b.name))

newer_total :
    (a b : EventSummary)
    → (a.namespace ≢ b.namespace) ⊎ (a.name ≢ b.name)
    → (newer a b ≡ true) ⊎ (newer b a ≡ true)
unfolding newer
newer_total a b h = ground (
  arith,
  IsTie-str_ltb a.namespace b.namespace,
  IsTie-str_ltb a.name b.name,
  eq_iff a.namespace b.namespace,
  eq_iff b.namespace a.namespace,
  eq_iff a.name b.name,
)

newer-All :
    (a : EventSummary) (evs : List EventSummary)
    → All (λ b. (a.namespace ≢ b.namespace) ⊎ (a.name ≢ b.name)) evs
    → All (λ b. (newer a b ≡ true) ⊎ (newer b a ≡ true)) evs
newer-All a [] h = tt
newer-All a (b ∷ evs) h = (newer_total a b h.0, newer-All a evs h.1)

newer-IsApart : (evs : List EventSummary) → HasIdentities evs → IsApart newer evs
newer-IsApart [] h = tt
newer-IsApart (a ∷ evs) h = (newer-All a evs h.0, newer-IsApart evs h.1)

-- Events with different identities come out in one order, newest first, whatever order they came in.
pub sort_newest_first_canonical :
    {xs ys : List EventSummary}
    → Permᴰ xs ys
    → HasIdentities xs
    → (sort_newest_first xs ≡ sort_newest_first ys) × IsSorted newer (sort_newest_first xs)
unfolding sort_newest_first
sort_newest_first_canonical {xs} p h =
    (sort_by-perm_eq newer-IsOrder p (newer-IsApart xs h), sort_by-IsSorted newer-IsOrder xs)
