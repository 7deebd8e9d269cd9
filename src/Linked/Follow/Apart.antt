-- ===== src/Linked/Follow/Apart.antt =====
-- The first rules of `followLinks` (linked.go) list each object once, and never the one that the evidence
-- is about.
use kubehealth.Prelude.{
  ◌≡◌, ◌≢◌, sym, inl, inr, Bool, false, ◌||◌, String, List, [], ◌∷◌, ◌++◌, arith, All, Pairs,
  All-append, any, str_eq, eq_iff, Bool-cases,
}
use kubehealth.Events.{EventSummary}
use kubehealth.Caches.{Caches}
use kubehealth.Linked.{LinkedItem, item_key}
use kubehealth.Linked.Follow.{Api, Matches, Linker, new_linker, object_key, add_linked}
use kubehealth.Linked.Follow.Config.{config_refs}
use kubehealth.Linked.Follow.Claims.{claims}
use kubehealth.Linked.Follow.Pulls.{follow_pull_secrets}
use kubehealth.Linked.Follow.Kept.{config_refs-keeps, claims-keeps, follow_pull_secrets-keeps}

-- The rules of `followLinks` up to the pull secrets, from its new linker on.
unfoldable pub first_rules :
    Caches
    → Api
    → Matches
    → String
    → String
    → String
    → List EventSummary
    → List EventSummary
    → String
    → Linker
first_rules c api m ns kind name events members logs =
    follow_pull_secrets api m
      (claims c api m (config_refs api m (new_linker ns kind name events members logs)))

abbrev has_key : String → List LinkedItem → Bool
has_key k items = any (λ i. str_eq k (item_key i)) items

-- The items are of different objects, none of them the anchor, and `seen` has their keys and its.
record IsApart (anchor : String) (l : Linker) : Type 0 where
  apart : Pairs (λ a b. item_key a ≢ item_key b) l.items
  others : All (λ i. item_key i ≢ anchor) l.items
  seen_keys : (k : String) → any (str_eq k) l.seen ≡ (str_eq k anchor || has_key k l.items)

has_key-append :
    (k : String) (items : List LinkedItem) (it : LinkedItem)
    → has_key k (items ++ it ∷ []) ≡ (has_key k items || str_eq k (item_key it))
has_key-append k [] it = ground arith
has_key-append k (i ∷ items) it = ground (arith, has_key-append k items it)

fresh :
    (k : String) (items : List LinkedItem)
    → has_key k items ≡ false
    → All (λ i. item_key i ≢ k) items
fresh k [] h = tt
fresh k (i ∷ items) h =
    ((λ e. ground (arith, h, eq_iff k (item_key i), sym e)), fresh k items (ground (arith, h)))

Pairs-append :
    (items : List LinkedItem) (it : LinkedItem)
    → Pairs (λ a b. item_key a ≢ item_key b) items
    → All (λ i. item_key i ≢ item_key it) items
    → Pairs (λ a b. item_key a ≢ item_key b) (items ++ it ∷ [])
Pairs-append [] it p a = (tt, tt)
Pairs-append (i ∷ items) it p a =
    (All-append _ items (it ∷ []) p.0 (a.0, tt), Pairs-append items it p.1 a.1)

add_linked-IsApart :
    (anchor : String) (it : LinkedItem) (l : Linker)
    → IsApart anchor l
    → IsApart anchor (add_linked it l)
unfolding add_linked
add_linked-IsApart anchor it l r = elim (Bool-cases (any (str_eq (item_key it)) l.seen)) [
  | inl e ↦ rw e r
  | inr e ↦ rw e (record {
    apart =
        Pairs-append l.items it r.apart
          (fresh (item_key it) l.items (ground (arith, e, r.seen_keys (item_key it))));
    others =
        All-append _ l.items (it ∷ []) r.others
          ((λ q. ground (arith, e, r.seen_keys (item_key it), eq_iff (item_key it) anchor)), tt);
    seen_keys = λ k. ground (arith, r.seen_keys k, has_key-append k l.items it);
  })
]

new_linker-IsApart :
    (ns kind name : String) (events members : List EventSummary) (logs : String)
    → IsApart (object_key kind ns name) (new_linker ns kind name events members logs)
unfolding new_linker
new_linker-IsApart ns kind name events members logs = record {
  apart = tt;
  others = tt;
  seen_keys = λ k. ground arith;
}

-- However the API answers and whatever the evidence says, the rules on ConfigMaps and Secrets, on claims
-- and on pull secrets list objects with different keys (kind, namespace and name), and none with the key
-- of the object that the evidence is about.
pub first_rules_lem :
    (c : Caches) (api : Api) (m : Matches) (ns kind name : String)
    (events members : List EventSummary) (logs : String)
    → Pairs
        (λ a b. item_key a ≢ item_key b)
        (first_rules c api m ns kind name events members logs).items
      × All
          (λ i. item_key i ≢ object_key kind ns name)
          (first_rules c api m ns kind name events members logs).items
unfolding first_rules
first_rules_lem c api m ns kind name events members logs =
    let anchor = object_key kind ns name in
    let r = follow_pull_secrets-keeps (IsApart anchor) (add_linked-IsApart anchor) api m _ (
      claims-keeps (IsApart anchor) (add_linked-IsApart anchor) c api m _ (
        config_refs-keeps (IsApart anchor) (add_linked-IsApart anchor) api m _
          (new_linker-IsApart ns kind name events members logs))) in
    (r.apart, r.others)
