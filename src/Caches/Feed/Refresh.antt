-- ===== src/Caches/Feed/Refresh.antt =====
-- What `refreshWarnings` leaves in the feed, against the list of all items that the server hands out.
use kubehealth.Prelude.{
  ℕ, zero, suc, ◌≡◌, refl, sym, ◌∙◌, ap, Bool, true, false, String, List, [], ◌∷◌, ◌++◌, ◌||◌,
  arith, str_eq, eq_iff, if◌then◌else◌, map, keep, Bool-cases, inl, inr,
}
use mathlib.Core.List.{append_assoc, append-nil}
use kubehealth.Time.{Time}
use kubehealth.Events.{EventSummary, sort_newest_first}
use kubehealth.Caches.{WarnFeed}
use kubehealth.Caches.Maps.{Map, lookup_or, store, lookup_or-store}
use kubehealth.Caches.Feed.{
  ApiEvent, Answer, page, failed, Fetch, fetched, refused, cancelled, to_summary, add_items,
  fetch_pages, sort_all, store_fetch, refresh_warnings, warn_feed_max_pages,
}

-- The items of at most `left` pages in the order in which they come, and whether more pages are left.
pub data Listing : Type 0 where
  items : List ApiEvent → Bool → Listing
  error : String → Bool → Listing
  stopped : Listing

abbrev before_items : List ApiEvent → Listing → Listing
before_items new (items old more) = items (new ++ old) more
before_items new (error message forbidden) = error message forbidden
before_items new stopped = stopped

unfoldable pub listing : (String → Answer) → ℕ → String → Listing
listing list zero token = items [] true
listing list (suc left) token = elim (list token) [
  | failed message forbidden done ↦ if done then stopped else error message forbidden
  | page new next ↦
      let rest = before_items new (listing list left next) in
      if str_eq next "" then items new false else rest
]

-- The summaries of one namespace's items.
abbrev pub summaries : Time → String → List ApiEvent → List EventSummary
summaries now ns evs = map (to_summary now) (keep (λ e. str_eq e.namespace ns) evs)

add_one : Time → ApiEvent → Map (List EventSummary) → Map (List EventSummary)
add_one now e m = store e.namespace (lookup_or [] e.namespace m ++ to_summary now e ∷ []) m

lookup-add_items :
    (now : Time) (ns : String) (evs : List ApiEvent) (m : Map (List EventSummary))
    → lookup_or [] ns (add_items now m evs) ≡ lookup_or [] ns m ++ summaries now ns evs
unfolding add_items add_one
lookup-add_items now ns [] m = sym (append-nil (lookup_or [] ns m))
lookup-add_items now ns (e ∷ evs) m = elim (Bool-cases (str_eq e.namespace ns)) [
  | inl here ↦
      lookup-add_items now ns evs (add_one now e m)
      ∙ rw
          (
            lookup_or-store,
            here,
            ap (λ n. lookup_or [] n m) ((eq_iff e.namespace ns).0 here),
            keep,
            append_assoc,
          )
          refl
  | inr other ↦
      lookup-add_items now ns evs (add_one now e m) ∙ rw (lookup_or-store, other, keep) refl
]

lookup-sort_all :
    (ns : String) (m : Map (List EventSummary))
    → lookup_or [] ns (sort_all m) ≡ sort_newest_first (lookup_or [] ns m)
unfolding sort_all lookup_or sort_newest_first
lookup-sort_all ns [] = refl
lookup-sort_all ns ((n, evs) ∷ m) = ground (arith, lookup-sort_all ns m)

-- A map that has each namespace's summaries behind what `m` has.
abbrev Extends : Time → Map (List EventSummary) → List ApiEvent → Map (List EventSummary) → Type 0
Extends now m evs m' =
    (ns : String) → lookup_or [] ns m' ≡ lookup_or [] ns m ++ summaries now ns evs

abbrev Agrees : Time → Map (List EventSummary) → Listing → Fetch → Type 0
Agrees now m (items evs more) f =
    (m' : Map (List EventSummary)) × (f ≡ fetched m' more) × Extends now m evs m'
Agrees now m (error message forbidden) f = f ≡ refused message forbidden
Agrees now m stopped f = f ≡ cancelled

summaries-append :
    (now : Time) (ns : String) (xs ys : List ApiEvent)
    → summaries now ns (xs ++ ys) ≡ summaries now ns xs ++ summaries now ns ys
summaries-append now ns [] ys = refl
summaries-append now ns (e ∷ xs) ys = ground (arith, summaries-append now ns xs ys)

Agrees-before :
    (now : Time) (m : Map (List EventSummary)) (new : List ApiEvent) (l : Listing) (f : Fetch)
    → Agrees now (add_items now m new) l f
    → Agrees now m (before_items new l) f
Agrees-before now m new (items evs more) f (m', e, h) =
    (m', e, λ ns. h ns ∙ rw (lookup-add_items, summaries-append, append_assoc) refl)
Agrees-before now m new (error message forbidden) f h = h
Agrees-before now m new stopped f h = h

Agrees-answer :
    (list : String → Answer) (now : Time) (left : ℕ) (token : String) (m : Map (List EventSummary))
    (a : Answer)
    → list token ≡ a
    → ((next : String) (m' : Map (List EventSummary))
        → Agrees now m' (listing list left next) (fetch_pages list now left next m'))
    → Agrees now m (listing list (suc left) token) (fetch_pages list now (suc left) token m)
unfolding listing fetch_pages
Agrees-answer list now left token m (failed message forbidden true) e ih =
    rw (e, listing, fetch_pages) refl
Agrees-answer list now left token m (failed message forbidden false) e ih =
    rw (e, listing, fetch_pages) refl
Agrees-answer list now left token m (page new next) e ih = elim (Bool-cases (str_eq next "")) [
  | inl last ↦
      rw (e, listing, fetch_pages, last)
        (add_items now m new, refl, λ ns. lookup-add_items now ns new m)
  | inr more ↦
      rw (e, listing, fetch_pages, more)
        (Agrees-before now m new (listing list left next) _ (ih next (add_items now m new)))
]

Agrees-fetch_pages :
    (list : String → Answer) (now : Time) (left : ℕ) (token : String) (m : Map (List EventSummary))
    → Agrees now m (listing list left token) (fetch_pages list now left token m)
unfolding listing fetch_pages
Agrees-fetch_pages list now zero token m = (m, refl, λ ns. sym (append-nil (lookup_or [] ns m)))
Agrees-fetch_pages list now (suc left) token m =
    Agrees-answer list now left token m (list token) refl
      (λ next m'. Agrees-fetch_pages list now left next m')

-- The feed after a refresh, by what the server hands out.
abbrev pub IsRefreshed : Time → Time → WarnFeed → Listing → WarnFeed → Type 0
IsRefreshed started finished feed (items evs more) feed' =
    ((ns : String) → lookup_or [] ns feed'.by_ns ≡ sort_newest_first (summaries started ns evs))
    × (feed'.truncated ≡ more)
    × (feed'.fetched_at ≡ finished)
    × (feed'.last_err ≡ "")
    × (feed'.disabled ≡ feed.disabled)
IsRefreshed started finished feed (error message forbidden) feed' = feed' ≡ record feed {
  attempted_at = started;
  last_err = message;
  disabled = feed.disabled || forbidden;
}
IsRefreshed started finished feed stopped feed' = feed' ≡ record feed { attempted_at = started }

IsRefreshed-store_fetch :
    (started finished : Time) (feed : WarnFeed) (l : Listing) (f : Fetch)
    → Agrees started [] l f
    → IsRefreshed started finished feed l
        (store_fetch finished f (record feed { attempted_at = started }))
unfolding store_fetch lookup_or
IsRefreshed-store_fetch started finished feed (items evs more) f (m, e, h) =
    rw (e, store_fetch)
      ((λ ns. lookup-sort_all ns m ∙ ap sort_newest_first (h ns)), refl, refl, refl, refl)
IsRefreshed-store_fetch started finished feed (error message forbidden) f e =
    rw (e, store_fetch) refl
IsRefreshed-store_fetch started finished feed stopped f e = rw (e, store_fetch) refl

-- If at most 20 pages come without an error, the feed has for each namespace the summaries of all items
-- of these pages about it, newest first, and `truncated` says whether pages were left; an error leaves
-- the events as they were, keeps its message, and disables the feed for good if access was refused; a
-- fetch whose context ended changes nothing but the time of the attempt.
pub refresh_warnings_lem :
    (list : String → Answer) (started finished : Time) (feed : WarnFeed)
    → IsRefreshed started finished feed
        (listing list warn_feed_max_pages "")
        (refresh_warnings list started finished feed)
unfolding refresh_warnings
refresh_warnings_lem list started finished feed =
    IsRefreshed-store_fetch started finished feed (listing list warn_feed_max_pages "") _
      (Agrees-fetch_pages list started warn_feed_max_pages "" [])
