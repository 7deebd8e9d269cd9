-- ===== src/Families/Objects.antt =====
-- What `groupByObject` (main.go) makes of a list of events.
use kubehealth.Prelude.{
  ◌≡◌, refl, sym, ap, ap₂, ◌∙◌, perm_sym, subst, ℕ, ◌+◌, ◌≤◌, Bool, true, false, not, List, [], ◌∷◌,
  ◌++◌, map, keep, any, length, arith, All, length-append, ltb, str_eq, Bool-cases, inl, inr,
  if◌then◌else◌,
}
use mathlib.Core.List.{append-nil, append_assoc}
use kubehealth.Prelude.Sort.{sort_by-perm, All-sort_by}
use kubehealth.Prelude.Totals.{total, count, indicator, total-perm, total-map}
use kubehealth.Time.{Time}
use kubehealth.Events.{EventSummary}
use kubehealth.Owners.{ObjRef}
use kubehealth.Problems.Groups.{same_ref}
use kubehealth.Families.{
  ObjectEvents, later, note_event, new_object, add_to_object, add_all, set_idle, object_before,
  is_about, group_by_object,
}
use kubehealth.Families.Trees.{obj_key, keys_of}
use kubehealth.Families.Trees.Counted.{same_ref_sound, same_ref_sym}
use kubehealth.Families.Trees.Walked.{same_ref_refl}

abbrev pub event_key : EventSummary → ObjRef
event_key e = record { kind = e.kind; name = e.object_name }

abbrev pub is_of : ObjRef → EventSummary → Bool
is_of x e = same_ref x (event_key e)

abbrev pub is_warning_event : EventSummary → Bool
is_warning_event e = str_eq e.type "Warning"

-- What an object of these events is like; `idle` is another matter.
abbrev pub IsObject : List EventSummary → ObjectEvents → Type 0
IsObject events o =
    (o.events ≡ keep (is_of (obj_key o)) events)
    × (o.warning_count ≡ length (keep is_warning_event o.events))
    × (o.normal_count ≡ length (keep (λ e. not (is_warning_event e)) o.events))
    × (o.has_warning ≡ ltb 0 o.warning_count)
    × All (λ e. e.last_time ≤ o.last_time) o.events

keep-append_kept :
    (t : EventSummary → Bool) (xs : List EventSummary) (e : EventSummary)
    → t e ≡ true
    → keep t (xs ++ e ∷ []) ≡ keep t xs ++ e ∷ []
keep-append_kept t [] e h = rw (h, keep) refl
keep-append_kept t (x ∷ xs) e h = elim (Bool-cases (t x)) [
  | inl k ↦ rw (k, keep) (ap (λ l. x ∷ l) (keep-append_kept t xs e h))
  | inr k ↦ rw (k, keep) (keep-append_kept t xs e h)
]

keep-append_dropped :
    (t : EventSummary → Bool) (xs : List EventSummary) (e : EventSummary)
    → t e ≡ false
    → keep t (xs ++ e ∷ []) ≡ keep t xs
keep-append_dropped t [] e h = rw (h, keep) refl
keep-append_dropped t (x ∷ xs) e h = elim (Bool-cases (t x)) [
  | inl k ↦ rw (k, keep) (ap (λ l. x ∷ l) (keep-append_dropped t xs e h))
  | inr k ↦ rw (k, keep) (keep-append_dropped t xs e h)
]

any-append :
    (t : EventSummary → Bool) (xs : List EventSummary) (e : EventSummary)
    → any t (xs ++ e ∷ []) ≡ (if any t xs then true else t e)
any-append t [] e = elim (Bool-cases (t e)) [ inl h ↦ rw (h, any) refl | inr h ↦ rw (h, any) refl ]
any-append t (x ∷ xs) e = elim (Bool-cases (t x)) [
  | inl h ↦ rw (h, any) refl
  | inr h ↦ rw (h, any) (any-append t xs e)
]

keep_none : (t : EventSummary → Bool) (xs : List EventSummary) → any t xs ≡ false → keep t xs ≡ []
keep_none t [] h = refl
keep_none t (x ∷ xs) h = elim (Bool-cases (t x)) [
  | inl e ↦ absurd (ground (arith, rw (e, any) at h))
  | inr e ↦ rw (e, keep) (keep_none t xs (rw (e, any) at h))
]

note_event-key : (e : EventSummary) (o : ObjectEvents) → obj_key (note_event e o) ≡ obj_key o
note_event-key e o = elim (Bool-cases (str_eq e.type "Warning")) [
  | inl h ↦ rw h refl
  | inr h ↦ rw h refl
]

ltb_suc : (n : ℕ) → ltb 0 (1 + n) ≡ true
ltb_suc n = ground arith

ltb_zero : (n : ℕ) → ltb 0 (0 + n) ≡ ltb 0 n
ltb_zero n = ap (ltb 0) (omega arith)

add_to_object-count :
    (x : ObjRef) (e : EventSummary) (objects : List ObjectEvents)
    → count same_ref x (keys_of (add_to_object e objects))
      ≡ count same_ref x (keys_of objects)
        + (if ltb 0 (count same_ref (event_key e) (keys_of objects))
            then 0
            else indicator (is_of x e))
unfolding add_to_object total
add_to_object-count x e [] =
    omega (arith, ap (λ (k : ObjRef). indicator (same_ref x k)) (note_event-key e (new_object e)))
add_to_object-count x e (o ∷ objects) =
    let ih = add_to_object-count x e objects in
    let turn = same_ref_sym (event_key e) (obj_key o) in
    elim (Bool-cases (is_about e o)) [
      | inl f ↦
          rw (f, turn, f, ltb_suc (count same_ref (event_key e) (keys_of objects)))
            (omega (arith, ap (λ (k : ObjRef). indicator (same_ref x k)) (note_event-key e o)))
      | inr f ↦
          rw (f, turn, f, ltb_zero (count same_ref (event_key e) (keys_of objects)))
            (omega (arith, ih))
    ]

-- After these events every object with one of them is there once, with its events.
IsGrouped : List EventSummary → List ObjectEvents → Type 0
IsGrouped events objects =
    ((x : ObjRef) → count same_ref x (keys_of objects) ≡ indicator (any (is_of x) events))
    × All (IsObject events) objects

-- An event of another object.
other-IsObject :
    (events : List EventSummary) (e : EventSummary) (o : ObjectEvents)
    → is_about e o ≡ false
    → IsObject events o
    → IsObject (events ++ e ∷ []) o
other-IsObject events e o f h =
    (h.0 ∙ sym (keep-append_dropped (is_of (obj_key o)) events e f), h.1, h.2, h.3, h.4)

All-later :
    (events : List EventSummary) (e : EventSummary) (t : Time)
    → All (λ x. x.last_time ≤ t) events
    → All (λ x. x.last_time ≤ later e.last_time t) (events ++ e ∷ [])
All-later [] e t h = (ground arith, tt)
All-later (x ∷ events) e t h = (ground (arith, h.0), All-later events e t h.1)

note_event-IsObject :
    (events : List EventSummary) (e : EventSummary) (o : ObjectEvents)
    → is_about e o ≡ true
    → IsObject events o
    → IsObject (events ++ e ∷ []) (note_event e o)
note_event-IsObject events e o f h = elim (Bool-cases (str_eq e.type "Warning")) [
  | inl w ↦ rw w (
    ap (λ l. l ++ e ∷ []) h.0 ∙ sym (keep-append_kept (is_of (obj_key o)) events e f),
    rw (keep-append_kept is_warning_event o.events e w, length-append) (omega (arith, h.1)),
    rw (keep-append_dropped (λ x. not (is_warning_event x)) o.events e (ap not w)) h.2,
    ground arith,
    All-later o.events e o.last_time h.4,
  )
  | inr w ↦ rw w (
    ap (λ l. l ++ e ∷ []) h.0 ∙ sym (keep-append_kept (is_of (obj_key o)) events e f),
    rw (keep-append_dropped is_warning_event o.events e w) h.1,
    rw (keep-append_kept (λ x. not (is_warning_event x)) o.events e (ap not w), length-append)
        (omega (arith, h.2)),
    h.3,
    All-later o.events e o.last_time h.4,
  )
]

others-All :
    (events : List EventSummary) (e : EventSummary) (objects : List ObjectEvents)
    → count same_ref (event_key e) (keys_of objects) ≡ 0
    → All (IsObject events) objects
    → All (IsObject (events ++ e ∷ [])) objects
unfolding total
others-All events e [] none_left h = tt
others-All events e (o ∷ objects) none_left h =
    let turn = same_ref_sym (event_key e) (obj_key o) in
    elim (Bool-cases (is_about e o)) [
      | inl f ↦ absurd (omega (arith, rw (turn, f) at none_left))
      | inr f ↦ (
        other-IsObject events e o f h.0,
        others-All events e objects (omega (arith, none_left)) h.1,
      )
    ]

add_to_object-All :
    (events : List EventSummary) (e : EventSummary) (objects : List ObjectEvents)
    → count same_ref (event_key e) (keys_of objects) ≤ 1
    → (count same_ref (event_key e) (keys_of objects) ≡ 0
        → any (is_of (event_key e)) events ≡ false)
    → All (IsObject events) objects
    → All (IsObject (events ++ e ∷ [])) (add_to_object e objects)
unfolding add_to_object total
add_to_object-All events e [] once fresh h = (
  note_event-IsObject events e (new_object e) (same_ref_refl (event_key e))
      (sym (keep_none (is_of (event_key e)) events (fresh refl)), refl, refl, refl, tt),
  tt,
)
add_to_object-All events e (o ∷ objects) once fresh h =
    let turn = same_ref_sym (event_key e) (obj_key o) in
    elim (Bool-cases (is_about e o)) [
      | inl f ↦ rw f (
        note_event-IsObject events e o f h.0,
        others-All events e objects (omega (arith, rw (turn, f) at once)) h.1,
      )
      | inr f ↦ rw f (
        other-IsObject events e o f h.0,
        add_to_object-All events e objects (omega (arith, once))
            (λ z. fresh (rw (turn, f) (omega (arith, z)))) h.1,
      )
    ]

indicator-le : (b : Bool) → indicator b ≤ 1
indicator-le true = omega arith
indicator-le false = omega arith

indicator_zero : (b : Bool) → indicator b ≡ 0 → b ≡ false
indicator_zero true h = absurd (omega (arith, h))
indicator_zero false h = refl

seen :
    (x : ObjRef) (events : List EventSummary) (e : EventSummary)
    → indicator (any (is_of x) events)
        + (if ltb 0 (indicator (any (is_of (event_key e)) events))
            then 0
            else indicator (is_of x e))
      ≡ indicator (if any (is_of x) events then true else is_of x e)
seen x events e = elim (Bool-cases (is_of x e)) [
  | inl q ↦
      let same = ap (λ k. any (is_of k) events) (sym (same_ref_sound x (event_key e) q)) in
      elim (Bool-cases (any (is_of x) events)) [
        | inl a ↦ rw (same, a) (omega arith)
        | inr a ↦ rw (same, a, q) (omega arith)
      ]
  | inr q ↦ elim (Bool-cases (any (is_of x) events)) [
    | inl a ↦ rw (a, q) (ground arith)
    | inr a ↦ rw (a, q) (ground arith)
  ]
]

add_to_object-IsGrouped :
    (events : List EventSummary) (e : EventSummary) (objects : List ObjectEvents)
    → IsGrouped events objects
    → IsGrouped (events ++ e ∷ []) (add_to_object e objects)
unfolding IsGrouped
add_to_object-IsGrouped events e objects h = (
  (λ x.
      add_to_object-count x e objects
      ∙ ap₂ (λ m n. m + (if ltb 0 n then 0 else indicator (is_of x e))) (h.0 x) (h.0 (event_key e))
      ∙ seen x events e
      ∙ ap indicator (sym (any-append (is_of x) events e))),
  add_to_object-All events e objects
      (omega (arith, h.0 (event_key e), indicator-le (any (is_of (event_key e)) events)))
      (λ z. indicator_zero (any (is_of (event_key e)) events) (sym (h.0 (event_key e)) ∙ z)) h.1,
)

add_all-IsGrouped :
    (more events : List EventSummary) (objects : List ObjectEvents)
    → IsGrouped events objects
    → IsGrouped (events ++ more) (add_all more objects)
unfolding add_all
add_all-IsGrouped [] events objects h =
    subst (λ (l : List EventSummary). IsGrouped l objects) (sym (append-nil events)) h
add_all-IsGrouped (e ∷ more) events objects h =
    subst (λ (l : List EventSummary). IsGrouped l (add_all more (add_to_object e objects)))
      (append_assoc events (e ∷ []) more)
      (add_all-IsGrouped more (events ++ e ∷ []) (add_to_object e objects)
        (add_to_object-IsGrouped events e objects h))

idle-All :
    (now : Time) (events : List EventSummary) (objects : List ObjectEvents)
    → All (IsObject events) objects
    → All (IsObject events) (map (set_idle now) objects)
idle-All now events [] h = tt
idle-All now events (o ∷ objects) h = (h.0, idle-All now events objects h.1)

-- Each object that an event names is there once, and no other. It has exactly its events, in their
-- order, and the count of the warnings and of the other ones among them; none is newer than its last
-- time.
pub group_by_object_lem :
    (now : Time) (events : List EventSummary)
    → ((x : ObjRef)
        → count same_ref x (keys_of (group_by_object now events))
          ≡ indicator (any (is_of x) events))
      × All (IsObject events) (group_by_object now events)
unfolding group_by_object total IsGrouped
group_by_object_lem now events =
    let h = add_all-IsGrouped events [] [] ((λ x. refl), tt) in
    (
      (λ x.
          total-map (λ y. indicator (same_ref x y)) obj_key (group_by_object now events)
          ∙ total-perm (λ o. indicator (same_ref x (obj_key o)))
              (perm_sym (sort_by-perm object_before (map (set_idle now) (add_all events []))))
          ∙ total-map (λ o. indicator (same_ref x (obj_key o))) (set_idle now) (add_all events [])
          ∙ sym (total-map (λ y. indicator (same_ref x y)) obj_key (add_all events []))
          ∙ h.0 x),
      All-sort_by object_before (IsObject events) (map (set_idle now) (add_all events []))
          (idle-All now events (add_all events []) h.1),
    )
