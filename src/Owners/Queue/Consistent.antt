-- ===== src/Owners/Queue/Consistent.antt =====
-- The queue of owners.go and its set of queued keys under every order of requests and lookups.
use kubehealth.Prelude.{
  ◌⊎◌, ◌≡◌, refl, sym, ap, ◌∙◌, subst, subst₂, inl, inr, Bool, true, false, String, Option, none,
  some, List, [], ◌∷◌, ◌++◌, arith, ltb, length, str_eq, eq_iff, Bool-cases, Option-cases,
  if◌then◌else◌,
}
use kubehealth.Time.{Time}
use kubehealth.Caches.Maps.{lookup, Map, lookup_or, store, delete, lookup_or-store, lookup-delete}
use kubehealth.Owners.{ObjRef, OwnerEntry, OwnerJob, Owners, job_key, owner_key, owner_queue_max}
use kubehealth.Owners.Queue.{
  is_queued, known_fresh, push_back, push_front, confirm_job, request_owner_confirmation,
  enqueue_front, request_root_lookup, take_job, Lookup, entry_of, learn, climb, resolve_owner,
}

unfoldable pub has : String → List OwnerJob → Bool
has k [] = false
has k (j ∷ js) = if str_eq (job_key j) k then true else has k js

unfoldable pub IsUnique : List OwnerJob → Type 0
IsUnique [] = Unit
IsUnique (j ∷ js) = (has (job_key j) js ≡ false) × IsUnique js

-- No key waits twice, and the set holds exactly the keys that wait.
unfoldable pub IsConsistent : List OwnerJob → Map Bool → Type 0
IsConsistent js queued = IsUnique js × ((k : String) → lookup_or false k queued ≡ has k js)

module _ (j : OwnerJob) where
  IsConsistent-front :
      (js : List OwnerJob) (queued : Map Bool)
      → lookup_or false (job_key j) queued ≡ false
      → IsConsistent js queued
      → IsConsistent (j ∷ js) (store (job_key j) true queued)
  unfolding IsConsistent IsUnique has
  IsConsistent-front js queued h (u, c) = (
    (sym (c (job_key j)) ∙ h, u),
    λ k.
        lookup_or-store false (job_key j) k true queued
        ∙ ap (λ b. if str_eq (job_key j) k then true else b) (c k),
  )

  has-snoc : (k : String) (js : List OwnerJob) → has k (js ++ j ∷ []) ≡ has k (j ∷ js)
  unfolding has
  has-snoc k [] = refl
  has-snoc k (i ∷ js) = ground (arith, has-snoc k js)

  IsUnique-snoc : (js : List OwnerJob) → IsUnique (j ∷ js) → IsUnique (js ++ j ∷ [])
  unfolding IsUnique has
  IsUnique-snoc [] h = (refl, tt)
  IsUnique-snoc (i ∷ js) (h, (g, u)) = (
    has-snoc (job_key i) js
        ∙ ground (arith, eq_iff (job_key i) (job_key j), eq_iff (job_key j) (job_key i)),
    IsUnique-snoc js (ground (arith, eq_iff (job_key i) (job_key j)), u),
  )

  IsConsistent-back :
      (js : List OwnerJob) (queued : Map Bool)
      → IsConsistent (j ∷ js) queued
      → IsConsistent (js ++ j ∷ []) queued
  unfolding IsConsistent
  IsConsistent-back js queued (u, c) = (IsUnique-snoc js u, λ k. c k ∙ sym (has-snoc k js))

  IsConsistent-swap :
      (i : OwnerJob) (js : List OwnerJob) (queued : Map Bool)
      → IsConsistent (j ∷ i ∷ js) queued
      → IsConsistent (i ∷ j ∷ js) queued
  unfolding IsConsistent IsUnique has
  IsConsistent-swap i js queued ((h, (g, u)), c) = (
    (
      ground (arith, eq_iff (job_key i) (job_key j), eq_iff (job_key j) (job_key i)),
      (ground (arith, eq_iff (job_key i) (job_key j)), u),
    ),
    λ k. c k ∙ ground arith,
  )

  lookup_or-delete :
      (k : String) (queued : Map Bool)
      → lookup_or false k (delete (job_key j) queued)
        ≡ (if str_eq (job_key j) k then false else lookup_or false k queued)
  unfolding lookup_or
  lookup_or-delete k queued = ground (arith, lookup-delete (job_key j) k queued)

  -- A job that is done leaves the list and the set.
  IsConsistent-done :
      (js : List OwnerJob) (queued : Map Bool)
      → IsConsistent (j ∷ js) queued
      → IsConsistent js (delete (job_key j) queued)
  unfolding IsConsistent IsUnique has
  IsConsistent-done js queued ((h, u), c) = (u, λ k. lookup_or-delete k queued ∙ drop_key k (c k))
    where
      drop_key :
          (k : String)
          → lookup_or false k queued ≡ (if str_eq (job_key j) k then true else has k js)
          → (if str_eq (job_key j) k then false else lookup_or false k queued) ≡ has k js
      drop_key k e = elim (Bool-cases (str_eq (job_key j) k)) [
        | inl same ↦ rw same (sym (subst (λ t. has t js ≡ false) ((eq_iff (job_key j) k).0 same) h))
        | inr other ↦ rw other (e ∙ rw other refl)
      ]

-- The resolver: the job that it looks up just now, if any, and the state of the cluster's owners.
pub record Resolver : Type 0 where
  pub in_flight : Option OwnerJob
  pub owners : Owners

-- All jobs that are not done, the one being looked up first.
abbrev pub pending : Resolver → List OwnerJob
pending r = elim r.in_flight [ none ↦ r.owners.queue | some j ↦ j ∷ r.owners.queue ]

-- What can happen, in any order: requests at any time, and a resolver with one lookup at a time.
pub data Step : Resolver → Resolver → Type 0 where
  confirm :
      (f : Option OwnerJob) (o : Owners) (now : Time) (ns : String) (chain : List ObjRef)
      → Step
          (record { in_flight = f; owners = o })
          (record { in_flight = f; owners = (request_owner_confirmation now ns chain o).1 })
  root_lookup :
      (f : Option OwnerJob) (o : Owners) (now : Time) (ns : String) (root : ObjRef)
      → Step
          (record { in_flight = f; owners = o })
          (record { in_flight = f; owners = request_root_lookup now ns root o })
  begin_lookup :
      (o after : Owners) (j : OwnerJob)
      → take_job o ≡ some (j, after)
      → Step
          (record { in_flight = none; owners = o })
          (record { in_flight = some j; owners = after })
  end_lookup :
      (o : Owners) (now : Time) (j : OwnerJob) (l : Lookup)
      → Step
          (record { in_flight = some j; owners = o })
          (record { in_flight = none; owners = resolve_owner now j l o })

pub data Reach : Resolver → Resolver → Type 0 where
  here : (r : Resolver) → Reach r r
  after : (r s t : Resolver) → Reach r s → Step s t → Reach r t

unfoldable pub IsSound : Resolver → Type 0
IsSound r = IsConsistent (pending r) r.owners.queued

push_front-IsSound :
    (f : Option OwnerJob) (j : OwnerJob) (o : Owners)
    → is_queued o (job_key j) ≡ false
    → IsSound (record { in_flight = f; owners = o })
    → IsSound (record { in_flight = f; owners = push_front j o })
unfolding IsSound
push_front-IsSound none j o h s = IsConsistent-front j o.queue o.queued h s
push_front-IsSound (some i) j o h s =
    IsConsistent-swap j i o.queue _ (IsConsistent-front j (i ∷ o.queue) o.queued h s)

push_back-IsSound :
    (f : Option OwnerJob) (j : OwnerJob) (o : Owners)
    → is_queued o (job_key j) ≡ false
    → IsSound (record { in_flight = f; owners = o })
    → IsSound (record { in_flight = f; owners = push_back j o })
unfolding IsSound
push_back-IsSound none j o h s =
    IsConsistent-back j o.queue _ (IsConsistent-front j o.queue o.queued h s)
push_back-IsSound (some i) j o h s =
    IsConsistent-back j (i ∷ o.queue) _ (IsConsistent-front j (i ∷ o.queue) o.queued h s)

module _ (f : Option OwnerJob) where
  confirm_job-IsSound :
      (j : OwnerJob) (o : Owners)
      → IsSound (record { in_flight = f; owners = o })
      → IsSound (record { in_flight = f; owners = confirm_job j o })
  unfolding confirm_job
  confirm_job-IsSound j o s = elim (Bool-cases (is_queued o (job_key j))) [
    | inl there ↦ rw (there, confirm_job) s
    | inr fresh ↦ elim (Bool-cases (ltb (length o.queue) owner_queue_max)) [
      | inl room ↦ rw (fresh, confirm_job, room) (push_back-IsSound f j o fresh s)
      | inr full ↦ rw (fresh, confirm_job, full) s
    ]
  ]

  enqueue_front-IsSound :
      (now : Time) (j : OwnerJob) (o : Owners)
      → IsSound (record { in_flight = f; owners = o })
      → IsSound (record { in_flight = f; owners = enqueue_front now j o })
  unfolding enqueue_front
  enqueue_front-IsSound now j o s = elim (Option-cases (known_fresh o now (job_key j))) [
    | inr (e, known) ↦ rw (known, enqueue_front) s
    | inl unknown ↦ elim (Bool-cases (is_queued o (job_key j))) [
      | inl there ↦ rw (unknown, enqueue_front, there) s
      | inr fresh ↦ rw (unknown, enqueue_front, fresh) (push_front-IsSound f j o fresh s)
    ]
  ]

  request-IsSound :
      (now : Time) (ns : String) (chain : List ObjRef) (o : Owners)
      → IsSound (record { in_flight = f; owners = o })
      → IsSound (record { in_flight = f; owners = (request_owner_confirmation now ns chain o).1 })
  unfolding request_owner_confirmation
  request-IsSound now ns [] o s = s
  request-IsSound now ns (r ∷ chain) o s =
      elim (Option-cases (known_fresh o now (owner_key ns r.kind r.name))) [
        | inr (e, known) ↦ elim (Bool-cases e.missing) [
          | inl gone ↦ rw (known, request_owner_confirmation, gone) s
          | inr there ↦
              rw (known, request_owner_confirmation, there) (request-IsSound now ns chain o s)
        ]
        | inl unknown ↦ elim (Bool-cases (str_eq r.kind "")) [
          | inl bare ↦ rw (unknown, request_owner_confirmation, bare) s
          | inr kind ↦ rw (unknown, request_owner_confirmation, kind) (confirm_job-IsSound _ o s)
        ]
      ]

queue-cases :
    (q : List OwnerJob) → (q ≡ []) ⊎ ((j : OwnerJob) × (rest : List OwnerJob) × (q ≡ j ∷ rest))
queue-cases [] = inl refl
queue-cases (j ∷ rest) = inr (j, rest, refl)

taken-parts :
    (o next : Owners) (j : OwnerJob)
    → take_job o ≡ some (j, next)
    → (o.queue ≡ j ∷ next.queue) × (o.queued ≡ next.queued)
unfolding take_job
taken-parts o next j h = elim (queue-cases o.queue) [
  | inl gone ↦ absurd (ground arith)
  | inr (i, rest, found) ↦ (ground arith, ground arith)
]

taken-IsSound :
    (o next : Owners) (j : OwnerJob)
    → take_job o ≡ some (j, next)
    → IsSound (record { in_flight = none; owners = o })
    → IsSound (record { in_flight = some j; owners = next })
unfolding take_job IsSound
taken-IsSound o next j h s = let (a, b) = taken-parts o next j h in subst₂ IsConsistent a b s

done-IsSound :
    (o : Owners) (j : OwnerJob)
    → IsSound (record { in_flight = some j; owners = o })
    → IsSound
        (record { in_flight = none; owners = record o { queued = delete (job_key j) o.queued } })
unfolding IsSound
done-IsSound o j s = IsConsistent-done j o.queue o.queued s

climb-IsSound :
    (now : Time) (j : OwnerJob) (e : OwnerEntry) (o : Owners)
    → IsSound (record { in_flight = none; owners = o })
    → IsSound (record { in_flight = none; owners = climb now j e o })
unfolding climb IsSound
climb-IsSound now j e o s = elim (Bool-cases (str_eq e.parent.name "")) [
  | inl t ↦ rw (t, climb) s
  | inr f ↦ rw (f, climb) (enqueue_front-IsSound none now _ _ s)
]

resolve_owner-IsSound :
    (now : Time) (j : OwnerJob) (l : Lookup) (o : Owners)
    → IsSound (record { in_flight = some j; owners = o })
    → IsSound (record { in_flight = none; owners = resolve_owner now j l o })
unfolding resolve_owner learn IsSound
resolve_owner-IsSound now j l o s = elim (Option-cases (entry_of now j l)) [
  | inl cut ↦ rw (cut, resolve_owner) (done-IsSound o j s)
  | inr (e, got) ↦ rw (got, resolve_owner) (climb-IsSound now j e _ (done-IsSound o j s))
]

step-IsSound : (r s : Resolver) → Step r s → IsSound r → IsSound s
unfolding request_root_lookup
step-IsSound r s (confirm f o now ns chain) h = request-IsSound f now ns chain o h
step-IsSound r s (root_lookup f o now ns root) h = enqueue_front-IsSound f now _ o h
step-IsSound r s (begin_lookup o next j e) h = taken-IsSound o next j e h
step-IsSound r s (end_lookup o now j l) h = resolve_owner-IsSound now j l o h

reach-IsSound : (r s : Resolver) → Reach r s → IsSound r → IsSound s
reach-IsSound r s (here _) h = h
reach-IsSound r s (after _ m _ p q) h = step-IsSound m s q (reach-IsSound r m p h)

-- Whatever order requests, root lookups, and starts and ends of lookups come in: from an empty queue
-- on, no key ever waits twice, and `queued` holds exactly the keys of the jobs in the queue and of the
-- one that is being looked up.
pub reach_lem :
    (o : Owners) (s : Resolver)
    → o.queue ≡ []
    → o.queued ≡ []
    → Reach (record { in_flight = none; owners = o }) s
    → IsUnique (pending s) × ((k : String) → is_queued s.owners k ≡ has k (pending s))
unfolding IsSound IsConsistent IsUnique has lookup_or lookup
reach_lem o s e f r = reach-IsSound _ s r (subst₂ IsConsistent (sym e) (sym f) (tt, λ k. refl))
