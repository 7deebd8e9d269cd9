-- ===== src/Owners/Queue.antt =====
-- The queue of lookups of owners.go.
pub mod Consistent
use kubehealth.Prelude.{
  ℕ, suc, ◌+◌, Bool, true, false, not, ◌&&◌, ◌||◌, String, Option, none, some, List, [], ◌∷◌, ◌++◌,
  ltb, leb, str_eq, text_of, length, if◌then◌else◌,
}
use kubehealth.Time.{Time}
use kubehealth.Caches.Maps.{Map, lookup, lookup_or, store, delete}
use kubehealth.Owners.{
  ObjRef, OwnerEntry, OwnerJob, Owners, owner_key, job_key, owner_queue_max, owner_known_max, fresh,
}

abbrev pub is_queued : Owners → String → Bool
is_queued o key = lookup_or false key o.queued

-- A fresh entry of the key, missing or not.
known_fresh : Owners → Time → String → Option OwnerEntry
known_fresh o now key = elim (lookup key o.known) [
  | none ↦ none
  | some e ↦ if fresh now e then some e else none
]

abbrev pub push_back : OwnerJob → Owners → Owners
push_back j o = record o { queue = o.queue ++ j ∷ []; queued = store (job_key j) true o.queued }

abbrev pub push_front : OwnerJob → Owners → Owners
push_front j o = record o { queue = j ∷ o.queue; queued = store (job_key j) true o.queued }

-- The queueing of `requestOwnerConfirmation`: not twice, and not past `ownerQueueMax`.
confirm_job : OwnerJob → Owners → Owners
confirm_job j o =
    if not (is_queued o (job_key j)) && ltb (length o.queue) owner_queue_max
    then push_back j o
    else o

-- `requestOwnerConfirmation`: whether the chain can still be confirmed through this object.
unfoldable pub request_owner_confirmation : Time → String → List ObjRef → Owners → Bool × Owners
unfolding known_fresh confirm_job fresh
request_owner_confirmation now ns [] o = (true, o)
request_owner_confirmation now ns (r ∷ chain) o =
    let rest = request_owner_confirmation now ns chain o in
    elim (known_fresh o now (owner_key ns r.kind r.name)) [
      | some e ↦ if e.missing then (false, o) else rest
      | none ↦
          if str_eq r.kind ""
          then (false, o)
          else (true, confirm_job (record { ns = ns; kind = r.kind; name = r.name }) o)
    ]

-- Put at the front unless it is known or queued: `requestRootLookup`, and the end of `resolveOwner`.
unfoldable pub enqueue_front : Time → OwnerJob → Owners → Owners
unfolding known_fresh fresh
enqueue_front now j o = elim (known_fresh o now (job_key j)) [
  | some e ↦ o
  | none ↦ if is_queued o (job_key j) then o else push_front j o
]

unfoldable pub request_root_lookup : Time → String → ObjRef → Owners → Owners
unfolding enqueue_front
request_root_lookup now ns root o =
    enqueue_front now (record { ns = ns; kind = root.kind; name = root.name }) o

-- One tick of `runOwnerResolver`: the job that it takes off the queue.
unfoldable pub take_job : Owners → Option (OwnerJob × Owners)
take_job o = elim o.queue [ [] ↦ none | j ∷ rest ↦ some (j, record o { queue = rest }) ]

-- An owner reference of an object: its kind and name, and whether it is the controller.
pub record OwnerRef : Type 0 where
  pub kind : String
  pub name : String
  pub controller : Bool

-- What the API says of a job's object: the kind is unknown, the call was cut off, the get failed, or the
-- object with its creation time, its `status.lastSuccessfulTime` (zero if it has none) and its owners.
pub data Lookup : Type 0 where
  unknown_kind : Lookup
  cut_off : Lookup
  get_failed : Lookup
  object : Time → Time → List OwnerRef → Lookup

-- The controller, or else the first owner.
controller_of : List OwnerRef → Option ObjRef
controller_of [] = none
controller_of (r ∷ refs) =
    let rest = controller_of refs in
    if r.controller then some (record { kind = r.kind; name = r.name }) else rest

first_ref : List OwnerRef → ObjRef
first_ref [] = record { kind = ""; name = "" }
first_ref (r ∷ refs) = record { kind = r.kind; name = r.name }

unfoldable pub parent_of : List OwnerRef → ObjRef
unfolding controller_of first_ref
parent_of refs = elim (controller_of refs) [
  | none ↦ first_ref refs
  | some p ↦ if str_eq p.name "" then first_ref refs else p
]

abbrev no_parent : ObjRef
no_parent = record { kind = ""; name = "" }

abbrev gone : Time → OwnerEntry
gone now = record { parent = no_parent; missing = true; at = now; created = 0; last_success = 0 }

-- The entry that `resolveOwner` stores; none when the call was cut off.
unfoldable pub entry_of : Time → OwnerJob → Lookup → Option OwnerEntry
unfolding parent_of
entry_of now j unknown_kind = some (gone now)
entry_of now j cut_off = none
entry_of now j get_failed = some (gone now)
entry_of now j (object created last_success refs) = some (record {
  parent = parent_of refs;
  missing = false;
  at = now;
  created = created;
  last_success = if str_eq j.kind "CronJob" then last_success else 0;
})

drop_stale : Time → Map OwnerEntry → Map OwnerEntry
drop_stale now [] = []
drop_stale now ((k, e) ∷ m) =
    let rest = drop_stale now m in if fresh now e then (k, e) ∷ rest else rest

-- The table after the expired entries of a full one have been dropped.
unfoldable pub trimmed : Time → Map OwnerEntry → Map OwnerEntry
unfolding drop_stale fresh
trimmed now known = if leb owner_known_max (length known) then drop_stale now known else known

learn : Time → OwnerJob → OwnerEntry → Owners → Owners
learn now j e o = record o {
  known = store (job_key j) e (trimmed now o.known);
  queued = delete (job_key j) o.queued;
}

climb : Time → OwnerJob → OwnerEntry → Owners → Owners
climb now j e o =
    if str_eq e.parent.name ""
    then o
    else enqueue_front now (record { ns = j.ns; kind = e.parent.kind; name = e.parent.name })
        (record o {
          kind_of = store (text_of (j.ns ∷ "/" ∷ e.parent.name ∷ [])) e.parent.kind o.kind_of;
        })

-- `resolveOwner`, from the answer of the API on.
unfoldable pub resolve_owner : Time → OwnerJob → Lookup → Owners → Owners
unfolding entry_of learn climb trimmed
resolve_owner now j l o = elim (entry_of now j l) [
  | none ↦ record o { queued = delete (job_key j) o.queued }
  | some e ↦ climb now j e (learn now j e o)
]
