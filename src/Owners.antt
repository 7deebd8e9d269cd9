-- ===== src/Owners.antt =====
-- Owner resolution (owners.go): the types and the state that it keeps for one cluster.
pub mod Names
pub mod Chain
pub mod Queue
use kubehealth.Prelude.{
  ℕ, ◌*◌, Bool, String, Option, none, some, List, [], ◌∷◌, text_of, str_eq, if◌then◌else◌,
}
use kubehealth.Prelude.Int.{pos, ltb_ℤ}
use kubehealth.Time.{Time, minute, sub}
use kubehealth.Caches.Maps.{Map}

pub record ObjRef : Type 0 where
  pub kind : String
  pub name : String

-- `ownerEntry`; the parent has no name when the object has no owner.
pub record OwnerEntry : Type 0 where
  pub parent : ObjRef
  pub missing : Bool
  pub at : Time
  pub created : Time
  pub last_success : Time

pub record OwnerJob : Type 0 where
  pub ns : String
  pub kind : String
  pub name : String

abbrev pub owner_ttl : ℕ
owner_ttl = 30 * minute

abbrev pub owner_missing_ttl : ℕ
owner_missing_ttl = 5 * minute

abbrev pub owner_max_depth : ℕ
owner_max_depth = 4

abbrev pub owner_queue_max : ℕ
owner_queue_max = 200

abbrev pub owner_known_max : ℕ
owner_known_max = 5000

-- `ownerState`
pub record Owners : Type 0 where
  pub known : Map OwnerEntry
  pub kind_of : Map String
  pub queue : List OwnerJob
  pub queued : Map Bool

-- `ownerKey`
abbrev pub owner_key : String → String → String → String
owner_key ns kind name = text_of (ns ∷ "/" ∷ kind ∷ "/" ∷ name ∷ [])

abbrev pub job_key : OwnerJob → String
job_key j = owner_key j.ns j.kind j.name

-- `ownerEntry.fresh`
unfoldable pub fresh : Time → OwnerEntry → Bool
fresh now e = ltb_ℤ (sub now e.at) (pos (if e.missing then owner_missing_ttl else owner_ttl))
