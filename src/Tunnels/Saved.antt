-- ===== src/Tunnels/Saved.antt =====
-- The saved tunnels of tunnels.go: looking one up, `saveTunnel` and `deleteTunnel`. Parameters: `parse`,
-- and whether `savePrefsLocked` could write the file.
pub mod Tidy
pub mod Changed
use kubehealth.Prelude.{
  Bool, true, false, not, ◌&&◌, ◌||◌, String, Option, none, some, List, [], ◌∷◌, ◌++◌, any, str_eq,
  str_ltb, if◌then◌else◌,
}
use kubehealth.Prelude.Sort.{sort_by}
use kubehealth.Tunnels.{TunnelDef, Url, DefError, endpoint, validate}

-- `tunnelByName`
unfoldable pub tunnel_by_name : String → List TunnelDef → Option TunnelDef
tunnel_by_name name [] = none
tunnel_by_name name (d ∷ defs) = if str_eq d.name name then some d else tunnel_by_name name defs

-- `tunnelForContext`
unfoldable pub tunnel_for_context : String → List TunnelDef → Option TunnelDef
tunnel_for_context ctx [] = none
tunnel_for_context ctx (d ∷ defs) =
    if any (str_eq ctx) d.contexts then some d else tunnel_for_context ctx defs

pub data SaveError : Type 0 where
  not_valid : DefError → SaveError
  name_taken : SaveError
  context_taken : SaveError
  endpoint_taken : SaveError
  not_found : SaveError
  not_written : SaveError

pub data Answer : Type 0 where
  changed : List String → Answer
  refused : SaveError → Answer

-- `slices.Compact` on a sorted list.
compact : List String → List String
compact [] = []
compact (c ∷ []) = c ∷ []
compact (c ∷ d ∷ cs) = let rest = compact (d ∷ cs) in if str_eq c d then rest else c ∷ rest

unfoldable pub overlap : List String → List String → Bool
overlap [] cs = false
overlap (b ∷ bs) cs = any (str_eq b) cs || overlap bs cs

-- The loop of `saveTunnel`: an error, or the contexts of the tunnels that it leaves out and the others.
pub data Kept : Type 0 where
  stopped : SaveError → Kept
  kept : List String → List TunnelDef → Kept

keep_one : TunnelDef → Kept → Kept
keep_one t (stopped e) = stopped e
keep_one t (kept cs out) = kept cs (t ∷ out)

leave_one : TunnelDef → Kept → Kept
leave_one t (stopped e) = stopped e
leave_one t (kept cs out) = kept (t.contexts ++ cs) out

module _ (parse : String → Option Url) where
  -- Why `t` cannot stand beside a new `d`.
  unfoldable pub clash : TunnelDef → TunnelDef → Option SaveError
  unfolding endpoint overlap
  clash d t =
      if str_eq t.name d.name
      then some name_taken
      else if overlap d.contexts t.contexts
      then some context_taken
      else if not (str_eq (endpoint parse d) "") && str_eq (endpoint parse d) (endpoint parse t)
      then some endpoint_taken
      else none

  unfoldable pub keep_others : TunnelDef → String → List TunnelDef → Kept
  unfolding clash keep_one leave_one
  keep_others d previous [] = kept [] []
  keep_others d previous (t ∷ tunnels) =
      let rest = keep_others d previous tunnels in
      if str_eq t.name previous
      then leave_one t rest
      else elim (clash d t) [ some e ↦ stopped e | none ↦ keep_one t rest ]

  -- `saveTunnel`: the tunnels in memory change also where they cannot be written.
  unfoldable pub save_tunnel : Bool → TunnelDef → String → List TunnelDef → Answer × List TunnelDef
  unfolding keep_others compact sort_by validate
  save_tunnel written d previous tunnels = elim (validate parse d) [
    | some e ↦ (refused (not_valid e), tunnels)
    | none ↦ elim (keep_others d (if str_eq previous "" then d.name else previous) tunnels) [
      | stopped e ↦ (refused e, tunnels)
      | kept cs out ↦ (
        (if written
            then changed (compact (sort_by str_ltb (cs ++ d.contexts)))
            else refused not_written),
        out ++ d ∷ [],
      )
    ]
  ]

-- The loop of `deleteTunnel`: the contexts of the last tunnel with the name, if any, and the others.
drop_named : String → List TunnelDef → Option (List String) × List TunnelDef
drop_named name [] = (none, [])
drop_named name (t ∷ tunnels) =
    let (cs, out) = drop_named name tunnels in
    if str_eq t.name name
    then (elim cs [ none ↦ some t.contexts | some c ↦ some c ], out)
    else (cs, t ∷ out)

-- `deleteTunnel`
unfoldable pub delete_tunnel : Bool → String → List TunnelDef → Answer × List TunnelDef
unfolding drop_named
delete_tunnel written name tunnels = elim (drop_named name tunnels).0 [
  | none ↦ (refused not_found, tunnels)
  | some cs ↦ ((if written then changed cs else refused not_written), (drop_named name tunnels).1)
]
