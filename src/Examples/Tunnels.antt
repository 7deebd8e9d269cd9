-- ===== src/Examples/Tunnels.antt =====
-- The theorems on tunnels.go at concrete inputs.
use kubehealth.Prelude.{
  ◌≡◌, ◌≢◌, refl, String, ◌*◌, Bool, true, false, Option, none, some, List, [], ◌∷◌, ap,
  if◌then◌else◌, arith, any, str_eq,
}
use kubehealth.Prelude.Int.{pos}
use kubehealth.Time.{is_zero, minute, second}
use kubehealth.Tunnels.{TunnelDef, Url, validate}
use kubehealth.Tunnels.Saved.{
  save_tunnel, delete_tunnel, tunnel_for_context, changed, refused, context_taken,
}
use kubehealth.Tunnels.Saved.Tidy.{change-IsTidy, IsTidy}
use kubehealth.Tunnels.Saved.Changed.{save_tunnel_changed}
use kubehealth.Tunnels.Runs.{
  Run, State, Timer, End, Spawn, new_run, stop_tunnel, exit_tunnel, restart,
}
use kubehealth.Tunnels.Runs.Steps.{
  Callback, Callbacks, Step, Steps, IsAtRest, HasShortOut, stop_tunnel-stays, Steps-HasShortOut,
  exit_tunnel-restart,
}

abbrev local_port : String → Option Url
local_port raw =
    if str_eq raw "socks5://127.0.0.1:1080"
    then some (record { scheme = "socks5"; hostname = "127.0.0.1"; port = "1080" })
    else none

abbrev bastion : TunnelDef
bastion = record {
  name = "bastion";
  command = "ssh -D 1080 -N bastion";
  mode = "proxy";
  proxy = "socks5://127.0.0.1:1080";
  address = "";
  contexts = "prod" ∷ "stage" ∷ [];
}

abbrev vpn : TunnelDef
vpn = record bastion { name = "vpn"; mode = "none"; proxy = ""; contexts = "prod" ∷ [] }

valid : validate local_port bastion ≡ none
unfolding validate
valid = refl

-- A second tunnel for a context is refused.
taken : save_tunnel local_port true vpn "" (bastion ∷ []) ≡ (refused context_taken, bastion ∷ [])
unfolding save_tunnel
taken = refl

change-IsTidy_example :
    IsTidy local_port (save_tunnel local_port true bastion "" []).1
    × IsTidy local_port (delete_tunnel true "bastion" []).1
change-IsTidy_example = change-IsTidy local_port true bastion "" "bastion" [] (tt, tt)

abbrev first_save : (save_tunnel local_port true bastion "" []).0 ≡ changed ("prod" ∷ "stage" ∷ [])
unfolding save_tunnel
first_save = refl

save_tunnel_changed_example :
    (any (str_eq "prod") ("prod" ∷ "stage" ∷ []) ≡ false
      → tunnel_for_context "prod" []
        ≡ tunnel_for_context "prod" (save_tunnel local_port true bastion "" []).1)
    × (any (str_eq "prod") bastion.contexts ≡ true
        → tunnel_for_context "prod" (save_tunnel local_port true bastion "" []).1 ≡ some bastion)
save_tunnel_changed_example =
    save_tunnel_changed local_port bastion "" [] "prod" ("prod" ∷ "stage" ∷ []) first_save

abbrev no_hint : List String → String → String
no_hint out how = how

abbrev up_run : Run
up_run = record new_run {
  state = State.running;
  cmd = some 1;
  pid = 42;
  started_at = second;
  ready_at = minute;
  keep = true;
  gen = 1;
}

abbrev dropped : End
dropped = record { how = "exited with code 255"; code = pos 255 }

stop_tunnel-stays_example :
    IsAtRest 1 (exit_tunnel no_hint true 1 (2 * minute) dropped (stop_tunnel up_run)).0
stop_tunnel-stays_example =
    stop_tunnel-stays no_hint up_run
      (exit_tunnel no_hint true 1 (2 * minute) dropped (stop_tunnel up_run)).0
      (Callbacks.more _ (stop_tunnel up_run) _ (Callbacks.done (stop_tunnel up_run))
        (Callback.over true 1 (2 * minute) dropped (stop_tunnel up_run)))

Steps-HasShortOut_example : HasShortOut (stop_tunnel up_run)
Steps-HasShortOut_example =
    Steps-HasShortOut no_hint up_run (stop_tunnel up_run)
      (Steps.then_one up_run up_run (stop_tunnel up_run) (Steps.none_yet up_run) (Step.stop up_run))
      (omega arith)

abbrev ended_run : Run
ended_run = (exit_tunnel no_hint true 1 (2 * minute) dropped up_run).0

abbrev the_timer : Timer
the_timer = record { delay = 5 * second; generation = 1 }

abbrev timer_set : (exit_tunnel no_hint true 1 (2 * minute) dropped up_run).1 ≡ some the_timer
unfolding exit_tunnel
timer_set = refl

differs : (r : Run) (s : Run) → (r.gen ≢ s.gen) → r ≢ s
differs r s h e = h (ap (λ (q : Run). q.gen) e)

abbrev restarted : restart true true 1 (3 * minute) "$ ssh" (Spawn.spawned 43) ended_run ≢ ended_run
unfolding restart exit_tunnel
restarted = differs _ ended_run (λ h. omega (arith, h))

exit_tunnel-restart_example :
    (up_run.gen ≡ 1)
    × (up_run.state ≢ State.stopped)
    × (up_run.keep ≡ true)
    × (is_zero up_run.ready_at ≡ false)
    × (◌≡◌ {A = Bool} true true)
    × (ended_run.gen ≡ up_run.gen)
    × (ended_run.state ≡ State.exited)
    × (ended_run.keep ≡ true)
    × (◌≡◌ {A = Bool} true true)
exit_tunnel-restart_example =
    exit_tunnel-restart no_hint true true true 1 (2 * minute) (3 * minute) dropped "$ ssh"
      (Spawn.spawned 43) up_run ended_run the_timer timer_set restarted
