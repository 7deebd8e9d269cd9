-- ===== src/Tunnels/Runs.antt =====
-- A running tunnel (tunnels.go): what starts, watches and stops its process. Parameters of an operation:
-- the clock, whether the tunnel's local port is open, how the process started or ended, and whether the
-- watched cluster uses the tunnel.
pub mod Steps
use Prim.Native.String.{len}
use kubehealth.Prelude.{
  ℕ, suc, ◌+◌, ◌-◌, ◌*◌, Bool, true, false, not, ◌&&◌, ◌||◌, String, Option, none, some, List, [],
  ◌∷◌, ◌++◌, ltb, leb, ◌==◌, str_eq, text_of, length, drop, min, decimal, if◌then◌else◌,
}
use kubehealth.Prelude.Int.{ℤ, pos, ltb_ℤ}
use kubehealth.Time.{Time, is_zero, sub, second, minute}

pub data State : Type 0 where
  stopped : State
  starting : State
  running : State
  external : State
  exited : State
  failed : State

-- `tunnelRun`. A process is known by the generation that started it.
pub record Run : Type 0 where
  pub state : State
  pub err : String
  pub cmd : Option ℕ
  pub pid : ℕ
  pub started_at : Time
  pub ready_at : Time
  pub exit_code : ℤ
  pub out : List String
  pub keep : Bool
  pub restarts : ℕ
  pub gen : ℕ

-- `runFor` of a name that has none.
abbrev pub new_run : Run
new_run = record {
  state = stopped;
  err = "";
  cmd = none;
  pid = 0;
  started_at = 0;
  ready_at = 0;
  exit_code = pos 0;
  out = [];
  keep = false;
  restarts = 0;
  gen = 0;
}

abbrev pub tunnel_output_lines : ℕ
tunnel_output_lines = 200

abbrev pub tunnel_ready_timeout : ℕ
tunnel_ready_timeout = 60 * second

-- `logLocked`: the last lines.
unfoldable pub log_line : String → Run → Run
log_line line r =
    let out = r.out ++ line ∷ [] in record r { out = drop (length out - tunnel_output_lines) out }

abbrev pub is_up : State → Bool
is_up starting = true
is_up running = true
is_up external = true
is_up stopped = false
is_up exited = false
is_up failed = false

abbrev pub is_starting : State → Bool
is_starting starting = true
is_starting running = false
is_starting external = false
is_starting stopped = false
is_starting exited = false
is_starting failed = false

abbrev pub is_exited : State → Bool
is_exited exited = true
is_exited starting = false
is_exited running = false
is_exited external = false
is_exited stopped = false
is_exited failed = false

-- How the start of a process ended: no pipe, an error of the start, or a process.
pub data Spawn : Type 0 where
  no_pipe : Spawn
  not_started : String → Spawn
  spawned : ℕ → Spawn

-- `spawnLocked`, with the command's line in the output.
unfoldable pub spawn : Time → String → Spawn → Run → Run
unfolding log_line
spawn now line no_pipe r = r
spawn now line (not_started message) r =
    log_line (text_of ("could not start: " ∷ message ∷ []))
      (record (log_line line (record r { gen = suc r.gen })) { state = failed; err = message })
spawn now line (spawned pid) r = record (log_line line (record r { gen = suc r.gen })) {
  cmd = some (suc r.gen);
  pid = pid;
  state = starting;
  err = "";
  exit_code = pos 0;
  started_at = now;
  ready_at = 0;
}

abbrev pub marked : Bool → Run → Run
marked keep r = record r { keep = keep || r.keep }

-- `startTunnel` of a tunnel that exists; `endpoint` is empty for a tunnel without one.
unfoldable pub start_tunnel : Bool → String → Bool → Time → String → Spawn → Run → Run
unfolding spawn log_line
start_tunnel keep endpoint is_open now line s r =
    if is_up r.state
    then marked keep r
    else if not (str_eq endpoint "") && is_open
    then log_line
        (text_of (endpoint ∷ " is already open: using it (KubeHealth did not start it)" ∷ []))
        (record (marked keep r) { restarts = 0; state = external; err = ""; pid = 0 })
    else spawn now line s (record (marked keep r) { restarts = 0 })

-- `watchReady` of a generation, when the port answers, or at the moment for a tunnel without one;
-- `after` is the time that it took, printed with one decimal.
unfoldable pub mark_ready : ℕ → String → String → Time → Run → Run
unfolding log_line
mark_ready gen endpoint after now r =
    let up : Run = record r { state = running; ready_at = now } in
    if not (r.gen == gen && is_starting r.state)
    then r
    else if str_eq endpoint ""
    then up
    else log_line (text_of (endpoint ∷ " is open after " ∷ after ∷ " s" ∷ [])) up

-- `watchReady` when the time is up; the process is told to end, which `exited` reports.
unfoldable pub time_out : ℕ → String → Run → Run
unfolding log_line
time_out gen endpoint r =
    let message = text_of (endpoint ∷ " did not open within 1m0s" ∷ []) in
    if r.gen == gen && is_starting r.state
    then log_line message (record r { state = failed; err = message })
    else r

-- How a process ended, for the output, and its exit code.
pub record End : Type 0 where
  pub how : String
  pub code : ℤ

abbrev pub restart_delay : ℕ → ℕ
restart_delay n = if n == 0 then 5 * second else if n == 1 then 15 * second else minute

-- A restart that `exited` has asked a timer for: after how long, and of which generation.
pub record Timer : Type 0 where
  pub delay : ℕ
  pub generation : ℕ

delay_text : ℕ → String
delay_text n =
    if n == 0
    then "restarting in 5s"
    else if n == 1
    then "restarting in 15s"
    else "restarting in 1m0s"

is_stopped : State → Bool
is_stopped stopped = true
is_stopped starting = false
is_stopped running = false
is_stopped external = false
is_stopped exited = false
is_stopped failed = false

is_failed : State → Bool
is_failed failed = true
is_failed stopped = false
is_failed starting = false
is_failed running = false
is_failed external = false
is_failed exited = false

-- The run after its process ended; `hint` is `tunnelHint`.
ended : (List String → String → String) → Time → End → Run → Run
unfolding is_failed log_line
ended hint now e r =
    let told : Run =
      if is_failed r.state then r else record r { state = exited; err = hint r.out e.how } in
    let logged = log_line e.how (record told { cmd = none; pid = 0; exit_code = e.code }) in
    if not (is_zero r.ready_at) && ltb_ℤ (pos (2 * minute)) (sub now r.ready_at)
    then record logged { restarts = 0 }
    else logged

-- `exited`: the run, and the timer that it starts.
unfoldable pub exit_tunnel :
    (List String → String → String) → Bool → ℕ → Time → End → Run → Run × Option Timer
unfolding ended is_stopped log_line delay_text
exit_tunnel hint in_use gen now e r =
    if not (r.gen == gen)
    then (r, none)
    else if is_stopped r.state
    then (record r { cmd = none; pid = 0 }, none)
    else (let after = ended hint now e r in
        if not after.keep || (is_zero r.ready_at || not in_use) then (after, none) else (
          log_line (delay_text after.restarts) after,
          some (record { delay = restart_delay after.restarts; generation = gen }),
        ))

-- The timer of a generation.
unfoldable pub restart : Bool → Bool → ℕ → Time → String → Spawn → Run → Run
unfolding spawn
restart defined in_use gen now line s r =
    if not defined
      || (not (r.gen == gen) || (not (is_exited r.state) || (not r.keep || not in_use)))
    then r
    else spawn now line s (record r { restarts = suc r.restarts })

is_external : State → Bool
is_external external = true
is_external starting = false
is_external running = false
is_external stopped = false
is_external exited = false
is_external failed = false

-- A process that runs is told to end, which `exited` reports.
stop_process : Run → Run
unfolding log_line
stop_process r = elim r.cmd [ none ↦ r | some p ↦ log_line "stopped" (record r { err = "" }) ]

-- `stopTunnel`
unfoldable pub stop_tunnel : Run → Run
unfolding log_line is_external stop_process
stop_tunnel r =
    let quiet : Run = record r { keep = false; state = stopped } in
    if is_external r.state
    then log_line "no longer used (KubeHealth did not start it, so it keeps running)" quiet
    else stop_process quiet

-- `stopAllTunnels`, of one run: one with a process.
unfoldable pub stop_at_exit : Run → Run
stop_at_exit r = elim r.cmd [ none ↦ r | some p ↦ record r { state = stopped; keep = false } ]
