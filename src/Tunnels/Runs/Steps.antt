-- ===== src/Tunnels/Runs/Steps.antt =====
-- Runs of a tunnel under any order of requests and of callbacks of its processes and timers (tunnels.go).
use kubehealth.Prelude.{
  ◌≡◌, ◌≢◌, refl, sym, ap, ◌∙◌, inl, inr, ℕ, zero, suc, ◌-◌, ◌≤◌, Bool, true, false, not, ◌&&◌,
  ◌||◌, String, Option, none, some, List, [], ◌∷◌, ◌++◌, arith, length, drop, ◌==◌, ==_iff, str_eq,
  Bool-cases, Option-cases, if◌then◌else◌,
}
use kubehealth.Prelude.Int.{pos, ltb_ℤ}
use kubehealth.Prelude.{text_of, ◌*◌}
use kubehealth.Time.{Time, is_zero, sub, minute}
use kubehealth.Tunnels.Runs.{
  State, Run, Spawn, End, Timer, log_line, spawn, marked, start_tunnel, mark_ready, time_out, ended,
  exit_tunnel, restart, stop_tunnel, stop_process, is_external, stop_at_exit, is_up, is_starting,
  is_stopped, is_failed, is_exited, tunnel_output_lines,
}

-- What processes and timers of any generation report, in any order.
pub data Callback (hint : List String → String → String) : Run → Run → Type 0 where
  ready :
      (gen : ℕ) (endpoint spent : String) (now : Time) (r : Run)
      → Callback hint r (mark_ready gen endpoint spent now r)
  timed_out : (gen : ℕ) (endpoint : String) (r : Run) → Callback hint r (time_out gen endpoint r)
  over :
      (in_use : Bool) (gen : ℕ) (now : Time) (e : End) (r : Run)
      → Callback hint r (exit_tunnel hint in_use gen now e r).0
  timer :
      (defined in_use : Bool) (gen : ℕ) (now : Time) (line : String) (s : Spawn) (r : Run)
      → Callback hint r (restart defined in_use gen now line s r)

pub data Callbacks (hint : List String → String → String) : Run → Run → Type 0 where
  done : (r : Run) → Callbacks hint r r
  more : (r s t : Run) → Callbacks hint r s → Callback hint s t → Callbacks hint r t

-- The run is stopped, is not to be restarted, and is of this generation.
abbrev pub IsAtRest : ℕ → Run → Type 0
IsAtRest gen r = (r.state ≡ State.stopped) × (r.keep ≡ false) × (r.gen ≡ gen)

module _ (hint : List String → String → String) where
  Callback-IsAtRest : (gen : ℕ) (r s : Run) → Callback hint r s → IsAtRest gen r → IsAtRest gen s
  unfolding mark_ready time_out exit_tunnel restart is_stopped
  Callback-IsAtRest gen _ _ (ready g endpoint spent now r) h =
      elim (Bool-cases (r.gen == g && is_starting r.state)) [
        | inl p ↦ absurd (ground (arith, h.0))
        | inr p ↦ rw (p, mark_ready) h
      ]
  Callback-IsAtRest gen _ _ (timed_out g endpoint r) h =
      elim (Bool-cases (r.gen == g && is_starting r.state)) [
        | inl p ↦ absurd (ground (arith, h.0))
        | inr p ↦ rw (p, time_out) h
      ]
  Callback-IsAtRest gen _ _ (over in_use g now e r) h = elim (Bool-cases (r.gen == g)) [
    | inr p ↦ rw (p, exit_tunnel) h
    | inl p ↦ rw (p, exit_tunnel, ap is_stopped h.0) h
  ]
  Callback-IsAtRest gen _ _ (timer defined in_use g now line s r) h =
      elim (Bool-cases (
        not defined
        || (not (r.gen == g) || (not (is_exited r.state) || (not r.keep || not in_use))))) [
          | inl p ↦ rw (p, restart) h
          | inr p ↦ absurd (ground (arith, h.1))
        ]

  Callbacks-IsAtRest : (gen : ℕ) (r s : Run) → Callbacks hint r s → IsAtRest gen r → IsAtRest gen s
  Callbacks-IsAtRest gen r s (done _) h = h
  Callbacks-IsAtRest gen r s (more _ m _ p q) h =
      Callback-IsAtRest gen m s q (Callbacks-IsAtRest gen r m p h)

  stop_tunnel-IsAtRest : (r : Run) → IsAtRest r.gen (stop_tunnel r)
  unfolding stop_tunnel stop_process log_line
  stop_tunnel-IsAtRest r = elim (Option-cases r.cmd) [
    | inl e ↦ ground (arith, e)
    | inr (p, e) ↦ ground (arith, e)
  ]

  -- A tunnel that was stopped stays stopped, whatever its processes and timers still report and in
  -- whatever order: no callback starts a process or marks it running, until it is started again.
  pub stop_tunnel-stays : (r s : Run) → Callbacks hint (stop_tunnel r) s → IsAtRest r.gen s
  stop_tunnel-stays r s c = Callbacks-IsAtRest r.gen (stop_tunnel r) s c (stop_tunnel-IsAtRest r)

-- The output is never longer than the lines that are kept.
length-drop : (n : ℕ) (xs : List String) → length (drop n xs) ≡ length xs - n
length-drop zero xs = omega arith
length-drop (suc n) [] = omega arith
length-drop (suc n) (x ∷ xs) = omega (arith, length-drop n xs)

abbrev pub HasShortOut : Run → Type 0
HasShortOut r = length r.out ≤ tunnel_output_lines

log_line-HasShortOut : (line : String) (r : Run) → HasShortOut (log_line line r)
unfolding log_line
log_line-HasShortOut line r =
    let out = r.out ++ line ∷ [] in
    omega (arith, length-drop (length out - tunnel_output_lines) out)

-- What holds of both branches of a test holds of the test.
either {ℓ κ} :
    {A : Type ℓ} (P : A → Type κ) (b : Bool) (x y : A) → P x → P y → P (if b then x else y)
either P true x y p q = p
either P false x y p q = q

spawn-HasShortOut :
    (now : Time) (line : String) (s : Spawn) (r : Run)
    → HasShortOut r
    → HasShortOut (spawn now line s r)
unfolding spawn
spawn-HasShortOut now line Spawn.no_pipe r h = h
spawn-HasShortOut now line (Spawn.not_started message) r h =
    log_line-HasShortOut (text_of ("could not start: " ∷ message ∷ []))
      (record (log_line line (record r { gen = suc r.gen })) {
        state = State.failed;
        err = message;
      })
spawn-HasShortOut now line (Spawn.spawned pid) r h =
    log_line-HasShortOut line (record r { gen = suc r.gen })

-- A request of the user or the program, a callback, or a line that the process writes (`r.log` on each line of
-- its two streams, whatever the run's state by then).
pub data Step (hint : List String → String → String) : Run → Run → Type 0 where
  start :
      (keep : Bool) (endpoint : String) (is_open : Bool) (now : Time) (line : String) (s : Spawn)
      (r : Run)
      → Step hint r (start_tunnel keep endpoint is_open now line s r)
  stop : (r : Run) → Step hint r (stop_tunnel r)
  at_exit : (r : Run) → Step hint r (stop_at_exit r)
  callback : (r s : Run) → Callback hint r s → Step hint r s
  output : (line : String) (r : Run) → Step hint r (log_line line r)

pub data Steps (hint : List String → String → String) : Run → Run → Type 0 where
  none_yet : (r : Run) → Steps hint r r
  then_one : (r s t : Run) → Steps hint r s → Step hint s t → Steps hint r t

module _ (hint : List String → String → String) where
  ended-HasShortOut : (now : Time) (e : End) (r : Run) → HasShortOut (ended hint now e r)
  unfolding ended
  ended-HasShortOut now e r =
      let told : Run =
        if is_failed r.state
        then r
        else record r { state = State.exited; err = hint r.out e.how } in
      let logged =
        log_line-HasShortOut e.how (record told { cmd = none; pid = 0; exit_code = e.code }) in
      either HasShortOut (not (is_zero r.ready_at) && ltb_ℤ (pos (2 * minute)) (sub now r.ready_at))
        _ _ logged logged

  exit_tunnel-HasShortOut :
      (in_use : Bool) (g : ℕ) (now : Time) (e : End) (r : Run)
      → HasShortOut r
      → HasShortOut (exit_tunnel hint in_use g now e r).0
  unfolding exit_tunnel ended
  exit_tunnel-HasShortOut in_use g now e r h =
      let P : Run × Option Timer → Type 0 = λ p. HasShortOut p.0 in
      either P (not (r.gen == g)) _ _ h (
        either P (is_stopped r.state) _ _ h (
          either P (not (ended hint now e r).keep || (is_zero r.ready_at || not in_use)) _ _
            (ended-HasShortOut now e r) (log_line-HasShortOut _ (ended hint now e r))))

  Callback-HasShortOut : (r s : Run) → Callback hint r s → HasShortOut r → HasShortOut s
  unfolding mark_ready time_out restart
  Callback-HasShortOut _ _ (ready g endpoint spent now r) h =
      either HasShortOut (not (r.gen == g && is_starting r.state)) _ _ h (
        either HasShortOut (str_eq endpoint "") _ _ h
          (log_line-HasShortOut _ (record r { state = State.running; ready_at = now })))
  Callback-HasShortOut _ _ (timed_out g endpoint r) h =
      either HasShortOut (r.gen == g && is_starting r.state) _ _
        (log_line-HasShortOut _ (record r {
          state = State.failed;
          err = text_of (endpoint ∷ " did not open within 1m0s" ∷ []);
        }))
        h
  Callback-HasShortOut _ _ (over in_use g now e r) h = exit_tunnel-HasShortOut in_use g now e r h
  Callback-HasShortOut _ _ (timer defined in_use g now line s r) h =
      either HasShortOut
        (not defined
          || (not (r.gen == g) || (not (is_exited r.state) || (not r.keep || not in_use))))
        _ _ h (spawn-HasShortOut now line s (record r { restarts = suc r.restarts }) h)

  stop_process-HasShortOut : (r : Run) → HasShortOut r → HasShortOut (stop_process r)
  unfolding stop_process
  stop_process-HasShortOut r h = elim (Option-cases r.cmd) [
    | inl e ↦ rw (e, stop_process) h
    | inr (p, e) ↦ rw (e, stop_process) (log_line-HasShortOut "stopped" (record r { err = "" }))
  ]

  stop_tunnel-HasShortOut : (r : Run) → HasShortOut r → HasShortOut (stop_tunnel r)
  unfolding stop_tunnel
  stop_tunnel-HasShortOut r h =
      let quiet : Run = record r { keep = false; state = State.stopped } in
      either HasShortOut (is_external r.state) _ _ (log_line-HasShortOut _ quiet)
        (stop_process-HasShortOut quiet h)

  Step-HasShortOut : (r s : Run) → Step hint r s → HasShortOut r → HasShortOut s
  unfolding start_tunnel stop_tunnel stop_at_exit
  Step-HasShortOut _ _ (start keep endpoint is_open now line s r) h =
      either HasShortOut (is_up r.state) _ _ h (
        either HasShortOut (not (str_eq endpoint "") && is_open) _ _
          (log_line-HasShortOut _
            (record (marked keep r) { restarts = 0; state = State.external; err = ""; pid = 0 }))
          (spawn-HasShortOut now line s (record (marked keep r) { restarts = 0 }) h))
  Step-HasShortOut _ _ (stop r) h = stop_tunnel-HasShortOut r h
  Step-HasShortOut _ _ (at_exit r) h = elim (Option-cases r.cmd) [
    | inl e ↦ rw (e, stop_at_exit) h
    | inr (p, e) ↦ rw (e, stop_at_exit) h
  ]
  Step-HasShortOut _ _ (output line r) h = log_line-HasShortOut line r
  Step-HasShortOut _ _ (callback r s c) h = Callback-HasShortOut r s c h

  -- At most 200 lines of a tunnel's output are kept, whatever lines its processes write, and whatever its
  -- callbacks and the requests to start and stop it do in between.
  pub Steps-HasShortOut : (r s : Run) → Steps hint r s → HasShortOut r → HasShortOut s
  Steps-HasShortOut r s (none_yet _) h = h
  Steps-HasShortOut r s (then_one _ m _ p q) h = Step-HasShortOut m s q (Steps-HasShortOut r m p h)

  ended-keep : (now : Time) (e : End) (r : Run) → (ended hint now e r).keep ≡ r.keep
  unfolding ended log_line
  ended-keep now e r = ground arith

  timer_lem :
      (in_use : Bool) (g : ℕ) (now : Time) (e : End) (r : Run) (t : Timer)
      → (exit_tunnel hint in_use g now e r).1 ≡ some t
      → (r.gen ≡ g)
        × (r.state ≢ State.stopped)
        × (r.keep ≡ true)
        × (is_zero r.ready_at ≡ false)
        × (in_use ≡ true)
        × (t.generation ≡ g)
  unfolding exit_tunnel
  timer_lem in_use g now e r t h = elim (Bool-cases (r.gen == g)) [
    | inr p ↦ absurd (ground arith)
    | inl p ↦ elim (Bool-cases (is_stopped r.state)) [
      | inl q ↦ absurd (ground arith)
      | inr q ↦
          elim (Bool-cases (not (ended hint now e r).keep || (is_zero r.ready_at || not in_use))) [
            | inl k ↦ absurd (ground arith)
            | inr k ↦ (
              (==_iff r.gen g).0 p,
              (λ s. ground (arith, s)),
              sym (ended-keep now e r) ∙ ground arith,
              ground arith,
              ground arith,
              ground arith,
            )
          ]
    ]
  ]

  restart_lem :
      (defined used : Bool) (g : ℕ) (now : Time) (line : String) (s : Spawn) (r : Run)
      → restart defined used g now line s r ≢ r
      → (r.gen ≡ g) × (r.state ≡ State.exited) × (r.keep ≡ true) × (used ≡ true)
  unfolding restart
  restart_lem defined used g now line s r d =
      elim (Bool-cases (
        not defined
        || (not (r.gen == g) || (not (is_exited r.state) || (not r.keep || not used))))) [
          | inl p ↦ absurd (d (rw (p, restart) refl))
          | inr p ↦ ((==_iff r.gen g).0 (ground arith), ground arith, ground arith, ground arith)
        ]

  -- A tunnel is restarted by itself only if it was up: a timer is started only for the current process,
  -- of a tunnel that is not stopped and is to be kept, when its port had opened and the watched cluster
  -- uses it; and the timer only ever restarts this process, if it is still the last one, has ended, and
  -- the tunnel is still to be kept and in use.
  pub exit_tunnel-restart :
      (in_use defined used : Bool) (g : ℕ) (now later : Time) (e : End) (line : String) (s : Spawn)
      (r next : Run) (t : Timer)
      → (exit_tunnel hint in_use g now e r).1 ≡ some t
      → (restart defined used t.generation later line s next ≢ next)
      → (r.gen ≡ g)
        × (r.state ≢ State.stopped)
        × (r.keep ≡ true)
        × (is_zero r.ready_at ≡ false)
        × (in_use ≡ true)
        × (next.gen ≡ r.gen)
        × (next.state ≡ State.exited)
        × (next.keep ≡ true)
        × (used ≡ true)
  unfolding exit_tunnel ended restart
  exit_tunnel-restart in_use defined used g now later e line s r next t h d =
      let (a, b, c, f, k, m) = timer_lem in_use g now e r t h in
      let (n, o, p, q) = restart_lem defined used t.generation later line s next d in
      (a, b, c, f, k, n ∙ m ∙ sym a, o, p, q)
