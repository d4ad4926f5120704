-- ===== src/Driver/Recover/Cases.antt =====
-- RecoverTask, path by path.
use nomad_pot_driver.Prepare.Commands.{container_name}
use nomad_pot_driver.Pot.Query.{check_container_alive, alive_command, pid_of}
use nomad_pot_driver.Driver.Start.{given}
use nomad_pot_driver.Base.{
  is_zero, Bool-cases, subst, sym, ℕ, ◌≡◌, refl, ap, ◌∙◌, ◌⊎◌, inl, inr, true, false, Option, none,
  some, [], ◌∷◌, ◌++◌, ℤ, if◌then◌else◌, length, Option-cases,
}
use nomad_pot_driver.Text.Split.{Text}
use nomad_pot_driver.Outcome.{panic, Outcome-cases, Outcome, ok, err, not_recoverable}
use nomad_pot_driver.Types.{NomadConfig, TaskConfig, TaskState, TaskHandle, Syexec, Libs}
use nomad_pot_driver.Machine.{Log, shell, Host, Act, ◌>>=◌, pure}
use nomad_pot_driver.Machine.Keeps.{Keeps-lift, keeps_rules, Keeps, Fails, Reaches, Reaches-bind}
use nomad_pot_driver.Prepare.Container.{prepare_container}
use nomad_pot_driver.Store.{get, put, delete}
use nomad_pot_driver.Handle.{Handle, running}
use nomad_pot_driver.Driver.State.{call, Driver, recover_wait}
use nomad_pot_driver.Driver.Start.Frame.{blank, frame_rules}
use nomad_pot_driver.Driver.Start.Cases.{Unchanged}
use nomad_pot_driver.Driver.Recover.{
  task_of, recover_task, recover_new, recover_unless, reattach, reregister, forget, enroll,
  state_of, config_of, encoded, kept_state,
}

-- The state with one more handle, under its own id, and a goroutine that waits under this id.
abbrev pub enrolled : Text → Syexec → Handle → Driver → Driver
enrolled id se h d = record d {
  tasks = put d.tasks h.task_config.id (length d.handles);
  handles = d.handles ++ h ∷ [];
  threads = d.threads ++ recover_wait id se ∷ [];
}

-- The task is back, with a handle that runs and is not destroyed.
abbrev pub Recovers : TaskHandle → Driver → Outcome TaskHandle × Driver → Type 0
Recovers handle d r =
    (th : TaskHandle) × (se : Syexec) × (h : Handle) × (r.0 ≡ ok th)
    × (h.called_destroy ≡ false)
    × (h.proc_state ≡ running)
    × (blank r.1 ≡ enrolled handle.config.id se h (blank d))

-- The id is not in the store afterwards, and an error is returned.
abbrev pub Forgets : TaskHandle → Driver → Outcome TaskHandle × Driver → Type 0
Forgets handle d r =
    (r.0 ≡ err not_recoverable)
    × (blank r.1 ≡ record (blank d) { tasks = delete d.tasks handle.config.id })

-- No handle is returned, and nothing but the log has changed.
abbrev pub GivesUp : Driver → Outcome TaskHandle × Driver → Type 0
GivesUp d r = Fails r.0 × Unchanged d r.1

module _ (lib : Libs) (host : Host) where
  abbrev pub seen_by : Log → Outcome Text → Outcome ℤ
  seen_by log (ok name) = ok (pid_of (host.shell_output log (alive_command name)))
  seen_by log (err e) = err e
  seen_by log (panic p) = panic p

  -- What `pgrep` says of the container's process, at this place of the log, and 0 without one.
  abbrev pub pid_seen : NomadConfig → Log → Outcome ℤ
  pid_seen cfg log = seen_by log (container_name cfg.id)

  -- The container runs, or does not.
  abbrev pub Runs : TaskHandle → Driver → Type 0
  Runs handle d = (pid : ℤ) × (pid_seen handle.config d.log ≡ ok pid) × (is_zero pid ≡ false)

  abbrev pub IsGone : TaskHandle → Driver → Type 0
  IsGone handle d = (pid : ℤ) × (pid_seen handle.config d.log ≡ ok pid) × (is_zero pid ≡ true)

  -- RecoverTask on an id that the store does not have.
  abbrev pub Decides : TaskHandle → Driver → Outcome TaskHandle × Driver → Type 0
  Decides handle d r =
      (Runs handle d × Recovers handle d r) ⊎ (IsGone handle d × Forgets handle d r) ⊎ GivesUp d r

  state_of-same : (o : Option TaskState) → Keeps (λ d. d) (state_of lib host o)
  state_of-same none = search keeps_rules
  state_of-same (some state) = search keeps_rules

  config_of-same : (o : Option NomadConfig) → Keeps (λ d. d) (config_of lib host o)
  config_of-same none = record { at = λ d. refl }
  config_of-same (some cfg) = record { at = λ d. refl }

  reattach-blank :
      (cfg : NomadConfig) (alive : ℤ) (se : Syexec) → Keeps blank (reattach lib host cfg alive se)
  unfolding reattach
  reattach-blank cfg alive se = search frame_rules depth 12

  encoded-blank :
      (o : Option Text) (handle : TaskHandle) (se : Syexec) (h : Handle)
      → Keeps blank (encoded lib host o handle se h)
  encoded-blank none handle se h = search frame_rules
  encoded-blank (some bytes) handle se h = search frame_rules

  enroll-Recovers :
      (handle th : TaskHandle) (se : Syexec) (h : Handle)
      → h.called_destroy ≡ false
      → h.proc_state ≡ running
      → Reaches blank (Recovers handle) (enroll lib host handle.config.id se h >>= λ _. pure th)
  unfolding enroll
  enroll-Recovers handle th se h f s = record {
    at = λ d. inl (d, refl, (th, se, h, refl, f, s, refl));
  }

  reregister-Recovers :
      (handle : TaskHandle) (bytes : Text) (old : NomadConfig) (task : TaskConfig) (se : Syexec)
      → Reaches blank
          (Recovers handle)
          (reregister lib host (record handle { driver_state = bytes }) old task se)
  unfolding reregister
  reregister-Recovers handle bytes old task se =
      search (frame_rules, Reaches-bind, encoded-blank, enroll-Recovers) depth 12

  kept-Recovers :
      (handle : TaskHandle) (o : Option Text) (old : NomadConfig) (task : TaskConfig) (se : Syexec)
      → Reaches blank
          (Recovers handle)
          (reregister lib host (kept_state lib host handle o) old task se)
  kept-Recovers handle none old task se = reregister-Recovers handle handle.driver_state old task se
  kept-Recovers handle (some bytes) old task se = reregister-Recovers handle bytes old task se

  -- What follows the query, from the state after it.
  abbrev pub decided :
      TaskHandle → Option Text → NomadConfig → TaskConfig → ℤ → Syexec → Act Driver TaskHandle
  decided handle o old task alive se = do
    se' ←
        if is_zero alive
        then forget lib host handle.config
        else reattach lib host handle.config alive se
    reregister lib host (kept_state lib host handle o) old task se'

  -- From a state that differs in the log alone.
  settled :
      (handle : TaskHandle) (d t : Driver) (r : Outcome TaskHandle × Driver)
      → Unchanged d t
      → ((u : Driver) × Unchanged t u × Recovers handle u r) ⊎ (Fails r.0 × Unchanged t r.1)
      → Recovers handle d r ⊎ GivesUp d r
  settled handle d t r w (inl (u, v, (th, se, h, e, f, s, same))) =
      inl (th, se, h, e, f, s, same ∙ ap (enrolled handle.config.id se h) (v ∙ w))
  settled handle d t r w (inr (f, v)) = inr (f, v ∙ w)

  pub decided-gone :
      (handle : TaskHandle) (o : Option Text) (old : NomadConfig) (task : TaskConfig) (pid : ℤ)
      (se : Syexec) (d t : Driver)
      → Unchanged d t
      → is_zero pid ≡ true
      → Forgets handle d (decided handle o old task pid se t)
  unfolding forget
  decided-gone handle o old task pid se d t w gone =
      rw gone (refl, ap (λ (x : Driver). record x { tasks = delete x.tasks handle.config.id }) w)

  decided-runs :
      (handle : TaskHandle) (o : Option Text) (old : NomadConfig) (task : TaskConfig) (pid : ℤ)
      (se : Syexec) (d t : Driver)
      → Unchanged d t
      → is_zero pid ≡ false
      → let r = decided handle o old task pid se t in Recovers handle d r ⊎ GivesUp d r
  decided-runs handle o old task pid se d t w runs =
      let m =
        reattach lib host handle.config pid se
        >>= reregister lib host (kept_state lib host handle o) old task in
      let rest =
        Reaches-bind (reattach lib host handle.config pid se) _
          (reattach-blank handle.config pid se) (kept-Recovers handle o old task) in
      rw runs (settled handle d t (m t) w (rest.at t))

  -- The query, and what follows it.
  abbrev pub queried :
      TaskHandle → Option Text → NomadConfig → TaskConfig → Syexec → Act Driver TaskHandle
  queried handle o old task se = do
    (r, se') ← call se (check_container_alive lib host handle.config)
    alive ← given r
    decided handle o old task alive se'

  pub queried-decided :
      (handle : TaskHandle) (o : Option Text) (old : NomadConfig) (task : TaskConfig) (se : Syexec)
      (d : Driver) (name : Text)
      → container_name handle.config.id ≡ ok name
      → queried handle o old task se d
        ≡ decided handle o old task
            (pid_of (host.shell_output d.log (alive_command name)))
            se
            (record d { log = shell (alive_command name) ∷ d.log })
  unfolding check_container_alive
  queried-decided handle o old task se d name named = rw named refl

  queried-Decides :
      (handle : TaskHandle) (o : Option Text) (old : NomadConfig) (task : TaskConfig) (se : Syexec)
      → Reaches (λ d. d) (Decides handle) (queried handle o old task se)
  unfolding check_container_alive
  queried-Decides handle o old task se = record {
    at = λ d. inl (
      d,
      refl,
      elim (Outcome-cases (container_name handle.config.id)) [
        | inl (name, named) ↦
            let pid = pid_of (host.shell_output d.log (alive_command name)) in
            let t : Driver = record d { log = shell (alive_command name) ∷ d.log } in
            let seen : pid_seen handle.config d.log ≡ ok pid = rw named refl in
            let next = queried-decided handle o old task se d name named in
            subst (Decides handle d) (sym next) (elim (Bool-cases (is_zero pid)) [
              | inl gone ↦
                  inr (inl ((pid, seen, gone), decided-gone handle o old task pid se d t refl gone))
              | inr runs ↦ elim (decided-runs handle o old task pid se d t refl runs) [
                | inl back ↦ inl ((pid, seen, runs), back)
                | inr lost ↦ inr (inr lost)
              ]
            ])
        | inr (inl (e, bad)) ↦ inr (inr (rw bad (tt, refl)))
        | inr (inr (p, bad)) ↦ inr (inr (rw bad (tt, refl)))
      ],
    );
  }

  recover_new-Decides :
      (handle : TaskHandle) → Reaches (λ d. d) (Decides handle) (recover_new lib host handle)
  unfolding recover_new
  recover_new-Decides handle =
      Reaches-bind _ _ (state_of-same (lib.decode_state handle.driver_state)) λ state.
        Reaches-bind _ _ (config_of-same state.task_config) λ old.
          Reaches-bind _ _
            (Keeps-lift (
              prepare_container lib handle.config
                (task_of lib host (lib.decode_driver_config old))))
            λ se.
              queried-Decides handle (lib.encode_state state) old
                (task_of lib host (lib.decode_driver_config old)) se

  new_cases :
      (handle : TaskHandle) (d : Driver) (r : Outcome TaskHandle × Driver)
      → ((t : Driver) × (t ≡ d) × Decides handle t r) ⊎ (Fails r.0 × (r.1 ≡ d))
      → Decides handle d r
  new_cases handle d r (inl (t, same, c)) = subst (λ x. Decides handle x r) same c
  new_cases handle d r (inr (fails, same)) = inr (inr (fails, ap blank same))

  -- RecoverTask on an id that the store has changes nothing. On any other id it ends in one of
  -- three ways. Where pgrep gives a process id other than 0 for the container, it may add a
  -- task that runs, with its handle and its goroutine. Where pgrep gives none, or 0, it may
  -- return an error with the id deleted from the store. Or it returns no handle, and leaves the
  -- store, the handles and the goroutines as they were.
  pub recover_task_cases :
      (handle : TaskHandle) (d : Driver)
      → let r = recover_task lib host (some handle) d in
        ((p : ℕ) × (get d.tasks handle.config.id ≡ some p) × (r ≡ (ok handle, d)))
        ⊎ ((get d.tasks handle.config.id ≡ none) × Decides handle d r)
  unfolding recover_task
  recover_task_cases handle d = elim (Option-cases (get d.tasks handle.config.id)) [
    | inr (p, known) ↦ inl (p, known, rw known refl)
    | inl fresh ↦ inr (
      fresh,
      rw (fresh, recover_unless)
          (new_cases handle d (recover_new lib host handle d) ((recover_new-Decides handle).at d)),
    )
  ]
