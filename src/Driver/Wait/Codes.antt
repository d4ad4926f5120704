-- ===== src/Driver/Wait/Codes.antt =====
-- The state and the exit code of a task that has ended.
use nomad_pot_driver.Pot.Kept.{get_container_last_run_stats-kept}
use nomad_pot_driver.Text.Split.{codes}
use nomad_pot_driver.Base.{
  ◌∙◌, sym, ◌⊎◌, [], ◌∷◌, ◌++◌, ap, ◌≡◌, inl, inr, Bool, true, Option, some, arith, ℤ, get_elem?,
  set, Bool-cases, get_elem?-set_known, if◌then◌else◌,
}
use nomad_pot_driver.Outcome.{ok-injective, Outcome, ok, Outcome-cases}
use nomad_pot_driver.Types.{NomadConfig, Syexec, Libs}
use nomad_pot_driver.Machine.{Call, pot_run, Host, Log, End, clean, exit_error}
use nomad_pot_driver.Pot.Run.{default_failed_code}
use nomad_pot_driver.Pot.Query.{get_container_last_run_stats}
use nomad_pot_driver.Handle.{Handle, ExitResult, done}
use nomad_pot_driver.Driver.State.{Driver, Ref, Result}
use nomad_pot_driver.Driver.Wait.{pot_failed, set_code, set_wait_code, destroy_handle, pot_wait_end}
use nomad_pot_driver.Driver.Wait.Destroy.{destroy_handle_again, destroy_handle_first}

-- The code of a `pot last-run-stats` that gave one.
abbrev pub code_or_failed : Outcome ℤ → ℤ
code_or_failed (ok code) = code
code_or_failed _ = default_failed_code

pub set_code_lem :
    (p : Ref) (code : ℤ) (d : Driver) (h : Handle) (r : ExitResult)
    → get_elem? d.handles p ≡ some h
    → h.exit_result ≡ some r
    → set_code p code d ≡ (
      ok tt,
      record d {
        handles = set d.handles p (record h { exit_result = some (record r { exit_code = code }) });
      },
    )
unfolding set_code
set_code_lem p code d h r known is_r = ground arith

-- The handle as it is after the exit code was set.
abbrev pub with_code : Handle → ExitResult → ℤ → Handle
with_code h r code = record h { exit_result = some (record r { exit_code = code }) }

module _ (lib : Libs) (host : Host) where
  -- The exit code that a task gets from the end of `pot start`, where it had this one before.
  abbrev pub expected_code : NomadConfig → Syexec → Log → End → ℤ → ℤ
  expected_code cfg se log clean code = code
  expected_code cfg se log (exit_error ws) code =
      if pot_failed ws
      then code_or_failed
          (get_container_last_run_stats lib host cfg (record { se = se; log = log })).0
      else default_failed_code
  expected_code cfg se log _ code = default_failed_code

  pub set_wait_code_lem :
      (p : Ref) (se se' : Syexec) (end : End) (d : Driver) (h : Handle) (r : ExitResult)
      → get_elem? d.handles p ≡ some h
      → h.exit_result ≡ some r
      → (set_wait_code lib host p se end d).0 ≡ ok se'
      → get_elem? (set_wait_code lib host p se end d).1.handles p
        ≡ some (with_code h r (expected_code h.task_config se d.log end r.exit_code))
  unfolding set_wait_code
  set_wait_code_lem p se se' clean d h r known is_r ran = ground arith
  set_wait_code_lem p se se' (exit_error ws) d h r known is_r ran =
      let h₁ = with_code h r default_failed_code in
      let d₁ : Driver = record d { handles = set d.handles p h₁ } in
      let set₁ = get_elem?-set_known d.handles p h h₁ known in
      let code =
        code_or_failed
          (get_container_last_run_stats lib host h.task_config
            (record { se = se; log = d.log })).0 in
      ground (
        arith,
        set_code_lem p default_failed_code d h r known is_r,
        set₁,
        get_elem?-set_known d₁.handles p h₁ (with_code h r code) set₁,
      )
  set_wait_code_lem p se se' _ d h r known is_r ran = ground (
    arith,
    set_code_lem p default_failed_code d h r known is_r,
    get_elem?-set_known d.handles p h (with_code h r default_failed_code) known,
  )

  -- The handle of a task after potWait has ended.
  abbrev pub finished : Handle → ExitResult → ℤ → Handle
  finished h r code = record (with_code h r code) { proc_state = done; called_destroy = true }

  pub destroyed :
      (p : Ref) (se : Syexec) (d : Driver) (h : Handle) (x : Result (Option Bool))
      → get_elem? d.handles p ≡ some h
      → (destroy_handle lib host p se d).0 ≡ ok x
      → get_elem? (destroy_handle lib host p se d).1.handles p
        ≡ some (record h { called_destroy = true })
  destroyed p se d h x known e = elim (Bool-cases h.called_destroy) [
    | inl called ↦ ground (arith, destroy_handle_again lib host p se d h known called)
    | inr new ↦ ground (
      arith,
      destroy_handle_first lib host p se d h known new,
      get_elem?-set_known d.handles p h (record h { called_destroy = true }) known,
    )
  ]

  -- The command that a destruction runs.
  abbrev pub destroy_call : Syexec → NomadConfig → Call
  destroy_call se cfg = pot_run (se.argv_destroy ++ codes "-F" ∷ []) (lib.task_dir cfg).dir

  -- Unless the handle's container was destroyed before, `pot destroy` was run last.
  abbrev pub Destroys : Handle → Syexec → Driver → Type 0
  Destroys h se d =
      (h.called_destroy ≡ true) ⊎ ((log : Log) × (d.log ≡ destroy_call se h.task_config ∷ log))

  pub destroy_handle-Destroys :
      (p : Ref) (se : Syexec) (d : Driver) (h : Handle) (x : Result (Option Bool))
      → get_elem? d.handles p ≡ some h
      → (destroy_handle lib host p se d).0 ≡ ok x
      → Destroys h se (destroy_handle lib host p se d).1
  destroy_handle-Destroys p se d h x known e = elim (Bool-cases h.called_destroy) [
    | inl called ↦ inl called
    | inr new ↦ elim (destroy_handle_first lib host p se d h known new) [
      | inl (pid, ran, same) ↦
          inr (d.log, ap (λ (y : Outcome (Result (Option Bool)) × Driver). y.1.log) same)
      | inr (lost, panics) ↦ absurd (ground arith)
    ]
  ]

  -- The `syexec` that potWait destroys with has the arguments of `pot destroy` as before.
  set_wait_code-argv_destroy :
      (p : Ref) (se se' : Syexec) (end : End) (d : Driver) (h : Handle) (r : ExitResult)
      → get_elem? d.handles p ≡ some h
      → h.exit_result ≡ some r
      → (set_wait_code lib host p se end d).0 ≡ ok se'
      → se'.argv_destroy ≡ se.argv_destroy
  unfolding set_wait_code
  set_wait_code-argv_destroy p se se' clean d h r known is_r e =
      ap (λ (x : Syexec). x.argv_destroy) (sym (ok-injective e))
  set_wait_code-argv_destroy p se se' (exit_error ws) d h r known is_r e =
      let asked = get_container_last_run_stats-kept lib host h.task_config in
      let same = asked.at (record { se = se; log = d.log }) in
      let h₁ = with_code h r default_failed_code in
      ground (
        arith,
        same,
        set_code_lem p default_failed_code d h r known is_r,
        get_elem?-set_known d.handles p h h₁ known,
      )
  set_wait_code-argv_destroy p se se' _ d h r known is_r e =
      ground (arith, set_code_lem p default_failed_code d h r known is_r)

  pub pot_wait_end-finished :
      (p : Ref) (se : Syexec) (end : End) (d d' : Driver) (h : Handle) (r : ExitResult)
      → get_elem? d.handles p ≡ some h
      → h.exit_result ≡ some r
      → pot_wait_end lib host (some p) se end d ≡ (ok tt, d')
      → get_elem? d'.handles p
        ≡ some (finished h r (expected_code h.task_config se d.log end r.exit_code))
  unfolding pot_wait_end
  pot_wait_end-finished p se end d d' h r known is_r e =
      let h₁ : Handle = record h { proc_state = done } in
      let d₁ : Driver = record d { handles = set d.handles p h₁ } in
      let known₁ = get_elem?-set_known d.handles p h h₁ known in
      elim (Outcome-cases (set_wait_code lib host p se end d₁).0) [
        | inl (se', is_se) ↦
            let d₂ = (set_wait_code lib host p se end d₁).1 in
            let known₂ = set_wait_code_lem p se se' end d₁ h₁ r known₁ is_r is_se in
            elim (Outcome-cases (destroy_handle lib host p se' d₂).0) [
              | inl (x, is_x) ↦ ground (arith, destroyed p se' d₂ _ x known₂ is_x)
              | inr (inl (x, bad)) ↦ absurd (ground arith)
              | inr (inr (x, bad)) ↦ absurd (ground arith)
            ]
        | inr (inl (x, bad)) ↦ absurd (ground arith)
        | inr (inr (x, bad)) ↦ absurd (ground arith)
      ]

  pot_wait_end-Destroys :
      (p : Ref) (se : Syexec) (end : End) (d d' : Driver) (h : Handle) (r : ExitResult)
      → get_elem? d.handles p ≡ some h
      → h.exit_result ≡ some r
      → pot_wait_end lib host (some p) se end d ≡ (ok tt, d')
      → Destroys h se d'
  unfolding pot_wait_end
  pot_wait_end-Destroys p se end d d' h r known is_r e =
      let h₁ : Handle = record h { proc_state = done } in
      let d₁ : Driver = record d { handles = set d.handles p h₁ } in
      let known₁ = get_elem?-set_known d.handles p h h₁ known in
      elim (Outcome-cases (set_wait_code lib host p se end d₁).0) [
        | inl (se', is_se) ↦
            let d₂ = (set_wait_code lib host p se end d₁).1 in
            let known₂ = set_wait_code_lem p se se' end d₁ h₁ r known₁ is_r is_se in
            let same = set_wait_code-argv_destroy p se se' end d₁ h₁ r known₁ is_r is_se in
            elim (Outcome-cases (destroy_handle lib host p se' d₂).0) [
              | inl (x, is_x) ↦
                  let after : (destroy_handle lib host p se' d₂).1 ≡ d' = ground arith in
                  elim (destroy_handle-Destroys p se' d₂ _ x known₂ is_x) [
                    | inl called ↦ inl called
                    | inr (log, last) ↦ inr (
                      log,
                      ap (λ (y : Driver). y.log) (sym after)
                          ∙ (last
                              ∙ ap
                                  (λ argv.
                                    pot_run (argv ++ codes "-F" ∷ [])
                                      (lib.task_dir h.task_config).dir
                                    ∷ log)
                                  same),
                    )
                  ]
              | inr (inl (x, bad)) ↦ absurd (ground arith)
              | inr (inr (x, bad)) ↦ absurd (ground arith)
            ]
        | inr (inl (x, bad)) ↦ absurd (ground arith)
        | inr (inr (x, bad)) ↦ absurd (ground arith)
      ]

  -- Where potWait comes to its end for a handle with an exit result, the task is exited and the
  -- flag of the destruction is set, and, unless it was set before, the last command that was
  -- run is the forced `pot destroy` of the `syexec`. The exit code is the one the task had if
  -- `pot start` ended without an error, that of `pot last-run-stats` if it ended with code 125
  -- and the statistics could be read, and 255 otherwise.
  pub pot_wait_end_lem :
      (p : Ref) (se : Syexec) (end : End) (d d' : Driver) (h : Handle) (r : ExitResult)
      → get_elem? d.handles p ≡ some h
      → h.exit_result ≡ some r
      → pot_wait_end lib host (some p) se end d ≡ (ok tt, d')
      → (get_elem? d'.handles p
          ≡ some (finished h r (expected_code h.task_config se d.log end r.exit_code)))
        × Destroys h se d'
  pot_wait_end_lem p se end d d' h r known is_r e = (
    pot_wait_end-finished p se end d d' h r known is_r e,
    pot_wait_end-Destroys p se end d d' h r known is_r e,
  )
