-- ===== src/Driver/Wait/Returns.antt =====
-- The end of potWait on a host that can start the program `pot`.
use nomad_pot_driver.Base.{
  ◌≡◌, refl, inl, inr, Bool, Option, some, ℤ, arith, get_elem?, set, Bool-cases, ap, subst,
  get_elem?-set_known, List,
}
use nomad_pot_driver.Text.Split.{Text}
use nomad_pot_driver.Outcome.{Outcome, ok, panic, Outcome-cases}
use nomad_pot_driver.Types.{NomadConfig, Syexec, Libs}
use nomad_pot_driver.Machine.{Host, Log, End, clean, exit_error, io_error, start_error, Pot}
use nomad_pot_driver.Pot.Run.{process_of, default_failed_code}
use nomad_pot_driver.Pot.Query.{get_container_last_run_stats}
use nomad_pot_driver.Handle.{Handle, ExitResult, done}
use nomad_pot_driver.Driver.State.{Driver, Ref, Result}
use nomad_pot_driver.Driver.Wait.{pot_failed, set_wait_code, destroy_handle, pot_wait_end}
use nomad_pot_driver.Driver.Wait.Destroy.{
  destroy_args, destroy_dir, destroy_handle_again, destroy_handle_first,
}
use nomad_pot_driver.Driver.Wait.Codes.{set_code_lem, set_wait_code_lem, with_code}

-- The operating system can start the program `pot`.
pub record CanStart (host : Host) : Type 0 where
  pub at :
      (log : Log) (args : List Text) (dir : Text)
      → (pid : ℤ) × (process_of (host.run log args dir) ≡ some pid)

-- A result that is no panic.
abbrev pub Returns {ℓ} : {A : Type ℓ} → Outcome A → Type 0
Returns (panic p) = ⊥
Returns _ = Unit

module _ (lib : Libs) (host : Host) (can : CanStart host) where
  pub last_run-Returns :
      (cfg : NomadConfig) (s : Pot) → Returns (get_container_last_run_stats lib host cfg s).0
  unfolding get_container_last_run_stats
  last_run-Returns cfg s =
      let (pid, e) = can.at s.log s.se.argv_last_run_stats (lib.task_dir cfg).dir in ground arith

  set_wait_code_returns :
      (p : Ref) (se : Syexec) (end : End) (d : Driver) (h : Handle) (r : ExitResult)
      → get_elem? d.handles p ≡ some h
      → h.exit_result ≡ some r
      → (se' : Syexec) × ((set_wait_code lib host p se end d).0 ≡ ok se')
  unfolding set_wait_code
  set_wait_code_returns p se clean d h r known is_r = (se, refl)
  set_wait_code_returns p se (exit_error ws) d h r known is_r =
      let h₁ = with_code h r default_failed_code in
      let d₁ : Driver = record d { handles = set d.handles p h₁ } in
      let known₁ = get_elem?-set_known d.handles p h h₁ known in
      elim (Bool-cases (pot_failed ws)) [
        | inl failed ↦
            let s : Pot = record { se = se; log = d.log } in
            let se' = (get_container_last_run_stats lib host h.task_config s).1.se in
            elim (Outcome-cases (get_container_last_run_stats lib host h.task_config s).0) [
              | inl (code, e) ↦
                  let set₂ =
                    set_code_lem p code
                      (record d₁ {
                        log = (get_container_last_run_stats lib host h.task_config s).1.log;
                      })
                      h₁ (record r { exit_code = default_failed_code }) known₁ refl in
                  (
                    se',
                    ground
                        (arith, set_code_lem p default_failed_code d h r known is_r, known₁, set₂),
                  )
              | inr (inl (x, e)) ↦
                  (se', ground (arith, set_code_lem p default_failed_code d h r known is_r, known₁))
              | inr (inr (x, e)) ↦ absurd (subst Returns e (last_run-Returns h.task_config s))
            ]
        | inr other ↦ (se, ground (arith, set_code_lem p default_failed_code d h r known is_r))
      ]
  set_wait_code_returns p se io_error d h r known is_r =
      (se, ground (arith, set_code_lem p default_failed_code d h r known is_r))
  set_wait_code_returns p se start_error d h r known is_r =
      (se, ground (arith, set_code_lem p default_failed_code d h r known is_r))

  pub destroy_handle_returns :
      (p : Ref) (se : Syexec) (d : Driver) (h : Handle)
      → get_elem? d.handles p ≡ some h
      → (x : Result (Option Bool)) × ((destroy_handle lib host p se d).0 ≡ ok x)
  destroy_handle_returns p se d h known = elim (Bool-cases h.called_destroy) [
    | inl called ↦ (
      _,
      ap (λ (x : Outcome (Result (Option Bool)) × Driver). x.0)
          (destroy_handle_again lib host p se d h known called),
    )
    | inr new ↦ elim (destroy_handle_first lib host p se d h known new) [
      | inl (pid, ran, e) ↦ (_, ap (λ (x : Outcome (Result (Option Bool)) × Driver). x.0) e)
      | inr (lost, e) ↦
          let (pid, ran) =
            can.at d.log (destroy_args lib host p se d h) (destroy_dir lib host p se d h) in
          absurd (ground arith)
    ]
  ]

  -- potWait comes to its end for a handle with an exit result, if the program `pot` can be started.
  pub pot_wait_end_returns :
      (p : Ref) (se : Syexec) (end : End) (d : Driver) (h : Handle) (r : ExitResult)
      → get_elem? d.handles p ≡ some h
      → h.exit_result ≡ some r
      → (d' : Driver) × (pot_wait_end lib host (some p) se end d ≡ (ok tt, d'))
  unfolding pot_wait_end
  pot_wait_end_returns p se end d h r known is_r =
      let h₁ : Handle = record h { proc_state = done } in
      let d₁ : Driver = record d { handles = set d.handles p h₁ } in
      let known₁ = get_elem?-set_known d.handles p h h₁ known in
      let (se', is_se) = set_wait_code_returns p se end d₁ h₁ r known₁ is_r in
      let d₂ = (set_wait_code lib host p se end d₁).1 in
      let known₂ = set_wait_code_lem lib host p se se' end d₁ h₁ r known₁ is_r is_se in
      let (x, is_x) = destroy_handle_returns p se' d₂ _ known₂ in
      ((destroy_handle lib host p se' d₂).1, ground arith)
