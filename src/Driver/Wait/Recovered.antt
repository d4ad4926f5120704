-- ===== src/Driver/Wait/Recovered.antt =====
-- recoverWait after its loop.
use nomad_pot_driver.Pot.Kept.{get_container_last_run_stats-kept}
use nomad_pot_driver.Text.Split.{codes}
use nomad_pot_driver.Base.{
  ap, [], ◌∷◌, ◌++◌, ◌∙◌, ◌≡◌, refl, inl, inr, subst, some, ℤ, arith, get_elem?, set,
  get_elem?-set_known,
}
use nomad_pot_driver.Outcome.{ok, Outcome-cases}
use nomad_pot_driver.Types.{Syexec, Libs}
use nomad_pot_driver.Machine.{pot_run, Host, Log, Pot}
use nomad_pot_driver.Pot.Query.{get_container_last_run_stats}
use nomad_pot_driver.Handle.{Handle, ExitResult, done}
use nomad_pot_driver.Driver.State.{Driver, Ref, Result, value, error, call}
use nomad_pot_driver.Driver.Wait.{set_done, destroy_handle, recover_wait_end, recovered_code}
use nomad_pot_driver.Driver.Wait.Codes.{
  Destroys, destroy_handle-Destroys, set_code_lem, with_code, finished, code_or_failed, destroyed,
}
use nomad_pot_driver.Driver.Wait.Returns.{
  CanStart, Returns, last_run-Returns, destroy_handle_returns,
}

module _ (lib : Libs) (host : Host) where
  -- The exit code of a recovered task that has ended.
  abbrev pub last_run_code : Handle → Syexec → Log → ℤ
  last_run_code h se log =
      code_or_failed
        (get_container_last_run_stats lib host h.task_config (record { se = se; log = log })).0

  asked_code :
      (se : Syexec) (d : Driver) (h : Handle)
      → CanStart host
      → let asked =
          get_container_last_run_stats lib host h.task_config (record { se = se; log = d.log }) in
        (q : Result ℤ) × (call se (get_container_last_run_stats lib host h.task_config) d
          ≡ (ok (q, asked.1.se), record d { log = asked.1.log }))
        × (recovered_code q ≡ last_run_code h se d.log)
  asked_code se d h can =
      let s : Pot = record { se = se; log = d.log } in
      let asked = get_container_last_run_stats lib host h.task_config s in
      elim (Outcome-cases asked.0) [
        | inl (n, e) ↦ (value n, rw e refl, rw e refl)
        | inr (inl (x, e)) ↦ (error x, rw e refl, rw e refl)
        | inr (inr (x, e)) ↦
            absurd (subst Returns e (last_run-Returns lib host can h.task_config s))
      ]

  -- It comes to its end for a handle with an exit result, if the program `pot` can be started.
  pub recover_wait_end_returns :
      (p : Ref) (se : Syexec) (d : Driver) (h : Handle) (r : ExitResult)
      → CanStart host
      → get_elem? d.handles p ≡ some h
      → h.exit_result ≡ some r
      → (d' : Driver) × (recover_wait_end lib host (some p) se d ≡ (ok tt, d'))
        × (get_elem? d'.handles p ≡ some (finished lib host h r (last_run_code h se d.log)))
        × Destroys lib host h se d'
  unfolding recover_wait_end set_done
  recover_wait_end_returns p se d h r can known is_r =
      let s : Pot = record { se = se; log = d.log } in
      let h₁ : Handle = record h { proc_state = done } in
      let d₁ : Driver = record d { handles = set d.handles p h₁ } in
      let known₁ = get_elem?-set_known d.handles p h h₁ known in
      let asked = get_container_last_run_stats lib host h.task_config s in
      let (q, is_asked, is_code) = asked_code se d₁ h₁ can in
      let d₂ : Driver = record d₁ { log = asked.1.log } in
      let code = last_run_code h se d.log in
      let coded = set_code_lem p code d₂ h₁ r known₁ is_r in
      let d₃ : Driver = record d₂ { handles = set d₂.handles p (with_code h₁ r code) } in
      let known₃ = get_elem?-set_known d₂.handles p h₁ (with_code h₁ r code) known₁ in
      let (x, is_x) = destroy_handle_returns lib host can p asked.1.se d₃ _ known₃ in
      let gone = destroyed lib host p asked.1.se d₃ _ x known₃ is_x in
      (
        (destroy_handle lib host p asked.1.se d₃).1,
        ground (arith, known₁, is_asked, is_code, coded, is_x),
        gone,
        elim (destroy_handle-Destroys lib host p asked.1.se d₃ _ x known₃ is_x) [
          | inl called ↦ inl called
          | inr (log, last) ↦ inr (
            log,
            last
                ∙ ap
                    (λ argv.
                      pot_run (argv ++ codes "-F" ∷ []) (lib.task_dir h.task_config).dir ∷ log)
                    ((get_container_last_run_stats-kept lib host h.task_config).at s),
          )
        ],
      )
