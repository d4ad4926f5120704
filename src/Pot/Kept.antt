-- ===== src/Pot/Kept.antt =====
-- The arguments of `pot destroy` in the methods of pot.go other than destroyContainer.
use nomad_pot_driver.Base.{refl, Option, none, some, List, [], ◌∷◌, arith, ℤ}
use nomad_pot_driver.Text.Split.{Text}
use nomad_pot_driver.Outcome.{Context}
use nomad_pot_driver.Types.{NomadConfig, Syexec, Libs}
use nomad_pot_driver.Machine.{Host, Pot, Ran}
use nomad_pot_driver.Machine.Keeps.{Keeps, keeps_rules, Keeps-bind}
use nomad_pot_driver.Pot.Run.{
  run_pot, set_exit_code, set_state, open_stdout, open_stderr, start_pot, check_exit_code,
  start_container,
}
use nomad_pot_driver.Pot.Create.{
  run_shell, checked, checked_all, shell_each, shell_step, created, create_pot, create_container,
}
use nomad_pot_driver.Pot.Query.{get_container_last_run_stats, decoded, check_container_exists}

-- What names the container to destroy.
abbrev pub to_destroy : Pot → List Text
to_destroy s = s.se.argv_destroy

module _ (lib : Libs) (host : Host) where
  run_pot-kept :
      (args : List Text) (cfg : NomadConfig) → Keeps to_destroy (run_pot lib host args cfg)
  run_pot-kept args cfg = record { at = λ s. refl }

  set_exit_code-kept : (code : ℤ) → Keeps to_destroy (set_exit_code lib host code)
  set_exit_code-kept code = record { at = λ s. refl }

  set_state-kept :
      (args : List Text) (cfg : NomadConfig) (process : Option ℤ)
      → Keeps to_destroy (set_state lib host args cfg process)
  set_state-kept args cfg none = record { at = λ s. refl }
  set_state-kept args cfg (some pid) = record { at = λ s. refl }

  run_shell-kept : (command : Text) → Keeps to_destroy (run_shell lib host command)
  run_shell-kept command = record { at = λ s. refl }

  checked-kept : (r : Ran) → Keeps to_destroy (checked lib host r)
  checked-kept r = record { at = λ s. ground arith }

  checked_all-kept : (c : Context) (r : Ran) → Keeps to_destroy (checked_all lib host c r)
  checked_all-kept c r = record { at = λ s. ground arith }

  created-kept : (r : Ran) → Keeps to_destroy (created lib host r)
  created-kept r = record { at = λ s. ground arith }

  ruleset kept_rules = (
    keeps_rules, run_pot-kept, set_exit_code-kept, set_state-kept, run_shell-kept, checked-kept,
    checked_all-kept, created-kept,
  )

  shell_each-kept : (commands : List Text) → Keeps to_destroy (shell_each lib host commands)
  unfolding shell_each
  shell_each-kept [] = search keeps_rules
  shell_each-kept (command ∷ commands) =
      Keeps-bind _ _ (run_shell-kept _)
        λ r. Keeps-bind _ _ (checked-kept r) λ _. shell_each-kept commands

  shell_step-kept :
      (c : Context) (command : Text) → Keeps to_destroy (shell_step lib host c command)
  unfolding shell_step
  shell_step-kept c command = search (keeps_rules, run_shell-kept, checked_all-kept)

  create_pot-kept :
      (cfg : NomadConfig) (se : Syexec) → Keeps to_destroy (create_pot lib host cfg se)
  unfolding create_pot
  create_pot-kept cfg se = search kept_rules

  open_stdout-kept : Keeps to_destroy (open_stdout lib host)
  unfolding open_stdout
  open_stdout-kept = record { at = λ s. ground arith }

  open_stderr-kept : Keeps to_destroy (open_stderr lib host)
  unfolding open_stderr
  open_stderr-kept = record { at = λ s. ground arith }

  pub create_container-kept : (cfg : NomadConfig) → Keeps to_destroy (create_container lib host cfg)
  unfolding create_container
  create_container-kept cfg =
      search (keeps_rules, create_pot-kept, shell_each-kept, shell_step-kept) depth 20

  start_pot-kept :
      (args : List Text) (cfg : NomadConfig) → Keeps to_destroy (start_pot lib host args cfg)
  start_pot-kept args cfg = record { at = λ s. refl }

  check_exit_code-kept : Keeps to_destroy (check_exit_code lib host)
  check_exit_code-kept = record { at = λ s. ground arith }

  pub start_container-kept : (cfg : NomadConfig) → Keeps to_destroy (start_container lib host cfg)
  unfolding start_container
  start_container-kept cfg =
      search (kept_rules, open_stdout-kept, open_stderr-kept, start_pot-kept, check_exit_code-kept)
        depth 20

  pub check_container_exists-kept :
      (cfg : NomadConfig) → Keeps to_destroy (check_container_exists lib host cfg)
  unfolding check_container_exists
  check_container_exists-kept cfg = search (keeps_rules, run_shell-kept)

  decoded-kept : (o : Option ℤ) → Keeps to_destroy (decoded lib host o)
  decoded-kept none = record { at = λ s. refl }
  decoded-kept (some n) = record { at = λ s. refl }

  pub get_container_last_run_stats-kept :
      (cfg : NomadConfig) → Keeps to_destroy (get_container_last_run_stats lib host cfg)
  unfolding get_container_last_run_stats
  get_container_last_run_stats-kept cfg = record { at = λ s. ground arith }
