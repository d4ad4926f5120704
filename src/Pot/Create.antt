-- ===== src/Pot/Create.antt =====
-- createContainer of pot.go.
pub mod Order
use nomad_pot_driver.Base.{List, [], ◌∷◌, ◌++◌, is_zero, if◌then◌else◌}
use nomad_pot_driver.Text.Split.{Text, codes}
use nomad_pot_driver.Outcome.{
  ok, err, Context, setting_env, setting_hosts, setting_memory, wrapped, exec_error, output,
}
use nomad_pot_driver.Types.{NomadConfig, Syexec, Libs}
use nomad_pot_driver.Prepare.Container.{pot_bin}
use nomad_pot_driver.Machine.{
  clean, exit_error, Ran, shell, Host, Pot, Act, ◌>>=◌, ◌>>◌, with_se, pure, raise,
}
use nomad_pot_driver.Pot.Run.{end_code, process_of, run_pot, set_exit_code, set_state}

module _ (lib : Libs) (host : Host) where
  open lib use {quote}

  -- exec.Command("sh", "-c", command).Output()
  abbrev pub run_shell : Text → Act Pot Ran
  run_shell command s =
      (ok (host.shell_output s.log command), record s { log = shell command ∷ s.log })

  -- An exit code of a command other than 0 ends the creation with what the command printed; where
  -- the command could not be run the loop goes on.
  abbrev pub checked : Ran → Act Pot (Unit {0})
  checked r = elim r.end [ exit_error ws ↦ raise (output r.out) | _ ↦ pure tt ]

  -- the loops over argvAttributes, argvCopy, argvMount and argvMountReadOnly
  unfoldable pub shell_each : List Text → Act Pot (Unit {0})
  shell_each [] = pure tt
  shell_each (command ∷ commands) = do
    r ← run_shell (quote pot_bin ++ codes " " ++ command)
    checked r
    shell_each commands

  abbrev pub checked_all : Context → Ran → Act Pot (Unit {0})
  checked_all context r = elim r.end [ clean ↦ pure tt | _ ↦ raise (wrapped context exec_error) ]

  -- the steps that set the environment, the hosts file and the memory limit
  unfoldable pub shell_step : Context → Text → Act Pot (Unit {0})
  shell_step context command = do r ← run_shell command; checked_all context r

  abbrev pub created : Ran → Act Pot (Unit {0})
  created r s = if is_zero s.se.exit_code then (ok tt, s) else (err exec_error, s)

  unfoldable pub create_pot : NomadConfig → Syexec → Act Pot (Unit {0})
  create_pot cfg se = do
    r ← run_pot lib host se.argv_create cfg
    set_exit_code lib host (end_code r.end)
    created r
    set_state lib host se.argv_create cfg (process_of r)

  unfoldable pub create_container : NomadConfig → Act Pot (Unit {0})
  unfolding create_pot
  create_container cfg = with_se λ se. do
    create_pot cfg se
    shell_each se.argv_attributes
    shell_each se.argv_copy
    shell_each se.argv_mount
    shell_each se.argv_mount_read_only
    shell_step setting_env se.argv_env
    shell_step setting_hosts se.argv_extra_hosts
    shell_step setting_memory se.argv_mem
