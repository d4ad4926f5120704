-- ===== src/Pot/Query.antt =====
-- checkContainerAlive, checkContainerExists, getContainerLastRunStats, containerStats and
-- execInContainer of pot.go.
pub mod Pids
use nomad_pot_driver.Base.{Option, none, some, List, ◌++◌, ℤ, pos, is_zero, if◌then◌else◌}
use nomad_pot_driver.Text.Split.{Text, codes, text_eq}
use nomad_pot_driver.Text.Trim.{trim_space}
use nomad_pot_driver.Text.Decimal.{atoi}
use nomad_pot_driver.Outcome.{err, Error, exec_error, pot_exit_code, bad_json}
use nomad_pot_driver.Types.{NomadConfig, PotStats, Libs}
use nomad_pot_driver.Prepare.Commands.{container_name}
use nomad_pot_driver.Machine.{
  exit_error, start_error, Ran, Host, Pot, Act, ◌>>=◌, ◌>>◌, with_se, pure, raise, lift,
}
use nomad_pot_driver.Pot.Run.{end_code, process_of, run_pot, set_exit_code, set_state}
use nomad_pot_driver.Pot.Create.{run_shell}

-- /bin/pgrep -f '/bin/sh /usr/local/bin/pot start NAME'
unfoldable pub alive_command : Text → Text
alive_command name =
    codes "/bin/pgrep -f '" ++ (codes "/bin/sh /usr/local/bin/pot start " ++ name) ++ codes "'"

unfoldable pub exists_command : Text → Text
exists_command name = codes "/usr/local/bin/pot ls -q | grep " ++ name

-- the process id that pgrep printed, or 0
unfoldable pub read_pid : Text → ℤ
read_pid out = elim (atoi (trim_space out)) [ none ↦ pos 0 | some pid ↦ pid ]

unfoldable pub pid_of : Ran → ℤ
unfolding read_pid
pid_of r = elim r.end [ exit_error ws ↦ pos 0 | _ ↦ read_pid r.out ]

unfoldable pub listed : Text → Ran → ℤ
listed name r = elim r.end [
  | exit_error ws ↦ pos 0
  | _ ↦ if text_eq (trim_space r.out) name then pos 1 else pos 0
]

-- The result and the error of execInContainer's caller.
pub record ExecResult : Type 0 where
  pub stdout : Text
  pub stderr : Text
  pub exit_code : ℤ

module _ (lib : Libs) (host : Host) where
  open lib use {unmarshal_last_run, unmarshal_stats, kept}

  unfoldable pub check_container_alive : NomadConfig → Act Pot ℤ
  unfolding alive_command pid_of
  check_container_alive cfg = do
    name ← lift (container_name cfg.id)
    r ← run_shell lib host (alive_command name)
    pure (pid_of r)

  unfoldable pub check_container_exists : NomadConfig → Act Pot ℤ
  unfolding exists_command listed
  check_container_exists cfg = do
    name ← lift (container_name cfg.id)
    r ← run_shell lib host (exists_command name)
    pure (listed name r)

  abbrev pub decoded {ℓ} : {A : Type ℓ} → Option A → Act Pot A
  decoded none = raise bad_json
  decoded (some a) = pure a

  -- a command that must end with code 0 and print JSON
  abbrev read_json {ℓ} : {A : Type ℓ} → List Text → NomadConfig → (Text → Option A) → Act Pot A
  read_json args cfg unmarshal = do
    r ← run_pot lib host args cfg
    set_exit_code lib host (end_code r.end)
    set_state lib host args cfg (process_of r)
    λ s. if is_zero s.se.exit_code then decoded (unmarshal r.out) s else (err pot_exit_code, s)

  unfoldable pub get_container_last_run_stats : NomadConfig → Act Pot ℤ
  get_container_last_run_stats cfg =
      with_se λ se. read_json se.argv_last_run_stats cfg unmarshal_last_run

  unfoldable pub container_stats : NomadConfig → Act Pot PotStats
  container_stats cfg = with_se λ se. read_json se.argv_stats cfg unmarshal_stats

  abbrev piped : Option Error → Act Pot (Unit {0})
  piped none = pure tt
  piped (some e) = raise e

  abbrev exec_done : Ran → Act Pot ExecResult
  exec_done r = elim r.end [
    | start_error ↦ raise exec_error
    | _ ↦ do
      set_exit_code lib host (end_code r.end)
      pure (record { stdout = kept r.out; stderr = kept r.err_out; exit_code = end_code r.end })
  ]

  unfoldable pub exec_in_container : NomadConfig → Act Pot ExecResult
  exec_in_container cfg s =
      (do piped (host.pipe_error s.log); r ← run_pot lib host s.se.argv_exec cfg; exec_done r) s
