-- ===== src/Pot/Run.antt =====
-- startContainer, destroyContainer and signalContainer of pot.go; Stdout and Stderr of prepare.go.
use nomad_pot_driver.Base.{
  Bool, true, false, Option, none, some, List, [], ◌∷◌, ◌++◌, ℤ, pos, negsuc, is_zero,
  if◌then◌else◌,
}
use nomad_pot_driver.Text.Split.{Text, codes, text_eq}
use nomad_pot_driver.Outcome.{
  ok, err, panic, Error, nil_dereference, Context, creating_stdout, creating_stderr, wrapped,
  start_exit_code,
}
use nomad_pot_driver.Types.{Syexec, NomadConfig, Writer, fifo, discard, Libs}
use nomad_pot_driver.Machine.{
  WaitStatus, exited, signaled, End, clean, exit_error, io_error, start_error, Ran, pot_run,
  pot_start, fifo_open, Host, Pot, Act, ◌>>=◌, ◌>>◌, with_se, pure, raise, modify,
}

-- ws.ExitStatus(), which is -1 for a process that a signal ended
abbrev pub exit_status : WaitStatus → ℤ
exit_status (exited n) = pos n
exit_status (signaled n) = negsuc 0

abbrev pub default_failed_code : ℤ
default_failed_code = pos 255

-- s.exitCode after `Run`
abbrev pub end_code : End → ℤ
end_code clean = exit_status (exited 0)
end_code (exit_error ws) = exit_status ws
end_code io_error = default_failed_code
end_code start_error = default_failed_code

-- cmd.Process after `Run`: nil if the process did not start
abbrev pub process_of : Ran → Option ℤ
process_of r = elim r.end [ start_error ↦ none | _ ↦ some r.pid ]

abbrev writers : Option Writer → List Writer
writers none = []
writers (some w) = w ∷ []

-- The writers that Close closes, in order; the `syexec` keeps them.
unfoldable pub close : Syexec → List Writer
close se = writers se.stdout ++ writers se.stderr

abbrev with_process : Option ℤ → Act Pot ℤ
with_process none s = (panic nil_dereference, s)
with_process (some pid) s = (ok pid, s)

module _ (lib : Libs) (host : Host) where
  open lib use {task_dir}

  -- exec.Command(potBIN, args...).Run() in the task's directory
  abbrev pub run_pot : List Text → NomadConfig → Act Pot Ran
  run_pot args cfg s = (ok answer, record s { log = pot_run args dir ∷ s.log })
    where
      dir : Text
      dir = (task_dir cfg).dir

      answer : Ran
      answer = host.run s.log args dir

  abbrev pub set_exit_code : ℤ → Act Pot (Unit {0})
  set_exit_code code = modify (λ s. record s { se = record s.se { exit_code = code } })

  -- s.cmd = cmd, and s.state from cmd.Process.Pid
  abbrev pub set_state : List Text → NomadConfig → Option ℤ → Act Pot (Unit {0})
  set_state args cfg process = do
    modify λ s. record s {
      se = record s.se {
        cmd = some (record { args = args; dir = (task_dir cfg).dir; process = process });
      };
    }
    pid ← with_process process
    modify λ s. record s {
      se = record s.se {
        state = some (record { pid = pid; exit_code = s.se.exit_code; time = host.now s.log });
      };
    }

  abbrev opened : Context → Text → Option Error → Act Pot Writer
  opened context path none = pure (fifo path)
  opened context path (some e) = raise (wrapped context e)

  open_writer : Context → Text → Act Pot Writer
  open_writer context path s =
      if text_eq path (codes "")
      then (ok discard, s)
      else opened context path (host.fifo_error s.log path)
          (record s { log = fifo_open path ∷ s.log })

  -- a writer that is there already is kept
  abbrev or_open : Option Writer → Context → Text → Act Pot Writer
  or_open (some w) context path = pure w
  or_open none context path = open_writer context path

  unfoldable pub open_stdout : Act Pot Writer
  unfolding open_writer
  open_stdout = with_se λ se. do
    w ← or_open se.stdout creating_stdout se.cfg.stdout_path
    modify (λ t. record t { se = record t.se { stdout = some w } })
    pure w

  unfoldable pub open_stderr : Act Pot Writer
  unfolding open_writer
  open_stderr = with_se λ se. do
    w ← or_open se.stderr creating_stderr se.cfg.stderr_path
    modify (λ t. record t { se = record t.se { stderr = some w } })
    pure w

  -- cmd.Start(), whose error is ignored: cmd.Process stays nil then
  abbrev pub start_pot : List Text → NomadConfig → Act Pot (Option ℤ)
  start_pot args cfg s =
      let dir = (task_dir cfg).dir in
      (ok (host.start s.log args dir), record s { log = pot_start args dir ∷ s.log })

  abbrev pub check_exit_code : Act Pot (Unit {0})
  check_exit_code s =
      if is_zero s.se.exit_code then (ok tt, s) else (err (start_exit_code s.se.exit_code), s)

  unfoldable pub start_container : NomadConfig → Act Pot (Unit {0})
  unfolding open_stdout open_stderr
  start_container cfg = with_se λ se. do
    _ ← open_stdout
    _ ← open_stderr
    process ← start_pot se.argv_start cfg
    set_state se.argv_start cfg process
    check_exit_code

  unfoldable pub destroy_now : NomadConfig → Act Pot (Unit {0})
  destroy_now cfg = with_se λ se. do
    let args = se.argv_destroy ++ codes "-F" ∷ []
    modify (λ t. record t { se = record t.se { argv_destroy = args } })
    r ← run_pot args cfg
    set_exit_code (end_code r.end)
    set_state args cfg (process_of r)

  -- `calledDestroy` is a flag of the caller's, or nil; its new value is the result.
  unfoldable pub destroy_container : NomadConfig → Option Bool → Act Pot (Option Bool)
  unfolding destroy_now
  destroy_container cfg (some true) = pure (some true)
  destroy_container cfg (some false) = do destroy_now cfg; pure (some true)
  destroy_container cfg none = do destroy_now cfg; pure none

  unfoldable pub signal_container : NomadConfig → Act Pot (Unit {0})
  signal_container cfg = with_se λ se. do
    r ← run_pot se.argv_signal cfg
    set_exit_code (end_code r.end)
    set_state se.argv_signal cfg (process_of r)
