-- ===== src/Driver/Streaming.antt =====
-- ExecTaskStreamingRaw of driver.go and execStreaming of pot.go: a command in a task's container
-- whose streams are the client's.
pub mod Session
use nomad_pot_driver.Base.{Bool, true, false, Option, none, some, List, [], ◌∷◌, if◌then◌else◌}
use nomad_pot_driver.Text.Split.{Text}
use nomad_pot_driver.Outcome.{preparing_command, empty_command}
use nomad_pot_driver.Types.{NomadConfig, Syexec, Libs}
use nomad_pot_driver.Prepare.Commands.{prepare_exec}
use nomad_pot_driver.Machine.{pot_start, Act, ◌>>=◌, ◌>>◌, pure, raise, modify}
use nomad_pot_driver.Exec.Result.{ProcessState, WaitError}
use nomad_pot_driver.Exec.Stream.{IoError, Peer}
use nomad_pot_driver.Exec.Session.{Round, Setup, Run, run}
use nomad_pot_driver.Driver.State.{Driver, load, find_task}
use nomad_pot_driver.Driver.Tasks.{in_context, result_of}

-- What the operating system does in the course of a session: the errors of pty.Open and of
-- cmd.Start, the rounds of the loops, and what cmd.Wait leaves.
pub record Course : Type 0 where
  pub open_error : Option IoError
  pub start_error : Option IoError
  pub rounds : List Round
  pub process_state : Option ProcessState
  pub wait_error : Option WaitError

-- The call-backs: setTTY and setIO set fields of the command, and the function that newTerminal
-- returns gives the pty that is open already.
abbrev pub callbacks : Course → Setup
callbacks c = record {
  terminal = c.open_error;
  set_tty = none;
  set_io = none;
  start = c.start_error;
  pty = none;
}

-- cmd.Start is not reached where a terminal is wanted and cannot be opened.
abbrev pub is_started : Bool → Option IoError → Bool
is_started true (some e) = false
is_started _ _ = true

module _ (lib : Libs) (peer : Peer) where
  unfoldable pub exec_streaming : NomadConfig → Bool → Course → Syexec → Act Driver Run
  exec_streaming cfg tty c se = do
    let call = pot_start se.argv_exec (lib.task_dir cfg).dir
    modify (λ d. record d { log = if is_started tty c.open_error then call ∷ d.log else d.log })
    pure (run peer (callbacks c) tty c.rounds c.process_state c.wait_error)

  unfoldable pub exec_task_streaming_raw : Text → List Text → Bool → Course → Act Driver Run
  unfolding exec_streaming
  exec_task_streaming_raw id [] tty c = do _ ← find_task id; raise empty_command
  exec_task_streaming_raw id (program ∷ args) tty c = do
    p ← find_task id
    h ← load (some p)
    prepared ← result_of (prepare_exec lib h.task_config (program ∷ args))
    se ← in_context preparing_command prepared
    exec_streaming h.task_config tty c se
