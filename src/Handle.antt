-- ===== src/Handle.antt =====
-- handle.go: a task's handle, shared by the driver and its goroutines.
use nomad_pot_driver.Base.{
  ℕ, ◌*◌, ◌^◌, Bool, true, false, Option, none, some, List, [], ◌∷◌, ℤ, pos,
}
use nomad_pot_driver.Text.Split.{Text, codes}
use nomad_pot_driver.Text.Decimal.{itoa}
use nomad_pot_driver.Outcome.{
  Outcome, ok, err, panic, Error, wrapped, killing_process, finished_with, nil_dereference,
}
use nomad_pot_driver.Types.{NomadConfig, Syexec, Cmd}

-- drivers.TaskState
pub data ProcState : Type 0 where
  running done unknown : ProcState

pub record ExitResult : Type 0 where
  pub exit_code : ℤ
  pub signal : ℤ
  pub oom_killed : Bool
  pub error : Option Error

-- &drivers.ExitResult{}
abbrev pub new_exit_result : ExitResult
new_exit_result = record { exit_code = pos 0; signal = pos 0; oom_killed = false; error = none }

-- Times are those of the host's clock; none is the zero time.
pub record Handle : Type 0 where
  pub syexec : Syexec
  pub pid : ℤ
  pub called_destroy : Bool
  pub task_config : NomadConfig
  pub proc_state : ProcState
  pub started_at : ℕ
  pub completed_at : Option ℕ
  pub exit_result : Option ExitResult

pub record TaskStatus : Type 0 where
  pub id : Text
  pub name : Text
  pub state : ProcState
  pub started_at : ℕ
  pub completed_at : Option ℕ
  pub exit_result : Option ExitResult
  pub driver_attributes : List (Text × Text)

unfoldable pub task_status : Handle → TaskStatus
task_status h = record {
  id = h.task_config.id;
  name = h.task_config.name;
  state = h.proc_state;
  started_at = h.started_at;
  completed_at = h.completed_at;
  exit_result = h.exit_result;
  driver_attributes = (codes "pid", itoa h.pid) ∷ [];
}

abbrev pub is_running_state : ProcState → Bool
is_running_state running = true
is_running_state _ = false

unfoldable pub is_running : Handle → Bool
is_running h = is_running_state h.proc_state

abbrev or_new : Option ExitResult → ExitResult
or_new none = new_exit_result
or_new (some r) = r

abbrev ran_with : Option Error → ℕ → Handle → Handle
ran_with none now h = record h {
  proc_state = running;
  exit_result =
      some (record (or_new h.exit_result) { exit_code = h.syexec.exit_code; signal = pos 0 });
  completed_at = some now;
}
ran_with (some e) now h = record h {
  exit_result =
      some (record (or_new h.exit_result) { error = some e; exit_code = h.syexec.exit_code });
  proc_state = unknown;
  completed_at = some now;
}

-- `run`, at a time of the clock
unfoldable pub run : ℕ → Handle → Handle
run now h = ran_with h.syexec.exit_error now h

-- What `shutdown` receives first: the timer, and then the error of Kill, or the result of Wait.
pub data First : Type 0 where
  timed_out : Option Error → First
  process_done : Option Error → First

-- fixTimeOut * time.Second, in nanoseconds, where fixTimeOut is 5 * time.Second already
unfoldable pub fix_time_out : ℕ
fix_time_out = 5 * 10 ^ 9 * 10 ^ 9

abbrev shut : First → Outcome (Unit {0})
shut (timed_out none) = ok tt
shut (timed_out (some e)) = err (wrapped killing_process e)
shut (process_done none) = ok tt
shut (process_done (some e)) = err (wrapped finished_with e)

abbrev shut_cmd : Option Cmd → First → Outcome (Unit {0})
shut_cmd none first = panic nil_dereference
shut_cmd (some cmd) first = shut first

-- The parameter `timeout` is not used.
unfoldable pub shutdown : ℕ → First → Handle → Outcome (Unit {0}) × Handle
shutdown timeout first h = (shut_cmd h.syexec.cmd first, record h { proc_state = done })
