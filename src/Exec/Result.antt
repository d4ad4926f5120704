-- ===== src/Exec/Result.antt =====
-- cmdExitResult of exec_utils.go.
use nomad_pot_driver.Base.{
  ◌+◌, ◌%◌, ◌-◌, ◌^◌, Option, none, some, ℤ, pos, negsuc, ltb, if◌then◌else◌,
}
use nomad_pot_driver.Machine.{WaitStatus, exited, signaled}

-- os.ProcessState, whose Sys() is a syscall.WaitStatus or a value of another type
pub data ProcessState : Type 0 where
  unix_state : WaitStatus → ProcessState
  other_state : ProcessState

-- The error of `Wait`: an *exec.ExitError with its ProcessState, or another
pub data WaitError : Type 0 where
  exit_error : Option ProcessState → WaitError
  other : WaitError

-- int32(n)
unfoldable pub int32 : ℤ → ℤ
int32 (pos n) = let m = n % 2 ^ 32 in if ltb m (2 ^ 31) then pos m else negsuc (2 ^ 32 - 1 - m)
int32 (negsuc n) = let m = n % 2 ^ 32 in if ltb m (2 ^ 31) then negsuc m else pos (2 ^ 32 - 1 - m)

-- status.ExitStatus() of a process that has exited, and 128 plus the signal of one that was killed
abbrev status_code : WaitStatus → ℤ
status_code (exited n) = pos n
status_code (signaled n) = pos (128 + n)

abbrev process_code : Option ProcessState → ℤ
process_code none = negsuc 1
process_code (some other_state) = negsuc 0
process_code (some (unix_state ws)) = status_code ws

-- the process state of the error stands in for one that is nil
abbrev known_state : Option ProcessState → Option WaitError → Option ProcessState
known_state (some ps) err = some ps
known_state none (some (exit_error ps)) = ps
known_state none _ = none

-- The exit code that cmdExitResult reports.
unfoldable pub cmd_exit_result : Option ProcessState → Option WaitError → ℤ
unfolding int32
cmd_exit_result ps err = int32 (process_code (known_state ps err))
