-- ===== src/Exec/Session.antt =====
-- run, runTTY and runNoTTY of exec_utils.go: the goroutines in any order of their rounds.
pub mod Bounds
pub mod Output
pub mod Finish
pub mod Ends
use nomad_pot_driver.Base.{
  ℕ, zero, suc, Bool, true, false, ◌||◌, Option, none, some, List, [], ◌∷◌, ◌++◌, ◌⊎◌,
  if◌then◌else◌,
}
use nomad_pot_driver.Outcome.{
  Context, opening_tty, setting_tty, setting_io, starting_command, getting_pty,
}
use nomad_pot_driver.Exec.Result.{ProcessState, WaitError, cmd_exit_result}
use nomad_pot_driver.Exec.Stream.{
  IoError, Side, stdout, stderr, Message, exit_result, Read, Request, Session, Peer, handle_stdout,
  handle_stderr, handle_stdin, send_message,
}

-- A round of one of the three loops.
pub data Round : Type 0 where
  receive : IoError ⊎ Request → Round
  read : Side → Read → Round

-- The start of a session. With a terminal, stdout and stderr are one file, which one loop reads: the
-- loop of stderr is not there.
unfoldable pub new_session : Bool → Session
new_session tty = record {
  sent = [];
  errors = [];
  written = [];
  closed = 0;
  sizes = [];
  in_done = false;
  out_done = false;
  err_done = tty;
}

-- The errors of the callbacks of an execHelper, in the order of their calls: newTerminal and setTTY,
-- or setIO; then processStart; and with a terminal the function that newTerminal returned.
pub record Setup : Type 0 where
  pub terminal : Option IoError
  pub set_tty : Option IoError
  pub set_io : Option IoError
  pub start : Option IoError
  pub pty : Option IoError

-- A failed call-back ends the run before any loop has started.
pub data Run : Type 0 where
  refused : Context → IoError → Run
  ended : Option IoError → Session → Run

abbrev or_refuse : Option IoError → Context → Run → Run
or_refuse none context r = r
or_refuse (some e) context r = refused context e

-- The value of errCh that is received, if there is one.
abbrev pub first : List IoError → Option IoError
first [] = none
first (e ∷ es) = some e

module _ (peer : Peer) where
  -- A loop that has ended takes no more rounds.
  unfoldable pub step : Round → Session → Session
  step (receive m) s = if s.in_done then s else handle_stdin peer m s
  step (read stdout r) s = if s.out_done then s else handle_stdout peer r s
  step (read stderr r) s = if s.err_done then s else handle_stderr peer r s

  unfoldable pub rounds : List Round → Session → Session
  rounds [] s = s
  rounds (r ∷ rs) s = rounds rs (step r s)

  -- The exit result goes last, whether the stream takes it or not; an error in errCh is returned.
  unfoldable pub finish :
      Option ProcessState → Option WaitError → Session → Option IoError × Session
  finish ps err s =
      let (_, s') = send_message peer (exit_result (cmd_exit_result ps err)) s in
      (first s'.errors, s')

  abbrev ended_with : Option IoError × Session → Run
  ended_with (e, s) = ended e s

  -- The rounds are those up to the end of `wg.Wait()`.
  unfoldable pub run_tty : Setup → List Round → Option ProcessState → Option WaitError → Run
  unfolding finish
  run_tty setup rs ps err = or_refuse setup.terminal opening_tty (
      or_refuse setup.set_tty setting_tty (
        or_refuse setup.start starting_command (
          or_refuse setup.pty getting_pty
            (ended_with (finish ps err (rounds rs (new_session true)))))))

  unfoldable pub run_no_tty : Setup → List Round → Option ProcessState → Option WaitError → Run
  unfolding finish
  run_no_tty setup rs ps err = or_refuse setup.set_io setting_io (
      or_refuse setup.start starting_command
        (ended_with (finish ps err (rounds rs (new_session false)))))

  unfoldable pub run : Setup → Bool → List Round → Option ProcessState → Option WaitError → Run
  unfolding run_tty run_no_tty
  run setup tty rs ps err = if tty then run_tty setup rs ps err else run_no_tty setup rs ps err
