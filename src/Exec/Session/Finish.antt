-- ===== src/Exec/Session/Finish.antt =====
-- How a session ends.
use nomad_pot_driver.Base.{◌≡◌, Bool, true, false, Option, none, List, [], ◌∷◌, ◌++◌, arith}
use nomad_pot_driver.Exec.Result.{ProcessState, WaitError, cmd_exit_result}
use nomad_pot_driver.Exec.Stream.{Message, exit_result, Peer}
use nomad_pot_driver.Exec.Session.{Round, Setup, ended, new_session, rounds, first, run}

module _ (peer : Peer) (sends : (ms : List Message) (m : Message) → peer.send ms m ≡ none) where
  -- The run where every call-back succeeds and the client's stream takes every message.
  pub run-exit_result :
      (setup : Setup) (tty : Bool) (rs : List Round) (ps : Option ProcessState)
      (err : Option WaitError)
      → setup.terminal ≡ none
      → setup.set_tty ≡ none
      → setup.set_io ≡ none
      → setup.start ≡ none
      → setup.pty ≡ none
      → let s = rounds peer rs (new_session tty) in
        run peer setup tty rs ps err
        ≡ ended
            (first s.errors)
            (record s { sent = s.sent ++ exit_result (cmd_exit_result ps err) ∷ [] })
  unfolding run
  run-exit_result setup true rs ps err a b c d e =
      ground (
        arith,
        sends (rounds peer rs (new_session true)).sent (exit_result (cmd_exit_result ps err)),
      )
  run-exit_result setup false rs ps err a b c d e = ground (
    arith,
    sends (rounds peer rs (new_session false)).sent (exit_result (cmd_exit_result ps err)),
  )
