-- ===== src/Driver/Streaming/Session.antt =====
-- What a session on a task's container does as a whole.
use nomad_pot_driver.Base.{◌≡◌, refl, Bool, true, false, none, some, List, [], ◌∷◌, ◌++◌, get_elem?}
use nomad_pot_driver.Text.Split.{Text, codes}
use nomad_pot_driver.Outcome.{ok}
use nomad_pot_driver.Types.{Libs}
use nomad_pot_driver.Prepare.Commands.{container_name, prepare_exec}
use nomad_pot_driver.Machine.{pot_start}
use nomad_pot_driver.Exec.Result.{cmd_exit_result}
use nomad_pot_driver.Exec.Stream.{Message, exit_result, Peer}
use nomad_pot_driver.Exec.Session.{ended, new_session, rounds, first}
use nomad_pot_driver.Exec.Session.Finish.{run-exit_result}
use nomad_pot_driver.Store.{get}
use nomad_pot_driver.Handle.{Handle}
use nomad_pot_driver.Driver.State.{Ref, Driver}
use nomad_pot_driver.Driver.Streaming.{Course, callbacks, is_started, exec_task_streaming_raw}

is_started-none : (tty : Bool) → is_started tty none ≡ true
is_started-none true = refl
is_started-none false = refl

module _ (lib : Libs) (peer : Peer)
    (sends : (ms : List Message) (m : Message) → peer.send ms m ≡ none) where
  -- If the task is known, its container has a name, the terminal and the command start, and the
  -- client's stream takes every message, ExecTaskStreamingRaw starts one process, `pot exec` on
  -- the task's container with the command of the caller, in the task's directory. The client
  -- receives what the loops send and, as the last message, the exit result.
  pub exec_task_streaming_raw_lem :
      (id program name : Text) (args : List Text) (tty : Bool) (c : Course) (d : Driver) (p : Ref)
      (h : Handle)
      → get d.tasks id ≡ some p
      → get_elem? d.handles p ≡ some h
      → container_name h.task_config.id ≡ ok name
      → c.open_error ≡ none
      → c.start_error ≡ none
      → let s = rounds peer c.rounds (new_session tty) in
        let code = cmd_exit_result c.process_state c.wait_error in
        exec_task_streaming_raw lib peer id (program ∷ args) tty c d ≡ (
          ok (ended (first s.errors) (record s { sent = s.sent ++ exit_result code ∷ [] })),
          record d {
            log =
                pot_start
                  (codes "exec" ∷ codes "-p" ∷ name ∷ program ∷ args)
                  (lib.task_dir h.task_config).dir
                ∷ d.log;
          },
        )
  unfolding exec_task_streaming_raw prepare_exec
  exec_task_streaming_raw_lem id program name args tty c d p h known is_h named opened started =
      let finished =
        run-exit_result peer sends (callbacks c) tty c.rounds c.process_state c.wait_error opened
          refl refl started refl in
      rw (known, is_h, named, finished, opened, is_started-none tty) refl
