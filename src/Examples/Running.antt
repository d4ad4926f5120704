-- ===== src/Examples/Running.antt =====
-- A running task that is watched, and commands in its container.
use nomad_pot_driver.Base.{pos, ◌≡◌, refl, true, false, none, some, [], ◌∷◌, ◌++◌}
use nomad_pot_driver.Text.Split.{codes, text_eq, split}
use nomad_pot_driver.Outcome.{ok}
use nomad_pot_driver.Machine.{exited, pot_start}
use nomad_pot_driver.Prepare.Commands.{container_name}
use nomad_pot_driver.Exec.Result.{unix_state, cmd_exit_result}
use nomad_pot_driver.Exec.Stream.{exit_result}
use nomad_pot_driver.Exec.Session.{ended, new_session, rounds, first}
use nomad_pot_driver.Store.{get}
use nomad_pot_driver.Handle.{new_exit_result}
use nomad_pot_driver.Driver.State.{Driver}
use nomad_pot_driver.Driver.Watch.{Channel}
use nomad_pot_driver.Driver.Stats.{Usage, timer, stopped, handle_stats}
use nomad_pot_driver.Driver.Wait.Returns.{CanStart}
use nomad_pot_driver.Driver.Stats.Closes.{handle_stats_closes}
use nomad_pot_driver.Driver.Stats.Frame.{unmonitored, handle_stats-unmonitored}
use nomad_pot_driver.Driver.Streaming.{Course, exec_task_streaming_raw}
use nomad_pot_driver.Driver.Streaming.Session.{exec_task_streaming_raw_lem}
use nomad_pot_driver.Examples.Data.{libs, good_host, handle, driver}
use nomad_pot_driver.Examples.Streams.{peer, script}

abbrev idle : Driver
idle = driver (some new_exit_result)

abbrev channel : Channel Usage
channel = record { sent = []; closed = false }

handle_stats-unmonitored_example :
    unmonitored 0 (handle_stats libs good_host 0 (timer true ∷ stopped ∷ []) channel idle).1
    ≡ unmonitored 0 idle
handle_stats-unmonitored_example =
    handle_stats-unmonitored libs good_host 0 (timer true ∷ stopped ∷ []) channel idle

abbrev course : Course
course = record {
  open_error = none;
  start_error = none;
  rounds = script;
  process_state = some (unix_state (exited 3));
  wait_error = none;
}

exec_task_streaming_raw_lem_example :
    let s = rounds peer script (new_session false) in
    let code = cmd_exit_result (some (unix_state (exited 3))) none in
    exec_task_streaming_raw libs peer
      (codes "a1/web/j2")
      (codes "ps" ∷ codes "ax" ∷ [])
      false
      course
      idle
    ≡ (
      ok (ended (first s.errors) (record s { sent = s.sent ++ exit_result code ∷ [] })),
      record idle {
        log =
            pot_start
              (codes "exec" ∷ codes "-p" ∷ codes "web_j2_a1" ∷ codes "ps" ∷ codes "ax" ∷ [])
              (codes "/alloc/web")
            ∷ [];
      },
    )
unfolding get text_eq container_name codes split
exec_task_streaming_raw_lem_example =
    exec_task_streaming_raw_lem libs peer (λ sent m. refl) (codes "a1/web/j2") (codes "ps")
      (codes "web_j2_a1") (codes "ax" ∷ []) false course idle 0 (handle (some new_exit_result)) refl
      refl refl refl refl

abbrev can_start : CanStart good_host
can_start = record { at = λ log args dir. (pos 7, refl) }

handle_stats_closes_example :
    (ch' : Channel Usage) × (d' : Driver) × (handle_stats libs good_host 0
        (timer true ∷ stopped ∷ [])
        channel
        idle
      ≡ (ok ch', d'))
    × (ch'.closed ≡ true)
handle_stats_closes_example =
    handle_stats_closes libs good_host can_start 0 (timer true ∷ stopped ∷ []) channel idle
      (handle (some new_exit_result)) refl refl
