-- ===== src/Examples/Tasks.antt =====
-- The calls of Nomad on a driver.
use nomad_pot_driver.Base.{
  List, ℕ, ◌≡◌, refl, ◌⊎◌, true, false, not, ◌&&◌, none, some, [], ◌∷◌, ◌++◌, ℤ, pos, get_elem?,
  if◌then◌else◌,
}
use nomad_pot_driver.Text.Split.{Text, codes, text_eq, split}
use nomad_pot_driver.Outcome.{
  ok, err, panic, nil_dereference, running_task, already_started, wrapped_nil, creating_container,
  starting_container,
}
use nomad_pot_driver.Types.{Syexec, new_syexec, TaskHandle, Libs}
use nomad_pot_driver.Prepare.Commands.{prepare_destroy, container_name}
use nomad_pot_driver.Machine.{Host, exit_error, exited, io_error, pot_run}
use nomad_pot_driver.Machine.Keeps.{Fails}
use nomad_pot_driver.Pot.Run.{destroy_container}
use nomad_pot_driver.Pot.Create.{shell_each, create_container}
use nomad_pot_driver.Pot.Query.{get_container_last_run_stats}
use nomad_pot_driver.Store.{get, delete}
use nomad_pot_driver.Handle.{Handle, new_exit_result, is_running, done}
use nomad_pot_driver.Driver.State.{Driver, value}
use nomad_pot_driver.Driver.Start.{start_task, create_and_start}
use nomad_pot_driver.Driver.Start.Cases.{Adds, Unchanged, start_task_cases}
use nomad_pot_driver.Driver.Start.Abort.{Destroyed, create_or_start_fails}
use nomad_pot_driver.Driver.Recover.{recover_task}
use nomad_pot_driver.Driver.Recover.Cases.{Decides, recover_task_cases}
use nomad_pot_driver.Types.{TaskState}
use nomad_pot_driver.Driver.Wait.{destroy_handle, pot_wait_end}
use nomad_pot_driver.Driver.Wait.Destroy.{destroy_handle_again, destroy_handle_first}
use nomad_pot_driver.Driver.Wait.Codes.{finished, Destroys, pot_wait_end_lem}
use nomad_pot_driver.Driver.Wait.Races.{pot_wait_panics}
use nomad_pot_driver.Driver.Tasks.{stop_task, destroy_task}
use nomad_pot_driver.Driver.Tasks.Stop.{stop_twice}
use nomad_pot_driver.Driver.Tasks.Calls.{destroy_task_lem}
use nomad_pot_driver.Driver.Watch.{tick, receive, stopped, sending, new_watch, handle_wait}
use nomad_pot_driver.Driver.Watch.Blocked.{
  attended, results, left_with, handle_wait_lem, handle_wait_blocks,
}
use nomad_pot_driver.Examples.Data.{cfg, libs, good_host, bad_host, handle, driver}

abbrev known_id : Text
known_id = codes "a1/web/j2"

abbrev plain : Syexec
plain = record (new_syexec cfg) {
  argv_destroy = codes "destroy" ∷ codes "-p" ∷ codes "web_j2_a1" ∷ [];
}

abbrev idle : Driver
idle = driver (some new_exit_result)

start_task_cases_example :
    let r = start_task libs good_host cfg idle in
    ((p : ℕ) × (get idle.tasks cfg.id ≡ some p) × (r ≡ (err (already_started cfg.id), idle)))
    ⊎ ((get idle.tasks cfg.id ≡ none) × Adds cfg idle r)
    ⊎ ((get idle.tasks cfg.id ≡ none) × Fails r.0 × Unchanged idle r.1)
start_task_cases_example = start_task_cases libs good_host cfg idle

abbrev with_mount : Syexec
with_mount = record plain { argv_mount = codes "mount-in" ∷ [] }

create_or_start_fails_example :
    ((wrapped_nil creating_container ≡ wrapped_nil creating_container)
      ⊎ (wrapped_nil creating_container ≡ wrapped_nil starting_container))
    × Destroyed plain.argv_destroy (create_and_start libs bad_host cfg with_mount idle).1.log
unfolding create_and_start create_container destroy_container shell_each
create_or_start_fails_example =
    create_or_start_fails libs bad_host cfg with_mount false idle (wrapped_nil creating_container)
      refl

abbrev after_stop : Driver
after_stop = (stop_task libs good_host known_id idle).1

stop_twice_example : stop_task libs good_host known_id after_stop ≡ (ok tt, after_stop)
unfolding stop_task destroy_handle destroy_container prepare_destroy container_name get text_eq
    codes split
stop_twice_example = stop_twice libs good_host known_id idle after_stop refl

abbrev called : Handle
called = record (handle (some new_exit_result)) { called_destroy = true }

abbrev gone : Driver
gone = record idle { handles = called ∷ [] }

destroy_handle_again_example :
    destroy_handle libs good_host 0 plain gone ≡ (ok (value (some true)), gone)
destroy_handle_again_example = destroy_handle_again libs good_host 0 plain gone called refl refl

destroy_handle_first_example :
    ((pid : ℤ) × (some (pos 7) ≡ some pid)
      × (destroy_handle libs good_host 0 plain idle ≡ (
        ok (value (some true)),
        record idle {
          log = pot_run (plain.argv_destroy ++ codes "-F" ∷ []) (codes "/alloc/web") ∷ [];
          handles = called ∷ [];
        },
      )))
    ⊎ ((some (pos 7) ≡ none)
        × ((destroy_handle libs good_host 0 plain idle).0 ≡ panic nil_dereference))
destroy_handle_first_example =
    destroy_handle_first libs good_host 0 plain idle (handle (some new_exit_result)) refl refl

-- `pot start` ends with code 125, and the statistics of its last run give code 3.
abbrev ended_idle : Driver
ended_idle = (pot_wait_end libs good_host (some 0) plain (exit_error (exited 125)) idle).1

pot_wait_end_lem_example :
    (get_elem? ended_idle.handles 0
      ≡ some (finished libs good_host (handle (some new_exit_result)) new_exit_result (pos 3)))
    × Destroys libs good_host (handle (some new_exit_result)) plain ended_idle
unfolding pot_wait_end destroy_handle destroy_container get_container_last_run_stats
pot_wait_end_lem_example =
    pot_wait_end_lem libs good_host 0 plain (exit_error (exited 125)) idle ended_idle
      (handle (some new_exit_result)) new_exit_result refl refl refl

pot_wait_panics_example :
    (pot_wait_end libs good_host (some 0) plain io_error (driver none)).0 ≡ panic nil_dereference
pot_wait_panics_example =
    pot_wait_panics libs good_host 0 plain io_error (driver none) (handle none) refl refl (λ e. cc)

abbrev exited_handle : Handle
exited_handle = record called {
  proc_state = done;
  exit_result = some (record new_exit_result { exit_code = pos 3 });
}

destroy_task_lem_example :
    ((is_running (handle none) && not false ≡ true)
      × (destroy_task libs good_host known_id false (driver none)
          ≡ (err running_task, driver none)))
    ⊎ ((is_running (handle none) && not false ≡ false)
        × (destroy_task libs good_host known_id false (driver none)
            ≡ (ok tt, record (driver none) { tasks = delete (driver none).tasks known_id }))
        × ((j : Text)
            → get (delete (driver none).tasks known_id) j
              ≡ (if text_eq known_id j then none else get (driver none).tasks j)))
unfolding get text_eq codes
destroy_task_lem_example =
    destroy_task_lem libs good_host known_id false (driver none) 0 (handle none) refl refl

abbrev known_handle : TaskHandle
known_handle = record { version = 2; config = cfg; driver_state = [] }

-- The decoded state holds the configuration of the task, and a container runs.
abbrev recovering : Libs
recovering = record libs {
  decode_state = λ bytes. some (record {
    container_name = codes "nginx";
    pid = pos 42;
    task_config = some cfg;
    started_at = 5;
  });
}

abbrev alive_host : Host
alive_host = record good_host {
  shell_output = λ log command. record (good_host.shell_output log command) { out = codes "42" };
}

abbrev empty : Driver
empty = record idle { tasks = []; handles = [] }

recover_task_cases_example :
    let r = recover_task recovering alive_host (some known_handle) empty in
    ((p : ℕ) × (get empty.tasks cfg.id ≡ some p) × (r ≡ (ok known_handle, empty)))
    ⊎ ((get empty.tasks cfg.id ≡ none) × Decides recovering alive_host known_handle empty r)
recover_task_cases_example = recover_task_cases recovering alive_host known_handle empty

abbrev stored : TaskState
stored = record {
  container_name = codes "nginx";
  pid = pos 42;
  task_config = some cfg;
  started_at = 5;
}

-- The task ends between the first tick and the second.
abbrev seen : List Handle
seen = handle none ∷ exited_handle ∷ exited_handle ∷ []

handle_wait_lem_example :
    handle_wait (attended seen ++ stopped ∷ []) new_watch ≡ left_with (results seen)
handle_wait_lem_example = handle_wait_lem seen

handle_wait_blocks_example :
    handle_wait (tick exited_handle ∷ receive ∷ tick exited_handle ∷ stopped ∷ []) new_watch
    ≡ record {
      place = sending exited_handle.exit_result;
      channel = record { sent = exited_handle.exit_result ∷ []; closed = false };
    }
handle_wait_blocks_example =
    handle_wait_blocks exited_handle exited_handle (stopped ∷ []) refl refl refl
