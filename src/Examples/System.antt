-- ===== src/Examples/System.antt =====
-- The driver as a system.
use nomad_pot_driver.Base.{
  ℕ, get_elem?, pos, ◌≡◌, refl, true, false, Bool, Option, some, [], ◌∷◌, arith, Bool-cases, inl,
  inr,
}
use nomad_pot_driver.Text.Split.{Text, codes, text_eq, text_eq_iff, split, split_two}
use nomad_pot_driver.Outcome.{ok, panic, nil_dereference}
use nomad_pot_driver.Types.{TaskHandle, Syexec, new_syexec}
use nomad_pot_driver.Machine.{clean, exit_error, exited}
use nomad_pot_driver.Store.{get}
use nomad_pot_driver.Handle.{is_running, new_exit_result}
use nomad_pot_driver.Pot.Query.{check_container_alive, check_container_exists}
use nomad_pot_driver.Pot.Create.{create_container, create_pot, shell_each, shell_step}
use nomad_pot_driver.Pot.Run.{destroy_container, start_container, open_stdout, open_stderr}
use nomad_pot_driver.Prepare.Container.{prepare_container, each, copy_entry, mount_entry}
use nomad_pot_driver.Prepare.Commands.{container_name}
use nomad_pot_driver.Text.Decimal.{atoi}
use nomad_pot_driver.Text.Trim.{trim_space}
use nomad_pot_driver.Driver.State.{Driver, value, recover_wait}
use nomad_pot_driver.Driver.Plugin.{new_pot_driver}
use nomad_pot_driver.Driver.Start.{new_handle, start_task, start_new, launch, register, enlist}
use nomad_pot_driver.Driver.Wait.{destroy_handle, recover_tick}
use nomad_pot_driver.Driver.Tasks.{destroy_task}
use nomad_pot_driver.Driver.System.{perform, destroy, resume, start, next, here}
use nomad_pot_driver.Driver.System.Later.{IsValid}
use nomad_pot_driver.Driver.System.Invariant.{Reachable-IsValid, destroyed_once}
use nomad_pot_driver.Driver.System.Lost.{forced_destroy_panics}
use nomad_pot_driver.Driver.Wait.Returns.{CanStart}
use nomad_pot_driver.Driver.Wait.Codes.{finished}
use nomad_pot_driver.Driver.Wait.Recovered.{last_run_code}
use nomad_pot_driver.Driver.System.Recovery.{Leaves, recovered_ends, shutdown_ends}
use nomad_pot_driver.Driver.System.Rounds.{three_rounds}
use nomad_pot_driver.Driver.System.Lifecycle.{Exited, task_ends}
use nomad_pot_driver.Driver.System.Registry.{Allows, registry, perform-Allows}
use nomad_pot_driver.Examples.Data.{cfg, libs, good_host, handle, driver}

abbrev decode : Text → Option Bool
decode bytes = some true

abbrev plain : Syexec
plain = record (new_syexec cfg) {
  argv_destroy = codes "destroy" ∷ codes "-p" ∷ codes "web_j2_a1" ∷ [];
}

-- A driver whose only task waits in recoverWait.
abbrev waiting : Driver
waiting = record (driver (some new_exit_result)) { threads = recover_wait cfg.id plain ∷ [] }

waiting-IsValid : IsValid waiting
unfolding get
waiting-IsValid = record {
  at = λ id p e. elim (Bool-cases (text_eq cfg.id id)) [
    | inl same ↦ (handle (some new_exit_result), ground arith, (text_eq_iff cfg.id id).0 same)
    | inr other ↦ absurd (ground arith)
  ];
}

Reachable-IsValid_example : IsValid (perform libs good_host decode (start cfg) new_pot_driver).1
unfolding perform start_task start_new launch register enlist new_pot_driver get prepare_container
    check_container_alive check_container_exists create_container create_pot start_container
    open_stdout open_stderr text_eq codes split each copy_entry split_two mount_entry container_name
    atoi trim_space shell_each shell_step
Reachable-IsValid_example = Reachable-IsValid libs good_host decode (next (start cfg) tt here)

-- The container was destroyed, and then the task.
abbrev gone : Driver
gone = (destroy_handle libs good_host 0 plain waiting).1

destroyed_once_example :
    let d' = (perform libs good_host decode (destroy cfg.id true) gone).1 in
    destroy_handle libs good_host 0 plain d' ≡ (ok (value (some true)), d')
unfolding perform destroy_task get text_eq codes is_running destroy_handle destroy_container
destroyed_once_example =
    destroyed_once libs good_host decode waiting 0 plain plain refl
      (next (destroy cfg.id true) tt here)

forced_destroy_panics_example :
    let d' = (perform libs good_host decode (destroy cfg.id true) waiting).1 in
    (perform libs good_host decode (resume 0 clean false) d').0 ≡ panic nil_dereference
unfolding perform destroy_task recover_tick check_container_alive get text_eq codes container_name
    split atoi trim_space
forced_destroy_panics_example =
    forced_destroy_panics libs good_host decode cfg.id 0 plain plain clean false waiting
      waiting-IsValid refl refl refl

abbrev can_start : CanStart good_host
can_start = record { at = λ log args dir. (pos 7, refl) }

abbrev launched : Driver
launched = (start_task libs good_host cfg new_pot_driver).1

abbrev launched_handle : TaskHandle
launched_handle = record { version = 2; config = cfg; driver_state = codes "https://images" }

task_ends_example :
    (se : Syexec) × (now : ℕ) × (get_elem? launched.handles 0 ≡ some (new_handle cfg se now))
    × ((d₄ : Driver) × (three_rounds libs good_host decode 0 clean clean
            (exit_error (exited 125))
            false
            false
            false
            launched
          ≡ (ok tt, d₄))
        × Exited libs good_host cfg se (exit_error (exited 125)) launched.log d₄)
unfolding start_task start_new launch register enlist new_pot_driver get prepare_container
    check_container_alive check_container_exists create_container create_pot start_container
    open_stdout open_stderr text_eq codes split each copy_entry split_two mount_entry container_name
    atoi trim_space shell_each shell_step
task_ends_example =
    task_ends libs good_host decode cfg launched_handle (exit_error (exited 125)) clean clean false
      false false new_pot_driver launched can_start refl refl

recovered_ends_example :
    let tick = recover_tick libs good_host plain (record waiting { threads = [] }) in
    Leaves libs good_host decode 0 clean false waiting 0 (handle (some new_exit_result)) plain (
      finished libs good_host
        (handle (some new_exit_result))
        new_exit_result
        (last_run_code libs good_host (handle (some new_exit_result)) plain tick.1.log))
unfolding recover_tick check_container_alive get text_eq codes container_name split atoi trim_space
recovered_ends_example =
    recovered_ends libs good_host decode cfg.id 0 0 plain plain clean false waiting
      (handle (some new_exit_result)) new_exit_result can_start refl refl refl refl refl refl

abbrev down : Driver
down = record waiting { shut_down = true }

shutdown_ends_example :
    Leaves libs good_host decode 0 clean false down 0 (handle (some new_exit_result)) plain (
      finished libs good_host
        (handle (some new_exit_result))
        new_exit_result
        (last_run_code libs good_host (handle (some new_exit_result)) plain []))
unfolding get text_eq codes
shutdown_ends_example =
    shutdown_ends libs good_host decode cfg.id 0 0 plain clean down (handle (some new_exit_result))
      new_exit_result can_start refl refl refl refl refl

perform-Allows_example :
    let r = perform libs good_host decode (start cfg) new_pot_driver in
    Allows (start cfg) r.0 (registry new_pot_driver) (registry r.1)
perform-Allows_example = perform-Allows libs good_host decode (start cfg) new_pot_driver
