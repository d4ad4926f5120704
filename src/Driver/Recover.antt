-- ===== src/Driver/Recover.antt =====
-- RecoverTask of driver.go.
pub mod Cases
pub mod Gone
use nomad_pot_driver.Base.{ℕ, false, Option, none, some, [], ◌∷◌, ℤ, is_zero, if◌then◌else◌}
use nomad_pot_driver.Text.Split.{Text, codes}
use nomad_pot_driver.Outcome.{
  ok, panic, nil_dereference, system, wrapped, decoding_state, setting_state, not_recoverable,
}
use nomad_pot_driver.Types.{
  NomadConfig, TaskConfig, new_task_config, TaskState, TaskHandle, Syexec, Libs,
}
use nomad_pot_driver.Prepare.Container.{prepare_container}
use nomad_pot_driver.Prepare.Commands.{container_name}
use nomad_pot_driver.Machine.{Host, Act, ◌>>=◌, ◌>>◌, pure, raise, lift, gets, modify}
use nomad_pot_driver.Pot.Run.{open_stdout, open_stderr, destroy_container}
use nomad_pot_driver.Pot.Query.{check_container_alive}
use nomad_pot_driver.Store.{get, put, delete}
use nomad_pot_driver.Handle.{Handle, new_exit_result, running}
use nomad_pot_driver.Driver.State.{Ref, recover_wait, Driver, call, spawn, allocate}
use nomad_pot_driver.Driver.Start.{given}

module _ (lib : Libs) (host : Host) where
  open lib use {task_dir, decode_driver_config, encode_state, decode_state}

  abbrev pub state_of : Option TaskState → Act Driver TaskState
  state_of none = raise (wrapped decoding_state (system []))
  state_of (some state) = pure state

  -- SetDriverState, whose error is only logged: it leaves the handle as it is
  abbrev pub kept_state : TaskHandle → Option Text → TaskHandle
  kept_state handle none = handle
  kept_state handle (some bytes) = record handle { driver_state = bytes }

  -- a method of a nil *drivers.TaskConfig
  abbrev pub config_of : Option NomadConfig → Act Driver NomadConfig
  config_of none d = (panic nil_dereference, d)
  config_of (some cfg) d = (ok cfg, d)

  -- DecodeDriverConfig, whose error is only logged
  abbrev pub task_of : Option TaskConfig → TaskConfig
  task_of none = new_task_config
  task_of (some task) = task

  -- the `syexec` of a container that runs with this process id
  unfoldable pub reattach : NomadConfig → ℤ → Syexec → Act Driver Syexec
  reattach cfg alive se = do
    name ← lift (container_name cfg.id)
    (_, se') ← call (record se { container_pid = alive }) (open_stdout lib host)
    (_, se'') ← call se' (open_stderr lib host)
    pure (record se'' {
      cmd = some (record {
        args = codes "start" ∷ name ∷ [];
        dir = (task_dir cfg).shared_task_dir;
        process = some alive;
      });
    })

  abbrev pub recovered_handle : NomadConfig → Syexec → ℕ → Handle
  recovered_handle cfg se now = record {
    syexec = se;
    pid = se.container_pid;
    called_destroy = false;
    task_config = cfg;
    proc_state = running;
    started_at = now;
    completed_at = none;
    exit_result = some new_exit_result;
  }

  abbrev pub encoded : Option Text → TaskHandle → Syexec → Handle → Act Driver TaskHandle
  encoded (some bytes) handle se h = pure (record handle { driver_state = bytes })
  encoded none handle se h = do
    _ ← call se (destroy_container lib host handle.config (some h.called_destroy))
    raise (wrapped setting_state (system []))

  -- The handle enters the store under its own id, and the goroutine starts under the one given.
  unfoldable pub enroll : Text → Syexec → Handle → Act Driver (Unit {0})
  enroll id se h = do
    p ← allocate h
    modify (λ d. record d { tasks = put d.tasks h.task_config.id p })
    spawn (recover_wait id se)

  -- `old` is the configuration that the decoded state holds, and keys the task in the store.
  unfoldable pub reregister : TaskHandle → NomadConfig → TaskConfig → Syexec → Act Driver TaskHandle
  unfolding enroll
  reregister handle old task se = do
    now ← gets (λ d. host.now d.log)
    let h = recovered_handle old se now
    let state : TaskState = record {
      container_name = task.image;
      pid = se.container_pid;
      task_config = some handle.config;
      started_at = now;
    }
    handle' ← encoded (encode_state state) handle se h
    enroll handle.config.id se (record h {
      exit_result = some (record new_exit_result { exit_code = se.exit_code });
      completed_at = some now;
    })
    pure handle'

  unfoldable pub forget : NomadConfig → Act Driver Syexec
  forget cfg = do modify (λ d. record d { tasks = delete d.tasks cfg.id }); raise not_recoverable

  unfoldable pub recover_new : TaskHandle → Act Driver TaskHandle
  unfolding forget reattach reregister
  recover_new handle = do
    state ← state_of (decode_state handle.driver_state)
    let handle' = kept_state handle (encode_state state)
    old ← config_of state.task_config
    let task = task_of (decode_driver_config old)
    se ← lift (prepare_container lib handle.config task)
    (r, se') ← call se (check_container_alive lib host handle.config)
    alive ← given r
    se'' ← if is_zero alive then forget handle.config else reattach handle.config alive se'
    reregister handle' old task se''

  abbrev pub recover_unless : Option Ref → TaskHandle → Act Driver TaskHandle
  recover_unless (some p) handle = pure handle
  recover_unless none handle = recover_new handle

  -- The handle comes back as the caller sees it afterwards. A nil handle is dereferenced, for the
  -- log, before it is tested.
  unfoldable pub recover_task : Option TaskHandle → Act Driver TaskHandle
  unfolding recover_new
  recover_task none d = (panic nil_dereference, d)
  recover_task (some handle) d = recover_unless (get d.tasks handle.config.id) handle d
