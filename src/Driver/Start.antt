-- ===== src/Driver/Start.antt =====
-- StartTask of driver.go.
pub mod Frame
pub mod Cases
pub mod Abort
use nomad_pot_driver.Base.{
  ℕ, Bool, true, false, ◌≡◌, Option, none, some, List, [], ◌∷◌, ℤ, pos, is_zero, if◌then◌else◌,
}
use nomad_pot_driver.Text.Split.{Text, codes}
use nomad_pot_driver.Outcome.{
  Outcome, ok, err, panic, Error, Context, already_started, system, wrap, wrapped, decoding_config,
  creating_container, starting_container, setting_state,
}
use nomad_pot_driver.Types.{NomadConfig, TaskConfig, TaskState, TaskHandle, Cmd, Syexec, Libs}
use nomad_pot_driver.Prepare.Container.{prepare_container}
use nomad_pot_driver.Prepare.Commands.{container_name}
use nomad_pot_driver.Machine.{Host, Act, ◌>>=◌, ◌>>◌, pure, raise, lift, gets, modify}
use nomad_pot_driver.Pot.Run.{start_container, destroy_container}
use nomad_pot_driver.Pot.Create.{create_container}
use nomad_pot_driver.Pot.Query.{check_container_alive, check_container_exists}
use nomad_pot_driver.Store.{get, put}
use nomad_pot_driver.Handle.{Handle, running}
use nomad_pot_driver.Driver.State.{
  Ref, Thread, run_handle, pot_wait, Driver, Result, value, error, error_of, call, store, spawn,
  allocate,
}

abbrev pub task_handle_version : ℕ
task_handle_version = 2

-- What a method that returns no error gave.
abbrev pub given {ℓ} : {A : Type ℓ} → Result A → Act Driver A
given (value a) = pure a
given (error e) = raise e

-- if err != nil { failed }
abbrev pub unless_error {ℓ κ} :
    {A : Type ℓ} {B : Type κ} → Result A → Act Driver B → Act Driver B → Act Driver B
unless_error (value a) go failed = go
unless_error (error e) go failed = failed

abbrev pub decoded : Option TaskConfig → Act Driver TaskConfig
decoded none = raise (wrapped decoding_config (system []))
decoded (some task) = pure task

-- the container runs already, with this process id
unfoldable pub adopt : NomadConfig → ℤ → Syexec → Act Driver Syexec
adopt cfg alive se = do
  name ← lift (container_name cfg.id)
  pure (record se {
    container_pid = alive;
    cmd =
        some
          (record { args = codes "start" ∷ name ∷ []; dir = cfg.alloc_dir; process = some alive });
  })

abbrev pub new_handle : NomadConfig → Syexec → ℕ → Handle
new_handle cfg se now = record {
  syexec = se;
  pid = se.container_pid;
  called_destroy = false;
  task_config = cfg;
  proc_state = running;
  started_at = now;
  completed_at = none;
  exit_result = none;
}

abbrev pub run_if_new : ℤ → Ref → Act Driver (Unit {0})
run_if_new alive p = if is_zero alive then spawn (run_handle p) else pure tt

-- The handle enters the store, and its goroutines start.
unfoldable pub enlist : NomadConfig → ℤ → Syexec → ℕ → Text → Act Driver TaskHandle
enlist cfg alive se now bytes = do
  p ← allocate (new_handle cfg se now)
  modify (λ d. record d { tasks = put d.tasks cfg.id p })
  run_if_new alive p
  spawn (pot_wait cfg.id se)
  pure (record { version = task_handle_version; config = cfg; driver_state = bytes })

module _ (lib : Libs) (host : Host) where
  open lib use {task_dir, decode_driver_config, encode_state}

  -- The error that is reported is that of the destruction, whose name hides the first one.
  unfoldable pub abort : Context → NomadConfig → Syexec → Act Driver Syexec
  abort context cfg se = do
    (r, _) ← call se (destroy_container lib host cfg none)
    raise (wrap context (error_of r))

  unfoldable pub start_or_abort : NomadConfig → Syexec → Act Driver Syexec
  unfolding abort
  start_or_abort cfg se = do
    (r, se') ← call se (start_container lib host cfg)
    unless_error r (pure se') (abort starting_container cfg se')

  unfoldable pub create_and_start : NomadConfig → Syexec → Act Driver Syexec
  unfolding start_or_abort abort
  create_and_start cfg se = do
    (r, se') ← call se (create_container lib host cfg)
    unless_error r (start_or_abort cfg se') (abort creating_container cfg se')

  -- the container does not run yet
  unfoldable pub launch : NomadConfig → Syexec → Act Driver Syexec
  unfolding create_and_start start_or_abort
  launch cfg se = do
    (r, se') ← call se (check_container_exists lib host cfg)
    exists ← given r
    if is_zero exists then create_and_start cfg se' else start_or_abort cfg se'

  -- SetDriverState; where it fails the container is destroyed
  abbrev pub encoded : Option Text → NomadConfig → Syexec → Handle → Act Driver Text
  encoded (some bytes) cfg se h = pure bytes
  encoded none cfg se h = do
    _ ← call se (destroy_container lib host cfg (some h.called_destroy))
    raise (wrapped setting_state (system []))

  unfoldable pub register : NomadConfig → TaskConfig → ℤ → Syexec → Act Driver TaskHandle
  unfolding enlist
  register cfg task alive se = do
    now ← gets (λ d. host.now d.log)
    let h = new_handle cfg se now
    let state : TaskState = record {
      container_name = task.image;
      pid = se.container_pid;
      task_config = some cfg;
      started_at = now;
    }
    bytes ← encoded (encode_state state) cfg se h
    enlist cfg alive se now bytes

  unfoldable pub start_new : NomadConfig → Act Driver TaskHandle
  unfolding launch adopt register
  start_new cfg = do
    task ← decoded (decode_driver_config cfg)
    se ← lift (prepare_container lib cfg task)
    (r, se') ← call se (check_container_alive lib host cfg)
    alive ← given r
    se'' ← if is_zero alive then launch cfg se' else adopt cfg alive se'
    register cfg task alive se''

  abbrev pub start_unless : Option Ref → NomadConfig → Act Driver TaskHandle
  start_unless (some p) cfg = raise (already_started cfg.id)
  start_unless none cfg = start_new cfg

  unfoldable pub start_task : NomadConfig → Act Driver TaskHandle
  unfolding start_new
  start_task cfg d = start_unless (get d.tasks cfg.id) cfg d
