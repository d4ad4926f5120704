-- ===== src/Driver/Tasks.antt =====
-- StopTask, DestroyTask, InspectTask, SignalTask and ExecTask of driver.go.
pub mod Stop
pub mod Calls
use nomad_pot_driver.Base.{
  ℕ, Bool, true, false, not, ◌&&◌, Option, none, some, List, [], ◌∷◌, ℤ, pos, is_zero,
  if◌then◌else◌,
}
use nomad_pot_driver.Text.Split.{Text}
use nomad_pot_driver.Outcome.{
  Outcome, ok, err, panic, nil_dereference, Error, Context, system, wrapped, bad_signal,
  empty_command, running_task, signal_exit_code, decoding_config, preparing_signal, signalling,
  preparing_command, destroying_container,
}
use nomad_pot_driver.Types.{NomadConfig, TaskConfig, new_task_config, PsState, Syexec, Libs}
use nomad_pot_driver.Prepare.Commands.{prepare_destroy, prepare_signal, prepare_exec}
use nomad_pot_driver.Machine.{Host, Act, ◌>>=◌, ◌>>◌, pure, raise, lift, gets, modify}
use nomad_pot_driver.Pot.Run.{signal_container}
use nomad_pot_driver.Pot.Query.{ExecResult, exec_in_container}
use nomad_pot_driver.Store.{get, delete}
use nomad_pot_driver.Handle.{Handle, TaskStatus, task_status, is_running}
use nomad_pot_driver.Driver.State.{Ref, Driver, Result, value, error, call, load, store, find_task}
use nomad_pot_driver.Driver.Start.{given}
use nomad_pot_driver.Driver.Wait.{destroy_handle}

-- A call's error, in the caller's words.
abbrev pub in_context {ℓ} : {A : Type ℓ} → Context → Result A → Act Driver A
in_context c (value a) = pure a
in_context c (error e) = raise (wrapped c e)

abbrev pub result_of {ℓ} : {A : Type ℓ} → Outcome A → Act Driver (Result A)
result_of (ok a) d = (ok (value a), d)
result_of (err e) d = (ok (error e), d)
result_of (panic p) d = (panic p, d)

abbrev pub stop_config : Option TaskConfig → TaskConfig
stop_config none = new_task_config
stop_config (some task) = task

abbrev pub parsed : Option ℕ → Act Driver ℕ
parsed none = raise bad_signal
parsed (some sig) = pure sig

abbrev pub signal_config : Option TaskConfig → Act Driver TaskConfig
signal_config none = raise (wrapped decoding_config (system []))
signal_config (some task) = pure task

-- se.state.ExitCode
abbrev pub state_code : Option PsState → Act Driver ℤ
state_code none d = (panic nil_dereference, d)
state_code (some st) d = (ok st.exit_code, d)

module _ (lib : Libs) (host : Host) where
  open lib use {decode_driver_config, parse_signal}

  -- The timeout and the signal of StopTask are not used.
  unfoldable pub stop_task : Text → Act Driver (Unit {0})
  stop_task id = do
    p ← find_task id
    h ← load (some p)
    se ← lift (prepare_destroy lib h.task_config (stop_config (decode_driver_config h.task_config)))
    r ← destroy_handle lib host p se
    _ ← in_context destroying_container r
    pure tt

  unfoldable pub destroy_task : Text → Bool → Act Driver (Unit {0})
  destroy_task id force = do
    p ← find_task id
    h ← load (some p)
    if is_running h && not force
        then raise running_task
        else modify (λ d. record d { tasks = delete d.tasks id })

  unfoldable pub inspect_task : Text → Act Driver TaskStatus
  inspect_task id = do p ← find_task id; h ← load (some p); pure (task_status h)

  unfoldable pub signal_task : Text → Text → Act Driver (Unit {0})
  signal_task id signal = do
    p ← find_task id
    sig ← parsed (parse_signal signal)
    h ← load (some p)
    task ← signal_config (decode_driver_config h.task_config)
    prepared ← result_of (prepare_signal lib h.task_config task sig)
    se ← in_context preparing_signal prepared
    (r, se') ← call se (signal_container lib host h.task_config)
    in_context signalling r
    code ← state_code se'.state
    if is_zero code then pure tt else raise (signal_exit_code code)

  -- The timeout of ExecTask reaches no command: execInContainer does not use its context.
  unfoldable pub exec_task : Text → List Text → Act Driver ExecResult
  exec_task id [] = do _ ← find_task id; raise empty_command
  exec_task id (program ∷ args) = do
    p ← find_task id
    h ← load (some p)
    prepared ← result_of (prepare_exec lib h.task_config (program ∷ args))
    se ← in_context preparing_command prepared
    (r, _) ← call se (exec_in_container lib host h.task_config)
    given r
