-- ===== src/Driver/Wait.antt =====
-- The goroutines of driver.go and handle.go: run, potWait and recoverWait.
pub mod Destroy
pub mod Frame
pub mod Returns
pub mod Recovered
pub mod Codes
pub mod Races
use nomad_pot_driver.Base.{
  ℕ, Bool, true, false, ◌||◌, ◌≡◌, Option, none, some, List, [], ◌∷◌, ◌==◌, ℤ, pos, is_zero,
  if◌then◌else◌, get_elem?,
}
use nomad_pot_driver.Text.Split.{Text}
use nomad_pot_driver.Outcome.{Outcome, ok, err, panic, Error, nil_dereference}
use nomad_pot_driver.Types.{NomadConfig, Syexec, Libs}
use nomad_pot_driver.Machine.{
  WaitStatus, exited, signaled, End, clean, exit_error, io_error, start_error, Host, Act, ◌>>=◌,
  ◌>>◌, pure, gets,
}
use nomad_pot_driver.Pot.Run.{default_failed_code, destroy_container}
use nomad_pot_driver.Pot.Query.{check_container_alive, get_container_last_run_stats}
use nomad_pot_driver.Store.{get}
use nomad_pot_driver.Handle.{Handle, ExitResult, done, run}
use nomad_pot_driver.Driver.State.{
  Ref, Thread, recover_wait, pot_waiting, Driver, Result, value, error, call, load, store, spawn,
}
use nomad_pot_driver.Driver.Start.{given}

-- handle.exitResult.ExitCode = code
abbrev pub coded : Ref → Handle → ℤ → Option ExitResult → Act Driver (Unit {0})
coded p h code none d = (panic nil_dereference, d)
coded p h code (some r) d =
    store p (record h { exit_result = some (record r { exit_code = code }) }) d

unfoldable pub set_code : Ref → ℤ → Act Driver (Unit {0})
set_code p code = do h ← load (some p); coded p h code h.exit_result

unfoldable pub set_done : Ref → Act Driver (Unit {0})
set_done p = do h ← load (some p); store p (record h { proc_state = done })

-- se.destroyContainer(handle.taskConfig, &handle.calledDestroy), with the flag's new value kept
abbrev pub set_flag : Ref → Result (Option Bool) → Act Driver (Unit {0})
set_flag p (value (some flag)) = do h ← load (some p); store p (record h { called_destroy = flag })
set_flag p _ = pure tt

-- The look-up at the start of potWait.
unfoldable pub pot_wait_begin : Text → Syexec → Act Driver (Unit {0})
pot_wait_begin id se d = spawn (pot_waiting (get d.tasks id) se) d

abbrev pub last_code : Ref → Result ℤ → Act Driver (Unit {0})
last_code p (value code) = set_code p code
last_code p (error e) = pure tt

-- ws.ExitStatus() == 125
abbrev pub pot_failed : WaitStatus → Bool
pot_failed (exited n) = n == 125
pot_failed (signaled n) = false

abbrev pub recovered_code : Result ℤ → ℤ
recovered_code (value code) = code
recovered_code (error e) = default_failed_code

module _ (lib : Libs) (host : Host) where
  -- `h.run()`
  unfoldable pub run_thread : Ref → Act Driver (Unit {0})
  run_thread p = do h ← load (some p); now ← gets (λ d. host.now d.log); store p (run now h)

  unfoldable pub destroy_handle : Ref → Syexec → Act Driver (Result (Option Bool))
  destroy_handle p se = do
    h ← load (some p)
    (r, _) ← call se (destroy_container lib host h.task_config (some h.called_destroy))
    set_flag p r
    pure r

  abbrev pub ask_last_code : Ref → Syexec → Act Driver Syexec
  ask_last_code p se = do
    h ← load (some p)
    (r, se') ← call se (get_container_last_run_stats lib host h.task_config)
    last_code p r
    pure se'

  unfoldable pub set_wait_code : Ref → Syexec → End → Act Driver Syexec
  unfolding set_code
  set_wait_code p se clean = pure se
  set_wait_code p se (exit_error ws) = do
    set_code p default_failed_code
    if pot_failed ws then ask_last_code p se else pure se
  set_wait_code p se _ = do set_code p default_failed_code; pure se

  -- potWait once `se.cmd.Wait()` has returned
  unfoldable pub pot_wait_end : Option Ref → Syexec → End → Act Driver (Unit {0})
  unfolding set_done set_wait_code destroy_handle
  pot_wait_end none se end = λ d. (panic nil_dereference, d)
  pot_wait_end (some p) se end = do
    set_done p
    se' ← set_wait_code p se end
    _ ← destroy_handle p se'
    pure tt

  -- A tick of recoverWait: whether the loop ends, and the `syexec` afterwards.
  unfoldable pub recover_tick : Syexec → Act Driver (Bool × Syexec)
  recover_tick se = do
    (r, se') ← call se (check_container_alive lib host se.cfg)
    code ← given r
    pure (is_zero code, se')

  -- recoverWait after its loop
  unfoldable pub recover_wait_end : Option Ref → Syexec → Act Driver (Unit {0})
  unfolding set_done set_code destroy_handle
  recover_wait_end none se = λ d. (panic nil_dereference, d)
  recover_wait_end (some p) se = do
    set_done p
    h ← load (some p)
    (r, se') ← call se (get_container_last_run_stats lib host h.task_config)
    set_code p (recovered_code r)
    _ ← destroy_handle p se'
    pure tt
