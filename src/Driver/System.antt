-- ===== src/Driver/System.antt =====
-- The driver as a system: Nomad's calls on it and the progress of its goroutines, as steps. A call
-- or a round of a goroutine is one step; the code takes no lock around them, so what happens when
-- two of them overlap is left out.
pub mod Later
pub mod Moves
pub mod Perform
pub mod Invariant
pub mod Lost
pub mod Rounds
pub mod Lifecycle
pub mod Overtaken
pub mod Recovery
pub mod Registry
pub mod Frame
use nomad_pot_driver.Base.{
  ℕ, zero, suc, Bool, true, false, not, ◌&&◌, Option, none, some, List, [], ◌∷◌, get_elem?,
  if◌then◌else◌,
}
use nomad_pot_driver.Text.Split.{Text}
use nomad_pot_driver.Outcome.{Outcome, ok, err, panic}
use nomad_pot_driver.Types.{NomadConfig, TaskHandle, Syexec, Libs}
use nomad_pot_driver.Machine.{Host, End, Act, ◌>>=◌, ◌>>◌, pure, modify}
use nomad_pot_driver.Store.{get}
use nomad_pot_driver.Driver.State.{
  Driver, Thread, run_handle, pot_wait, pot_waiting, recover_wait, stats_loop, spawn, Ref,
}
use nomad_pot_driver.Driver.Start.{start_task}
use nomad_pot_driver.Driver.Recover.{recover_task}
use nomad_pot_driver.Driver.Tasks.{stop_task, destroy_task, inspect_task, signal_task, exec_task}
use nomad_pot_driver.Driver.Stats.{Usage, sample, task_stats}
use nomad_pot_driver.Driver.Plugin.{BaseConfig, set_config, shutdown, new_pot_driver}
use nomad_pot_driver.Driver.Wait.{
  run_thread, pot_wait_begin, pot_wait_end, recover_tick, recover_wait_end,
}

pub data Event : Type 0 where
  start : NomadConfig → Event
  recover : Option TaskHandle → Event
  stop inspect stats : Text → Event
  destroy : Text → Bool → Event
  signal : Text → Text → Event
  exec : Text → List Text → Event
  configure : BaseConfig → Event
  shut : Event
  -- The goroutine at a place goes on: how Wait ended, for potWait, and whether the select of
  -- recoverWait or of handleStats takes the tick although the context is done.
  resume : ℕ → End → Bool → Event

abbrev pub remove : List Thread → ℕ → List Thread
remove [] n = []
remove (t ∷ ts) zero = ts
remove (t ∷ ts) (suc n) = t ∷ remove ts n

-- A call whose value is not looked at.
abbrev pub ignore {ℓ} : {A : Type ℓ} → Act Driver A → Act Driver (Unit {0})
ignore m = do _ ← m; pure tt

module _ (lib : Libs) (host : Host) (decode : Text → Option Bool) where
  -- recoverWait after its loop: the look-up and what follows
  unfoldable pub recover_over : Text → Syexec → Act Driver (Unit {0})
  recover_over id se d = recover_wait_end lib host (get d.tasks id) se d

  abbrev pub recover_next : Text → Bool × Syexec → Act Driver (Unit {0})
  recover_next id (over, se) = if over then recover_over id se else spawn (recover_wait id se)

  unfoldable pub recover_round : Text → Syexec → Bool → Act Driver (Unit {0})
  unfolding recover_over
  recover_round id se ticks d =
      (if d.shut_down && not ticks
          then recover_over id se
          else recover_tick lib host se >>= recover_next id)
        d

  abbrev pub stats_next : Ref → Option Usage → Act Driver (Unit {0})
  stats_next p none = pure tt
  stats_next p (some u) = spawn (stats_loop p)

  -- A round of handleStats, which ends where the caller's context is done or containerStats fails.
  unfoldable pub stats_round : Ref → Bool → Act Driver (Unit {0})
  stats_round p ticks = if ticks then sample lib host p >>= stats_next p else pure tt

  unfoldable pub go_on : Thread → End → Bool → Act Driver (Unit {0})
  unfolding recover_round stats_round
  go_on (run_handle p) end ticks = run_thread lib host p
  go_on (pot_wait id se) end ticks = pot_wait_begin id se
  go_on (pot_waiting p se) end ticks = pot_wait_end lib host p se end
  go_on (recover_wait id se) end ticks = recover_round id se ticks
  go_on (stats_loop p) end ticks = stats_round p ticks

  abbrev pub resume_with : Option Thread → ℕ → End → Bool → Act Driver (Unit {0})
  resume_with none n end ticks = pure tt
  resume_with (some t) n end ticks = do
    modify (λ d. record d { threads = remove d.threads n })
    go_on t end ticks

  unfoldable pub perform : Event → Act Driver (Unit {0})
  unfolding go_on
  perform (start cfg) = ignore (start_task lib host cfg)
  perform (recover handle) = ignore (recover_task lib host handle)
  perform (stop id) = stop_task lib host id
  perform (inspect id) = ignore (inspect_task lib host id)
  perform (stats id) = task_stats lib host id
  perform (destroy id force) = destroy_task lib host id force
  perform (signal id name) = signal_task lib host id name
  perform (exec id command) = ignore (exec_task lib host id command)
  perform (configure config) = set_config decode config
  perform shut = shutdown
  perform (resume n end ticks) = λ d. resume_with (get_elem? d.threads n) n end ticks d

  -- A panic, in a call or in a goroutine, ends the program.
  abbrev pub Survives : Outcome (Unit {0}) → Type 0
  Survives (panic p) = ⊥
  Survives _ = Unit

  -- A state that the driver comes to from another one.
  pub data Steps : Driver → Driver → Type 0 where
    here : {d : Driver} → Steps d d
    next :
        {d d' : Driver} (e : Event)
        → Survives (perform e d).0
        → Steps (perform e d).1 d'
        → Steps d d'

  -- A state that a new driver comes to.
  abbrev pub Reachable : Driver → Type 0
  Reachable = Steps new_pot_driver
