-- ===== src/Driver/System/Perform.antt =====
-- The steps of the system, from a state of the driver to a later one.
use nomad_pot_driver.Base.{
  ◌≡◌, refl, Bool, true, false, not, ◌&&◌, Option, none, some, List, [], ◌∷◌, ℕ, ℤ, get_elem?,
}
use nomad_pot_driver.Text.Split.{Text}
use nomad_pot_driver.Outcome.{Outcome, ok, err, panic, Context}
use nomad_pot_driver.Types.{NomadConfig, TaskConfig, TaskHandle, TaskState, Syexec, Libs}
use nomad_pot_driver.Machine.{Host, End, ◌>>=◌, modify}
use nomad_pot_driver.Store.{get, delete}
use nomad_pot_driver.Handle.{Handle}
use nomad_pot_driver.Driver.State.{
  Driver, Result, value, error, Thread, run_handle, pot_wait, pot_waiting, recover_wait, stats_loop,
}
use nomad_pot_driver.Driver.Recover.{
  recover_task, recover_new, recover_unless, reattach, reregister, forget, state_of, config_of,
  encoded, enroll,
}
use nomad_pot_driver.Driver.Tasks.{
  stop_task, destroy_task, inspect_task, signal_task, exec_task, in_context, result_of, parsed,
  signal_config, state_code,
}
use nomad_pot_driver.Types.{PsState}
use nomad_pot_driver.Driver.Wait.{pot_wait_begin, recover_tick}
use nomad_pot_driver.Driver.Stats.{Usage, task_stats}
use nomad_pot_driver.Driver.Plugin.{BaseConfig, set_config, shutdown, decoded}
use nomad_pot_driver.Driver.System.{
  Event, start, recover, stop, inspect, stats, destroy, signal, exec, configure, shut, resume,
  perform, go_on, recover_over, recover_next, recover_round, resume_with, stats_next, stats_round,
}
use nomad_pot_driver.Driver.System.Later.{
  Later-refl, Later-frame, Later-add, Later-delete, Moves, Moves-if,
}
use nomad_pot_driver.Driver.System.Moves.{
  step_rules, destroy_handle-Moves, run_thread-Moves, sample-Moves, pot_wait_end-Moves,
  recover_tick-Moves, recover_wait_end-Moves, start_task-Moves,
}

-- Code whose branches are told apart by an argument.
in_context-Moves {ℓ} : {A : Type ℓ} (c : Context) (r : Result A) → Moves (in_context c r)
in_context-Moves c (value a) = search step_rules
in_context-Moves c (error e) = search step_rules

result_of-Moves {ℓ} : {A : Type ℓ} (r : Outcome A) → Moves (result_of r)
result_of-Moves (ok a) = record { at = λ d. Later-refl d }
result_of-Moves (err e) = record { at = λ d. Later-refl d }
result_of-Moves (panic p) = record { at = λ d. Later-refl d }

parsed-Moves : (o : Option ℕ) → Moves (parsed o)
parsed-Moves none = search step_rules
parsed-Moves (some sig) = search step_rules

signal_config-Moves : (o : Option TaskConfig) → Moves (signal_config o)
signal_config-Moves none = search step_rules
signal_config-Moves (some task) = search step_rules

state_code-Moves : (o : Option PsState) → Moves (state_code o)
state_code-Moves none = record { at = λ d. Later-refl d }
state_code-Moves (some st) = record { at = λ d. Later-refl d }

decoded-Moves : (decode : Text → Option Bool) (o : Option Bool) → Moves (decoded decode o)
decoded-Moves decode none = search step_rules
decoded-Moves decode (some enabled) = search step_rules

pot_wait_begin-Moves : (id : Text) (se : Syexec) → Moves (pot_wait_begin id se)
unfolding pot_wait_begin
pot_wait_begin-Moves id se = record { at = λ d. Later-frame refl refl }

modify_frame-Moves :
    (f : Driver → Driver)
    → ((d : Driver) → (f d).tasks ≡ d.tasks)
    → ((d : Driver) → (f d).handles ≡ d.handles)
    → Moves (modify f)
modify_frame-Moves f t h = record { at = λ d. Later-frame (t d) (h d) }

delete-Moves :
    (id : Text) → Moves {A = Unit {0}} (λ d. (ok tt, record d { tasks = delete d.tasks id }))
delete-Moves id = record { at = λ d. Later-delete d id }

ruleset call_rules = (
  step_rules, in_context-Moves, result_of-Moves, parsed-Moves, signal_config-Moves,
  state_code-Moves, delete-Moves,
)

module _ (lib : Libs) (host : Host) where
  stop_task-Moves : (id : Text) → Moves (stop_task lib host id)
  unfolding stop_task
  stop_task-Moves id = search (call_rules, destroy_handle-Moves) depth 12

  destroy_task-Moves : (id : Text) (force : Bool) → Moves (destroy_task lib host id force)
  unfolding destroy_task
  destroy_task-Moves id force = search call_rules depth 12

  inspect_task-Moves : (id : Text) → Moves (inspect_task lib host id)
  unfolding inspect_task
  inspect_task-Moves id = search call_rules

  task_stats-Moves : (id : Text) → Moves (task_stats lib host id)
  unfolding task_stats
  task_stats-Moves id = search call_rules

  signal_task-Moves : (id name : Text) → Moves (signal_task lib host id name)
  unfolding signal_task
  signal_task-Moves id name = search call_rules depth 20

  exec_task-Moves : (id : Text) (command : List Text) → Moves (exec_task lib host id command)
  unfolding exec_task
  exec_task-Moves id [] = search call_rules
  exec_task-Moves id (c ∷ cs) = search call_rules depth 14

  state_of-Moves : (o : Option TaskState) → Moves (state_of lib host o)
  state_of-Moves none = search step_rules
  state_of-Moves (some state) = search step_rules

  config_of-Moves : (o : Option NomadConfig) → Moves (config_of lib host o)
  config_of-Moves none = record { at = λ d. Later-refl d }
  config_of-Moves (some cfg) = record { at = λ d. Later-refl d }

  encoded-Moves :
      (o : Option Text) (handle : TaskHandle) (se : Syexec) (h : Handle)
      → Moves (encoded lib host o handle se h)
  encoded-Moves none handle se h = search step_rules
  encoded-Moves (some bytes) handle se h = search step_rules

  reattach-Moves :
      (cfg : NomadConfig) (alive : ℤ) (se : Syexec) → Moves (reattach lib host cfg alive se)
  unfolding reattach
  reattach-Moves cfg alive se = search step_rules depth 12

  forget-Moves : (cfg : NomadConfig) → Moves (forget lib host cfg)
  unfolding forget
  forget-Moves cfg = search call_rules

  enroll-Moves : (id : Text) (se : Syexec) (h : Handle) → Moves (enroll lib host id se h)
  unfolding enroll
  enroll-Moves id se h = record { at = λ d. Later-add d _ h refl refl }

  reregister-Moves :
      (handle : TaskHandle) (old : NomadConfig) (task : TaskConfig) (se : Syexec)
      → Moves (reregister lib host handle old task se)
  unfolding reregister
  reregister-Moves handle old task se = search (step_rules, encoded-Moves, enroll-Moves) depth 12

  recover_new-Moves : (handle : TaskHandle) → Moves (recover_new lib host handle)
  unfolding recover_new
  recover_new-Moves handle =
      search
        (
          step_rules, state_of-Moves, config_of-Moves, reattach-Moves, forget-Moves,
          reregister-Moves,
        )
        depth 14

  recover_unless-Moves :
      (known : Option ℕ) (handle : TaskHandle) → Moves (recover_unless lib host known handle)
  recover_unless-Moves none handle = recover_new-Moves handle
  recover_unless-Moves (some p) handle = search step_rules

  recover_task-Moves : (handle : Option TaskHandle) → Moves (recover_task lib host handle)
  unfolding recover_task
  recover_task-Moves none = record { at = λ d. Later-refl d }
  recover_task-Moves (some handle) = record {
    at = λ d. (recover_unless-Moves (get d.tasks handle.config.id) handle).at d;
  }

set_config-Moves :
    (decode : Text → Option Bool) (config : BaseConfig) → Moves (set_config decode config)
unfolding set_config
set_config-Moves decode config = search (step_rules, decoded-Moves, modify_frame-Moves)

shutdown-Moves : Moves shutdown
unfolding shutdown
shutdown-Moves = record { at = λ d. Later-frame refl refl }

module _ (lib : Libs) (host : Host) (decode : Text → Option Bool) where
  recover_over-Moves : (id : Text) (se : Syexec) → Moves (recover_over lib host decode id se)
  unfolding recover_over
  recover_over-Moves id se = record {
    at = λ d. (recover_wait_end-Moves lib host (get d.tasks id) se).at d;
  }

  recover_next-Moves : (id : Text) (r : Bool × Syexec) → Moves (recover_next lib host decode id r)
  recover_next-Moves id (true, se) = recover_over-Moves id se
  recover_next-Moves id (false, se) = search step_rules

  recover_round-Moves :
      (id : Text) (se : Syexec) (ticks : Bool) → Moves (recover_round lib host decode id se ticks)
  unfolding recover_round
  recover_round-Moves id se ticks = record {
    at = λ d.
        (Moves-if (d.shut_down && not ticks) _
            (recover_tick lib host se >>= recover_next lib host decode id)
            (recover_over-Moves id se)
            (search (step_rules, recover_tick-Moves, recover_next-Moves))).at
          d;
  }

  stats_next-Moves : (p : ℕ) (u : Option Usage) → Moves (stats_next lib host decode p u)
  stats_next-Moves p none = search step_rules
  stats_next-Moves p (some u) = search step_rules

  stats_round-Moves : (p : ℕ) (ticks : Bool) → Moves (stats_round lib host decode p ticks)
  unfolding stats_round
  stats_round-Moves p ticks = search (step_rules, sample-Moves, stats_next-Moves)

  go_on-Moves : (t : Thread) (end : End) (ticks : Bool) → Moves (go_on lib host decode t end ticks)
  unfolding go_on
  go_on-Moves (run_handle p) end ticks = run_thread-Moves lib host p
  go_on-Moves (pot_wait id se) end ticks = pot_wait_begin-Moves id se
  go_on-Moves (pot_waiting p se) end ticks = pot_wait_end-Moves lib host p se end
  go_on-Moves (recover_wait id se) end ticks = recover_round-Moves id se ticks
  go_on-Moves (stats_loop p) end ticks = stats_round-Moves p ticks

  resume_with-Moves :
      (t : Option Thread) (n : ℕ) (end : End) (ticks : Bool)
      → Moves (resume_with lib host decode t n end ticks)
  resume_with-Moves none n end ticks = search step_rules
  resume_with-Moves (some t) n end ticks = search (step_rules, modify_frame-Moves, go_on-Moves)

  pub perform-Moves : (e : Event) → Moves (perform lib host decode e)
  unfolding perform
  perform-Moves (start cfg) = search (step_rules, start_task-Moves)
  perform-Moves (recover handle) = search (step_rules, recover_task-Moves)
  perform-Moves (stop id) = stop_task-Moves lib host id
  perform-Moves (inspect id) = search (step_rules, inspect_task-Moves)
  perform-Moves (stats id) = task_stats-Moves lib host id
  perform-Moves (destroy id force) = destroy_task-Moves lib host id force
  perform-Moves (signal id name) = signal_task-Moves lib host id name
  perform-Moves (exec id command) = search (step_rules, exec_task-Moves)
  perform-Moves (configure config) = set_config-Moves decode config
  perform-Moves shut = shutdown-Moves
  perform-Moves (resume n end ticks) = record {
    at = λ d. (resume_with-Moves (get_elem? d.threads n) n end ticks).at d;
  }
