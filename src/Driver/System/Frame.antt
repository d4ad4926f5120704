-- ===== src/Driver/System/Frame.antt =====
-- The task store in the calls and the rounds that do not write to it.
use nomad_pot_driver.Handle.{Handle}
use nomad_pot_driver.Base.{
  ℤ, ◌≡◌, refl, Bool, true, false, not, ◌&&◌, Option, none, some, List, [], ◌∷◌, ℕ, arith,
}
use nomad_pot_driver.Text.Split.{Text}
use nomad_pot_driver.Outcome.{Outcome, ok, err, panic, Context}
use nomad_pot_driver.Types.{TaskConfig, Syexec, Libs, PsState}
use nomad_pot_driver.Machine.{Pot, Act, Host, Pot, Act, End, ◌>>=◌, modify}
use nomad_pot_driver.Machine.Keeps.{keeps_rules, Keeps, Keeps-if}
use nomad_pot_driver.Store.{get}
use nomad_pot_driver.Driver.State.{
  call, load, store, Driver, Result, value, error, Thread, run_handle, pot_wait, pot_waiting,
  recover_wait, stats_loop, find_task,
}
use nomad_pot_driver.Driver.Start.{given}
use nomad_pot_driver.Driver.Tasks.{
  stop_task, signal_task, inspect_task, exec_task, in_context, result_of, parsed, signal_config,
  state_code,
}
use nomad_pot_driver.Driver.Wait.{
  set_done, set_code, destroy_handle, pot_wait_begin, recover_tick, run_thread, recover_wait_end,
  pot_wait_end,
}
use nomad_pot_driver.Driver.Wait.Frame.{
  tasks_of, aside-tasks, call-aside, load-aside, store-aside, set_done-aside, set_code-aside,
  destroy_handle-aside, pot_wait_end-aside, recover_wait_end-aside,
}
use nomad_pot_driver.Driver.Stats.{Usage, task_stats, sample}
use nomad_pot_driver.Driver.Plugin.{BaseConfig, set_config, decoded}
use nomad_pot_driver.Driver.System.{
  go_on, recover_over, recover_next, recover_round, resume_with, stats_next, stats_round,
}

call-tasks {ℓ} : {A : Type ℓ} (se : Syexec) (m : Act Pot A) → Keeps tasks_of (call se m)
call-tasks se m = aside-tasks _ (call-aside se m)

load-tasks : (p : Option ℕ) → Keeps tasks_of (load p)
load-tasks p = aside-tasks _ (load-aside p)

store-tasks : (p : ℕ) (h : Handle) → Keeps tasks_of (store p h)
store-tasks p h = aside-tasks _ (store-aside p h)

set_code-tasks : (p : ℕ) (code : ℤ) → Keeps tasks_of (set_code p code)
set_code-tasks p code = aside-tasks _ (set_code-aside p code)

set_done-tasks : (p : ℕ) → Keeps tasks_of (set_done p)
set_done-tasks p = aside-tasks _ (set_done-aside p)

ruleset tasks_rules = (keeps_rules, call-tasks, load-tasks, store-tasks)

given-tasks {ℓ} : {A : Type ℓ} (r : Result A) → Keeps tasks_of (given r)
given-tasks (value a) = search tasks_rules
given-tasks (error e) = search tasks_rules

find_task-tasks : (id : Text) → Keeps tasks_of (find_task id)
find_task-tasks id = record { at = λ d. ground arith }

modify-tasks :
    (f : Driver → Driver) → ((d : Driver) → (f d).tasks ≡ d.tasks) → Keeps tasks_of (modify f)
modify-tasks f same = record { at = same }

in_context-tasks {ℓ} : {A : Type ℓ} (c : Context) (r : Result A) → Keeps tasks_of (in_context c r)
in_context-tasks c (value a) = search tasks_rules
in_context-tasks c (error e) = search tasks_rules

result_of-tasks {ℓ} : {A : Type ℓ} (r : Outcome A) → Keeps tasks_of (result_of r)
result_of-tasks (ok a) = record { at = λ d. refl }
result_of-tasks (err e) = record { at = λ d. refl }
result_of-tasks (panic p) = record { at = λ d. refl }

parsed-tasks : (o : Option ℕ) → Keeps tasks_of (parsed o)
parsed-tasks none = search tasks_rules
parsed-tasks (some sig) = search tasks_rules

signal_config-tasks : (o : Option TaskConfig) → Keeps tasks_of (signal_config o)
signal_config-tasks none = search tasks_rules
signal_config-tasks (some task) = search tasks_rules

state_code-tasks : (o : Option PsState) → Keeps tasks_of (state_code o)
state_code-tasks none = record { at = λ d. refl }
state_code-tasks (some st) = record { at = λ d. refl }

decoded-tasks : (decode : Text → Option Bool) (o : Option Bool) → Keeps tasks_of (decoded decode o)
decoded-tasks decode none = search tasks_rules
decoded-tasks decode (some enabled) = search tasks_rules

ruleset call_rules = (
  tasks_rules, given-tasks, find_task-tasks, modify-tasks, in_context-tasks, result_of-tasks,
  parsed-tasks, signal_config-tasks, state_code-tasks, set_done-tasks, set_code-tasks,
)

pub set_config-tasks :
    (decode : Text → Option Bool) (config : BaseConfig) → Keeps tasks_of (set_config decode config)
unfolding set_config
set_config-tasks decode config = search (call_rules, decoded-tasks)

module _ (lib : Libs) (host : Host) where
  destroy_handle-tasks : (p : ℕ) (se : Syexec) → Keeps tasks_of (destroy_handle lib host p se)
  destroy_handle-tasks p se = aside-tasks _ (destroy_handle-aside lib host p se)

  pub stop_task-tasks : (id : Text) → Keeps tasks_of (stop_task lib host id)
  unfolding stop_task
  stop_task-tasks id = search (call_rules, destroy_handle-tasks) depth 12

  pub task_stats-tasks : (id : Text) → Keeps tasks_of (task_stats lib host id)
  unfolding task_stats
  task_stats-tasks id = search call_rules

  pub signal_task-tasks : (id name : Text) → Keeps tasks_of (signal_task lib host id name)
  unfolding signal_task
  signal_task-tasks id name = search call_rules depth 20

  pub inspect_task-tasks : (id : Text) → Keeps tasks_of (inspect_task lib host id)
  unfolding inspect_task
  inspect_task-tasks id = search call_rules

  pub exec_task-tasks :
      (id : Text) (command : List Text) → Keeps tasks_of (exec_task lib host id command)
  unfolding exec_task
  exec_task-tasks id [] = search call_rules
  exec_task-tasks id (c ∷ cs) = search call_rules depth 14

  run_thread-tasks : (p : ℕ) → Keeps tasks_of (run_thread lib host p)
  unfolding run_thread
  run_thread-tasks p = search call_rules

  pot_waiting-tasks :
      (p : Option ℕ) (se : Syexec) (end : End) → Keeps tasks_of (pot_wait_end lib host p se end)
  unfolding pot_wait_end
  pot_waiting-tasks none se end = record { at = λ d. refl }
  pot_waiting-tasks (some p) se end = aside-tasks _ (pot_wait_end-aside lib host p se end)

  recover_wait_end-tasks :
      (p : Option ℕ) (se : Syexec) → Keeps tasks_of (recover_wait_end lib host p se)
  recover_wait_end-tasks p se = aside-tasks _ (recover_wait_end-aside lib host p se)

  recover_tick-tasks : (se : Syexec) → Keeps tasks_of (recover_tick lib host se)
  unfolding recover_tick
  recover_tick-tasks se = search call_rules

  sample-tasks : (p : ℕ) → Keeps tasks_of (sample lib host p)
  unfolding sample
  sample-tasks p = search call_rules depth 12

  module _ (decode : Text → Option Bool) where
    recover_over-tasks :
        (id : Text) (se : Syexec) → Keeps tasks_of (recover_over lib host decode id se)
    unfolding recover_over
    recover_over-tasks id se = record {
      at = λ d. (recover_wait_end-tasks (get d.tasks id) se).at d;
    }

    recover_next-tasks :
        (id : Text) (r : Bool × Syexec) → Keeps tasks_of (recover_next lib host decode id r)
    recover_next-tasks id (true, se) = recover_over-tasks id se
    recover_next-tasks id (false, se) = search call_rules

    recover_round-tasks :
        (id : Text) (se : Syexec) (ticks : Bool)
        → Keeps tasks_of (recover_round lib host decode id se ticks)
    unfolding recover_round
    recover_round-tasks id se ticks = record {
      at = λ d.
          (Keeps-if (d.shut_down && not ticks) _
              (recover_tick lib host se >>= recover_next lib host decode id)
              (recover_over-tasks id se)
              (search (call_rules, recover_tick-tasks, recover_next-tasks))).at
            d;
    }

    stats_next-tasks : (p : ℕ) (u : Option Usage) → Keeps tasks_of (stats_next lib host decode p u)
    stats_next-tasks p none = search call_rules
    stats_next-tasks p (some u) = search call_rules

    go_on-tasks :
        (t : Thread) (end : End) (ticks : Bool) → Keeps tasks_of (go_on lib host decode t end ticks)
    unfolding go_on stats_round pot_wait_begin
    go_on-tasks (run_handle p) end ticks = run_thread-tasks p
    go_on-tasks (pot_wait id se) end ticks = record { at = λ d. refl }
    go_on-tasks (pot_waiting p se) end ticks = pot_waiting-tasks p se end
    go_on-tasks (recover_wait id se) end ticks = recover_round-tasks id se ticks
    go_on-tasks (stats_loop p) end ticks = search (call_rules, sample-tasks, stats_next-tasks)

    pub resume_with-tasks :
        (t : Option Thread) (n : ℕ) (end : End) (ticks : Bool)
        → Keeps tasks_of (resume_with lib host decode t n end ticks)
    resume_with-tasks none n end ticks = search call_rules
    resume_with-tasks (some t) n end ticks = search (call_rules, go_on-tasks)
