-- ===== src/Driver/System/Moves.antt =====
-- The calls and the rounds of the goroutines, from a state of the driver to a later one.
use nomad_pot_driver.Base.{
  ◌≡◌, set, refl, ap, inl, inr, Option, none, some, ℤ, arith, get_elem?, Option-cases, Bool-cases,
}
use nomad_pot_driver.Text.Split.{Text}
use nomad_pot_driver.Types.{NomadConfig, Syexec, Libs}
use nomad_pot_driver.Machine.{Host, Pot, Act, End, clean, exit_error, io_error, start_error}
use nomad_pot_driver.Pot.Run.{destroy_container}
use nomad_pot_driver.Handle.{Handle, run}
use nomad_pot_driver.Driver.State.{
  Driver, Thread, Ref, Result, value, error, call, load, spawn, find_task,
}
use nomad_pot_driver.Driver.Start.{start_task, given}
use nomad_pot_driver.Driver.Start.Frame.{call-blank, given-blank}
use nomad_pot_driver.Driver.Start.Cases.{start_task_cases}
use nomad_pot_driver.Driver.Wait.{
  set_code, set_done, run_thread, destroy_handle, set_wait_code, pot_wait_end, recover_tick,
  recover_wait_end, last_code, ask_last_code,
}
use nomad_pot_driver.Outcome.{Outcome-cases}
use nomad_pot_driver.Pot.Query.{container_stats}
use nomad_pot_driver.Driver.Stats.{sample}
use nomad_pot_driver.Driver.Wait.Destroy.{destroy_handle_again, destroy_handle_first}
use nomad_pot_driver.Driver.System.Later.{
  Later-trans, Later, Later-refl, Later-frame, Later-store, Later-add, Later-delete, Moves,
  Moves-Keeps, Moves-bind, moves_rules,
}

pub call-Moves {ℓ} : {A : Type ℓ} (se : Syexec) (m : Act Pot A) → Moves (call se m)
call-Moves se m = Moves-Keeps _ (call-blank se m)

pub given-Moves {ℓ} : {A : Type ℓ} (r : Result A) → Moves (given r)
given-Moves r = Moves-Keeps _ (given-blank r)

pub load-Moves : (p : Option Ref) → Moves (load p)
load-Moves none = record { at = λ d. Later-refl d }
load-Moves (some p) = record { at = λ d. Later-frame (ground arith) (ground arith) }

pub find_task-Moves : (id : Text) → Moves (find_task id)
find_task-Moves id = record { at = λ d. Later-frame (ground arith) (ground arith) }

pub spawn-Moves : (t : Thread) → Moves (spawn t)
spawn-Moves t = record { at = λ d. Later-frame refl refl }

pub set_code-Moves : (p : Ref) (code : ℤ) → Moves (set_code p code)
unfolding set_code
set_code-Moves p code = record {
  at = λ d. elim (Option-cases (get_elem? d.handles p)) [
    | inl lost ↦ rw lost (Later-refl d)
    | inr (h, known) ↦ elim (Option-cases h.exit_result) [
      | inl absent ↦ rw (known, absent) (Later-refl d)
      | inr (r, is_r) ↦ rw (known, is_r) (Later-store d p h _ known refl (λ c. c))
    ]
  ];
}

pub set_done-Moves : (p : Ref) → Moves (set_done p)
unfolding set_done
set_done-Moves p = record {
  at = λ d. elim (Option-cases (get_elem? d.handles p)) [
    | inl lost ↦ rw lost (Later-refl d)
    | inr (h, known) ↦ rw known (Later-store d p h _ known refl (λ c. c))
  ];
}

pub last_code-Moves : (p : Ref) (r : Result ℤ) → Moves (last_code p r)
last_code-Moves p (value code) = set_code-Moves p code
last_code-Moves p (error e) = record { at = λ d. Later-refl d }

pub ruleset step_rules = (
  moves_rules, call-Moves, given-Moves, load-Moves, find_task-Moves, spawn-Moves, set_code-Moves,
  set_done-Moves, last_code-Moves,
)

monitored :
    (d : Driver) (p : Ref) (h : Handle) (r : Pot)
    → get_elem? d.handles p ≡ some h
    → Later d (record d { log = r.log; handles = set d.handles p (record h { syexec = r.se }) })
monitored d p h r known =
    Later-trans {d' = record d { log = r.log }} (Later-frame refl refl)
      (Later-store _ p h _ known refl (λ c. c))

module _ (lib : Libs) (host : Host) where
  pub destroy_handle-Moves : (p : Ref) (se : Syexec) → Moves (destroy_handle lib host p se)
  unfolding destroy_handle destroy_container
  destroy_handle-Moves p se = record {
    at = λ d. elim (Option-cases (get_elem? d.handles p)) [
      | inl lost ↦ rw lost (Later-refl d)
      | inr (h, known) ↦ elim (Bool-cases h.called_destroy) [
        | inl called ↦ rw (destroy_handle_again lib host p se d h known called) (Later-refl d)
        | inr new ↦ elim (destroy_handle_first lib host p se d h known new) [
          | inl (pid, ran, same) ↦ rw same (
              Later-trans {d' = record d { log = _ }} (Later-frame refl refl)
                (Later-store _ p h _ known refl (λ c. refl)))
          | inr (lost, panics) ↦ Later-frame (ground arith) (ground arith)
        ]
      ]
    ];
  }

  pub run_thread-Moves : (p : Ref) → Moves (run_thread lib host p)
  unfolding run_thread run
  run_thread-Moves p = record {
    at = λ d. elim (Option-cases (get_elem? d.handles p)) [
      | inl lost ↦ rw lost (Later-refl d)
      | inr (h, known) ↦ elim (Option-cases h.syexec.exit_error) [
        | inl fine ↦ rw (known, fine) (Later-store d p h _ known refl (λ c. c))
        | inr (e, bad) ↦ rw (known, bad) (Later-store d p h _ known refl (λ c. c))
      ]
    ];
  }

  ask_last_code-Moves : (p : Ref) (se : Syexec) → Moves (ask_last_code lib host p se)
  ask_last_code-Moves p se = search step_rules

  set_wait_code-Moves :
      (p : Ref) (se : Syexec) (end : End) → Moves (set_wait_code lib host p se end)
  unfolding set_wait_code
  set_wait_code-Moves p se clean = search step_rules
  set_wait_code-Moves p se (exit_error ws) = search (step_rules, ask_last_code-Moves)
  set_wait_code-Moves p se io_error = search step_rules
  set_wait_code-Moves p se start_error = search step_rules

  pub pot_wait_end-Moves :
      (p : Option Ref) (se : Syexec) (end : End) → Moves (pot_wait_end lib host p se end)
  unfolding pot_wait_end
  pot_wait_end-Moves none se end = record { at = λ d. Later-refl d }
  pot_wait_end-Moves (some p) se end =
      search (step_rules, set_wait_code-Moves, destroy_handle-Moves)

  pub recover_tick-Moves : (se : Syexec) → Moves (recover_tick lib host se)
  unfolding recover_tick
  recover_tick-Moves se = search step_rules

  pub recover_wait_end-Moves :
      (p : Option Ref) (se : Syexec) → Moves (recover_wait_end lib host p se)
  unfolding recover_wait_end
  recover_wait_end-Moves none se = record { at = λ d. Later-refl d }
  recover_wait_end-Moves (some p) se = search (step_rules, destroy_handle-Moves) depth 12

  pub start_task-Moves : (cfg : NomadConfig) → Moves (start_task lib host cfg)
  start_task-Moves cfg = record {
    at = λ d. elim (start_task_cases lib host cfg d) [
      | inl (p, known, same) ↦ rw same (Later-refl d)
      | inr (inl (fresh, (th, is_ok, a))) ↦ Later-add d _ _ a.tasks a.handles
      | inr (inr (fresh, fails, same)) ↦
          Later-frame (ap (λ (x : Driver). x.tasks) same) (ap (λ (x : Driver). x.handles) same)
    ];
  }

  pub sample-Moves : (p : Ref) → Moves (sample lib host p)
  unfolding sample
  sample-Moves p = record {
    at = λ d. elim (Option-cases (get_elem? d.handles p)) [
      | inl lost ↦ rw lost (Later-refl d)
      | inr (h, known) ↦
          let asked : Pot = record { se = h.syexec; log = d.log } in
          let r : Pot = (container_stats lib host h.task_config asked).1 in
          elim (Outcome-cases (container_stats lib host h.task_config asked).0) [
            | inl (stats, good) ↦ rw (known, good) (monitored d p h r known)
            | inr (inl (e, bad)) ↦ rw (known, bad) (monitored d p h r known)
            | inr (inr (e, bad)) ↦ rw (known, bad) (Later-frame refl refl)
          ]
    ];
  }
