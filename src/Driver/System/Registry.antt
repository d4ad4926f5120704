-- ===== src/Driver/System/Registry.antt =====
-- What Nomad sees of the task store: which ids it has, and which handle each of them has.
use nomad_pot_driver.Base.{
  ◌≡◌, ◌⊎◌, inl, inr, refl, sym, ap, subst, length, ◌∙◌, Bool, Option, none, some, arith, get_elem?,
  Option-cases, if◌then◌else◌,
}
use nomad_pot_driver.Text.Split.{Text, text_eq, text_eq_iff}
use nomad_pot_driver.Outcome.{
  Outcome, ok, err, panic, task_not_found, running_task, nil_dereference,
}
use nomad_pot_driver.Types.{NomadConfig, TaskHandle, Libs}
use nomad_pot_driver.Machine.{Host, Act, pure, continue}
use nomad_pot_driver.Machine.Keeps.{Keeps, Fails}
use nomad_pot_driver.Store.{get, delete, get-put, get-delete}
use nomad_pot_driver.Driver.State.{Driver, Ref}
use nomad_pot_driver.Driver.Start.{start_task}
use nomad_pot_driver.Driver.Start.Cases.{start_task_cases}
use nomad_pot_driver.Driver.Recover.{recover_task}
use nomad_pot_driver.Driver.Recover.Cases.{recover_task_cases}
use nomad_pot_driver.Driver.Tasks.{destroy_task, inspect_task, exec_task}
use nomad_pot_driver.Driver.Tasks.Calls.{destroy_task_lem}
use nomad_pot_driver.Driver.Plugin.{shutdown}
use nomad_pot_driver.Driver.Wait.Frame.{tasks_of}
use nomad_pot_driver.Driver.System.{
  Event, start, recover, stop, inspect, stats, destroy, signal, exec, configure, shut, resume,
  perform, ignore,
}
use nomad_pot_driver.Driver.System.Frame.{
  set_config-tasks, stop_task-tasks, task_stats-tasks, signal_task-tasks, inspect_task-tasks,
  exec_task-tasks, resume_with-tasks,
}

-- The handle of each id, if it has one.
abbrev pub Registry : Type 0
Registry = Text → Option Ref

abbrev pub registry : Driver → Registry
registry d id = get d.tasks id

abbrev pub Same : Registry → Registry → Type 0
Same m m' = (j : Text) → m' j ≡ m j

abbrev pub Sets : Text → Option Ref → Registry → Registry → Type 0
Sets id v m m' = (j : Text) → m' j ≡ (if text_eq id j then v else m j)

abbrev pub Has : Text → Registry → Type 0
Has id m = (p : Ref) × (m id ≡ some p)

abbrev pub Succeeds : Outcome (Unit {0}) → Type 0
Succeeds (ok u) = Unit
Succeeds _ = ⊥

-- An id is new, and gets a handle.
abbrev pub Registers : Text → Registry → Registry → Type 0
Registers id m m' = (m id ≡ none) × ((p : Ref) × Sets id (some p) m m')

-- What an event with a result may do to the registry.
abbrev pub Allows : Event → Outcome (Unit {0}) → Registry → Registry → Type 0
Allows (start cfg) r m m' = (Succeeds r × Registers cfg.id m m') ⊎ (Fails r × Same m m')
Allows (recover none) r m m' = Fails r × Same m m'
Allows (recover (some handle)) r m m' =
    (Succeeds r × Has handle.config.id m × Same m m')
    ⊎ (Succeeds r × (m handle.config.id ≡ none) × ((id : Text) × (p : Ref) × Sets id (some p) m m'))
    ⊎ (Fails r × Same m m')
Allows (destroy id force) r m m' =
    (Succeeds r × Has id m × Sets id none m m') ⊎ (Fails r × Same m m')
Allows _ r m m' = Same m m'

Keeps-Same {ℓ} :
    {A : Type ℓ} (m : Act Driver A)
    → Keeps tasks_of m
    → (d : Driver) → Same (registry d) (registry (m d).1)
Keeps-Same m k d j = ap (λ s. get s j) (k.at d)

-- A call whose value is not looked at fails where the call fails, and succeeds where it succeeds.
ignored-Fails {ℓ} :
    {A : Type ℓ} (r : Outcome A) (d : Driver)
    → Fails r
    → Fails (continue r (λ a. pure {S = Driver} (tt {0})) d).0
ignored-Fails (ok a) d f = f
ignored-Fails (err e) d f = tt
ignored-Fails (panic p) d f = tt

ignored-state {ℓ} :
    {A : Type ℓ} (r : Outcome A) (d : Driver)
    → (continue r (λ a. pure {S = Driver} (tt {0})) d).1 ≡ d
ignored-state (ok a) d = refl
ignored-state (err e) d = refl
ignored-state (panic p) d = refl

module _ {ℓ} {A : Type ℓ} (m : Act Driver A) (d : Driver) where
  ignore-Fails : Fails (m d).0 → Fails (ignore m d).0
  ignore-Fails f = ignored-Fails (m d).0 (m d).1 f

  ignore-Succeeds : (a : A) → (m d).0 ≡ ok a → Succeeds (ignore m d).0
  ignore-Succeeds a e =
      subst (λ (r : Outcome A). Succeeds (continue r (λ a. pure {S = Driver} (tt {0})) (m d).1).0)
        (sym e) tt

  -- The registry after the call, given the state after it.
  ignore-at : (j : Text) → registry (ignore m d).1 j ≡ registry (m d).1 j
  ignore-at j = ap (λ (x : Driver). registry x j) (ignored-state (m d).0 (m d).1)

delete-fresh :
    (d : Driver) (id j : Text) → get d.tasks id ≡ none → get (delete d.tasks id) j ≡ get d.tasks j
delete-fresh d id j fresh = ground (arith, get-delete d.tasks id j, text_eq_iff id j)

-- A call that failed and changed nothing.
refused :
    (r : Outcome (Unit {0}) × Driver) (x : Outcome (Unit {0})) (d : Driver)
    → Fails x
    → r ≡ (x, d)
    → Fails r.0 × Same (registry d) (registry r.1)
refused r x d f e = (
  subst (λ (y : Outcome (Unit {0}) × Driver). Fails y.0) (sym e) f,
  λ j. ap (λ (y : Outcome (Unit {0}) × Driver). registry y.1 j) e,
)

module _ (lib : Libs) (host : Host) (decode : Text → Option Bool) where
  start-Allows :
      (cfg : NomadConfig) (d : Driver)
      → let r = ignore (start_task lib host cfg) d in
        Allows (start cfg) r.0 (registry d) (registry r.1)
  start-Allows cfg d =
      let m = start_task lib host cfg in
      elim (start_task_cases lib host cfg d) [
        | inl (p, known, same) ↦ inr (
          ignore-Fails m d (subst (λ (x : Outcome TaskHandle × Driver). Fails x.0) (sym same) tt),
          λ j. ignore-at m d j ∙ ap (λ (x : Outcome TaskHandle × Driver). registry x.1 j) same,
        )
        | inr (inl (fresh, (th, is_ok, a))) ↦ inl (
          ignore-Succeeds m d th is_ok,
          (
            fresh,
            (
              length d.handles,
              λ j.
                  ignore-at m d j
                  ∙ (ap (λ s. get s j) a.tasks ∙ get-put d.tasks cfg.id j (length d.handles)),
            ),
          ),
        )
        | inr (inr (fresh, fails, same)) ↦
            inr (
              ignore-Fails m d fails,
              λ j. ignore-at m d j ∙ ap (λ (x : Driver). registry x j) same,
            )
      ]

  recover-Allows :
      (handle : TaskHandle) (d : Driver)
      → let r = ignore (recover_task lib host (some handle)) d in
        Allows (recover (some handle)) r.0 (registry d) (registry r.1)
  recover-Allows handle d =
      let m = recover_task lib host (some handle) in
      let id = handle.config.id in
      elim (recover_task_cases lib host handle d) [
        | inl (p, known, same) ↦ inl (
          ignore-Succeeds m d handle (ap (λ (x : Outcome TaskHandle × Driver). x.0) same),
          (p, known),
          λ j. ignore-at m d j ∙ ap (λ (x : Outcome TaskHandle × Driver). registry x.1 j) same,
        )
        | inr (fresh, inl (runs, (th, se, h, is_ok, f, s, same))) ↦ inr (
            inl (
              ignore-Succeeds m d th is_ok,
              fresh,
              (
                h.task_config.id,
                length d.handles,
                λ j.
                    ignore-at m d j
                    ∙ (ap (λ (x : Driver). registry x j) same
                        ∙ get-put d.tasks h.task_config.id j (length d.handles)),
              ),
            ))
        | inr (fresh, inr (inl (gone, (is_err, same)))) ↦ inr (
            inr (
              ignore-Fails m d (subst Fails (sym is_err) tt),
              λ j.
                  ignore-at m d j
                  ∙ (ap (λ (x : Driver). registry x j) same ∙ delete-fresh d id j fresh),
            ))
        | inr (fresh, inr (inr (fails, same))) ↦ inr (
            inr (
              ignore-Fails m d fails,
              λ j. ignore-at m d j ∙ ap (λ (x : Driver). registry x j) same,
            ))
      ]

  destroy-Allows :
      (id : Text) (force : Bool) (d : Driver)
      → let r = destroy_task lib host id force d in
        Allows (destroy id force) r.0 (registry d) (registry r.1)
  unfolding destroy_task
  destroy-Allows id force d =
      let r = destroy_task lib host id force d in
      elim (Option-cases (get d.tasks id)) [
        | inl missing ↦ inr (refused r (err task_not_found) d tt (ground arith))
        | inr (p, known) ↦ elim (Option-cases (get_elem? d.handles p)) [
          | inl lost ↦ inr (refused r (panic nil_dereference) d tt (ground arith))
          | inr (h, is_h) ↦ elim (destroy_task_lem lib host id force d p h known is_h) [
            | inl (guarded, same) ↦ inr (refused r (err running_task) d tt same)
            | inr (allowed, same, others) ↦ inl (
              subst (λ (y : Outcome (Unit {0}) × Driver). Succeeds y.0) (sym same) tt,
              (p, known),
              λ j. ap (λ (y : Outcome (Unit {0}) × Driver). registry y.1 j) same ∙ others j,
            )
          ]
        ]
      ]

  -- Each call of Nomad and each round of a goroutine does to the registry, which gives each id
  -- its handle if it has one, what its result says. StartTask, where it succeeds, gives a
  -- handle to its id, which had none. RecoverTask, where it succeeds, leaves the registry as it
  -- is if its id has a handle, and otherwise gives a handle to one id. DestroyTask, where it
  -- succeeds, takes the handle from its id, which had one. Each of the three leaves the
  -- registry as it is where it fails, and all other steps leave it so.
  pub perform-Allows :
      (e : Event) (d : Driver)
      → let r = perform lib host decode e d in Allows e r.0 (registry d) (registry r.1)
  unfolding perform recover_task shutdown
  perform-Allows (start cfg) d = start-Allows cfg d
  perform-Allows (recover none) d = (tt, λ j. refl)
  perform-Allows (recover (some handle)) d = recover-Allows handle d
  perform-Allows (stop id) d = Keeps-Same _ (stop_task-tasks lib host id) d
  perform-Allows (inspect id) d = λ j.
      ignore-at (inspect_task lib host id) d j ∙ Keeps-Same _ (inspect_task-tasks lib host id) d j
  perform-Allows (stats id) d = Keeps-Same _ (task_stats-tasks lib host id) d
  perform-Allows (destroy id force) d = destroy-Allows id force d
  perform-Allows (signal id name) d = Keeps-Same _ (signal_task-tasks lib host id name) d
  perform-Allows (exec id command) d = λ j.
      ignore-at (exec_task lib host id command) d j
      ∙ Keeps-Same _ (exec_task-tasks lib host id command) d j
  perform-Allows (configure config) d = Keeps-Same _ (set_config-tasks decode config) d
  perform-Allows shut d = λ j. refl
  perform-Allows (resume n end ticks) d =
      Keeps-Same _ (resume_with-tasks lib host decode (get_elem? d.threads n) n end ticks) d
