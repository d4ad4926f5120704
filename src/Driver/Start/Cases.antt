-- ===== src/Driver/Start/Cases.antt =====
-- What StartTask does, on every path.
use nomad_pot_driver.Base.{
  ℕ, ◌≡◌, refl, ap, ◌∙◌, ◌⊎◌, inl, inr, Bool, true, false, Option, none, some, List, [], ◌∷◌, ◌++◌,
  ℤ, is_zero, if◌then◌else◌, length, Bool-cases, Option-cases, append_assoc,
}
use nomad_pot_driver.Text.Split.{Text}
use nomad_pot_driver.Outcome.{Outcome, ok, err, already_started}
use nomad_pot_driver.Types.{NomadConfig, TaskConfig, TaskHandle, Syexec, Libs}
use nomad_pot_driver.Machine.{Host}
use nomad_pot_driver.Machine.Keeps.{Keeps, Fails, Reaches, Reaches-bind}
use nomad_pot_driver.Store.{get, put}
use nomad_pot_driver.Handle.{Handle}
use nomad_pot_driver.Driver.State.{Driver, Thread, run_handle, pot_wait}
use nomad_pot_driver.Driver.Start.{
  launch, adopt, enlist, encoded, register, start_new, start_task, start_unless, decoded,
  new_handle,
}
use nomad_pot_driver.Driver.Start.Frame.{blank, frame_rules, launch-blank, adopt-blank}

-- The threads of a new task: `run` only where the container was started, and `potWait`.
abbrev pub new_threads : Bool → ℕ → NomadConfig → Syexec → List Thread
new_threads true p cfg se = run_handle p ∷ pot_wait cfg.id se ∷ []
new_threads false p cfg se = pot_wait cfg.id se ∷ []

-- A task was added: a handle that runs and is not destroyed, under the task's id, and its threads.
pub record Added (cfg : NomadConfig) (d : Driver) (th : TaskHandle) (d' : Driver) : Type 0 where
  pub se : Syexec
  pub now : ℕ
  pub started : Bool
  pub tasks : d'.tasks ≡ put d.tasks cfg.id (length d.handles)
  pub handles : d'.handles ≡ d.handles ++ new_handle cfg se now ∷ []
  pub threads : d'.threads ≡ d.threads ++ new_threads started (length d.handles) cfg se
  pub enabled : d'.enabled ≡ d.enabled
  pub shut_down : d'.shut_down ≡ d.shut_down
  pub config : th.config ≡ cfg

-- Nothing but the log of what was run has changed.
abbrev pub Unchanged : Driver → Driver → Type 0
Unchanged d d' = blank d' ≡ blank d

abbrev pub Adds : NomadConfig → Driver → Outcome TaskHandle × Driver → Type 0
Adds cfg d r = (th : TaskHandle) × (r.0 ≡ ok th) × Added cfg d th r.1

-- What was added to a state with the same store, handles and threads was added to this one.
Added-Unchanged :
    (cfg : NomadConfig) (d t d' : Driver) (th : TaskHandle)
    → Unchanged d t
    → Added cfg t th d'
    → Added cfg d th d'
Added-Unchanged cfg d t d' th u a =
    let tasks : t.tasks ≡ d.tasks = ap (λ (x : Driver). x.tasks) u in
    let handles : t.handles ≡ d.handles = ap (λ (x : Driver). x.handles) u in
    let threads : t.threads ≡ d.threads = ap (λ (x : Driver). x.threads) u in
    record {
      se = a.se;
      now = a.now;
      started = a.started;
      tasks = rw (← tasks, ← handles) a.tasks;
      handles = rw (← handles) a.handles;
      threads = rw (← threads, ← handles) a.threads;
      enabled = a.enabled ∙ ap (λ (x : Driver). x.enabled) u;
      shut_down = a.shut_down ∙ ap (λ (x : Driver). x.shut_down) u;
      config = a.config;
    }

decoded-blank : (o : Option TaskConfig) → Keeps blank (decoded o)
decoded-blank none = search frame_rules
decoded-blank (some task) = search frame_rules

settled :
    (cfg : NomadConfig) (d : Driver) {r : Outcome TaskHandle × Driver} {N : Type 0}
    → N
    → ((t : Driver) × Unchanged d t × Adds cfg t r) ⊎ (Fails r.0 × Unchanged d r.1)
    → (N × Adds cfg d r) ⊎ (N × Fails r.0 × Unchanged d r.1)
settled cfg d {r} n (inl (t, u, (th, e, a))) = inl (n, (th, e, Added-Unchanged cfg d t r.1 th u a))
settled cfg d n (inr (f, u)) = inr (n, f, u)

module _ (lib : Libs) (host : Host) where
  encoded-blank :
      (o : Option Text) (cfg : NomadConfig) (se : Syexec) (h : Handle)
      → Keeps blank (encoded lib host o cfg se h)
  encoded-blank none cfg se h = search frame_rules
  encoded-blank (some bytes) cfg se h = search frame_rules

  begin-blank :
      (cfg : NomadConfig) (alive : ℤ) (se : Syexec)
      → Keeps blank (if is_zero alive then launch lib host cfg se else adopt cfg alive se)
  begin-blank cfg alive se = search (frame_rules, launch-blank, adopt-blank)

  enlist-Adds :
      (cfg : NomadConfig) (alive : ℤ) (se : Syexec) (now : ℕ) (bytes : Text)
      → Reaches blank (Adds cfg) (enlist cfg alive se now bytes)
  unfolding enlist
  enlist-Adds cfg alive se now bytes = record {
    at = λ d. elim (Bool-cases (is_zero alive)) [
      | inl new ↦ inl (
        d,
        refl,
        rw new (
          _,
          refl,
          record {
            se = se;
            now = now;
            started = true;
            tasks = refl;
            handles = refl;
            threads = append_assoc d.threads _ _;
            enabled = refl;
            shut_down = refl;
            config = refl;
          },
        ),
      )
      | inr old ↦ inl (
        d,
        refl,
        rw old (
          _,
          refl,
          record {
            se = se;
            now = now;
            started = false;
            tasks = refl;
            handles = refl;
            threads = refl;
            enabled = refl;
            shut_down = refl;
            config = refl;
          },
        ),
      )
    ];
  }

  register-Adds :
      (cfg : NomadConfig) (task : TaskConfig) (alive : ℤ) (se : Syexec)
      → Reaches blank (Adds cfg) (register lib host cfg task alive se)
  unfolding register
  register-Adds cfg task alive se = search (frame_rules, Reaches-bind, encoded-blank, enlist-Adds)

  start_new-Adds : (cfg : NomadConfig) → Reaches blank (Adds cfg) (start_new lib host cfg)
  unfolding start_new
  start_new-Adds cfg =
      search (frame_rules, Reaches-bind, decoded-blank, begin-blank, register-Adds) depth 9

  -- StartTask on an id that the store has returns an error and changes nothing, the log of
  -- commands included. On any other id it either adds one running task under this id, with its
  -- handle and its goroutines, or it returns no handle and leaves the store, the handles and the
  -- goroutines as they were.
  pub start_task_cases :
      (cfg : NomadConfig) (d : Driver)
      → let r = start_task lib host cfg d in
        ((p : ℕ) × (get d.tasks cfg.id ≡ some p) × (r ≡ (err (already_started cfg.id), d)))
        ⊎ ((get d.tasks cfg.id ≡ none) × Adds cfg d r)
        ⊎ ((get d.tasks cfg.id ≡ none) × Fails r.0 × Unchanged d r.1)
  unfolding start_task
  start_task_cases cfg d = elim (Option-cases (get d.tasks cfg.id)) [
    | inr (p, known) ↦ inl (p, known, rw known)
    | inl fresh ↦ inr (rw (fresh, start_unless) (settled cfg d refl ((start_new-Adds cfg).at d)))
  ]
