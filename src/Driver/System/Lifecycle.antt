-- ===== src/Driver/System/Lifecycle.antt =====
-- A task from StartTask to its end, through the driver's goroutines.
use nomad_pot_driver.Base.{
  ℕ, ◌≡◌, refl, sym, ap, ◌∙◌, inl, inr, Bool, true, false, Option, some, List, [], ◌∷◌, ◌++◌, arith,
  length, get_elem?, get_elem?-append_end, subst,
}
use nomad_pot_driver.Text.Split.{Text}
use nomad_pot_driver.Outcome.{Outcome, ok, err, already_started}
use nomad_pot_driver.Types.{NomadConfig, TaskHandle, Syexec, Libs}
use nomad_pot_driver.Machine.{Log, Host, End}
use nomad_pot_driver.Store.{get, get-put_self}
use nomad_pot_driver.Handle.{Handle, ExitResult, TaskStatus, task_status, done}
use nomad_pot_driver.Driver.Tasks.{inspect_task}
use nomad_pot_driver.Driver.State.{Driver, run_handle, pot_wait}
use nomad_pot_driver.Driver.Start.{start_task, new_handle}
use nomad_pot_driver.Machine.Keeps.{Fails}
use nomad_pot_driver.Driver.Start.Cases.{Added, Adds, new_threads, start_task_cases}
use nomad_pot_driver.Driver.Wait.Returns.{CanStart}
use nomad_pot_driver.Driver.Wait.Codes.{expected_code, finished}
use nomad_pot_driver.Driver.System.Rounds.{three_rounds, three_resumes, waited, ran}

-- The goroutine `run` at the first new place was spawned by a StartTask that started the container.
new_threads-started :
    (b : Bool) (p : ℕ) (cfg : NomadConfig) (se : Syexec)
    → get_elem? (new_threads b p cfg se) 0 ≡ some (run_handle p)
    → b ≡ true
new_threads-started true p cfg se e = refl
new_threads-started false p cfg se e = grind arith

get_elem?-length-append {ℓ} :
    {A : Type ℓ} (xs ys : List A) → get_elem? (xs ++ ys) (length xs) ≡ get_elem? ys 0
get_elem?-length-append [] ys = refl
get_elem?-length-append (x ∷ xs) ys = get_elem?-length-append xs ys

pub launched-started :
    (cfg : NomadConfig) (th : TaskHandle) (d d₁ : Driver) (a : Added cfg d th d₁)
    → get_elem? d₁.threads (length d.threads) ≡ some (run_handle (length d.handles))
    → a.started ≡ true
launched-started cfg th d d₁ a e = new_threads-started a.started (length d.handles) cfg a.se (
    sym (get_elem?-length-append d.threads _)
    ∙ (ap (λ ts. get_elem? ts (length d.threads)) (sym a.threads) ∙ e))

-- A call that returned a handle added its task.
Adds-Added :
    (cfg : NomadConfig) (d d₁ : Driver) (th : TaskHandle) (r : Outcome TaskHandle × Driver)
    → r ≡ (ok th, d₁)
    → Adds cfg d r
    → (th' : TaskHandle) × Added cfg d th' d₁
Adds-Added cfg d d₁ th r e (th', is_ok, a) =
    (th', subst (Added cfg d th') (ap (λ (x : Outcome TaskHandle × Driver). x.1) e) a)

ok-Fails :
    (d₁ : Driver) (th : TaskHandle) (r : Outcome TaskHandle × Driver)
    → r ≡ (ok th, d₁)
    → Fails r.0
    → ⊥
ok-Fails d₁ th r e fails = subst Fails (ap (λ (x : Outcome TaskHandle × Driver). x.0) e) fails

module _ (lib : Libs) (host : Host) where
  -- What InspectTask says of an ended task: it is exited, with the exit code that belongs to the end of
  -- `pot start`.
  abbrev pub Exited : NomadConfig → Syexec → End → Log → Driver → Type 0
  Exited cfg se end log d =
      (status : TaskStatus) × (inspect_task lib host cfg.id d ≡ (ok status, d))
      × (status.state ≡ done)
      × ((r : ExitResult) × (status.exit_result ≡ some r)
          × (r.exit_code ≡ expected_code lib host cfg se log end se.exit_code))

  finished-Exited :
      (cfg : NomadConfig) (se : Syexec) (end : End) (log : Log) (h : Handle) (r : ExitResult)
      (p : ℕ) (d : Driver)
      → get_elem? d.handles p
        ≡ some (finished lib host h r (expected_code lib host cfg se log end se.exit_code))
      → get d.tasks cfg.id ≡ some p
      → Exited cfg se end log d
  unfolding inspect_task task_status
  finished-Exited cfg se end log h r p d known task =
      let code = expected_code lib host cfg se log end se.exit_code in
      (
        task_status (finished lib host h r code),
        rw (task, known) refl,
        refl,
        (record r { exit_code = code }, refl, refl),
      )

module _ (lib : Libs) (host : Host) (decode : Text → Option Bool) where
  pub started-Added :
      (cfg : NomadConfig) (th : TaskHandle) (d d₁ : Driver)
      → start_task lib host cfg d ≡ (ok th, d₁)
      → (th' : TaskHandle) × Added cfg d th' d₁
  started-Added cfg th d d₁ e = elim (start_task_cases lib host cfg d) [
    | inl (p, known, refused) ↦
        absurd (ok-Fails d₁ th (err (already_started cfg.id), d) (sym refused ∙ e) tt)
    | inr (inl (fresh, adds)) ↦ Adds-Added cfg d d₁ th _ e adds
    | inr (inr (fresh, fails, same)) ↦ absurd (ok-Fails d₁ th _ e fails)
  ]

  Added-ends :
      (cfg : NomadConfig) (th : TaskHandle) (end e₁ e₂ : End) (b₁ b₂ b₃ : Bool) (d d₁ : Driver)
      (a : Added cfg d th d₁)
      → CanStart host
      → a.started ≡ true
      → (d₄ : Driver) × (three_rounds lib host decode (length d.threads) e₁ e₂ end b₁ b₂ b₃ d₁
          ≡ (ok tt, d₄))
        × Exited lib host cfg a.se end d₁.log d₄
  Added-ends cfg th end e₁ e₂ b₁ b₂ b₃ d d₁ a can new =
      let p = length d.handles in
      let threads : d₁.threads ≡ d.threads ++ run_handle p ∷ pot_wait cfg.id a.se ∷ [] =
        a.threads ∙ rw new refl in
      let handle : get_elem? d₁.handles p ≡ some (new_handle cfg a.se a.now) =
        rw a.handles (get_elem?-append_end d.handles _) in
      let task : get d₁.tasks cfg.id ≡ some p = rw a.tasks (get-put_self d.tasks cfg.id p) in
      let (d₄, e, (r, known), found) =
        waited lib host decode cfg a.se a.now p d.threads d₁ threads handle task end can in
      (
        d₄,
        three_resumes lib host decode cfg a.se a.now p d.threads d₁ threads handle task end e₁ e₂ b₁
              b₂ b₃
            ∙ e,
        finished-Exited lib host cfg a.se end d₁.log
            (ran lib host decode cfg a.se a.now p d.threads d₁ threads handle task) r p d₄ known
            found,
      )

  -- The whole life of a task whose container StartTask starts, on a host where the program `pot` can
  -- be started. Where the task's goroutines run in turn, `run`, the look-up of potWait, and potWait
  -- when `pot start` has ended, the last of them comes to its end, and then InspectTask says that the
  -- task is exited, with the exit code that belongs to the end of `pot start`.
  pub task_ends :
      (cfg : NomadConfig) (th : TaskHandle) (end e₁ e₂ : End) (b₁ b₂ b₃ : Bool) (d d₁ : Driver)
      → CanStart host
      → start_task lib host cfg d ≡ (ok th, d₁)
      → get_elem? d₁.threads (length d.threads) ≡ some (run_handle (length d.handles))
      → (se : Syexec) × (now : ℕ) × (get_elem? d₁.handles (length d.handles)
          ≡ some (new_handle cfg se now))
        × ((d₄ : Driver) × (three_rounds lib host decode (length d.threads) e₁ e₂ end b₁ b₂ b₃ d₁
              ≡ (ok tt, d₄))
            × Exited lib host cfg se end d₁.log d₄)
  task_ends cfg th end e₁ e₂ b₁ b₂ b₃ d d₁ can started launched =
      let (th', a) = started-Added cfg th d d₁ started in
      (
        a.se,
        a.now,
        sym (ap (λ hs. get_elem? hs (length d.handles)) (sym a.handles))
            ∙ get_elem?-append_end d.handles _,
        Added-ends cfg th' end e₁ e₂ b₁ b₂ b₃ d d₁ a can (launched-started cfg th' d d₁ a launched),
      )
