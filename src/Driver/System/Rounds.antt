-- ===== src/Driver/System/Rounds.antt =====
-- The rounds of a new task's goroutines, one after another.
use nomad_pot_driver.Base.{
  ℕ, ◌≡◌, refl, sym, ap, ◌∙◌, inl, inr, Bool, Option, some, List, [], ◌∷◌, ◌++◌, length, get_elem?,
  set, Option-cases, get_elem?-set_known, append-nil,
}
use nomad_pot_driver.Text.Split.{Text}
use nomad_pot_driver.Outcome.{Outcome, ok}
use nomad_pot_driver.Types.{NomadConfig, Syexec, Libs}
use nomad_pot_driver.Machine.{Host, End}
use nomad_pot_driver.Store.{Store, get}
use nomad_pot_driver.Handle.{Handle, ExitResult, run}
use nomad_pot_driver.Driver.State.{Driver, Thread, run_handle, pot_wait, pot_waiting}
use nomad_pot_driver.Driver.Start.{new_handle}
use nomad_pot_driver.Driver.Wait.{run_thread, pot_wait_begin, pot_wait_end}
use nomad_pot_driver.Driver.Wait.Frame.{pot_wait_end-aside}
use nomad_pot_driver.Driver.Wait.Returns.{CanStart, pot_wait_end_returns}
use nomad_pot_driver.Driver.Wait.Codes.{expected_code, finished, pot_wait_end-finished}
use nomad_pot_driver.Driver.System.{perform, go_on, resume, remove}

get_elem?-middle {ℓ} :
    {A : Type ℓ} (xs : List A) (x : A) (ys : List A) → get_elem? (xs ++ x ∷ ys) (length xs) ≡ some x
get_elem?-middle [] x ys = refl
get_elem?-middle (y ∷ xs) x ys = get_elem?-middle xs x ys

remove-middle :
    (xs : List Thread) (t : Thread) (ys : List Thread)
    → remove (xs ++ t ∷ ys) (length xs) ≡ xs ++ ys
remove-middle [] t ys = refl
remove-middle (x ∷ xs) t ys = ap (λ zs. x ∷ zs) (remove-middle xs t ys)

-- The exit result that `run` makes.
run-exit_result :
    (now : ℕ) (h : Handle)
    → (r : ExitResult) × ((run now h).exit_result ≡ some r)
      × (r.exit_code ≡ h.syexec.exit_code)
      × ((run now h).task_config ≡ h.task_config)
unfolding run
run-exit_result now h = elim (Option-cases h.syexec.exit_error) [
  | inl fine ↦ rw fine (_, refl, refl, refl)
  | inr (e, bad) ↦ rw bad (_, refl, refl, refl)
]

module _ (lib : Libs) (host : Host) (decode : Text → Option Bool) where
  -- The goroutine behind `xs` goes on.
  pub resume_lem :
      (xs : List Thread) (t : Thread) (ys : List Thread) (end : End) (ticks : Bool) (d : Driver)
      → d.threads ≡ xs ++ t ∷ ys
      → perform lib host decode (resume (length xs) end ticks) d
        ≡ go_on lib host decode t end ticks (record d { threads = xs ++ ys })
  unfolding perform
  resume_lem xs t ys end ticks d e =
      let found : get_elem? d.threads (length xs) ≡ some t = rw e (get_elem?-middle xs t ys) in
      let rest : remove d.threads (length xs) ≡ xs ++ ys = rw e (remove-middle xs t ys) in
      rw found (ap (λ ts. go_on lib host decode t end ticks (record d { threads = ts })) rest)

  pub run_thread_lem :
      (p : ℕ) (d : Driver) (h : Handle)
      → get_elem? d.handles p ≡ some h
      → run_thread lib host p d
        ≡ (ok tt, record d { handles = set d.handles p (run (host.now d.log) h) })
  unfolding run_thread
  run_thread_lem p d h known = rw known refl

  -- The three rounds of the goroutines at the place `n`.
  abbrev pub three_rounds :
      ℕ → End → End → End → Bool → Bool → Bool → Driver → Outcome (Unit {0}) × Driver
  three_rounds n e₁ e₂ end b₁ b₂ b₃ d =
      let d₂ = (perform lib host decode (resume n e₁ b₁) d).1 in
      let d₃ = (perform lib host decode (resume n e₂ b₂) d₂).1 in
      perform lib host decode (resume n end b₃) d₃

  -- A driver with one new task, whose goroutines `run` and potWait are the last ones.
  module _ (cfg : NomadConfig) (se : Syexec) (now p : ℕ) (xs : List Thread) (d : Driver)
      (threads : d.threads ≡ xs ++ run_handle p ∷ pot_wait cfg.id se ∷ [])
      (handle : get_elem? d.handles p ≡ some (new_handle cfg se now))
      (task : get d.tasks cfg.id ≡ some p) where
    abbrev pub ran : Handle
    ran = run (host.now d.log) (new_handle cfg se now)

    abbrev pub after_run : Driver
    after_run = record d { threads = xs ++ pot_wait cfg.id se ∷ []; handles = set d.handles p ran }

    abbrev pub after_look_up : Driver
    after_look_up = record after_run { threads = xs ++ pot_waiting (some p) se ∷ [] }

    abbrev before_end : Driver
    before_end = record after_run { threads = xs ++ [] }

    first_resume :
        (end : End) (ticks : Bool)
        → perform lib host decode (resume (length xs) end ticks) d ≡ (ok tt, after_run)
    unfolding go_on
    first_resume end ticks =
        resume_lem xs (run_handle p) (pot_wait cfg.id se ∷ []) end ticks d threads
        ∙ run_thread_lem p _ (new_handle cfg se now) handle

    second_resume :
        (end : End) (ticks : Bool)
        → perform lib host decode (resume (length xs) end ticks) after_run ≡ (ok tt, after_look_up)
    unfolding go_on pot_wait_begin
    second_resume end ticks =
        resume_lem xs (pot_wait cfg.id se) [] end ticks after_run refl
        ∙ rw (task, append-nil xs) refl

    third_resume :
        (end : End) (ticks : Bool)
        → perform lib host decode (resume (length xs) end ticks) after_look_up
          ≡ pot_wait_end lib host (some p) se end (record after_run { threads = xs ++ [] })
    unfolding go_on
    third_resume end ticks = resume_lem xs (pot_waiting (some p) se) [] end ticks after_look_up refl

    pub three_resumes :
        (end e₁ e₂ : End) (b₁ b₂ b₃ : Bool)
        → three_rounds (length xs) e₁ e₂ end b₁ b₂ b₃ d
          ≡ pot_wait_end lib host (some p) se end before_end
    three_resumes end e₁ e₂ b₁ b₂ b₃ =
        let n = length xs in
        let state = λ (r : Outcome (Unit {0}) × Driver). r.1 in
        let resumed = λ (x : Driver). perform lib host decode (resume n end b₃) x in
        let looked_up = λ (x : Driver). resumed (perform lib host decode (resume n e₂ b₂) x).1 in
        ap looked_up (ap state (first_resume e₁ b₁))
        ∙ (ap resumed (ap state (second_resume e₂ b₂)) ∙ third_resume end b₃)

    -- The state that potWait leaves behind.
    pub waited :
        (end : End)
        → CanStart host
        → (d₄ : Driver) × (pot_wait_end lib host (some p) se end before_end ≡ (ok tt, d₄))
          × ((r : ExitResult) × (get_elem? d₄.handles p
                ≡ some (
                    finished lib host ran r
                      (expected_code lib host cfg se d.log end se.exit_code))))
          × (get d₄.tasks cfg.id ≡ some p)
    waited end can =
        let (r, is_r, code, config) = run-exit_result (host.now d.log) (new_handle cfg se now) in
        let is_ran = get_elem?-set_known d.handles p _ ran handle in
        let (d₄, e) = pot_wait_end_returns lib host can p se end before_end ran r is_ran is_r in
        let known : get_elem? d₄.handles p
            ≡ some (
                finished lib host ran r
                  (expected_code lib host ran.task_config se d.log end r.exit_code)) =
          pot_wait_end-finished lib host p se end before_end d₄ ran r is_ran is_r e in
        let tasks : d₄.tasks ≡ d.tasks =
          sym (ap (λ (x : Outcome (Unit {0}) × Driver). x.1.tasks) e)
          ∙ ap (λ (x : Store ℕ × List Thread). x.0)
              ((pot_wait_end-aside lib host p se end).at before_end) in
        let same : expected_code lib host ran.task_config se d.log end r.exit_code
            ≡ expected_code lib host cfg se d.log end se.exit_code =
          ap (λ c. expected_code lib host c se d.log end r.exit_code) config
          ∙ ap (λ c. expected_code lib host cfg se d.log end c) code in
        (
          d₄,
          e,
          (r, known ∙ ap (λ c. some (finished lib host ran r c)) same),
          ap (λ s. get s cfg.id) tasks ∙ task,
        )
