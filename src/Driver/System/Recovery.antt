-- ===== src/Driver/System/Recovery.antt =====
-- A recovered task from the last round of recoverWait on.
use nomad_pot_driver.Driver.Wait.Frame.{recover_wait_end-aside}
use nomad_pot_driver.Base.{
  sym, List, ℕ, ◌≡◌, ap, ◌∙◌, Bool, true, false, not, ◌&&◌, if◌then◌else◌, Option, some, get_elem?,
}
use nomad_pot_driver.Text.Split.{Text}
use nomad_pot_driver.Outcome.{Outcome, ok}
use nomad_pot_driver.Types.{Syexec, Libs}
use nomad_pot_driver.Machine.{Host, End, ◌>>=◌, continue}
use nomad_pot_driver.Store.{Store, get}
use nomad_pot_driver.Handle.{Handle, ExitResult}
use nomad_pot_driver.Driver.State.{Thread, Driver, Ref, recover_wait}
use nomad_pot_driver.Driver.Wait.{recover_tick, recover_wait_end}
use nomad_pot_driver.Driver.Wait.Codes.{Destroys, finished}
use nomad_pot_driver.Driver.Wait.Returns.{CanStart}
use nomad_pot_driver.Driver.Wait.Recovered.{last_run_code, recover_wait_end_returns}
use nomad_pot_driver.Driver.System.{
  perform, go_on, resume, remove, recover_round, recover_over, recover_next,
}
use nomad_pot_driver.Driver.System.Lost.{recover_tick-blank}

module _ (lib : Libs) (host : Host) (decode : Text → Option Bool) where
  -- The goroutine at a place ends, no other one starts or ends, and it leaves this handle behind; unless
  -- the handle's container was destroyed before, `pot destroy` was run last.
  abbrev pub Leaves : ℕ → End → Bool → Driver → Ref → Handle → Syexec → Handle → Type 0
  Leaves n end ticks d p before se h =
      (d' : Driver) × (perform lib host decode (resume n end ticks) d ≡ (ok tt, d'))
      × (d'.threads ≡ remove d.threads n)
      × (get_elem? d'.handles p ≡ some h)
      × Destroys lib host before se d'

  recover_over_returns :
      (id : Text) (p : Ref) (se : Syexec) (d : Driver) (h : Handle) (r : ExitResult)
      → CanStart host
      → get d.tasks id ≡ some p
      → get_elem? d.handles p ≡ some h
      → h.exit_result ≡ some r
      → (d' : Driver) × (recover_over lib host decode id se d ≡ (ok tt, d'))
        × (d'.threads ≡ d.threads)
        × (get_elem? d'.handles p
            ≡ some (finished lib host h r (last_run_code lib host h se d.log)))
        × Destroys lib host h se d'
  unfolding recover_over
  recover_over_returns id p se d h r can task known is_r =
      let (d', e, end, gone) = recover_wait_end_returns lib host p se d h r can known is_r in
      let aside' : d'.threads ≡ d.threads =
        ap (λ (x : Outcome (Unit {0}) × Driver). x.1.threads) (sym e)
        ∙ ap (λ (x : Store ℕ × List Thread). x.1)
            ((recover_wait_end-aside lib host (some p) se).at d) in
      (d', ap (λ q. recover_wait_end lib host q se d) task ∙ e, aside', end, gone)

  round_down :
      (id : Text) (se : Syexec) (d : Driver)
      → d.shut_down ≡ true
      → recover_round lib host decode id se false d ≡ recover_over lib host decode id se d
  unfolding recover_round
  round_down id se d down =
      ap
        (λ b.
          (if b && not false
              then recover_over lib host decode id se
              else recover_tick lib host se >>= recover_next lib host decode id)
            d)
        down

  round_over :
      (id : Text) (se se' : Syexec) (ticks : Bool) (d : Driver)
      → d.shut_down ≡ false
      → (recover_tick lib host se d).0 ≡ ok (true, se')
      → recover_round lib host decode id se ticks d
        ≡ recover_over lib host decode id se' (recover_tick lib host se d).1
  unfolding recover_round
  round_over id se se' ticks d up over =
      ap
        (λ b.
          (if b && not ticks
              then recover_over lib host decode id se
              else recover_tick lib host se >>= recover_next lib host decode id)
            d)
        up
      ∙ ap (λ r. continue r (recover_next lib host decode id) (recover_tick lib host se d).1) over

  -- Where the driver is shut down, recoverWait receives this, its task is in the store with an
  -- exit result and the program `pot` can be started, the round ends the goroutine, whether the
  -- container still runs or not: it is taken out of the goroutines, and none is added. The task
  -- is exited then, with the code of `pot last-run-stats` or 255. The flag of the destruction
  -- is set, and, unless it was set before, the last command that was run is the forced `pot
  -- destroy`.
  pub shutdown_ends :
      (id : Text) (n p : ℕ) (se : Syexec) (end : End) (d : Driver) (h : Handle) (r : ExitResult)
      → CanStart host
      → d.shut_down ≡ true
      → get_elem? d.threads n ≡ some (recover_wait id se)
      → get d.tasks id ≡ some p
      → get_elem? d.handles p ≡ some h
      → h.exit_result ≡ some r
      → Leaves n end false d p h se (finished lib host h r (last_run_code lib host h se d.log))
  unfolding perform go_on
  shutdown_ends id n p se end d h r can down waits task known is_r =
      let d₁ : Driver = record d { threads = remove d.threads n } in
      let (d', e, kept, found, gone) = recover_over_returns id p se d₁ h r can task known is_r in
      (d', rw waits (round_down id se d₁ down ∙ e), kept, found, gone)

  -- Where recoverWait waits for the container of a task that the store has, whose handle has an
  -- exit result, the driver is not shut down and the program `pot` can be started, the round at
  -- whose tick the container is gone ends the goroutine: it is taken out of the goroutines, and
  -- none is added. The task is exited then, with the code of `pot last-run-stats`, or with 255
  -- where this gave none. The flag of the destruction is set, and, unless it was set before,
  -- the last command that was run is the forced `pot destroy`.
  pub recovered_ends :
      (id : Text) (n p : ℕ) (se se' : Syexec) (end : End) (ticks : Bool) (d : Driver) (h : Handle)
      (r : ExitResult)
      → CanStart host
      → d.shut_down ≡ false
      → get_elem? d.threads n ≡ some (recover_wait id se)
      → get d.tasks id ≡ some p
      → get_elem? d.handles p ≡ some h
      → h.exit_result ≡ some r
      → let tick = recover_tick lib host se (record d { threads = remove d.threads n }) in
        tick.0 ≡ ok (true, se')
        → Leaves n end ticks d p h se'
            (finished lib host h r (last_run_code lib host h se' tick.1.log))
  unfolding perform go_on
  recovered_ends id n p se se' end ticks d h r can up waits task known is_r over =
      let d₁ : Driver = record d { threads = remove d.threads n } in
      let tick = recover_tick lib host se d₁ in
      let same = (recover_tick-blank lib host decode se).at d₁ in
      let task' : get tick.1.tasks id ≡ some p = ap (λ (x : Driver). get x.tasks id) same ∙ task in
      let known' : get_elem? tick.1.handles p ≡ some h =
        ap (λ (x : Driver). get_elem? x.handles p) same ∙ known in
      let (d', e, kept, found, gone) =
        recover_over_returns id p se' tick.1 h r can task' known' is_r in
      (
        d',
        rw waits (round_over id se se' ticks d₁ up over ∙ e),
        kept ∙ ap (λ (x : Driver). x.threads) same,
        found,
        gone,
      )
