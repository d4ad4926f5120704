-- ===== src/Driver/System/Lost.antt =====
-- recoverWait for a task that is no longer in the store.
use nomad_pot_driver.Base.{
  ℕ, ◌≡◌, ap, ◌∙◌, Bool, true, false, Option, none, some, get_elem?, arith, inl, inr, Option-cases,
}
use nomad_pot_driver.Text.Split.{Text, text_eq_refl}
use nomad_pot_driver.Outcome.{ok, panic, nil_dereference}
use nomad_pot_driver.Types.{Syexec, Libs}
use nomad_pot_driver.Machine.{Host, End}
use nomad_pot_driver.Machine.Keeps.{Keeps}
use nomad_pot_driver.Store.{get, get-delete}
use nomad_pot_driver.Driver.State.{Driver, recover_wait}
use nomad_pot_driver.Driver.Start.Frame.{blank, frame_rules}
use nomad_pot_driver.Driver.Wait.{recover_tick, recover_wait_end}
use nomad_pot_driver.Driver.Tasks.{destroy_task}
use nomad_pot_driver.Driver.System.{
  perform, destroy, resume, go_on, recover_round, recover_over, remove,
}
use nomad_pot_driver.Driver.System.Later.{IsValid}

module _ (lib : Libs) (host : Host) (decode : Text → Option Bool) where
  pub recover_tick-blank : (se : Syexec) → Keeps blank (recover_tick lib host se)
  unfolding recover_tick
  recover_tick-blank se = search frame_rules

  -- A forced DestroyTask takes the id out of the store, and the goroutines stay.
  forced_destroy :
      (id : Text) (d : Driver)
      → IsValid d
      → (get (perform lib host decode (destroy id true) d).1.tasks id ≡ none)
        × ((perform lib host decode (destroy id true) d).1.threads ≡ d.threads)
        × ((perform lib host decode (destroy id true) d).1.shut_down ≡ d.shut_down)
  unfolding perform destroy_task
  forced_destroy id d v = elim (Option-cases (get d.tasks id)) [
    | inl missing ↦ (ground arith, ground arith, ground arith)
    | inr (p, known) ↦
        let (h, is_h, _) = v.at id p known in
        (ground (arith, get-delete d.tasks id id, text_eq_refl id), ground arith, ground arith)
  ]

  -- The goroutine of a task that the store does not have, at its last tick.
  lost_round :
      (id : Text) (se se' : Syexec) (ticks : Bool) (d : Driver)
      → get d.tasks id ≡ none
      → d.shut_down ≡ false
      → (recover_tick lib host se d).0 ≡ ok (true, se')
      → (recover_round lib host decode id se ticks d).0 ≡ panic nil_dereference
  unfolding recover_round recover_over recover_wait_end
  lost_round id se se' ticks d missing up over =
      let tasks = ap (λ (x : Driver). x.tasks) ((recover_tick-blank se).at d) in ground arith

  lost_panics :
      (id : Text) (n : ℕ) (se se' : Syexec) (end : End) (ticks : Bool) (d : Driver)
      → get d.tasks id ≡ none
      → d.shut_down ≡ false
      → get_elem? d.threads n ≡ some (recover_wait id se)
      → (recover_tick lib host se (record d { threads = remove d.threads n })).0 ≡ ok (true, se')
      → (perform lib host decode (resume n end ticks) d).0 ≡ panic nil_dereference
  unfolding perform go_on
  lost_panics id n se se' end ticks d missing up waits over =
      rw waits
        (lost_round id se se' ticks (record d { threads = remove d.threads n }) missing up over)

  -- If a task is destroyed by force while recoverWait still waits for its container, and the driver
  -- is not shut down, the goroutine panics at the tick that finds the container gone.
  pub forced_destroy_panics :
      (id : Text) (n : ℕ) (se se' : Syexec) (end : End) (ticks : Bool) (d : Driver)
      → IsValid d
      → d.shut_down ≡ false
      → get_elem? d.threads n ≡ some (recover_wait id se)
      → let d' = (perform lib host decode (destroy id true) d).1 in
        (recover_tick lib host se (record d' { threads = remove d'.threads n })).0 ≡ ok (true, se')
        → (perform lib host decode (resume n end ticks) d').0 ≡ panic nil_dereference
  forced_destroy_panics id n se se' end ticks d v up waits over =
      let (missing, threads, shut) = forced_destroy id d v in
      lost_panics id n se se' end ticks (perform lib host decode (destroy id true) d).1 missing
        (shut ∙ up) (rw threads waits) over
