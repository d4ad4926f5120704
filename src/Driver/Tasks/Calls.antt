-- ===== src/Driver/Tasks/Calls.antt =====
-- DestroyTask.
use nomad_pot_driver.Base.{
  ◌≡◌, ◌⊎◌, Bool, true, false, not, ◌&&◌, none, some, arith, get_elem?, if◌then◌else◌, Bool-cases,
  inl, inr,
}
use nomad_pot_driver.Text.Split.{Text, text_eq}
use nomad_pot_driver.Outcome.{ok, err, running_task}
use nomad_pot_driver.Types.{Libs}
use nomad_pot_driver.Machine.{Host}
use nomad_pot_driver.Store.{get, delete, get-delete}
use nomad_pot_driver.Handle.{Handle, is_running}
use nomad_pot_driver.Driver.State.{Driver, Ref}
use nomad_pot_driver.Driver.Tasks.{destroy_task}

module _ (lib : Libs) (host : Host) where
  -- DestroyTask of a known task refuses, changing nothing, if the task runs and is not forced.
  -- Otherwise it takes this id out of the store and no other, and leaves the handles, the
  -- goroutines and the log as they are.
  pub destroy_task_lem :
      (id : Text) (force : Bool) (d : Driver) (p : Ref) (h : Handle)
      → get d.tasks id ≡ some p
      → get_elem? d.handles p ≡ some h
      → ((is_running h && not force ≡ true)
          × (destroy_task lib host id force d ≡ (err running_task, d)))
        ⊎ ((is_running h && not force ≡ false)
            × (destroy_task lib host id force d ≡ (ok tt, record d { tasks = delete d.tasks id }))
            × ((j : Text)
                → get (delete d.tasks id) j ≡ (if text_eq id j then none else get d.tasks j)))
  unfolding destroy_task
  destroy_task_lem id force d p h known is_h = elim (Bool-cases (is_running h && not force)) [
    | inl refused ↦ inl (refused, ground arith)
    | inr allowed ↦ inr (allowed, ground arith, λ j. get-delete d.tasks id j)
  ]
