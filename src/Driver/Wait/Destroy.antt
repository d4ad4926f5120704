-- ===== src/Driver/Wait/Destroy.antt =====
-- destroyContainer of pot.go on the handle of a task.
use nomad_pot_driver.Base.{
  ◌≡◌, ◌⊎◌, inl, inr, true, false, none, some, List, [], ◌∷◌, ◌++◌, arith, ℤ, get_elem?, set,
  Option-cases, set-get_elem?, set-set,
}
use nomad_pot_driver.Text.Split.{Text, codes}
use nomad_pot_driver.Outcome.{ok, panic, nil_dereference}
use nomad_pot_driver.Types.{Syexec, Libs}
use nomad_pot_driver.Machine.{Host, Ran, pot_run}
use nomad_pot_driver.Pot.Run.{destroy_container, process_of}
use nomad_pot_driver.Handle.{Handle}
use nomad_pot_driver.Driver.State.{Driver, Ref, value}
use nomad_pot_driver.Driver.Wait.{destroy_handle}

module _ (lib : Libs) (host : Host) (p : Ref) (se : Syexec) (d : Driver) (h : Handle) where
  -- the arguments and the directory of the command, and what it does now
  abbrev pub destroy_args : List Text
  destroy_args = se.argv_destroy ++ codes "-F" ∷ []

  abbrev pub destroy_dir : Text
  destroy_dir = (lib.task_dir h.task_config).dir

  abbrev pub destroy_ran : Ran
  destroy_ran = host.run d.log destroy_args destroy_dir

  -- Where the container was already destroyed, nothing is run and nothing changes.
  pub destroy_handle_again :
      get_elem? d.handles p ≡ some h
      → h.called_destroy ≡ true
      → destroy_handle lib host p se d ≡ (ok (value (some true)), d)
  unfolding destroy_handle destroy_container
  destroy_handle_again known called = ground (arith, set-get_elem? d.handles p h)

  -- Where a handle's container was not destroyed yet, one command is run and the handle's flag is
  -- set, whatever the command's exit code, or, if the program could not be started at all, the
  -- driver panics.
  pub destroy_handle_first :
      get_elem? d.handles p ≡ some h
      → h.called_destroy ≡ false
      → ((pid : ℤ) × (process_of destroy_ran ≡ some pid)
          × (destroy_handle lib host p se d ≡ (
            ok (value (some true)),
            record d {
              log = pot_run destroy_args destroy_dir ∷ d.log;
              handles = set d.handles p (record h { called_destroy = true });
            },
          )))
        ⊎ ((process_of destroy_ran ≡ none)
            × ((destroy_handle lib host p se d).0 ≡ panic nil_dereference))
  unfolding destroy_handle destroy_container
  destroy_handle_first known called = elim (Option-cases (process_of destroy_ran)) [
    | inl lost ↦ inr (lost, ground arith)
    | inr (pid, ran) ↦ inl (
      pid,
      ran,
      ground (
        arith,
        set-set d.handles p (record h { called_destroy = true })
            (record h { called_destroy = true }),
      ),
    )
  ]
