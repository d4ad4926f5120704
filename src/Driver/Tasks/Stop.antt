-- ===== src/Driver/Tasks/Stop.antt =====
-- StopTask: which commands it runs, and when.
use nomad_pot_driver.Base.{
  ◌≡◌, refl, sym, ap, ◌∙◌, inl, inr, true, false, some, ◌∷◌, arith, ℤ, get_elem?, set, Option-cases,
  Bool-cases, get_elem?-set_known,
}
use nomad_pot_driver.Text.Split.{Text}
use nomad_pot_driver.Outcome.{Outcome, ok, panic, nil_dereference, Outcome-cases}
use nomad_pot_driver.Types.{Syexec, Libs}
use nomad_pot_driver.Prepare.Commands.{prepare_destroy}
use nomad_pot_driver.Machine.{Host, pot_run}
use nomad_pot_driver.Pot.Run.{process_of}
use nomad_pot_driver.Store.{get}
use nomad_pot_driver.Handle.{Handle}
use nomad_pot_driver.Driver.State.{Driver, Ref}
use nomad_pot_driver.Driver.Wait.{destroy_handle}
use nomad_pot_driver.Driver.Wait.Destroy.{
  destroy_args, destroy_dir, destroy_ran, destroy_handle_again, destroy_handle_first,
}
use nomad_pot_driver.Driver.Tasks.{stop_task, stop_config}

module _ (lib : Libs) (host : Host) where
  abbrev pub prepared : Handle → Outcome Syexec
  prepared h =
      prepare_destroy lib h.task_config (stop_config (lib.decode_driver_config h.task_config))

  stop_task_again :
      (id : Text) (d : Driver) (p : Ref) (h : Handle) (se : Syexec)
      → get d.tasks id ≡ some p
      → get_elem? d.handles p ≡ some h
      → prepared h ≡ ok se
      → h.called_destroy ≡ true
      → stop_task lib host id d ≡ (ok tt, d)
  unfolding stop_task
  stop_task_again id d p h se known is_h is_se called =
      ground (arith, destroy_handle_again lib host p se d h is_h called)

  stop_task_first :
      (id : Text) (d : Driver) (p : Ref) (h : Handle) (se : Syexec) (pid : ℤ)
      → get d.tasks id ≡ some p
      → get_elem? d.handles p ≡ some h
      → prepared h ≡ ok se
      → h.called_destroy ≡ false
      → process_of (destroy_ran lib host p se d h) ≡ some pid
      → stop_task lib host id d ≡ (
        ok tt,
        record d {
          log = pot_run (destroy_args lib host p se d h) (destroy_dir lib host p se d h) ∷ d.log;
          handles = set d.handles p (record h { called_destroy = true });
        },
      )
  unfolding stop_task
  stop_task_first id d p h se pid known is_h is_se called ran =
      ground (arith, destroy_handle_first lib host p se d h is_h called)

  stop_task_panics :
      (id : Text) (d : Driver) (p : Ref) (h : Handle) (se : Syexec)
      → get d.tasks id ≡ some p
      → get_elem? d.handles p ≡ some h
      → prepared h ≡ ok se
      → (destroy_handle lib host p se d).0 ≡ panic nil_dereference
      → (stop_task lib host id d).0 ≡ panic nil_dereference
  unfolding stop_task
  stop_task_panics id d p h se known is_h is_se panics = ground arith

  abbrev Stopped : Text → Driver → Type 0
  Stopped id d =
      (p : Ref) × (h : Handle) × (se : Syexec) × (get d.tasks id ≡ some p)
      × (get_elem? d.handles p ≡ some h)
      × (prepared h ≡ ok se)

  -- What a StopTask that succeeded has found.
  stop_task_found :
      (id : Text) (d d' : Driver) → stop_task lib host id d ≡ (ok tt, d') → Stopped id d
  unfolding stop_task
  stop_task_found id d d' e = elim (Option-cases (get d.tasks id)) [
    | inl missing ↦ absurd (ground arith)
    | inr (p, known) ↦ elim (Option-cases (get_elem? d.handles p)) [
      | inl dangling ↦ absurd (ground arith)
      | inr (h, is_h) ↦ elim (Outcome-cases (prepared h)) [
        | inl (se, is_se) ↦ (p, h, se, known, is_h, is_se)
        | inr (inl (x, bad)) ↦ absurd (ground arith)
        | inr (inr (x, bad)) ↦ absurd (ground arith)
      ]
    ]
  ]

  -- A second StopTask after one that succeeded succeeds too, runs no command and changes nothing:
  -- the container is destroyed once.
  pub stop_twice :
      (id : Text) (d d' : Driver)
      → stop_task lib host id d ≡ (ok tt, d')
      → stop_task lib host id d' ≡ (ok tt, d')
  stop_twice id d d' e =
      let (p, h, se, known, is_h, is_se) = stop_task_found id d d' e in
      elim (Bool-cases h.called_destroy) [
        | inl called ↦
            let same : d ≡ d' =
              ap (λ (r : Outcome (Unit {0}) × Driver). r.1)
                (sym (stop_task_again id d p h se known is_h is_se called) ∙ e) in
            rw (← same) (stop_task_again id d p h se known is_h is_se called)
        | inr new ↦ elim (destroy_handle_first lib host p se d h is_h new) [
          | inl (pid, ran, _) ↦
              let after : Driver = record d {
                log =
                    pot_run (destroy_args lib host p se d h) (destroy_dir lib host p se d h)
                    ∷ d.log;
                handles = set d.handles p (record h { called_destroy = true });
              } in
              let same : after ≡ d' =
                ap (λ (r : Outcome (Unit {0}) × Driver). r.1)
                  (sym (stop_task_first id d p h se pid known is_h is_se new ran) ∙ e) in
              rw (← same) (
                stop_task_again id after p (record h { called_destroy = true }) se known
                  (get_elem?-set_known d.handles p h (record h { called_destroy = true }) is_h)
                  is_se refl)
          | inr (lost, panics) ↦ cc (e, stop_task_panics id d p h se known is_h is_se panics)
        ]
      ]
