-- ===== src/Pot/Create/Order.antt =====
-- Which commands createContainer runs, and in which order.
use nomad_pot_driver.Base.{
  ◌≡◌, refl, sym, ap, ◌∙◌, ◌⊎◌, inl, inr, List, [], ◌∷◌, ◌++◌, map, append_assoc, is_zero,
  Bool-cases, Option, none, some, ℤ,
}
use nomad_pot_driver.Text.Split.{Text, codes}
use nomad_pot_driver.Outcome.{
  Outcome, ok, err, panic, Context, setting_env, setting_hosts, setting_memory,
}
use nomad_pot_driver.Types.{NomadConfig, Syexec, Libs}
use nomad_pot_driver.Prepare.Container.{pot_bin}
use nomad_pot_driver.Machine.{
  Call, Log, pot_run, shell, clean, exit_error, io_error, start_error, Host, Pot, Ran, Act, ◌>>=◌,
  continue,
}
use nomad_pot_driver.Machine.Keeps.{Fails}
use nomad_pot_driver.Pot.Run.{run_pot, set_exit_code, set_state, end_code, process_of}
use nomad_pot_driver.Pot.Create.{
  run_shell, checked, shell_each, checked_all, shell_step, created, create_pot, create_container,
}

-- A log after these calls, the first of them first.
abbrev pub onto : List Call → Log → Log
onto [] log = log
onto (c ∷ cs) log = onto cs (c ∷ log)

onto-append : (cs ds : List Call) (log : Log) → onto (cs ++ ds) log ≡ onto ds (onto cs log)
onto-append [] ds log = refl
onto-append (c ∷ cs) ds log = onto-append cs ds (c ∷ log)

-- All the calls, if it succeeds, and otherwise the first few of them.
abbrev pub Ordered {ℓ} : {A : Type ℓ} → List Call → Log → Outcome A × Pot → Type ℓ
Ordered {A = A} cs log r =
    ((a : A) × (r.0 ≡ ok a) × (r.1.log ≡ onto cs log))
    ⊎ (Fails r.0
        × ((ds : List Call) × (es : List Call) × (cs ≡ ds ++ es) × (r.1.log ≡ onto ds log)))

record Runs {ℓ} {A : Type ℓ} (cs : List Call) (m : Act Pot A) : Type ℓ where
  at : (s : Pot) → Ordered cs s.log (m s)

module _ {ℓ κ} {A : Type ℓ} {B : Type κ} where
  continue-Ordered :
      (cs ds : List Call) (log : Log) (r : Outcome A × Pot) (f : A → Act Pot B)
      → Ordered cs log r
      → ((a : A) → Runs ds (f a))
      → Ordered (cs ++ ds) log (continue r.0 f r.1)
  continue-Ordered cs ds log (ok a, s) f (inl (b, e, h)) k = elim ((k a).at s) [
    | inl (c, e', h') ↦ inl (c, e', h' ∙ (ap (onto ds) h ∙ sym (onto-append cs ds log)))
    | inr (failed, (xs, ys, e', h')) ↦ inr (
      failed,
      (
        cs ++ xs,
        ys,
        ap (λ zs. cs ++ zs) e' ∙ sym (append_assoc cs xs ys),
        h' ∙ (ap (onto xs) h ∙ sym (onto-append cs xs log)),
      ),
    )
  ]
  continue-Ordered cs ds log (ok a, s) f (inr (failed, rest)) k = elim failed [ ]
  continue-Ordered cs ds log (err e, s) f (inl (b, e', h)) k = cc
  continue-Ordered cs ds log (err e, s) f (inr (failed, (xs, ys, e', h))) k =
      inr (tt, (xs, ys ++ ds, ap (λ zs. zs ++ ds) e' ∙ append_assoc xs ys ds, h))
  continue-Ordered cs ds log (panic p, s) f (inl (b, e', h)) k = cc
  continue-Ordered cs ds log (panic p, s) f (inr (failed, (xs, ys, e', h))) k =
      inr (tt, (xs, ys ++ ds, ap (λ zs. zs ++ ds) e' ∙ append_assoc xs ys ds, h))

  Runs-bind :
      {cs ds : List Call} (m : Act Pot A) (f : A → Act Pot B)
      → Runs cs m
      → ((a : A) → Runs ds (f a))
      → Runs (cs ++ ds) (m >>= f)
  Runs-bind {cs} {ds} m f k l = record { at = λ s. continue-Ordered cs ds s.log (m s) f (k.at s) l }

module _ (lib : Libs) (host : Host) where
  abbrev pub in_shell : Text → Call
  in_shell command = shell (lib.quote pot_bin ++ codes " " ++ command)

  -- The commands that create the container of a `syexec`.
  abbrev pub creation : NomadConfig → Syexec → List Call
  creation cfg se =
      (pot_run se.argv_create (lib.task_dir cfg).dir ∷ [])
      ++ (map in_shell se.argv_attributes
          ++ (map in_shell se.argv_copy
              ++ (map in_shell se.argv_mount
                  ++ (map in_shell se.argv_mount_read_only
                      ++ shell se.argv_env ∷ shell se.argv_extra_hosts ∷ shell se.argv_mem ∷ []))))

  run_shell-Runs : (command : Text) → Runs (shell command ∷ []) (run_shell lib host command)
  run_shell-Runs command = record { at = λ s. inl (_, refl, refl) }

  checked-Runs : (r : Ran) → Runs [] (checked lib host r)
  checked-Runs r = record {
    at = λ s. elim r.end as (λ e. Ordered [] s.log (checked lib host (record r { end = e }) s)) [
      | clean ↦ inl (_, refl, refl)
      | exit_error ws ↦ inr (tt, ([], [], refl, refl))
      | io_error ↦ inl (_, refl, refl)
      | start_error ↦ inl (_, refl, refl)
    ];
  }

  checked_all-Runs : (c : Context) (r : Ran) → Runs [] (checked_all lib host c r)
  checked_all-Runs c r = record {
    at = λ s.
        elim r.end as (λ e. Ordered [] s.log (checked_all lib host c (record r { end = e }) s)) [
          | clean ↦ inl (_, refl, refl)
          | exit_error ws ↦ inr (tt, ([], [], refl, refl))
          | io_error ↦ inr (tt, ([], [], refl, refl))
          | start_error ↦ inr (tt, ([], [], refl, refl))
        ];
  }

  shell_each-Runs :
      (commands : List Text) → Runs (map in_shell commands) (shell_each lib host commands)
  unfolding shell_each
  shell_each-Runs [] = record { at = λ s. inl (_, refl, refl) }
  shell_each-Runs (command ∷ commands) =
      Runs-bind {cs = in_shell command ∷ []} {ds = map in_shell commands} _ _ (run_shell-Runs _)
        λ r.
          Runs-bind {cs = []} {ds = map in_shell commands} _ _ (checked-Runs r)
            λ _. shell_each-Runs commands

  shell_step-Runs :
      (c : Context) (command : Text) → Runs (shell command ∷ []) (shell_step lib host c command)
  unfolding shell_step
  shell_step-Runs c command =
      Runs-bind {cs = shell command ∷ []} {ds = []} _ _ (run_shell-Runs _) λ r. checked_all-Runs c r

  created-Runs : (r : Ran) → Runs [] (created lib host r)
  created-Runs r = record {
    at = λ s. elim (Bool-cases (is_zero s.se.exit_code)) [
      | inl good ↦ rw good (inl (_, refl, refl))
      | inr bad ↦ rw bad (inr (tt, ([], [], refl, refl)))
    ];
  }

  set_state-Runs :
      (args : List Text) (cfg : NomadConfig) (process : Option ℤ)
      → Runs [] (set_state lib host args cfg process)
  set_state-Runs args cfg none = record { at = λ s. inr (tt, ([], [], refl, refl)) }
  set_state-Runs args cfg (some pid) = record { at = λ s. inl (_, refl, refl) }

  set_exit_code-Runs : (code : ℤ) → Runs [] (set_exit_code lib host code)
  set_exit_code-Runs code = record { at = λ s. inl (_, refl, refl) }

  run_pot-Runs :
      (args : List Text) (cfg : NomadConfig)
      → Runs (pot_run args (lib.task_dir cfg).dir ∷ []) (run_pot lib host args cfg)
  run_pot-Runs args cfg = record { at = λ s. inl (_, refl, refl) }

  create_pot-Runs :
      (cfg : NomadConfig) (se : Syexec)
      → Runs (pot_run se.argv_create (lib.task_dir cfg).dir ∷ []) (create_pot lib host cfg se)
  unfolding create_pot
  create_pot-Runs cfg se =
      Runs-bind {cs = pot_run se.argv_create (lib.task_dir cfg).dir ∷ []} {ds = []} _ _
        (run_pot-Runs se.argv_create cfg)
        λ r. Runs-bind {cs = []} {ds = []} _ _ (set_exit_code-Runs (end_code r.end)) λ _.
          Runs-bind {cs = []} {ds = []} _ _ (created-Runs r)
            λ _. set_state-Runs se.argv_create cfg (process_of r)

  -- createContainer runs the commands that create the container one after the other: all of them, if
  -- it succeeds, and otherwise, with an error or a panic, the first few of them.
  pub create_container-Ordered :
      (cfg : NomadConfig) (s : Pot)
      → Ordered (creation cfg s.se) s.log (create_container lib host cfg s)
  unfolding create_container
  create_container-Ordered cfg s =
      (Runs-bind _ _ (create_pot-Runs cfg s.se) λ _.
          Runs-bind _ _ (shell_each-Runs s.se.argv_attributes) λ _.
            Runs-bind _ _ (shell_each-Runs s.se.argv_copy) λ _.
              Runs-bind _ _ (shell_each-Runs s.se.argv_mount) λ _.
                Runs-bind _ _ (shell_each-Runs s.se.argv_mount_read_only) λ _.
                  Runs-bind _ _ (shell_step-Runs setting_env s.se.argv_env) λ _.
                    Runs-bind _ _ (shell_step-Runs setting_hosts s.se.argv_extra_hosts)
                      λ _. shell_step-Runs setting_memory s.se.argv_mem).at
        s
