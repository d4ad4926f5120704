-- ===== src/Driver/Start/Abort.antt =====
-- StartTask where the container cannot be created or started.
use nomad_pot_driver.Base.{
  ◌≡◌, refl, ◌∙◌, ◌⊎◌, inl, inr, Bool, true, false, List, [], ◌∷◌, ◌++◌, arith, if◌then◌else◌,
}
use nomad_pot_driver.Text.Split.{Text, codes}
use nomad_pot_driver.Outcome.{
  Outcome, ok, err, panic, Context, Error, creating_container, starting_container, wrapped_nil,
}
use nomad_pot_driver.Types.{NomadConfig, Syexec, Libs}
use nomad_pot_driver.Machine.{Host, Pot, pot_run, Log, Act, continue, ◌>>=◌, pure}
use nomad_pot_driver.Machine.Keeps.{Keeps}
use nomad_pot_driver.Pot.Run.{destroy_container}
use nomad_pot_driver.Pot.Kept.{to_destroy, create_container-kept, start_container-kept}
use nomad_pot_driver.Driver.State.{Driver, Result, value, error, call, returned}
use nomad_pot_driver.Driver.Start.{abort, start_or_abort, create_and_start, unless_error}

-- The command of the newest call is `pot destroy … -F`.
abbrev pub Destroyed : List Text → Log → Type 0
Destroyed args log =
    (dir : Text) × (rest : Log) × (log ≡ pot_run (args ++ codes "-F" ∷ []) dir ∷ rest)

-- If this is an error, the container with these arguments was destroyed last, and the error tells
-- that its creation or its start failed, but not why.
abbrev pub IsClean {ℓ} : {A : Type ℓ} → List Text → Outcome A × Driver → Type ℓ
IsClean args r =
    (e : Error)
    → r.0 ≡ err e
    → ((e ≡ wrapped_nil creating_container) ⊎ (e ≡ wrapped_nil starting_container))
      × Destroyed args r.1.log

pub record Cleans {ℓ} {A : Type ℓ} (args : List Text) (m : Act Driver A) : Type ℓ where
  pub at : (d : Driver) → IsClean args (m d)

Cleans-pure {ℓ} : {A : Type ℓ} {args : List Text} (a : A) → Cleans args (pure {S = Driver} a)
Cleans-pure a = record { at = λ d e h. cc }

Cleans-unless_error {ℓ κ} :
    {A : Type ℓ} {B : Type κ} {args : List Text} (r : Result A) (m n : Act Driver B)
    → Cleans args m
    → Cleans args n
    → Cleans args (unless_error r m n)
Cleans-unless_error (value a) m n cm cn = cm
Cleans-unless_error (error e) m n cm cn = cn

module _ {ℓ κ} {A : Type ℓ} {B : Type κ} {args : List Text} where
  continue-returned :
      (r : Outcome A) (se : Syexec) (d : Driver) (f : Result A × Syexec → Act Driver B)
      → ((a : Result A) → Cleans args (f (a, se)))
      → IsClean args (let x = returned r se d in continue x.0 f x.1)
  continue-returned (ok a) se d f k = (k (value a)).at d
  continue-returned (err e) se d f k = (k (error e)).at d
  continue-returned (panic p) se d f k = λ e h. cc

  -- A method call returns no error itself, and its `syexec` names the same container.
  call-Cleans :
      (se : Syexec) (m : Act Pot A) (f : Result A × Syexec → Act Driver B)
      → Keeps to_destroy m
      → se.argv_destroy ≡ args
      → ((a : Result A) (se' : Syexec) → se'.argv_destroy ≡ args → Cleans args (f (a, se')))
      → Cleans args (call se m >>= f)
  call-Cleans se m f km h k = record {
    at = λ d.
        let s : Pot = record { se = se; log = d.log } in
        continue-returned (m s).0 (m s).1.se (record d { log = (m s).1.log }) f
          (λ a. k a (m s).1.se (km.at s ∙ h));
  }

module _ (lib : Libs) (host : Host) where
  abort-Cleans :
      (c : Context) (cfg : NomadConfig) (se : Syexec) {args : List Text}
      → (c ≡ creating_container) ⊎ (c ≡ starting_container)
      → se.argv_destroy ≡ args
      → Cleans args (abort lib host c cfg se)
  unfolding abort destroy_container
  abort-Cleans c cfg se known h = record {
    at = λ d e failed. (ground arith, ((lib.task_dir cfg).dir, d.log, ground arith));
  }

  start_or_abort-Cleans :
      (cfg : NomadConfig) (se : Syexec) {args : List Text}
      → se.argv_destroy ≡ args
      → Cleans args (start_or_abort lib host cfg se)
  unfolding start_or_abort
  start_or_abort-Cleans cfg se h =
      call-Cleans se _ _ (start_container-kept lib host cfg) h λ r se' h'.
        Cleans-unless_error r _ _ (Cleans-pure se')
          (abort-Cleans starting_container cfg se' (inr refl) h')

  create_and_start-Cleans :
      (cfg : NomadConfig) (se : Syexec) {args : List Text}
      → se.argv_destroy ≡ args
      → Cleans args (create_and_start lib host cfg se)
  unfolding create_and_start
  create_and_start-Cleans cfg se h =
      call-Cleans se _ _ (create_container-kept lib host cfg) h λ r se' h'.
        Cleans-unless_error r _ _ (start_or_abort-Cleans cfg se' h')
          (abort-Cleans creating_container cfg se' (inl refl) h')

  -- Where the creation or the start of the container fails with an error, the last command that
  -- was run is the forced destruction of the container, and the error that is returned wraps nil
  -- instead of the first error.
  pub create_or_start_fails :
      (cfg : NomadConfig) (se : Syexec) (exists : Bool) (d : Driver) (e : Error)
      → let r =
          (if exists then start_or_abort lib host cfg se else create_and_start lib host cfg se) d in
        r.0 ≡ err e
        → ((e ≡ wrapped_nil creating_container) ⊎ (e ≡ wrapped_nil starting_container))
          × Destroyed se.argv_destroy r.1.log
  create_or_start_fails cfg se true d = (start_or_abort-Cleans cfg se refl).at d
  create_or_start_fails cfg se false d = (create_and_start-Cleans cfg se refl).at d
