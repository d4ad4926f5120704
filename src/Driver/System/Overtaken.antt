-- ===== src/Driver/System/Overtaken.antt =====
-- The goroutine `run` of a new task that is scheduled only after potWait.
use nomad_pot_driver.Base.{ℕ, suc, ◌≡◌, Bool, Option, some, List, [], ◌∷◌, ◌++◌, set}
use nomad_pot_driver.Text.Split.{Text}
use nomad_pot_driver.Outcome.{Outcome}
use nomad_pot_driver.Types.{NomadConfig, Syexec, Libs}
use nomad_pot_driver.Machine.{Host, End, clean}
use nomad_pot_driver.Store.{Store, get}
use nomad_pot_driver.Handle.{Handle, run}
use nomad_pot_driver.Driver.State.{Driver, Thread, run_handle, pot_wait, pot_waiting}
use nomad_pot_driver.Driver.System.{perform, resume}

module _ (lib : Libs) (host : Host) (decode : Text → Option Bool) where
  -- Two rounds of the goroutine after the place `n`, and then one of that at `n`.
  abbrev pub late_rounds : ℕ → End → End → Bool → Bool → Bool → Driver → Outcome (Unit {0}) × Driver
  late_rounds n e₁ e₃ b₁ b₂ b₃ d =
      let d₂ = (perform lib host decode (resume (suc n) e₁ b₁) d).1 in
      let d₃ = (perform lib host decode (resume (suc n) clean b₂) d₂).1 in
      perform lib host decode (resume n e₃ b₃) d₃

  module _ (cfg : NomadConfig) (se : Syexec) (p : ℕ) (xs : List Thread) (d : Driver)
      (threads : d.threads ≡ xs ++ run_handle p ∷ pot_wait cfg.id se ∷ [])
      (task : get d.tasks cfg.id ≡ some p) where
    abbrev first : List Thread
    first = xs ++ run_handle p ∷ []

    abbrev looked_up : Driver
    looked_up = record d { threads = first ++ pot_waiting (some p) se ∷ [] }

    abbrev before_end : Driver
    before_end = record d { threads = first ++ [] }

    abbrev late : Driver → Handle → Driver
    late d₂ h = record d₂ {
      threads = xs ++ [];
      handles = set d₂.handles p (run (host.now d₂.log) h);
    }
