-- ===== src/Driver/Start/Frame.antt =====
-- StartTask up to the new handle.
use nomad_pot_driver.Base.{refl, [], arith, ℤ}
use nomad_pot_driver.Outcome.{Context}
use nomad_pot_driver.Types.{NomadConfig, Syexec, Libs}
use nomad_pot_driver.Machine.{Host, Pot, Act}
use nomad_pot_driver.Machine.Keeps.{Keeps, keeps_rules, Keeps-bind}
use nomad_pot_driver.Driver.State.{Driver, Result, value, error, call}
use nomad_pot_driver.Driver.Start.{
  abort, start_or_abort, create_and_start, launch, adopt, given, unless_error,
}

-- The driver without its log.
abbrev pub blank : Driver → Driver
blank d = record d { log = [] }

pub call-blank {ℓ} : {A : Type ℓ} (se : Syexec) (m : Act Pot A) → Keeps blank (call se m)
call-blank se m = record { at = λ d. ground arith }

pub given-blank {ℓ} : {A : Type ℓ} (r : Result A) → Keeps blank (given r)
given-blank (value a) = record { at = λ d. refl }
given-blank (error e) = record { at = λ d. refl }

pub unless_error-blank {ℓ κ} :
    {A : Type ℓ} {B : Type κ} (r : Result A) (m n : Act Driver B)
    → Keeps blank m
    → Keeps blank n
    → Keeps blank (unless_error r m n)
unless_error-blank (value a) m n km kn = km
unless_error-blank (error e) m n km kn = kn

pub ruleset frame_rules = (keeps_rules, call-blank, given-blank, unless_error-blank)

module _ (lib : Libs) (host : Host) where
  abort-blank :
      (c : Context) (cfg : NomadConfig) (se : Syexec) → Keeps blank (abort lib host c cfg se)
  unfolding abort
  abort-blank c cfg se = search frame_rules

  start_or_abort-blank :
      (cfg : NomadConfig) (se : Syexec) → Keeps blank (start_or_abort lib host cfg se)
  unfolding start_or_abort
  start_or_abort-blank cfg se = search (frame_rules, abort-blank)

  create_and_start-blank :
      (cfg : NomadConfig) (se : Syexec) → Keeps blank (create_and_start lib host cfg se)
  unfolding create_and_start
  create_and_start-blank cfg se = search (frame_rules, abort-blank, start_or_abort-blank)

  pub launch-blank : (cfg : NomadConfig) (se : Syexec) → Keeps blank (launch lib host cfg se)
  unfolding launch
  launch-blank cfg se = search (frame_rules, create_and_start-blank, start_or_abort-blank)

pub adopt-blank : (cfg : NomadConfig) (pid : ℤ) (se : Syexec) → Keeps blank (adopt cfg pid se)
unfolding adopt
adopt-blank cfg pid se = search frame_rules
