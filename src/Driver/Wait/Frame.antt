-- ===== src/Driver/Wait/Frame.antt =====
-- The task store and the goroutines in the rounds of potWait and recoverWait.
use nomad_pot_driver.Base.{ℕ, List, refl, ap, Bool, Option, none, some, ℤ, arith}
use nomad_pot_driver.Types.{Syexec, Libs}
use nomad_pot_driver.Machine.{Host, End, clean, exit_error, io_error, start_error, Pot, Act}
use nomad_pot_driver.Store.{Store}
use nomad_pot_driver.Handle.{Handle, ExitResult}
use nomad_pot_driver.Driver.State.{Driver, Thread, Result, value, error, call, load, store}
use nomad_pot_driver.Machine.Keeps.{Keeps, keeps_rules}
use nomad_pot_driver.Driver.Start.Frame.{call-blank}
use nomad_pot_driver.Driver.Wait.{
  coded, set_code, last_code, set_done, set_flag, destroy_handle, set_wait_code, pot_wait_end,
  recover_wait_end,
}

-- What the rounds do not touch.
abbrev pub aside : Driver → Store ℕ × List Thread
aside d = (d.tasks, d.threads)

pub call-aside {ℓ} : {A : Type ℓ} (se : Syexec) (m : Act Pot A) → Keeps aside (call se m)
call-aside se m = record { at = λ d. ap aside ((call-blank se m).at d) }

pub load-aside : (p : Option ℕ) → Keeps aside (load p)
load-aside none = record { at = λ d. refl }
load-aside (some p) = record { at = λ d. ground arith }

pub store-aside : (p : ℕ) (h : Handle) → Keeps aside (store p h)
store-aside p h = record { at = λ d. refl }

pub coded-aside :
    (p : ℕ) (h : Handle) (code : ℤ) (r : Option ExitResult) → Keeps aside (coded p h code r)
coded-aside p h code none = record { at = λ d. refl }
coded-aside p h code (some r) = record { at = λ d. refl }

pub ruleset aside_rules = (keeps_rules, call-aside, load-aside, store-aside, coded-aside)

pub set_code-aside : (p : ℕ) (code : ℤ) → Keeps aside (set_code p code)
unfolding set_code
set_code-aside p code = search aside_rules

pub last_code-aside : (p : ℕ) (r : Result ℤ) → Keeps aside (last_code p r)
last_code-aside p (value code) = set_code-aside p code
last_code-aside p (error e) = search aside_rules

pub set_done-aside : (p : ℕ) → Keeps aside (set_done p)
unfolding set_done
set_done-aside p = search aside_rules

set_flag-aside : (p : ℕ) (r : Result (Option Bool)) → Keeps aside (set_flag p r)
set_flag-aside p (value (some flag)) = search aside_rules
set_flag-aside p (value none) = search aside_rules
set_flag-aside p (error e) = search aside_rules

module _ (lib : Libs) (host : Host) where
  pub destroy_handle-aside : (p : ℕ) (se : Syexec) → Keeps aside (destroy_handle lib host p se)
  unfolding destroy_handle
  destroy_handle-aside p se = search (aside_rules, set_flag-aside) depth 12

  set_wait_code-aside :
      (p : ℕ) (se : Syexec) (end : End) → Keeps aside (set_wait_code lib host p se end)
  unfolding set_wait_code
  set_wait_code-aside p se clean = search aside_rules
  set_wait_code-aside p se (exit_error ws) =
      search (aside_rules, set_code-aside, last_code-aside) depth 12
  set_wait_code-aside p se io_error = search (aside_rules, set_code-aside)
  set_wait_code-aside p se start_error = search (aside_rules, set_code-aside)

  pub pot_wait_end-aside :
      (p : ℕ) (se : Syexec) (end : End) → Keeps aside (pot_wait_end lib host (some p) se end)
  unfolding pot_wait_end
  pot_wait_end-aside p se end =
      search (aside_rules, set_done-aside, set_wait_code-aside, destroy_handle-aside) depth 12

  pub recover_wait_end-aside :
      (p : Option ℕ) (se : Syexec) → Keeps aside (recover_wait_end lib host p se)
  unfolding recover_wait_end
  recover_wait_end-aside none se = record { at = λ d. refl }
  recover_wait_end-aside (some p) se =
      search (aside_rules, set_done-aside, set_code-aside, destroy_handle-aside) depth 12

abbrev pub tasks_of : Driver → Store ℕ
tasks_of d = d.tasks

pub aside-tasks {ℓ} : {A : Type ℓ} (m : Act Driver A) → Keeps aside m → Keeps tasks_of m
aside-tasks m k = record { at = λ d. ap (λ (x : Store ℕ × List Thread). x.0) (k.at d) }
