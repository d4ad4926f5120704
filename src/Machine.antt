-- ===== src/Machine.antt =====
-- The operating system as the driver meets it, and code that runs commands on it. What a command
-- does is a parameter: an answer that may depend on all that was run before.
pub mod Keeps
use nomad_pot_driver.Base.{ℕ, Bool, Option, none, some, List, [], ◌∷◌, ℤ, pos, negsuc}
use nomad_pot_driver.Text.Split.{Text}
use nomad_pot_driver.Outcome.{Outcome, ok, err, panic, Error}
use nomad_pot_driver.Types.{Syexec}

-- syscall.WaitStatus of a process that has ended.
pub data WaitStatus : Type 0 where
  exited signaled : ℕ → WaitStatus

-- How `Run`, `Wait` or `Output` of exec.Cmd ended: with no error, with an *exec.ExitError, with
-- another error after the process had started, or with an error of `Start`.
pub data End : Type 0 where
  clean : End
  exit_error : WaitStatus → End
  io_error : End
  start_error : End

pub record Ran : Type 0 where
  pub pid : ℤ
  pub end : End
  pub out : Text
  pub err_out : Text

-- What the driver asks of the operating system, with the arguments and the directory.
pub data Call : Type 0 where
  pot_run pot_start : List Text → Text → Call
  shell : Text → Call
  fifo_open : Text → Call

-- The calls so far, the newest first.
abbrev pub Log : Type 0
Log = List Call

pub record Host : Type 0 where
  -- exec.Command(potBIN, args...) with a directory: Run, and Start with the new process's id
  pub run : Log → List Text → Text → Ran
  pub start : Log → List Text → Text → Option ℤ
  -- exec.Command("sh", "-c", command).Output()
  pub shell_output : Log → Text → Ran
  -- fifo.OpenWriter and exec.Cmd.StdinPipe; `some` is an error
  pub fifo_error : Log → Text → Option Error
  pub pipe_error : Log → Option Error
  -- time.Now
  pub now : Log → ℕ

-- A `syexec` that methods mutate, with the log.
pub record Pot : Type 0 where
  pub se : Syexec
  pub log : Log

abbrev pub Act {ℓ κ} : Type ℓ → Type κ → Type (ℓ ⊔ κ)
Act S A = S → Outcome A × S

abbrev pub continue {ℓ κ ι} :
    {S : Type ℓ} {A : Type κ} {B : Type ι} → Outcome A → (A → Act S B) → Act S B
continue (ok a) f s = f a s
continue (err e) f s = (err e, s)
continue (panic p) f s = (panic p, s)

infixl 5 ◌>>=◌ ◌>>◌
abbrev pub ◌>>=◌ {ℓ κ ι} :
    {S : Type ℓ} {A : Type κ} {B : Type ι} → Act S A → (A → Act S B) → Act S B
◌>>=◌ m f s = let r = m s in continue r.0 f r.1

abbrev pub ◌>>◌ {ℓ κ} : {S : Type ℓ} {B : Type κ} → Act S (Unit {0}) → Act S B → Act S B
m >> n = m >>= λ _. n

module _ {ℓ κ} {S : Type ℓ} {A : Type κ} where
  abbrev pub pure : A → Act S A
  pure a s = (ok a, s)

  abbrev pub raise : Error → Act S A
  raise e s = (err e, s)

  abbrev pub lift : Outcome A → Act S A
  lift r s = (r, s)

abbrev pub gets {ℓ κ} : {S : Type ℓ} {A : Type κ} → (S → A) → Act S A
gets f s = (ok (f s), s)

abbrev pub modify {ℓ} : {S : Type ℓ} → (S → S) → Act S (Unit {0})
modify f s = (ok tt, f s)

-- Code that reads fields of the `syexec` as they are now.
abbrev pub with_se {ℓ} : {A : Type ℓ} → (Syexec → Act Pot A) → Act Pot A
with_se f s = f s.se s
