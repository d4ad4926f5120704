-- ===== src/Driver/State.antt =====
-- The state of the driver, its goroutines, and access to the handles that they share.
use nomad_pot_driver.Base.{ℕ, Bool, Option, none, some, List, [], ◌∷◌, ◌++◌, length, get_elem?, set}
use nomad_pot_driver.Text.Split.{Text}
use nomad_pot_driver.Outcome.{Outcome, ok, err, panic, Error, nil_dereference, task_not_found}
use nomad_pot_driver.Types.{Syexec}
use nomad_pot_driver.Machine.{Log, Pot, Act, pure, raise, modify}
use nomad_pot_driver.Store.{Store, get}
use nomad_pot_driver.Handle.{Handle}

-- A pointer to a handle: its place in the list of all handles made so far.
abbrev pub Ref : Type 0
Ref = ℕ

-- The goroutines that the driver starts with `go`: h.run(), d.potWait before and after it has
-- looked up its handle, d.recoverWait in its loop, and handleStats of a handle.
pub data Thread : Type 0 where
  run_handle : Ref → Thread
  pot_wait : Text → Syexec → Thread
  -- the pointer is nil if the look-up found nothing
  pot_waiting : Option Ref → Syexec → Thread
  recover_wait : Text → Syexec → Thread
  stats_loop : Ref → Thread

pub record Driver : Type 0 where
  -- config.Enabled, and nomadConfig, which nothing reads
  pub enabled : Bool
  pub nomad_config : Option Text
  pub tasks : Store Ref
  pub handles : List Handle
  pub threads : List Thread
  pub log : Log
  -- ctx is done
  pub shut_down : Bool

-- The value of a call, or its error, for a caller that looks at it.
pub data Result {ℓ} (A : Type ℓ) : Type ℓ where
  value : A → Result A
  error : Error → Result A

abbrev pub error_of {ℓ} : {A : Type ℓ} → Result A → Option Error
error_of (value a) = none
error_of (error e) = some e

abbrev pub returned {ℓ} :
    {A : Type ℓ} → Outcome A → Syexec → Driver → Outcome (Result A × Syexec) × Driver
returned (ok a) se d = (ok (value a, se), d)
returned (err e) se d = (ok (error e, se), d)
returned (panic p) se d = (panic p, d)

-- A method call on a `syexec`: its result, and the `syexec` as the method leaves it.
abbrev pub call {ℓ} : {A : Type ℓ} → Syexec → Act Pot A → Act Driver (Result A × Syexec)
call se m d =
    let r = m (record { se = se; log = d.log }) in returned r.0 r.1.se (record d { log = r.1.log })

abbrev deref : Option Handle → Act Driver Handle
deref none d = (panic nil_dereference, d)
deref (some h) d = (ok h, d)

-- *p, for a pointer that may be nil
abbrev pub load : Option Ref → Act Driver Handle
load none d = (panic nil_dereference, d)
load (some p) d = deref (get_elem? d.handles p) d

abbrev pub store : Ref → Handle → Act Driver (Unit {0})
store p h = modify (λ d. record d { handles = set d.handles p h })

-- The calls on a task begin with a look-up of its handle.
abbrev known : Option Ref → Act Driver Ref
known none = raise task_not_found
known (some p) = pure p

abbrev pub find_task : Text → Act Driver Ref
find_task id d = known (get d.tasks id) d

abbrev pub spawn : Thread → Act Driver (Unit {0})
spawn t = modify (λ d. record d { threads = d.threads ++ t ∷ [] })

-- &taskHandle{…}
abbrev pub allocate : Handle → Act Driver Ref
allocate h d = (ok (length d.handles), record d { handles = d.handles ++ h ∷ [] })
