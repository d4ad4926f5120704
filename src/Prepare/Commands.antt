-- ===== src/Prepare/Commands.antt =====
-- prepareDestroy, prepareSignal and prepareExec of prepare.go, and the container's name.
pub mod Name
pub mod Signals
use nomad_pot_driver.Base.{
  ℕ, Bool, true, false, ◌≡◌, refl, Option, none, some, List, [], ◌∷◌, ◌++◌, arith, ◌==◌,
  if◌then◌else◌,
}
use nomad_pot_driver.Text.Split.{Text, codes, split}
use nomad_pot_driver.Outcome.{Outcome, ok, err, panic, signal_not_named, empty_exec, ◌>>=◌, index}
use nomad_pot_driver.Types.{TaskConfig, NomadConfig, Syexec, new_syexec, Libs}

-- parts[1] + "_" + parts[2] + "_" + parts[0] of the task's id, split at the slashes
unfoldable pub container_name : Text → Outcome Text
container_name id = do
  let parts = split id b'/'
  base_name ← index parts 1
  job ← index parts 2
  alloc ← index parts 0
  ok (base_name ++ codes "_" ++ job ++ codes "_" ++ alloc)

-- n[sig] = name
unfoldable pub assign : List (ℕ × Text) → ℕ → Text → List (ℕ × Text)
assign [] sig name = (sig, name) ∷ []
assign ((s, old) ∷ n) sig name = if s == sig then (sig, name) ∷ n else (s, old) ∷ assign n sig name

-- the loop of reverseSignalMap
unfoldable pub reverse_from : List (ℕ × Text) → List (Text × ℕ) → List (ℕ × Text)
unfolding assign
reverse_from n [] = n
reverse_from n ((name, sig) ∷ m) = reverse_from (assign n sig name) m

-- The order of the table is that in which `range` visits the map.
unfoldable pub reverse_signal_map : List (Text × ℕ) → List (ℕ × Text)
unfolding reverse_from
reverse_signal_map m = reverse_from [] m

-- LookupSignal[sig]
unfoldable pub signal_name : List (ℕ × Text) → ℕ → Option Text
signal_name [] sig = none
signal_name ((s, name) ∷ n) sig = if s == sig then some name else signal_name n sig

module _ (lib : Libs) where
  open lib use {env_list, signal_lookup}

  unfoldable pub prepare_destroy : NomadConfig → TaskConfig → Outcome Syexec
  prepare_destroy cfg task = do
    name ← container_name cfg.id
    ok (record (new_syexec cfg) {
      argv_destroy = codes "destroy" ∷ codes "-p" ∷ name ∷ [];
      task_config = some task;
      env = env_list cfg.env;
    })

  abbrev named : Option Text → Outcome Text
  named none = err signal_not_named
  named (some name) = ok name

  unfoldable pub prepare_signal : NomadConfig → TaskConfig → ℕ → Outcome Syexec
  prepare_signal cfg task sig = do
    s ← named (signal_name (reverse_signal_map signal_lookup) sig)
    name ← container_name cfg.id
    ok (record (new_syexec cfg) {
      argv_signal = codes "signal" ∷ codes "-s" ∷ s ∷ codes "-p" ∷ name ∷ [];
      task_config = some task;
      env = env_list cfg.env;
    })

  unfoldable pub prepare_exec : NomadConfig → List Text → Outcome Syexec
  prepare_exec cfg [] = err empty_exec
  prepare_exec cfg (program ∷ args) = do
    name ← container_name cfg.id
    ok (record (new_syexec cfg) {
      argv_exec = codes "exec" ∷ codes "-p" ∷ name ∷ program ∷ args;
      env = env_list cfg.env;
    })
