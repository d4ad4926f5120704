-- ===== src/Examples/Prepared.antt =====
-- The command lines of a task.
use mathlib.Core.List.{Memᴰ}
use nomad_pot_driver.Base.{
  ◌↔◌, ℕ, ◌≡◌, ◌≢◌, refl, none, some, List, [], ◌∷◌, ◌++◌, arith, if◌then◌else◌,
}
use nomad_pot_driver.Text.Split.{Text, codes, text_eq, split, split_two}
use nomad_pot_driver.Outcome.{ok}
use nomad_pot_driver.Types.{Syexec, Libs}
use nomad_pot_driver.Prepare.Container.{each, copy_entry, mount_entry, filled, prepare_container}
use nomad_pot_driver.Prepare.Commands.{
  container_name, prepare_destroy, reverse_signal_map, signal_name,
}
use nomad_pot_driver.Prepare.Commands.Name.{task_id, container_name_lem, container_name_injective}
use nomad_pot_driver.Prepare.Commands.Signals.{reverse_signal_map_lem}
use nomad_pot_driver.Prepare.Container.Agree.{
  Addresses, prepare_container-Addresses, argv_destroy-prepare_destroy,
}
use nomad_pot_driver.Prepare.Container.Total.{IsReady, prepare_container-IsReady}
use nomad_pot_driver.Store.{get, put, delete, get-put, get-delete}
use nomad_pot_driver.Examples.Data.{cfg, task, libs}

abbrev pub prepared_by : Libs → Syexec
prepared_by lib =
    filled lib cfg task (codes "nginx -g") (codes "web") (codes "j2_a1")
      ((codes "copy-in -p 'web_j2_a1' -s '/a' -d '/b'") ∷ [])
      ((codes "mount-in -p 'web_j2_a1' -d '/host' -m '/mnt'") ∷ []) [] []

abbrev prepared : Syexec
prepared = prepared_by libs

container_prepared : prepare_container libs cfg task ≡ ok prepared
unfolding prepare_container each copy_entry mount_entry codes text_eq split split_two
container_prepared = refl

prepare_container-IsReady_example :
    ((se : Syexec) × (prepare_container libs cfg task ≡ ok se)) ↔ IsReady cfg task
prepare_container-IsReady_example = prepare_container-IsReady libs cfg task

prepare_container-Addresses_example :
    (name : Text) × (container_name cfg.id ≡ ok name) × Addresses name prepared
prepare_container-Addresses_example =
    prepare_container-Addresses libs cfg task prepared container_prepared

argv_destroy-prepare_destroy_example :
    (se' : Syexec) × (prepare_destroy libs cfg task ≡ ok se')
    × (se'.argv_destroy ≡ prepared.argv_destroy)
argv_destroy-prepare_destroy_example =
    argv_destroy-prepare_destroy libs cfg task task prepared container_prepared

container_name_lem_example :
    container_name (task_id (codes "a1") (codes "web") (codes "j2"))
    ≡ ok (codes "web" ++ codes "_" ++ codes "j2" ++ codes "_" ++ codes "a1")
unfolding codes
container_name_lem_example =
    container_name_lem (codes "a1") (codes "web") (codes "j2") (omega arith) (omega arith)
      (omega arith)

container_name_injective_example :
    task_id (codes "a1") (codes "my_web") (codes "j2")
    ≡ task_id (codes "a1") (codes "my_web") (codes "j2")
unfolding codes
container_name_injective_example =
    container_name_injective (codes "a1") (codes "my_web") (codes "j2") (codes "a1")
      (codes "my_web") (codes "j2") (omega arith) (omega arith) (omega arith) (omega arith)
      (omega arith) (omega arith) (omega arith) (omega arith) (omega arith) (omega arith) refl

abbrev signals : List (Text × ℕ)
signals = (codes "SIGABRT", 6) ∷ (codes "SIGIOT", 6) ∷ (codes "SIGTERM", 15) ∷ []

reverse_signal_map_lem_example :
    ((name : Text)
      → signal_name (reverse_signal_map signals) 6 ≡ some name
      → Memᴰ (name, 6) signals)
    × ((name : Text) → Memᴰ (name, 6) signals → signal_name (reverse_signal_map signals) 6 ≢ none)
reverse_signal_map_lem_example = reverse_signal_map_lem signals 6

abbrev stored : List (Text × ℕ)
stored = (codes "x", 1) ∷ (codes "y", 2) ∷ []

get-put_example :
    get (put stored (codes "y") 7) (codes "x")
    ≡ (if text_eq (codes "y") (codes "x") then some 7 else get stored (codes "x"))
get-put_example = get-put stored (codes "y") (codes "x") 7

get-delete_example :
    get (delete stored (codes "y")) (codes "x")
    ≡ (if text_eq (codes "y") (codes "x") then none else get stored (codes "x"))
get-delete_example = get-delete stored (codes "y") (codes "x")
