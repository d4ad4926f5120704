-- ===== src/Prepare/Container.antt =====
-- prepareContainer of prepare.go.
pub mod Agree
pub mod Total
use mathlib.Core.List.{foldl}
use nomad_pot_driver.Base.{
  ℕ, Bool, true, false, not, ◌≡◌, refl, Option, none, some, List, [], ◌∷◌, ◌++◌, arith,
  if◌then◌else◌, ℤ,
}
use nomad_pot_driver.Text.Split.{Text, codes, text_eq, split, split_two}
use nomad_pot_driver.Text.Decimal.{itoa}
use nomad_pot_driver.Outcome.{Outcome, ok, err, panic, args_without_command, ◌>>=◌, index}
use nomad_pot_driver.Types.{Map, lookup, TaskConfig, NomadConfig, Syexec, new_syexec, Libs}

abbrev pub pot_bin : Text
pot_bin = codes "/usr/local/bin/pot"

abbrev pub is_empty {ℓ} : {A : Type ℓ} → List A → Bool
is_empty [] = true
is_empty (x ∷ xs) = false

-- the loop over `taskCfg.Args`
unfoldable pub add_args : Text → List Text → Text
add_args command [] = command
add_args command (arg ∷ args) = add_args (command ++ codes " " ++ arg) args

-- the command with its arguments; arguments without a command are refused
unfoldable pub full_command : TaskConfig → Outcome Text
unfolding add_args
full_command task =
    if is_empty task.args
    then ok task.command
    else if text_eq task.command (codes "")
    then err args_without_command
    else ok (add_args task.command task.args)

unfoldable pub command_args : Text → List Text
command_args command =
    if text_eq command (codes "")
    then []
    else codes "-c" ∷ (codes "\"" ++ command ++ codes "\"") ∷ []

unfoldable pub network_args : TaskConfig → List Text
network_args task =
    if not (text_eq task.network_mode (codes ""))
    then codes "-N" ∷ task.network_mode ∷ []
    else if is_empty task.port_map
    then []
    else codes "-N" ∷ codes "public-bridge" ∷ codes "-i" ∷ codes "auto" ∷ []

-- the loop over `taskCfg.PortMap`
unfoldable pub port_args : Map → Map → List Text
port_args env [] = []
port_args env ((name, port) ∷ ports) =
    codes "-e"
    ∷ (port ++ codes ":" ++ lookup env (codes "NOMAD_HOST_PORT_" ++ name))
    ∷ port_args env ports

unfoldable pub published_ports : NomadConfig → TaskConfig → List Text
unfolding port_args
published_ports cfg task =
    if text_eq task.network_mode (codes "host") then [] else port_args cfg.env task.port_map

unfoldable pub alloc_args : Text → List Text
alloc_args job_alloc = if text_eq job_alloc (codes "") then [] else codes "-a" ∷ job_alloc ∷ []

-- A loop that makes a command of each entry of a list.
unfoldable pub each : (Text → Outcome Text) → List Text → Outcome (List Text)
each f [] = ok []
each f (x ∷ xs) = do command ← f x; commands ← each f xs; ok (command ∷ commands)

module _ (lib : Libs) where
  open lib use {quote, env_list, task_dir}

  unfoldable pub mount_command : Text → Text → Text → Text
  mount_command pot_name source destination =
      codes "mount-in -p "
      ++ quote pot_name
      ++ codes " -d "
      ++ quote source
      ++ codes " -m "
      ++ quote destination

  unfoldable pub mount_dir_command : Text → Text → Text → Text
  mount_dir_command pot_name source target =
      codes "mount-in -p "
      ++ quote pot_name
      ++ codes " -d "
      ++ quote source
      ++ codes " -m "
      ++ target

  unfoldable pub copy_entry : Text → Text → Outcome Text
  copy_entry pot_name file = do
    let parts = split_two file b':'
    source ← index parts 0
    destination ← index parts 1
    ok (
        codes "copy-in -p "
        ++ quote pot_name
        ++ codes " -s "
        ++ quote source
        ++ codes " -d "
        ++ quote destination)

  unfoldable pub mount_entry : Text → Text → Outcome Text
  unfolding mount_command
  mount_entry pot_name file = do
    let parts = split file b':'
    source ← index parts 0
    destination ← index parts 1
    ok (mount_command pot_name source destination)

  unfoldable pub mount_read_only_entry : Text → Text → Outcome Text
  unfolding mount_command
  mount_read_only_entry pot_name file = do
    let parts = split file b':'
    source ← index parts 0
    destination ← index parts 1
    ok (mount_command pot_name source destination ++ codes " -r")

  unfoldable pub attribute_entry : Text → Text → Outcome Text
  attribute_entry pot_name attr = do
    let parts = split attr b':'
    attribute ← index parts 0
    value ← index parts 1
    ok (
        codes "set-attribute -p "
        ++ quote pot_name
        ++ codes " -A "
        ++ quote attribute
        ++ codes " -V "
        ++ quote value)

  -- the loop over `cfg.Env`
  unfoldable pub add_env : Text → Map → Text
  add_env command [] = command
  add_env command ((name, env) ∷ rest) =
      add_env (command ++ codes " -E " ++ quote name ++ codes "=" ++ quote env) rest

  unfoldable pub env_command : Text → Map → Text
  unfolding add_env
  env_command pot_name env =
      if is_empty (env_list env)
      then []
      else add_env (quote pot_bin ++ codes " set-env -p " ++ quote pot_name ++ codes " ") env

  -- the loop over `taskCfg.ExtraHosts`
  unfoldable pub add_hosts : Text → List Text → Text
  add_hosts command [] = command
  add_hosts command (host ∷ hosts) = add_hosts (command ++ codes " -H " ++ quote host) hosts

  unfoldable pub hosts_command : Text → List Text → Text
  unfolding add_hosts
  hosts_command pot_name hosts =
      if is_empty hosts
      then []
      else add_hosts (quote pot_bin ++ codes " set-hosts -p " ++ quote pot_name) hosts

  unfoldable pub memory_command : Text → ℤ → Text
  memory_command pot_name memory_mb =
      quote pot_bin ++ codes " set-rss -M " ++ itoa memory_mb ++ codes "M -p " ++ pot_name

  -- The fields of `se`, from the name's parts and the commands of the lists.
  unfoldable pub filled :
      NomadConfig
      → TaskConfig
      → Text
      → Text
      → Text
      → List Text
      → List Text
      → List Text
      → List Text
      → Syexec
  unfolding command_args network_args published_ports alloc_args
  filled cfg task command base_name job_alloc copies mounts mounts_read_only attributes =
      let pot_name = base_name ++ codes "_" ++ job_alloc in
      record (new_syexec cfg) {
        argv_create =
            (codes "prepare"
              ∷ codes "-U"
              ∷ task.image
              ∷ codes "-p"
              ∷ task.pot
              ∷ codes "-t"
              ∷ task.tag
              ∷ [])
            ++ command_args command
            ++ network_args task
            ++ published_ports cfg task
            ++ alloc_args job_alloc
            ++ codes "-n" ∷ base_name ∷ codes "-v" ∷ [];
        argv_copy = copies;
        argv_mount =
            mount_dir_command pot_name (task_dir cfg).local_dir (codes "/local")
            ∷ mount_dir_command pot_name (task_dir cfg).secrets_dir (codes "/secrets")
            ∷ mounts;
        argv_mount_read_only = mounts_read_only;
        argv_attributes = attributes;
        argv_mem = memory_command pot_name cfg.memory_mb;
        argv_env = env_command pot_name cfg.env;
        argv_extra_hosts = hosts_command pot_name task.extra_hosts;
        argv_start = codes "start" ∷ pot_name ∷ [];
        argv_stats = codes "get-rss" ∷ codes "-p" ∷ pot_name ∷ codes "-J" ∷ [];
        argv_last_run_stats = codes "last-run-stats" ∷ codes "-p" ∷ pot_name ∷ [];
        argv_destroy = codes "destroy" ∷ codes "-p" ∷ pot_name ∷ [];
        task_config = some task;
        env = env_list cfg.env;
      }

  -- the part of prepareContainer that follows the splitting of the id
  unfoldable pub prepare_named : NomadConfig → TaskConfig → Text → Text → Text → Outcome Syexec
  unfolding filled
  prepare_named cfg task command base_name job_alloc = do
    let pot_name = base_name ++ codes "_" ++ job_alloc
    copies ← each (copy_entry pot_name) task.copy
    mounts ← each (mount_entry pot_name) task.mount
    mounts_read_only ← each (mount_read_only_entry pot_name) task.mount_read_only
    attributes ← each (attribute_entry pot_name) task.attributes
    ok (filled cfg task command base_name job_alloc copies mounts mounts_read_only attributes)

  unfoldable pub prepare_container : NomadConfig → TaskConfig → Outcome Syexec
  unfolding full_command prepare_named
  prepare_container cfg task = do
    command ← full_command task
    let parts = split cfg.id b'/'
    base_name ← index parts 1
    job ← index parts 2
    alloc ← index parts 0
    prepare_named cfg task command base_name (job ++ codes "_" ++ alloc)
