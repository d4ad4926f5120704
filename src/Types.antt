-- ===== src/Types.antt =====
-- The structs of driver.go and pot.go, and the parts of Nomad's that the driver reads.
use nomad_pot_driver.Base.{ℕ, Option, none, List, [], ◌∷◌, ℤ, pos, if◌then◌else◌}
use nomad_pot_driver.Text.Split.{Text, text_eq}
use nomad_pot_driver.Outcome.{Error}

-- A Go map. The order of the entries is the order in which one `range` visits them.
abbrev pub Map : Type 0
Map = List (Text × Text)

-- `m[k]`, the empty string where the key is missing.
unfoldable pub lookup : Map → Text → Text
lookup [] k = []
lookup ((j, v) ∷ m) k = if text_eq j k then v else lookup m k

-- TaskConfig, without the fields that nothing reads.
pub record TaskConfig : Type 0 where
  pub image : Text
  pub pot : Text
  pub tag : Text
  pub command : Text
  pub args : List Text
  pub port_map : Map
  pub network_mode : Text
  pub mount : List Text
  pub mount_read_only : List Text
  pub copy : List Text
  pub extra_hosts : List Text
  pub attributes : List Text

-- Nomad's drivers.TaskConfig: what the driver reads of it.
pub record NomadConfig : Type 0 where
  pub id : Text
  pub name : Text
  pub alloc_dir : Text
  pub env : Map
  pub memory_mb : ℤ
  pub stdout_path : Text
  pub stderr_path : Text

-- Nomad's allocdir.TaskDir.
pub record TaskDir : Type 0 where
  pub dir : Text
  pub local_dir : Text
  pub secrets_dir : Text
  pub shared_task_dir : Text

-- exec.Cmd: the arguments after the program's path, the directory and the process, if it started.
pub record Cmd : Type 0 where
  pub args : List Text
  pub dir : Text
  pub process : Option ℤ

-- Where the output of a container goes.
pub data Writer : Type 0 where
  fifo : Text → Writer
  discard : Writer

pub record PsState : Type 0 where
  pub pid : ℤ
  pub exit_code : ℤ
  pub time : ℕ

pub record Syexec : Type 0 where
  pub argv_create : List Text
  pub argv_copy : List Text
  pub argv_mount : List Text
  pub argv_mount_read_only : List Text
  pub argv_attributes : List Text
  pub argv_mem : Text
  pub argv_env : Text
  pub argv_extra_hosts : Text
  pub argv_start : List Text
  pub argv_stats : List Text
  pub argv_last_run_stats : List Text
  pub argv_destroy : List Text
  pub argv_signal : List Text
  pub argv_exec : List Text
  pub cmd : Option Cmd
  pub task_config : Option TaskConfig
  pub cfg : NomadConfig
  pub stdout : Option Writer
  pub stderr : Option Writer
  pub env : List Text
  pub state : Option PsState
  pub container_pid : ℤ
  pub exit_code : ℤ
  pub exit_error : Option Error

-- `var se syexec` with `se.cfg` set.
abbrev pub new_syexec : NomadConfig → Syexec
new_syexec cfg = record {
  argv_create = [];
  argv_copy = [];
  argv_mount = [];
  argv_mount_read_only = [];
  argv_attributes = [];
  argv_mem = [];
  argv_env = [];
  argv_extra_hosts = [];
  argv_start = [];
  argv_stats = [];
  argv_last_run_stats = [];
  argv_destroy = [];
  argv_signal = [];
  argv_exec = [];
  cmd = none;
  task_config = none;
  cfg = cfg;
  stdout = none;
  stderr = none;
  env = [];
  state = none;
  container_pid = pos 0;
  exit_code = pos 0;
  exit_error = none;
}

-- `var driverConfig TaskConfig`, as it stays where decoding fails.
abbrev pub new_task_config : TaskConfig
new_task_config = record {
  image = [];
  pot = [];
  tag = [];
  command = [];
  args = [];
  port_map = [];
  network_mode = [];
  mount = [];
  mount_read_only = [];
  copy = [];
  extra_hosts = [];
  attributes = [];
}

-- TaskState of driver.go; its ReattachConfig is never set.
pub record TaskState : Type 0 where
  pub container_name : Text
  pub pid : ℤ
  pub task_config : Option NomadConfig
  pub started_at : ℕ

-- Nomad's drivers.TaskHandle, with its encoded driver state.
pub record TaskHandle : Type 0 where
  pub version : ℕ
  pub config : NomadConfig
  pub driver_state : Text

-- potStats: the numbers that it holds. `total_ticks` is a float64, by its text.
pub record PotStats : Type 0 where
  pub rss : ℤ
  pub total_ticks : Text
  pub percent : ℤ

-- What the driver calls of libraries: shellescape.Quote, methods of Nomad's TaskConfig, and more.
pub record Libs : Type 0 where
  pub quote : Text → Text
  pub env_list : Map → List Text
  pub task_dir : NomadConfig → TaskDir
  pub decode_driver_config : NomadConfig → Option TaskConfig
  -- TaskHandle.SetDriverState and GetDriverState; `none` is an error
  pub encode_state : TaskState → Option Text
  pub decode_state : Text → Option TaskState
  -- signals.Parse, and the inverse that `reverseSignalMap` makes of signals.SignalLookup
  pub signal_lookup : List (Text × ℕ)
  pub parse_signal : Text → Option ℕ
  -- json.Unmarshal into a lastRunStats and into a potStats
  pub unmarshal_last_run : Text → Option ℤ
  pub unmarshal_stats : Text → Option PotStats
  -- what a circbuf of drivers.CheckBufSize bytes keeps of what is written to it
  pub kept : Text → Text
