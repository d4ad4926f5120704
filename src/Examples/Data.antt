-- ===== src/Examples/Data.antt =====
-- A task, libraries and hosts for the examples.
use nomad_pot_driver.Base.{
  true, false, Option, none, some, [], ◌∷◌, ◌++◌, map, pos, ◌==◌, if◌then◌else◌,
}
use nomad_pot_driver.Text.Split.{Text, codes}
use nomad_pot_driver.Types.{TaskConfig, NomadConfig, new_syexec, Libs}
use nomad_pot_driver.Machine.{Host, Ran, End, clean, exit_error, exited}
use nomad_pot_driver.Handle.{Handle, ExitResult, running}
use nomad_pot_driver.Driver.State.{Driver}

abbrev pub cfg : NomadConfig
cfg = record {
  id = codes "a1/web/j2";
  name = codes "web";
  alloc_dir = codes "/alloc";
  env = (codes "NOMAD_HOST_PORT_http", codes "25000") ∷ [];
  memory_mb = pos 64;
  stdout_path = [];
  stderr_path = [];
}

abbrev pub task : TaskConfig
task = record {
  image = codes "https://images";
  pot = codes "nginx";
  tag = codes "1.1";
  command = codes "nginx";
  args = codes "-g" ∷ [];
  port_map = (codes "http", codes "80") ∷ [];
  network_mode = [];
  mount = codes "/host:/mnt" ∷ [];
  mount_read_only = [];
  copy = codes "/a:/b" ∷ [];
  extra_hosts = [];
  attributes = [];
}

-- A quote within quotes ends them, stands in quotes of the other kind, and opens them again.
abbrev pub escaped : Text → Text
escaped [] = []
escaped (c ∷ s) =
    let rest = escaped s in
    if c == b'\'' then b'\'' ∷ b'"' ∷ b'\'' ∷ b'"' ∷ b'\'' ∷ rest else c ∷ rest

abbrev pub quote : Text → Text
quote s = b'\'' ∷ (escaped s ++ b'\'' ∷ [])

abbrev pub libs : Libs
libs = record {
  quote = quote;
  env_list = map (λ entry. entry.0 ++ codes "=" ++ entry.1);
  task_dir = λ c. record {
    dir = codes "/alloc/web";
    local_dir = codes "/alloc/web/local";
    secrets_dir = codes "/alloc/web/secrets";
    shared_task_dir = codes "/alloc/shared";
  };
  decode_driver_config = λ c. some task;
  encode_state = λ state. some state.container_name;
  decode_state = λ bytes. none;
  signal_lookup = (codes "SIGTERM", 15) ∷ [];
  parse_signal = λ name. some 15;
  unmarshal_last_run = λ out. some (pos 3);
  unmarshal_stats = λ out. none;
  kept = λ out. out;
}

abbrev pub answer : End → Ran
answer end = record { pid = pos 7; end = end; out = []; err_out = [] }

-- Every command succeeds and prints nothing: no container runs or exists.
abbrev pub good_host : Host
good_host = record {
  run = λ log args dir. answer clean;
  start = λ log args dir. some (pos 42);
  shell_output = λ log command. answer clean;
  fifo_error = λ log path. none;
  pipe_error = λ log. none;
  now = λ log. 5;
}

-- No shell command succeeds.
abbrev pub bad_host : Host
bad_host = record good_host { shell_output = λ log command. answer (exit_error (exited 1)) }

-- A driver with one task, whose handle has this exit result.
abbrev pub handle : Option ExitResult → Handle
handle r = record {
  syexec = new_syexec cfg;
  pid = pos 42;
  called_destroy = false;
  task_config = cfg;
  proc_state = running;
  started_at = 5;
  completed_at = none;
  exit_result = r;
}

abbrev pub driver : Option ExitResult → Driver
driver r = record {
  enabled = true;
  nomad_config = none;
  tasks = (codes "a1/web/j2", 0) ∷ [];
  handles = handle r ∷ [];
  threads = [];
  log = [];
  shut_down = false;
}
