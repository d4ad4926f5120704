-- ===== src/Examples/Containers.antt =====
-- Commands on a container.
use nomad_pot_driver.Base.{[], ◌∷◌, ◌++◌, ◌≡◌, refl, pos, arith}
use nomad_pot_driver.Text.Split.{Text, codes, split}
use nomad_pot_driver.Text.Decimal.{itoa}
use nomad_pot_driver.Outcome.{ok}
use nomad_pot_driver.Types.{Syexec, new_syexec}
use nomad_pot_driver.Machine.{Pot, Host}
use nomad_pot_driver.Prepare.Commands.{container_name}
use nomad_pot_driver.Pot.Query.{check_container_alive}
use nomad_pot_driver.Pot.Query.Pids.{alive_pid, alive_pid_two}
use nomad_pot_driver.Pot.Create.{create_container}
use nomad_pot_driver.Pot.Create.Order.{Ordered, creation, create_container-Ordered}
use nomad_pot_driver.Examples.Data.{cfg, libs, good_host}

abbrev prepared : Syexec
prepared = record (new_syexec cfg) {
  argv_create = codes "prepare" ∷ [];
  argv_copy = codes "copy-in" ∷ [];
  argv_mount = codes "mount-in" ∷ codes "mount-in -d" ∷ [];
  argv_env = codes "set-env";
  argv_extra_hosts = codes "set-hosts";
  argv_mem = codes "set-rss";
}

abbrev before : Pot
before = record { se = prepared; log = [] }

create_container-Ordered_example :
    Ordered (creation libs good_host cfg prepared) [] (create_container libs good_host cfg before)
create_container-Ordered_example = create_container-Ordered libs good_host cfg before

-- What pgrep prints.
abbrev printing : Text → Host
printing out = record good_host {
  shell_output = λ log command. record (good_host.shell_output log command) { out = out };
}

abbrev one_line : Host
one_line = printing (itoa (pos 412) ++ codes "\n")

alive_pid_example : (check_container_alive libs one_line cfg before).0 ≡ ok (pos 412)
unfolding container_name codes split
alive_pid_example =
    alive_pid libs one_line cfg before (codes "web_j2_a1") 412 refl refl refl (omega arith)

abbrev two_lines : Host
two_lines = printing (itoa (pos 412) ++ b'\n' ∷ (itoa (pos 97) ++ codes "\n"))

alive_pid_two_example : (check_container_alive libs two_lines cfg before).0 ≡ ok (pos 0)
unfolding container_name codes split
alive_pid_two_example =
    alive_pid_two libs two_lines cfg before (codes "web_j2_a1") 412 97 refl refl refl
