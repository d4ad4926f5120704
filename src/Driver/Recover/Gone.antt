-- ===== src/Driver/Recover/Gone.antt =====
-- RecoverTask for a container that does not run.
use nomad_pot_driver.Driver.State.{Driver}
