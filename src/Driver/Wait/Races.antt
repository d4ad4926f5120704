-- ===== src/Driver/Wait/Races.antt =====
-- potWait on a handle that `run` has not prepared.
use nomad_pot_driver.Base.{◌≡◌, ◌≢◌, refl, none, some, arith, get_elem?, get_elem?-set_known}
use nomad_pot_driver.Outcome.{panic, nil_dereference}
use nomad_pot_driver.Types.{Syexec, Libs}
use nomad_pot_driver.Machine.{Host, End, clean}
use nomad_pot_driver.Handle.{Handle, done}
use nomad_pot_driver.Driver.State.{Driver, Ref}
use nomad_pot_driver.Driver.Wait.{pot_wait_end}

module _ (lib : Libs) (host : Host) where
  -- If a handle has no exit result and `Wait` returns an error, potWait panics.
  pub pot_wait_panics :
      (p : Ref) (se : Syexec) (end : End) (d : Driver) (h : Handle)
      → get_elem? d.handles p ≡ some h
      → h.exit_result ≡ none
      → end ≢ clean
      → (pot_wait_end lib host (some p) se end d).0 ≡ panic nil_dereference
  unfolding pot_wait_end
  pot_wait_panics p se clean d h known missing failed = absurd (failed refl)
  pot_wait_panics p se _ d h known missing failed =
      ground (arith, get_elem?-set_known d.handles p h (record h { proc_state = done }) known)
