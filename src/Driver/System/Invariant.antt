-- ===== src/Driver/System/Invariant.antt =====
-- What holds in every state that the driver comes to.
use nomad_pot_driver.Base.{
  arith, refl, Option-cases, Bool-cases, inl, inr, get_elem?-set_known, Option, some, Bool, ℕ, ◌≡◌,
  true, get_elem?,
}
use nomad_pot_driver.Text.Split.{Text}
use nomad_pot_driver.Outcome.{ok}
use nomad_pot_driver.Types.{Syexec, Libs}
use nomad_pot_driver.Machine.{Host}
use nomad_pot_driver.Pot.Run.{destroy_container}
use nomad_pot_driver.Store.{get}
use nomad_pot_driver.Handle.{Handle}
use nomad_pot_driver.Driver.State.{Driver, Result, value}
use nomad_pot_driver.Driver.Plugin.{new_pot_driver}
use nomad_pot_driver.Driver.Wait.{destroy_handle}
use nomad_pot_driver.Driver.Wait.Destroy.{destroy_handle_again, destroy_handle_first}
use nomad_pot_driver.Driver.System.{Steps, here, next, Reachable}
use nomad_pot_driver.Driver.System.Later.{Later, Later-refl, Later-trans, IsValid}
use nomad_pot_driver.Driver.System.Perform.{perform-Moves}

new_pot_driver-IsValid : IsValid new_pot_driver
unfolding new_pot_driver get
new_pot_driver-IsValid = record { at = λ id p e. cc }

module _ (lib : Libs) (host : Host) (decode : Text → Option Bool) where
  Steps-Later : {d d' : Driver} → Steps lib host decode d d' → Later d d'
  Steps-Later {d} here = Later-refl d
  Steps-Later {d} (next e survives rest) =
      Later-trans ((perform-Moves lib host decode e).at d) (Steps-Later rest)

  -- In every state that a new driver comes to, each id in the store has a handle, and the
  -- configuration of this handle has this id.
  pub Reachable-IsValid : {d : Driver} → Reachable lib host decode d → IsValid d
  Reachable-IsValid steps = (Steps-Later steps).valid new_pot_driver-IsValid

  -- A destruction that comes back leaves the flag of the handle set.
  destroyed :
      (p : ℕ) (se : Syexec) (d : Driver) {r : Result (Option Bool)}
      → (destroy_handle lib host p se d).0 ≡ ok r
      → (h : Handle) × (get_elem? (destroy_handle lib host p se d).1.handles p ≡ some h)
        × (h.called_destroy ≡ true)
  unfolding destroy_handle destroy_container
  destroyed p se d fine = elim (Option-cases (get_elem? d.handles p)) [
    | inl lost ↦ absurd (ground arith)
    | inr (h, known) ↦ elim (Bool-cases h.called_destroy) [
      | inl called ↦ rw (destroy_handle_again lib host p se d h known called) (h, known, called)
      | inr new ↦ elim (destroy_handle_first lib host p se d h known new) [
        | inl (pid, ran, same) ↦
            rw same
              (record h { called_destroy = true }, get_elem?-set_known d.handles p h _ known, refl)
        | inr (gone, panics) ↦ cc
      ]
    ]
  ]

  -- After a destruction through a handle, unless it panics, a destruction through the same handle
  -- runs no command and changes nothing, in every later state, whatever was called and whichever
  -- goroutines went on in between.
  pub destroyed_once :
      {d' : Driver} {r : Result (Option Bool)} (d : Driver) (p : ℕ) (se se' : Syexec)
      → (destroy_handle lib host p se d).0 ≡ ok r
      → Steps lib host decode (destroy_handle lib host p se d).1 d'
      → destroy_handle lib host p se' d' ≡ (ok (value (some true)), d')
  destroyed_once {d' = d'} d p se se' fine steps =
      let (h, known, called) = destroyed p se d fine in
      let (h', known', kept) = (Steps-Later steps).handle p h known in
      destroy_handle_again lib host p se' d' h' known' (kept.destroyed called)
