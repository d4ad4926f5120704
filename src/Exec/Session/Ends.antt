-- ===== src/Exec/Session/Ends.antt =====
-- When the three loops of a session end. `wg.Wait()` waits for those of the output.
use nomad_pot_driver.Base.{
  ◌≡◌, refl, Bool, true, false, ◌||◌, Option, none, some, List, [], ◌∷◌, inl, inr, arith,
  if◌then◌else◌,
}
use nomad_pot_driver.Exec.Stream.{
  Side, stdout, stderr, Session, Peer, copy_out, handle_stdout, handle_stderr, handle_stdin,
  set_tty_size,
}
use nomad_pot_driver.Exec.Session.{Round, receive, read, new_session, step, rounds}
use nomad_pot_driver.Exec.Session.Output.{is_done, same_side}

abbrev is_some {ℓ} : {A : Type ℓ} → Option A → Bool
is_some none = false
is_some (some a) = true

-- A read of the side gave an error, the end of the output among them.
abbrev pub is_broken : Side → List Round → Bool
is_broken side [] = false
is_broken side (receive m ∷ rs) = is_broken side rs
is_broken side (read t r ∷ rs) =
    let rest = is_broken side rs in if same_side side t then is_some r.error || rest else rest

-- The client's stream gave an error, its end among them.
abbrev pub is_hung_up : List Round → Bool
is_hung_up [] = false
is_hung_up (receive (inl e) ∷ rs) = true
is_hung_up (receive (inr m) ∷ rs) = is_hung_up rs
is_hung_up (read t r ∷ rs) = is_hung_up rs

module _ (peer : Peer) where
  -- A loop that has ended stays so, and a round with an error ends its loop.
  step-is_done :
      (side : Side) (r : Round) (s : Session)
      → is_done side s || is_broken side (r ∷ []) ≡ true
      → is_done side (step peer r s) ≡ true
  unfolding step handle_stdout handle_stderr handle_stdin set_tty_size copy_out
  step-is_done stdout (receive (inl e)) s h = grind arith
  step-is_done stderr (receive (inl e)) s h = grind arith
  step-is_done stdout (receive (inr m)) s h = grind arith
  step-is_done stderr (receive (inr m)) s h = grind arith
  step-is_done stdout (read stdout r) s h = grind arith
  step-is_done stderr (read stdout r) s h = grind arith
  step-is_done stdout (read stderr r) s h = grind arith
  step-is_done stderr (read stderr r) s h = grind arith

  step-in_done :
      (r : Round) (s : Session)
      → s.in_done || is_hung_up (r ∷ []) ≡ true
      → (step peer r s).in_done ≡ true
  unfolding step handle_stdout handle_stderr handle_stdin set_tty_size copy_out
  step-in_done (receive (inl e)) s h = grind arith
  step-in_done (receive (inr m)) s h = grind arith
  step-in_done (read stdout r) s h = grind arith
  step-in_done (read stderr r) s h = grind arith

  is_broken-cons :
      (side : Side) (r : Round) (rs : List Round)
      → is_broken side (r ∷ rs) ≡ is_broken side (r ∷ []) || is_broken side rs
  is_broken-cons side (receive m) rs = refl
  is_broken-cons stdout (read t r) rs = ground arith
  is_broken-cons stderr (read t r) rs = ground arith

  is_hung_up-cons :
      (r : Round) (rs : List Round) → is_hung_up (r ∷ rs) ≡ is_hung_up (r ∷ []) || is_hung_up rs
  is_hung_up-cons (receive (inl e)) rs = refl
  is_hung_up-cons (receive (inr m)) rs = refl
  is_hung_up-cons (read t r) rs = refl

  rounds-is_done :
      (side : Side) (rs : List Round) (s : Session)
      → is_done side s || is_broken side rs ≡ true
      → is_done side (rounds peer rs s) ≡ true
  unfolding rounds
  rounds-is_done side [] s h = ground arith
  rounds-is_done side (r ∷ rs) s h =
      rounds-is_done side rs (step peer r s)
        (ground (arith, is_broken-cons side r rs, step-is_done side r s))

  rounds-in_done :
      (rs : List Round) (s : Session)
      → s.in_done || is_hung_up rs ≡ true
      → (rounds peer rs s).in_done ≡ true
  unfolding rounds
  rounds-in_done [] s h = ground arith
  rounds-in_done (r ∷ rs) s h =
      rounds-in_done rs (step peer r s) (ground (arith, is_hung_up-cons r rs, step-in_done r s))

  -- Once the client's stream has given an error and the command's output too, on both sides if there
  -- is no terminal, all three loops have ended, in whatever order their rounds went and whatever
  -- else failed.
  pub session_ends :
      (tty : Bool) (rs : List Round)
      → is_hung_up rs ≡ true
      → is_broken stdout rs ≡ true
      → tty || is_broken stderr rs ≡ true
      → let s = rounds peer rs (new_session tty) in
        (s.in_done ≡ true) × (s.out_done ≡ true) × (s.err_done ≡ true)
  unfolding new_session
  session_ends tty rs hung out err = (
    rounds-in_done rs (new_session tty) hung,
    rounds-is_done stdout rs (new_session tty) out,
    rounds-is_done stderr rs (new_session tty) err,
  )
