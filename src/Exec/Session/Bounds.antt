-- ===== src/Exec/Session/Bounds.antt =====
-- How often the loops of a session write to errCh.
use nomad_pot_driver.Base.{
  ℕ, ◌+◌, ◌≤◌, ◌≡◌, Bool, true, false, List, [], ◌∷◌, ◌⊎◌, inl, inr, arith, length, length-append,
}
use nomad_pot_driver.Exec.Stream.{
  IoError, stdout, stderr, Read, Request, Session, Peer, copy_out, handle_stdout, handle_stderr,
  handle_stdin,
}
use nomad_pot_driver.Exec.Session.{Round, receive, read, new_session, step, rounds}

abbrev ended : Bool → ℕ
ended true = 1
ended false = 0

-- A loop writes to errCh only as it ends.
abbrev pub IsQuiet : Session → Type 0
IsQuiet s = length s.errors ≤ ended s.in_done + ended s.out_done + ended s.err_done

module _ (peer : Peer) where
  copy_out-IsQuiet :
      (r : Read) (s : Session)
      → IsQuiet s
      → (s.out_done ≡ false → IsQuiet (copy_out peer stdout r s))
        × (s.err_done ≡ false → IsQuiet (copy_out peer stderr r s))
  unfolding copy_out
  copy_out-IsQuiet r s h = (λ e. grind (arith, length-append), λ e. grind (arith, length-append))

  handle_stdin-IsQuiet :
      (m : IoError ⊎ Request) (s : Session)
      → IsQuiet s
      → s.in_done ≡ false
      → IsQuiet (handle_stdin peer m s)
  unfolding handle_stdin
  handle_stdin-IsQuiet (inl e) s h open_in = grind (arith, length-append)
  handle_stdin-IsQuiet (inr m) s h open_in = grind (arith, length-append)

  step-IsQuiet : (r : Round) (s : Session) → IsQuiet s → IsQuiet (step peer r s)
  unfolding step handle_stdout handle_stderr
  step-IsQuiet (receive m) s h = ground (arith, handle_stdin-IsQuiet m s h)
  step-IsQuiet (read stdout r) s h = ground (arith, (copy_out-IsQuiet r s h).0)
  step-IsQuiet (read stderr r) s h = ground (arith, (copy_out-IsQuiet r s h).1)

  rounds-IsQuiet : (rs : List Round) (s : Session) → IsQuiet s → IsQuiet (rounds peer rs s)
  unfolding rounds
  rounds-IsQuiet [] s h = h
  rounds-IsQuiet (r ∷ rs) s h = rounds-IsQuiet rs (step peer r s) (step-IsQuiet r s h)

  ended-le : (b : Bool) → ended b ≤ 1
  ended-le true = omega arith
  ended-le false = omega arith

  -- In every order of the rounds, the three loops of a session together put at most three errors
  -- into errCh, as many as it has room for.
  pub errors-le-capacity :
      (tty : Bool) (rs : List Round) → length (rounds peer rs (new_session tty)).errors ≤ 3
  unfolding new_session
  errors-le-capacity tty rs =
      let s = rounds peer rs (new_session tty) in
      omega (
        arith,
        rounds-IsQuiet rs (new_session tty) (omega arith),
        ended-le s.in_done,
        ended-le s.out_done,
        ended-le s.err_done,
      )
