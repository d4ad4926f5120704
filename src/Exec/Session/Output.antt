-- ===== src/Exec/Session/Output.antt =====
-- What the client receives of the command's output.
use nomad_pot_driver.Base.{
  ◌≡◌, refl, Bool, true, false, none, some, List, [], ◌∷◌, ◌++◌, inl, inr, arith, append_assoc,
  append-nil, ◌∙◌, if◌then◌else◌,
}
use nomad_pot_driver.Exec.Stream.{
  Bytes, Side, stdout, stderr, Message, chunk, closing, exit_result, Session, Peer, copy_out,
  handle_stdout, handle_stderr, handle_stdin, set_tty_size,
}
use nomad_pot_driver.Exec.Session.{Round, receive, read, new_session, step, rounds}

abbrev pub same_side : Side → Side → Bool
same_side stdout stdout = true
same_side stderr stderr = true
same_side _ _ = false

-- The bytes that the messages carry for a side, in their order.
abbrev pub delivered : Side → List Message → Bytes
delivered side [] = []
delivered side (chunk t bytes ∷ ms) =
    if same_side side t then bytes ++ delivered side ms else delivered side ms
delivered side (closing t ∷ ms) = delivered side ms
delivered side (exit_result code ∷ ms) = delivered side ms

-- The bytes that a side's reads give, up to the first read with an error.
abbrev pub produced : Side → List Round → Bytes
produced side [] = []
produced side (receive m ∷ rs) = produced side rs
produced side (read t r ∷ rs) =
    let rest = produced side rs in
    if same_side side t then r.bytes ++ elim r.error [ none ↦ rest | some e ↦ [] ] else rest

abbrev pub is_done : Side → Session → Bool
is_done stdout s = s.out_done
is_done stderr s = s.err_done

delivered-append :
    (side : Side) (ms ns : List Message)
    → delivered side (ms ++ ns) ≡ delivered side ms ++ delivered side ns
delivered-append side [] ns = refl
delivered-append side (chunk t bytes ∷ ms) ns =
    grind (arith, delivered-append side ms ns, append_assoc)
delivered-append side (closing t ∷ ms) ns = delivered-append side ms ns
delivered-append side (exit_result code ∷ ms) ns = delivered-append side ms ns

module _ (peer : Peer) (sends : (ms : List Message) (m : Message) → peer.send ms m ≡ none) where
  -- What a side still owes after the state `s`, for the rounds to come.
  abbrev owed : Side → Session → List Round → Bytes
  owed side s rs = if is_done side s then [] else produced side rs

  step-owed :
      (side : Side) (r : Round) (rs : List Round) (s : Session)
      → delivered side (step peer r s).sent ++ owed side (step peer r s) rs
        ≡ delivered side s.sent ++ owed side s (r ∷ rs)
  unfolding step handle_stdout handle_stderr handle_stdin set_tty_size copy_out
  step-owed stdout (receive (inl e)) rs s = grind arith
  step-owed stderr (receive (inl e)) rs s = grind arith
  step-owed stdout (receive (inr m)) rs s = grind arith
  step-owed stderr (receive (inr m)) rs s = grind arith
  step-owed stdout (read stdout r) rs s =
      grind (arith, sends, delivered-append, append_assoc, append-nil)
  step-owed stderr (read stdout r) rs s =
      grind (arith, sends, delivered-append, append_assoc, append-nil)
  step-owed stdout (read stderr r) rs s =
      grind (arith, sends, delivered-append, append_assoc, append-nil)
  step-owed stderr (read stderr r) rs s =
      grind (arith, sends, delivered-append, append_assoc, append-nil)

  rounds-owed :
      (side : Side) (rs : List Round) (s : Session)
      → delivered side (rounds peer rs s).sent ≡ delivered side s.sent ++ owed side s rs
  unfolding rounds
  rounds-owed stdout [] s = ground (arith, append-nil (delivered stdout s.sent))
  rounds-owed stderr [] s = ground (arith, append-nil (delivered stderr s.sent))
  rounds-owed side (r ∷ rs) s = rounds-owed side rs (step peer r s) ∙ step-owed side r rs s

  -- If the client's stream takes every message, then in every order of the rounds of the loops the
  -- client gets, for each side, exactly the bytes that the command's reads gave up to the first
  -- error, in their order; with a terminal all output comes as stdout.
  pub delivered-produced :
      (rs : List Round)
      → (delivered stdout (rounds peer rs (new_session false)).sent ≡ produced stdout rs)
        × (delivered stderr (rounds peer rs (new_session false)).sent ≡ produced stderr rs)
        × (delivered stdout (rounds peer rs (new_session true)).sent ≡ produced stdout rs)
        × (delivered stderr (rounds peer rs (new_session true)).sent ≡ [])
  unfolding new_session
  delivered-produced rs = (
    rounds-owed stdout rs (new_session false),
    rounds-owed stderr rs (new_session false),
    rounds-owed stdout rs (new_session true),
    rounds-owed stderr rs (new_session true),
  )
