-- ===== src/Exec/Stream.antt =====
-- handleStdin, handleStdout, handleStderr and isClosedError of exec_utils.go, and pty_unix.go: each
-- round of a loop as a step on what the three goroutines share.
use nomad_pot_driver.Base.{
  ℕ, suc, ◌-◌, ◌%◌, Bool, true, false, Option, none, some, List, [], ◌∷◌, ◌++◌, ℤ, ◌⊎◌, inl, inr,
  pos, negsuc, if◌then◌else◌,
}
use nomad_pot_driver.Text.Split.{Text}
use nomad_pot_driver.Text.Trim.{contains}

abbrev pub Bytes : Type 0
Bytes = List ℕ

pub data IoError : Type 0 where
  eof closed_pipe not_a_terminal : IoError
  -- an error by its text
  failed : Text → IoError
  -- "failed to resize tty: %v"
  resizing : IoError → IoError

pub data Side : Type 0 where
  stdout stderr : Side

-- drivers.ExecTaskStreamingResponseMsg
pub data Message : Type 0 where
  chunk : Side → Bytes → Message
  closing : Side → Message
  exit_result : ℤ → Message

-- What one Read gave: the bytes, none for n = 0, and the error.
pub record Read : Type 0 where
  pub bytes : Bytes
  pub error : Option IoError

pub record TtySize : Type 0 where
  pub height : ℤ
  pub width : ℤ

-- A message of the client: an operation on stdin, or none, and a size, or none.
pub record Request : Type 0 where
  pub stdin : Option (Bytes × Bool)
  pub size : Option TtySize

-- What the goroutines share, each list oldest first: the messages sent, the errors in errCh, the
-- chunks written to stdin, how often it was closed and the sizes set, and which loops have ended.
pub record Session : Type 0 where
  pub sent : List Message
  pub errors : List IoError
  pub written : List Bytes
  pub closed : ℕ
  pub sizes : List (ℕ × ℕ)
  pub in_done : Bool
  pub out_done : Bool
  pub err_done : Bool

-- The client's stream, the command's stdin and the terminal: answers after what went before.
pub record Peer : Type 0 where
  pub eio : Text
  pub text_of : IoError → Text
  pub send : List Message → Message → Option IoError
  pub write : List Bytes → Bytes → Option IoError
  -- pty.Setsize, and whether the writer is an *os.File
  pub resize : List (ℕ × ℕ) → ℕ × ℕ → Option IoError
  pub is_file : Bool

-- uint16(n)
unfoldable pub uint16 : ℤ → ℕ
uint16 (pos n) = n % 65536
uint16 (negsuc n) = 65535 - n % 65536

abbrev pub end_side : Side → Session → Session
end_side stdout s = record s { out_done = true }
end_side stderr s = record s { err_done = true }

-- errCh <- err; return
abbrev pub fail_side : Side → IoError → Session → Session
fail_side side e s = end_side side (record s { errors = s.errors ++ e ∷ [] })

abbrev pub fail_in : IoError → Session → Session
fail_in e s = record s { errors = s.errors ++ e ∷ []; in_done = true }

module _ (peer : Peer) where
  open peer use {eio, text_of}

  unfoldable pub is_unix_eio_err : Option IoError → Bool
  is_unix_eio_err none = false
  is_unix_eio_err (some e) = contains (text_of e) eio

  unfoldable pub is_closed_error : Option IoError → Bool
  unfolding is_unix_eio_err
  is_closed_error none = false
  is_closed_error (some eof) = true
  is_closed_error (some closed_pipe) = true
  is_closed_error (some e) = is_unix_eio_err (some e)

  -- A message that could not be sent is not on the list.
  abbrev pub send_message : Message → Session → Option IoError × Session
  send_message m s = elim (peer.send s.sent m) [
    | none ↦ (none, record s { sent = s.sent ++ m ∷ [] })
    | some e ↦ (some e, s)
  ]

  abbrev send_bytes : Side → Bytes → Session → Option IoError × Session
  send_bytes side [] s = (none, s)
  send_bytes side (b ∷ bytes) s = send_message (chunk side (b ∷ bytes)) s

  abbrev send_close : Side → Option IoError × Session → Session
  send_close side (none, s) = end_side side s
  send_close side (some e, s) = fail_side side e s

  abbrev other_error : Side → Option IoError → Session → Session
  other_error side none s = s
  other_error side (some e) s = fail_side side e s

  abbrev read_error : Side → Option IoError → Session → Session
  read_error side error s =
      if is_closed_error error
      then send_close side (send_message (closing side) s)
      else other_error side error s

  abbrev after_bytes : Side → Option IoError → Option IoError × Session → Session
  after_bytes side error (none, s) = read_error side error s
  after_bytes side error (some e, s) = fail_side side e s

  -- A round of handleStdout or handleStderr.
  unfoldable pub copy_out : Side → Read → Session → Session
  unfolding is_closed_error
  copy_out side r s = after_bytes side r.error (send_bytes side r.bytes s)

  unfoldable pub handle_stdout : Read → Session → Session
  unfolding copy_out
  handle_stdout = copy_out stdout

  unfoldable pub handle_stderr : Read → Session → Session
  unfolding copy_out
  handle_stderr = copy_out stderr

  -- setTTYSize
  unfoldable pub set_tty_size : TtySize → Session → Option IoError × Session
  unfolding uint16
  set_tty_size size s =
      let rows_cols : ℕ × ℕ = (uint16 size.height, uint16 size.width) in
      if peer.is_file
      then elim (peer.resize s.sizes rows_cols) [
        | none ↦ (none, record s { sizes = s.sizes ++ rows_cols ∷ [] })
        | some e ↦ (some e, s)
      ]
      else (some not_a_terminal, s)

  abbrev write_bytes : Bytes → Session → Option IoError × Session
  write_bytes [] s = (none, s)
  write_bytes (b ∷ bytes) s = elim (peer.write s.written (b ∷ bytes)) [
    | none ↦ (none, record s { written = s.written ++ (b ∷ bytes) ∷ [] })
    | some e ↦ (some e, s)
  ]

  abbrev close_stdin : Bool → Option IoError × Session → Session
  close_stdin close (some e, s) = fail_in e s
  close_stdin close (none, s) = if close then record s { closed = suc s.closed } else s

  abbrev resized : Option IoError × Session → Session
  resized (none, s) = s
  resized (some e, s) = fail_in (resizing e) s

  abbrev resize_to : Option TtySize → Session → Session
  resize_to none s = s
  resize_to (some size) s = resized (set_tty_size size s)

  abbrev handle_request : Option (Bytes × Bool) → Option TtySize → Session → Session
  handle_request (some (bytes, close)) size s = close_stdin close (write_bytes bytes s)
  handle_request none size s = resize_to size s

  abbrev received : IoError → Session → Session
  received e s = if is_closed_error (some e) then record s { in_done = true } else fail_in e s

  -- A round of handleStdin, with the request that Recv gave or its error.
  unfoldable pub handle_stdin : IoError ⊎ Request → Session → Session
  unfolding is_closed_error set_tty_size
  handle_stdin (inl e) s = received e s
  handle_stdin (inr m) s = handle_request m.stdin m.size s
