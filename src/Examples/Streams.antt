-- ===== src/Examples/Streams.antt =====
-- Sessions of a command with its streams.
use nomad_pot_driver.Base.{◌≤◌, ◌≡◌, refl, true, false, none, some, List, [], ◌∷◌, inl, length}
use nomad_pot_driver.Text.Split.{codes}
use nomad_pot_driver.Exec.Stream.{Peer, eof, closed_pipe, failed, stdout, stderr}
use nomad_pot_driver.Exec.Session.{Round, receive, read, new_session, rounds, Setup}
use nomad_pot_driver.Exec.Session.Bounds.{errors-le-capacity}
use nomad_pot_driver.Exec.Session.Output.{delivered, delivered-produced}
use nomad_pot_driver.Exec.Session.Ends.{session_ends}

abbrev pub peer : Peer
peer = record {
  eio = codes "input/output error";
  text_of = λ e. codes "broken";
  send = λ sent m. none;
  write = λ written bytes. none;
  resize = λ sizes size. none;
  is_file = false;
}

-- Output on both sides in turn, a request that fails, and the ends of the streams.
abbrev pub script : List Round
script =
    read stdout (record { bytes = 1 ∷ 2 ∷ []; error = none })
    ∷ read stderr (record { bytes = 9 ∷ []; error = none })
    ∷ receive (inl (failed (codes "gone")))
    ∷ read stdout (record { bytes = 3 ∷ []; error = some eof })
    ∷ read stderr (record { bytes = []; error = some closed_pipe })
    ∷ []

abbrev setup : Setup
setup = record { terminal = none; set_tty = none; set_io = none; start = none; pty = none }

errors-le-capacity_example : length (rounds peer script (new_session false)).errors ≤ 3
errors-le-capacity_example = errors-le-capacity peer false script

delivered-produced_example :
    (delivered stdout (rounds peer script (new_session false)).sent ≡ 1 ∷ 2 ∷ 3 ∷ [])
    × (delivered stderr (rounds peer script (new_session false)).sent ≡ 9 ∷ [])
    × (delivered stdout (rounds peer script (new_session true)).sent ≡ 1 ∷ 2 ∷ 3 ∷ [])
    × (delivered stderr (rounds peer script (new_session true)).sent ≡ [])
delivered-produced_example = delivered-produced peer (λ sent m. refl) script

session_ends_example :
    let s = rounds peer script (new_session false) in
    (s.in_done ≡ true) × (s.out_done ≡ true) × (s.err_done ≡ true)
session_ends_example = session_ends peer false script refl refl refl
