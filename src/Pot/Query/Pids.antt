-- ===== src/Pot/Query/Pids.antt =====
-- What checkContainerAlive makes of the lines that pgrep prints.
use mathlib.Core.List.{reverse, reverse-append, reverse-reverse, reverse-cons}
use nomad_pot_driver.Base.{
  ℕ, ◌^◌, ◌<◌, ◌≡◌, refl, sym, ap, ◌∙◌, false, none, some, [], ◌∷◌, ◌++◌, arith, ℤ, pos, All,
  All-append, append_assoc, append-nil, subst,
}
use nomad_pot_driver.Text.Split.{Text, codes}
use nomad_pot_driver.Text.Trim.{is_space, trim_left, trim_space}
use nomad_pot_driver.Text.Decimal.{itoa, atoi}
use nomad_pot_driver.Text.Decimal.Roundtrip.{IsDigit, Starts, atoi-itoa, atoi-none, itoa-digits}
use nomad_pot_driver.Outcome.{ok}
use nomad_pot_driver.Types.{NomadConfig, Libs}
use nomad_pot_driver.Prepare.Commands.{container_name}
use nomad_pot_driver.Machine.{Host, Pot, clean}
use nomad_pot_driver.Pot.Query.{alive_command, read_pid, pid_of, check_container_alive}

is_space-IsDigit : (c : ℕ) → IsDigit c → is_space c ≡ false
unfolding is_space
is_space-IsDigit c h = ground arith

trim_left-Starts : (s : Text) → Starts s → trim_left s ≡ s
unfolding trim_left
trim_left-Starts [] h = refl
trim_left-Starts (c ∷ s) h = rw (is_space-IsDigit c h)

All-reverse : (s : Text) → All IsDigit s → All IsDigit (reverse s)
All-reverse [] h = tt
All-reverse (c ∷ s) (hc, hs) =
    rw (reverse-cons c s) (All-append IsDigit (reverse s) (c ∷ []) (All-reverse s hs) (hc, tt))

Starts-append : (s t : Text) → All IsDigit s → Starts t → Starts (s ++ t)
Starts-append [] t h k = k
Starts-append (c ∷ s) t h k = h.0

Starts-reverse : (s t : Text) → Starts s → All IsDigit s → Starts (reverse s ++ t)
Starts-reverse [] t h d = absurd h
Starts-reverse (c ∷ s) t h d =
    rw (reverse-cons c s, append_assoc (reverse s) (c ∷ []) t)
      (Starts-append (reverse s) (c ∷ t) (All-reverse s d.1) h)

Starts-front : (s t : Text) → Starts s → Starts (s ++ t)
Starts-front [] t h = absurd h
Starts-front (c ∷ s) t h = h

-- A text that begins and ends with a digit, on a line of its own.
trim_space-line : (s : Text) → Starts s → Starts (reverse s) → trim_space (s ++ codes "\n") ≡ s
unfolding trim_space trim_left codes
trim_space-line s h k =
    rw
      (
        trim_left-Starts (s ++ codes "\n") (Starts-front s (codes "\n") h),
        reverse-append s (codes "\n"),
        trim_left-Starts (reverse s) k,
      )
      (reverse-reverse s)

read_pid-some : (out t : Text) (z : ℤ) → trim_space out ≡ t → atoi t ≡ some z → read_pid out ≡ z
unfolding read_pid
read_pid-some out t z e h = ground arith

read_pid-none : (out t : Text) → trim_space out ≡ t → atoi t ≡ none → read_pid out ≡ pos 0
unfolding read_pid
read_pid-none out t e h = ground arith

pub read_pid-itoa : (n : ℕ) → n < 2 ^ 63 → read_pid (itoa (pos n) ++ codes "\n") ≡ pos n
read_pid-itoa n h =
    let (starts, digits) = itoa-digits n in
    let line : trim_space (itoa (pos n) ++ codes "\n") ≡ itoa (pos n) =
      trim_space-line (itoa (pos n)) starts
        (subst Starts (append-nil (reverse (itoa (pos n)))) (Starts-reverse _ [] starts digits)) in
    read_pid-some _ (itoa (pos n)) (pos n) line (atoi-itoa (pos n) h)

-- Two lines, of which Atoi reads neither.
read_pid-two : (m n : ℕ) → read_pid (itoa (pos m) ++ b'\n' ∷ (itoa (pos n) ++ codes "\n")) ≡ pos 0
read_pid-two m n =
    let (starts, digits) = itoa-digits m in
    let (starts', digits') = itoa-digits n in
    let both : Text = itoa (pos m) ++ b'\n' ∷ itoa (pos n) in
    let ends : Starts (reverse both) =
      rw
        (
          reverse-append (itoa (pos m)) (b'\n' ∷ itoa (pos n)),
          reverse-cons b'\n' (itoa (pos n)),
          append_assoc (reverse (itoa (pos n))) (b'\n' ∷ []) (reverse (itoa (pos m))),
        )
        (Starts-reverse (itoa (pos n)) _ starts' digits') in
    let line : trim_space (both ++ codes "\n") ≡ both =
      trim_space-line both (Starts-front (itoa (pos m)) _ starts) ends in
    read_pid-none _ both
      (ap trim_space (sym (append_assoc (itoa (pos m)) (b'\n' ∷ itoa (pos n)) (codes "\n"))) ∙ line)
      (atoi-none (itoa (pos m)) (itoa (pos n)) b'\n' starts (omega arith))

module _ (lib : Libs) (host : Host) where
  -- Where pgrep ends without an error and prints one process id on a line, checkContainerAlive
  -- returns this id, if it fits an int.
  pub alive_pid :
      (cfg : NomadConfig) (s : Pot) (name : Text) (n : ℕ)
      → container_name cfg.id ≡ ok name
      → (host.shell_output s.log (alive_command name)).end ≡ clean
      → (host.shell_output s.log (alive_command name)).out ≡ itoa (pos n) ++ codes "\n"
      → n < 2 ^ 63
      → (check_container_alive lib host cfg s).0 ≡ ok (pos n)
  unfolding check_container_alive pid_of
  alive_pid cfg s name n named ended printed fits =
      rw (named, ended, printed, read_pid-itoa n fits) refl

  -- Where pgrep ends without an error and prints two process ids, each on a line, checkContainerAlive
  -- returns 0, as for a container that does not run.
  pub alive_pid_two :
      (cfg : NomadConfig) (s : Pot) (name : Text) (m n : ℕ)
      → container_name cfg.id ≡ ok name
      → (host.shell_output s.log (alive_command name)).end ≡ clean
      → (host.shell_output s.log (alive_command name)).out
        ≡ itoa (pos m) ++ b'\n' ∷ (itoa (pos n) ++ codes "\n")
      → (check_container_alive lib host cfg s).0 ≡ ok (pos 0)
  unfolding check_container_alive pid_of
  alive_pid_two cfg s name m n named ended printed =
      rw (named, ended, printed, read_pid-two m n) refl
