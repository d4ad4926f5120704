-- ===== src/Examples/Shell.antt =====
-- A shell that knows blanks and both kinds of quotes, and the commands that it reads.
use nomad_pot_driver.Base.{
  ℕ, ◌≡◌, refl, sym, ap, ◌∙◌, true, false, ◌==◌, Option, none, some, List, [], ◌∷◌, ◌++◌, arith,
  append_assoc, append-nil, if◌then◌else◌, inl, inr, Bool-cases,
}
use nomad_pot_driver.Text.Split.{Text, codes}
use nomad_pot_driver.Types.{Map}
use nomad_pot_driver.Prepare.Container.{
  pot_bin, env_command, hosts_command, copy_entry, mount_entry, mount_read_only_entry,
  attribute_entry,
}
use nomad_pot_driver.Prepare.Shell.{Shell, so_far, emit, cons_words, is_plain}
use nomad_pot_driver.Prepare.Shell.Commands.{
  env_words, hosts_words, env_command-words, hosts_command-words,
}
use nomad_pot_driver.Prepare.Shell.Entries.{Runs, entries-Runs}
use nomad_pot_driver.Examples.Data.{libs, quote, escaped}

data Mode : Type 0 where
  bare single double : Mode

-- What one character does to the mode and to the word that is read, and the word that it ends. Outside
-- of quotes, other marks than the plain ones are taken as they are.
abbrev next_mode : Mode → ℕ → Mode
next_mode bare c = if c == b'\'' then single else if c == b'"' then double else bare
next_mode single c = if c == b'\'' then bare else single
next_mode double c = if c == b'"' then bare else double

abbrev bare_word : Option Text → ℕ → Option Text
bare_word w c =
    if c == b' '
    then none
    else if c == b'\''
    then some (so_far w)
    else if c == b'"'
    then some (so_far w)
    else some (so_far w ++ c ∷ [])

abbrev next_word : Mode → Option Text → ℕ → Option Text
next_word bare w c = bare_word w c
next_word single w c = some (if c == b'\'' then so_far w else so_far w ++ c ∷ [])
next_word double w c = some (if c == b'"' then so_far w else so_far w ++ c ∷ [])

abbrev ended_words : Mode → Option Text → ℕ → List Text
ended_words bare w c = if c == b' ' then emit w [] else []
ended_words _ w c = []

unfoldable lex : Mode → Option Text → Text → Option (List Text)
lex bare w [] = some (emit w [])
lex single w [] = none
lex double w [] = none
lex m w (c ∷ s) = cons_words (ended_words m w c) (lex (next_mode m c) (next_word m w c) s)

lex-escaped :
    (w : Option Text) (t s : Text)
    → lex single w (escaped t ++ b'\'' ∷ s) ≡ lex bare (some (so_far w ++ t)) s
unfolding lex
lex-escaped w [] s = ap (λ x. lex bare (some x) s) (sym (append-nil (so_far w)))
lex-escaped w (c ∷ t) s = elim (Bool-cases (c == b'\'')) [
  | inl is_quote ↦
      let e : c ≡ b'\'' = ground arith in
      rw e (
        lex-escaped (some (so_far w ++ b'\'' ∷ [])) t s
        ∙ ap (λ x. lex bare (some x) s) (append_assoc (so_far w) (b'\'' ∷ []) t))
  | inr other ↦
      rw (other, other)
        (lex-escaped (some (so_far w ++ c ∷ [])) t s
          ∙ ap (λ x. lex bare (some x) s) (append_assoc (so_far w) (c ∷ []) t))
]

lex-plain :
    (w : Option Text) (c : ℕ) (s : Text)
    → is_plain c ≡ true
    → lex bare w (c ∷ s) ≡ lex bare (some (so_far w ++ c ∷ [])) s
unfolding lex
lex-plain w c s h =
    let no_blank : (c == b' ') ≡ false = ground arith in
    let no_quote : (c == b'\'') ≡ false = ground arith in
    let no_double : (c == b'"') ≡ false = ground arith in rw (no_blank, no_quote, no_double) refl

unfoldable shell : Shell quote
unfolding lex
shell = record {
  words = lex bare;
  plain = λ w c s h. lex-plain w c s h;
  quoted = λ w t s.
      ap (λ x. lex bare w (b'\'' ∷ x)) (append_assoc (escaped t) (b'\'' ∷ []) s)
      ∙ lex-escaped (some (so_far w)) t s;
  blank = λ s. refl;
  blank_after = λ w s. refl;
  ended = refl;
  ended_after = λ w. refl;
}

-- A name with a blank and a quote, and what the commands make of it.
abbrev odd : Text
odd = codes "it's mine"

abbrev env : Map
env = (codes "A", codes "x y") ∷ []

env_command-words_example :
    shell.words none (env_command libs odd env)
    ≡ some (pot_bin ∷ codes "set-env" ∷ codes "-p" ∷ odd ∷ env_words env)
env_command-words_example = env_command-words libs shell odd env refl

hosts_command-words_example :
    shell.words none (hosts_command libs odd (codes "h:10.0.0.1" ∷ []))
    ≡ some (pot_bin ∷ codes "set-hosts" ∷ codes "-p" ∷ odd ∷ hosts_words (codes "h:10.0.0.1" ∷ []))
hosts_command-words_example = hosts_command-words libs shell odd (codes "h:10.0.0.1") []

entries-Runs_example :
    Runs libs shell (copy_entry libs odd (codes "/a b" ++ b':' ∷ codes "/c:d")) (
      codes "copy-in"
      ∷ codes "-p"
      ∷ odd
      ∷ codes "-s"
      ∷ codes "/a b"
      ∷ codes "-d"
      ∷ codes "/c:d"
      ∷ [])
    × Runs libs shell (mount_entry libs odd (codes "/a b" ++ b':' ∷ codes "/m")) (
        codes "mount-in"
        ∷ codes "-p"
        ∷ odd
        ∷ codes "-d"
        ∷ codes "/a b"
        ∷ codes "-m"
        ∷ codes "/m"
        ∷ [])
    × Runs libs shell (mount_read_only_entry libs odd (codes "/a b" ++ b':' ∷ codes "/m")) (
        codes "mount-in"
        ∷ codes "-p"
        ∷ odd
        ∷ codes "-d"
        ∷ codes "/a b"
        ∷ codes "-m"
        ∷ codes "/m"
        ∷ codes "-r"
        ∷ [])
    × Runs libs shell (attribute_entry libs odd (codes "/a b" ++ b':' ∷ codes "/m")) (
        codes "set-attribute"
        ∷ codes "-p"
        ∷ odd
        ∷ codes "-A"
        ∷ codes "/a b"
        ∷ codes "-V"
        ∷ codes "/m"
        ∷ [])
unfolding codes
entries-Runs_example =
    entries-Runs libs shell odd (codes "/a b") (codes "/m") (codes "/c:d") (omega arith)
      (omega arith)
