-- ===== src/Prepare/Shell/Entries.antt =====
-- The words that `sh` reads in the commands that prepare.go makes of a task's entries.
use nomad_pot_driver.Base.{◌≡◌, refl, none, some, List, [], ◌∷◌, ◌++◌}
use nomad_pot_driver.Text.Split.{Text, codes, Lacks, split_pair, split_two_lem}
use nomad_pot_driver.Outcome.{Outcome, ok}
use nomad_pot_driver.Types.{Libs}
use nomad_pot_driver.Prepare.Container.{
  pot_bin, copy_entry, mount_entry, mount_read_only_entry, attribute_entry,
}
use nomad_pot_driver.Prepare.Shell.{Shell, feed, all_plain}
use nomad_pot_driver.Prepare.Shell.Words.{Reads-literal, Reads-quote, Reads-start}
use nomad_pot_driver.Prepare.Shell.Commands.{pot_words, words-entry, words-mount}

module _ (lib : Libs) (sh : Shell lib.quote) where
  -- A command was made, and what shell_each makes of it runs `pot` with these arguments.
  abbrev pub Runs : Outcome Text → List Text → Type 0
  Runs r ws = (command : Text) × (r ≡ ok command) × (pot_words lib sh command ≡ some (pot_bin ∷ ws))

  copy-Runs :
      (pot_name a b : Text)
      → Lacks b':' a
      → Runs
          (copy_entry lib pot_name (a ++ b':' ∷ b))
          (codes "copy-in" ∷ codes "-p" ∷ pot_name ∷ codes "-s" ∷ a ∷ codes "-d" ∷ b ∷ [])
  unfolding copy_entry codes feed all_plain
  copy-Runs pot_name a b la = (
    _,
    rw (split_two_lem b':' a b la) refl,
    words-entry lib sh _ _ _ (
        Reads-quote sh _ b _ _ (
          Reads-literal sh _ (codes " -d ") _ _ refl (
            Reads-quote sh _ a _ _ (
              Reads-literal sh _ (codes " -s ") _ _ refl (
                Reads-quote sh _ pot_name _ _ (Reads-start sh none (codes "copy-in -p ") refl)))))),
  )

  mount-Runs :
      (pot_name a b : Text)
      → Lacks b':' a
      → Lacks b':' b
      → Runs
          (mount_entry lib pot_name (a ++ b':' ∷ b))
          (codes "mount-in" ∷ codes "-p" ∷ pot_name ∷ codes "-d" ∷ a ∷ codes "-m" ∷ b ∷ [])
  unfolding mount_entry
  mount-Runs pot_name a b la lb = (
    _,
    rw (split_pair b':' a b la lb) refl,
    words-entry lib sh _ _ _ (words-mount lib sh pot_name a b),
  )

  mount_read_only-Runs :
      (pot_name a b : Text)
      → Lacks b':' a
      → Lacks b':' b
      → Runs (mount_read_only_entry lib pot_name (a ++ b':' ∷ b)) (
          codes "mount-in"
          ∷ codes "-p"
          ∷ pot_name
          ∷ codes "-d"
          ∷ a
          ∷ codes "-m"
          ∷ b
          ∷ codes "-r"
          ∷ [])
  unfolding mount_read_only_entry codes feed all_plain
  mount_read_only-Runs pot_name a b la lb = (
    _,
    rw (split_pair b':' a b la lb) refl,
    words-entry lib sh _ _ _
        (Reads-literal sh _ (codes " -r") _ _ refl (words-mount lib sh pot_name a b)),
  )

  attribute-Runs :
      (pot_name a b : Text)
      → Lacks b':' a
      → Lacks b':' b
      → Runs
          (attribute_entry lib pot_name (a ++ b':' ∷ b))
          (codes "set-attribute" ∷ codes "-p" ∷ pot_name ∷ codes "-A" ∷ a ∷ codes "-V" ∷ b ∷ [])
  unfolding attribute_entry codes feed all_plain
  attribute-Runs pot_name a b la lb = (
    _,
    rw (split_pair b':' a b la lb) refl,
    words-entry lib sh _ _ _ (
        Reads-quote sh _ b _ _ (
          Reads-literal sh _ (codes " -V ") _ _ refl (
            Reads-quote sh _ a _ _ (
              Reads-literal sh _ (codes " -A ") _ _ refl (
                Reads-quote sh _ pot_name _ _
                  (Reads-start sh none (codes "set-attribute -p ") refl)))))),
  )

  -- An entry with one colon, `a:b`, makes commands that `sh` reads as calls of `pot` with the container's
  -- name and with `a` and `b` as arguments of their own, whatever characters they hold: copy-in,
  -- mount-in, mount-in -r and set-attribute. In copy, `b` may hold more colons.
  pub entries-Runs :
      (pot_name a b c : Text)
      → Lacks b':' a
      → Lacks b':' b
      → Runs
          (copy_entry lib pot_name (a ++ b':' ∷ c))
          (codes "copy-in" ∷ codes "-p" ∷ pot_name ∷ codes "-s" ∷ a ∷ codes "-d" ∷ c ∷ [])
        × Runs
            (mount_entry lib pot_name (a ++ b':' ∷ b))
            (codes "mount-in" ∷ codes "-p" ∷ pot_name ∷ codes "-d" ∷ a ∷ codes "-m" ∷ b ∷ [])
        × Runs (mount_read_only_entry lib pot_name (a ++ b':' ∷ b)) (
            codes "mount-in"
            ∷ codes "-p"
            ∷ pot_name
            ∷ codes "-d"
            ∷ a
            ∷ codes "-m"
            ∷ b
            ∷ codes "-r"
            ∷ [])
        × Runs
            (attribute_entry lib pot_name (a ++ b':' ∷ b))
            (codes "set-attribute" ∷ codes "-p" ∷ pot_name ∷ codes "-A" ∷ a ∷ codes "-V" ∷ b ∷ [])
  entries-Runs pot_name a b c la lb = (
    copy-Runs pot_name a c la,
    mount-Runs pot_name a b la lb,
    mount_read_only-Runs pot_name a b la lb,
    attribute-Runs pot_name a b la lb,
  )
