-- ===== src/Prepare/Shell/Commands.antt =====
-- The words that `sh` reads in the commands of prepare.go.
use nomad_pot_driver.Base.{
  ◌≡◌, refl, ap, ◌∙◌, false, Option, none, some, List, [], ◌∷◌, ◌++◌, append_assoc, append-nil,
}
use nomad_pot_driver.Text.Split.{Text, codes}
use nomad_pot_driver.Types.{Map, Libs}
use nomad_pot_driver.Prepare.Container.{
  pot_bin, is_empty, add_env, env_command, add_hosts, hosts_command, mount_command,
}
use nomad_pot_driver.Prepare.Shell.{Shell, emit, feed, all_plain}
use nomad_pot_driver.Prepare.Shell.Words.{
  Reads, Reads-literal, Reads-quote, Reads-ended, Reads-append, Reads-start,
}

-- The options that set the environment, as words.
abbrev pub env_words : Map → List Text
env_words [] = []
env_words ((name, env) ∷ rest) = codes "-E" ∷ (name ++ codes "=" ++ env) ∷ env_words rest

abbrev pub hosts_words : List Text → List Text
hosts_words [] = []
hosts_words (host ∷ hosts) = codes "-H" ∷ host ∷ hosts_words hosts

emit-append :
    (ws : List Text) (w : Option Text) (u v : Text) (vs : List Text)
    → (ws ++ emit w (u ∷ [])) ++ [] ++ emit (some v) vs ≡ ws ++ emit w (u ∷ v ∷ vs)
emit-append ws none u v vs = simp (append_assoc, append-nil)
emit-append ws (some w) u v vs = simp (append_assoc, append-nil)

emit-hosts :
    (ws : List Text) (w : Option Text) (u v : Text) (vs : List Text)
    → (ws ++ emit w (u ∷ [])) ++ emit (some v) vs ≡ ws ++ emit w (u ∷ v ∷ vs)
emit-hosts ws none u v vs = append_assoc ws _ _
emit-hosts ws (some w) u v vs = append_assoc ws _ _

module _ (lib : Libs) (sh : Shell lib.quote) where
  open lib use {quote, env_list}
  open sh use {words, quoted}

  Reads-pot : Reads sh none (quote pot_bin) [] (some pot_bin)
  Reads-pot = record { at = λ s. quoted none pot_bin s }

  Reads-add_env :
      (env : Map) (command : Text) (ws : List Text) (w : Option Text)
      → Reads sh none command ws w
      → words none (add_env lib command env) ≡ some (ws ++ emit w (env_words env))
  unfolding add_env codes feed all_plain
  Reads-add_env [] command ws w r = Reads-ended sh command ws w r
  Reads-add_env ((name, env) ∷ rest) command ws w r =
      Reads-add_env rest _ _ _ (
        Reads-quote sh _ env _ _ (
          Reads-literal sh _ (codes "=") _ _ refl
            (Reads-quote sh _ name _ _ (Reads-literal sh command (codes " -E ") ws w refl r))))
      ∙ ap some (emit-append ws w (codes "-E") (name ++ codes "=" ++ env) (env_words rest))

  Reads-add_hosts :
      (hosts : List Text) (command : Text) (ws : List Text) (w : Option Text)
      → Reads sh none command ws w
      → words none (add_hosts lib command hosts) ≡ some (ws ++ emit w (hosts_words hosts))
  unfolding add_hosts codes feed all_plain
  Reads-add_hosts [] command ws w r = Reads-ended sh command ws w r
  Reads-add_hosts (host ∷ hosts) command ws w r =
      Reads-add_hosts hosts _ _ _
        (Reads-quote sh _ host _ _ (Reads-literal sh command (codes " -H ") ws w refl r))
      ∙ ap some (emit-hosts ws w (codes "-H") host (hosts_words hosts))

  -- What shell_each makes of an entry's command.
  abbrev pub pot_words : Text → Option (List Text)
  pot_words command = words none (quote pot_bin ++ codes " " ++ command)

  pub words-entry :
      (command : Text) (ws : List Text) (w : Option Text)
      → Reads sh none command ws w
      → pot_words command ≡ some (pot_bin ∷ (ws ++ emit w []))
  unfolding codes feed all_plain
  words-entry command ws w r =
      Reads-ended sh _ _ w
        (Reads-append sh _ command _ ws (Reads-literal sh _ (codes " ") _ _ refl Reads-pot) r)

  pub words-mount :
      (pot_name source destination : Text)
      → Reads sh none
          (mount_command lib pot_name source destination)
          (codes "mount-in" ∷ codes "-p" ∷ pot_name ∷ codes "-d" ∷ source ∷ codes "-m" ∷ [])
          (some destination)
  unfolding mount_command codes feed all_plain
  words-mount pot_name source destination = Reads-quote sh _ destination _ _ (
      Reads-literal sh _ (codes " -m ") _ _ refl (
        Reads-quote sh _ source _ _ (
          Reads-literal sh _ (codes " -d ") _ _ refl
            (Reads-quote sh _ pot_name _ _ (Reads-start sh none (codes "mount-in -p ") refl)))))

  -- If the environment is not empty, `sh` reads the command for it as a call of `pot` whose
  -- arguments are set-env, -p and the container's name, and then for each variable -E and the
  -- variable's name, an equals sign and its value as one argument, whatever characters they
  -- hold.
  pub env_command-words :
      (pot_name : Text) (env : Map)
      → is_empty (env_list env) ≡ false
      → words none (env_command lib pot_name env)
        ≡ some (pot_bin ∷ codes "set-env" ∷ codes "-p" ∷ pot_name ∷ env_words env)
  unfolding env_command codes feed all_plain
  env_command-words pot_name env h = rw h (
      Reads-add_env env _ _ _ (
        Reads-literal sh _ (codes " ") _ _ refl (
          Reads-quote sh _ pot_name _ _
            (Reads-literal sh _ (codes " set-env -p ") _ _ refl Reads-pot))))

  -- If there are extra hosts, `sh` reads the command for them as a call of `pot` whose
  -- arguments are set-hosts, -p and the container's name, and then for each host -H and the
  -- host as one argument, whatever characters they hold.
  pub hosts_command-words :
      (pot_name host : Text) (hosts : List Text)
      → words none (hosts_command lib pot_name (host ∷ hosts))
        ≡ some (pot_bin ∷ codes "set-hosts" ∷ codes "-p" ∷ pot_name ∷ hosts_words (host ∷ hosts))
  unfolding hosts_command codes feed all_plain
  hosts_command-words pot_name host hosts = Reads-add_hosts (host ∷ hosts) _ _ _ (
      Reads-quote sh _ pot_name _ _
        (Reads-literal sh _ (codes " set-hosts -p ") _ _ refl Reads-pot))
