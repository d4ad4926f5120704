-- ===== src/Prepare/Shell/Words.antt =====
-- How `sh` reads a command that is put together from literals and quoted texts, piece by piece.
use nomad_pot_driver.Base.{
  ◌≡◌, refl, sym, ap, ◌∙◌, true, Option, none, some, List, [], ◌∷◌, ◌++◌, append_assoc, append-nil,
}
use nomad_pot_driver.Text.Split.{Text}
use nomad_pot_driver.Prepare.Shell.{
  Shell, emit, cons_word, cons_words, words-literal, feed, all_plain, so_far,
}

-- Where one list of words follows another.
cons_words-append :
    (vs ws : List Text) (r : Option (List Text))
    → cons_words (vs ++ ws) r ≡ cons_words vs (cons_words ws r)
cons_words-append [] ws r = refl
cons_words-append (v ∷ vs) ws r = ap (cons_word v) (cons_words-append vs ws r)

cons_words-some : (vs ws : List Text) → cons_words vs (some ws) ≡ some (vs ++ ws)
cons_words-some [] ws = refl
cons_words-some (v ∷ vs) ws = ap (cons_word v) (cons_words-some vs ws)

-- After a part `v` of a word, a text adds these words and leaves `w` open.
pub record Reads {quote : Text → Text} (sh : Shell quote) (v : Option Text) (command : Text)
    (ws : List Text) (w : Option Text) : Type 0 where
  pub at : (s : Text) → sh.words v (command ++ s) ≡ cons_words ws (sh.words w s)

module _ {quote : Text → Text} (sh : Shell quote) where
  open sh use {words, quoted, ended, ended_after}

  pub Reads-literal :
      {v : Option Text} (command t : Text) (ws : List Text) (w : Option Text)
      → all_plain t ≡ true
      → Reads sh v command ws w
      → Reads sh v (command ++ t) (ws ++ (feed w t).0) (feed w t).1
  Reads-literal command t ws w h r = record {
    at = λ s.
        ap (words _) (append_assoc command t s)
        ∙ (r.at (t ++ s)
            ∙ (ap (cons_words ws) (words-literal sh w t s h)
                ∙ sym (cons_words-append ws (feed w t).0 _)));
  }

  pub Reads-quote :
      {v : Option Text} (command t : Text) (ws : List Text) (w : Option Text)
      → Reads sh v command ws w
      → Reads sh v (command ++ quote t) ws (some (so_far w ++ t))
  Reads-quote command t ws w r = record {
    at = λ s.
        ap (words _) (append_assoc command (quote t) s)
        ∙ (r.at (quote t ++ s) ∙ ap (cons_words ws) (quoted w t s));
  }

  words-ended : (w : Option Text) → words w [] ≡ some (emit w [])
  words-ended none = ended
  words-ended (some w) = ended_after w

  pub Reads-ended :
      (command : Text) (ws : List Text) (w : Option Text)
      → Reads sh none command ws w
      → words none command ≡ some (ws ++ emit w [])
  Reads-ended command ws w r =
      ap (words none) (sym (append-nil command))
      ∙ (r.at [] ∙ (ap (cons_words ws) (words-ended w) ∙ cons_words-some ws (emit w [])))

  pub Reads-append :
      {u v w : Option Text} (command rest : Text) (vs ws : List Text)
      → Reads sh u command vs v
      → Reads sh v rest ws w
      → Reads sh u (command ++ rest) (vs ++ ws) w
  Reads-append command rest vs ws r r' = record {
    at = λ s.
        ap (words _) (append_assoc command rest s)
        ∙ (r.at (rest ++ s) ∙ (ap (cons_words vs) (r'.at s) ∙ sym (cons_words-append vs ws _)));
  }

  pub Reads-start :
      (v : Option Text) (t : Text) → all_plain t ≡ true → Reads sh v t (feed v t).0 (feed v t).1
  Reads-start v t h = record { at = λ s. words-literal sh v t s h }
