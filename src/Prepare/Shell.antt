-- ===== src/Prepare/Shell.antt =====
-- The shell `sh`, which is not part of the repository: how it reads a command as words. The commands
-- of prepare.go are given to it by `sh -c`.
pub mod Words
pub mod Commands
pub mod Entries
use nomad_pot_driver.Base.{
  ℕ, ◌≡◌, refl, sym, ap, ◌∙◌, Bool, true, false, ◌&&◌, ◌||◌, ◌==◌, leb, Option, none, some, List,
  [], ◌∷◌, ◌++◌, arith, append_assoc, if◌then◌else◌, Bool-cases, inl, inr,
}
use nomad_pot_driver.Text.Split.{Text, codes}

-- Letters, digits and marks that stand for themselves in every place of a word.
abbrev pub is_plain : ℕ → Bool
is_plain c =
    (leb b'a' c && leb c b'z')
    || (leb b'A' c && leb c b'Z')
    || (leb b'0' c && leb c b'9')
    || c == b'-'
    || c == b'/'
    || c == b'='

-- The part of a word that was read so far, none between two words.
abbrev pub so_far : Option Text → Text
so_far none = []
so_far (some w) = w

abbrev pub cons_word : Text → Option (List Text) → Option (List Text)
cons_word w none = none
cons_word w (some ws) = some (w ∷ ws)

-- The words of a command, none where it is not a list of words. A plain character and a quoted text
-- are added to the word that is read, a blank ends it.
pub record Shell (quote : Text → Text) : Type 0 where
  pub words : Option Text → Text → Option (List Text)
  pub plain :
      (w : Option Text) (c : ℕ) (s : Text)
      → is_plain c ≡ true
      → words w (c ∷ s) ≡ words (some (so_far w ++ c ∷ [])) s
  pub quoted :
      (w : Option Text) (t s : Text) → words w (quote t ++ s) ≡ words (some (so_far w ++ t)) s
  pub blank : (s : Text) → words none (b' ' ∷ s) ≡ words none s
  pub blank_after : (w s : Text) → words (some w) (b' ' ∷ s) ≡ cons_word w (words none s)
  pub ended : words none [] ≡ some []
  pub ended_after : (w : Text) → words (some w) [] ≡ some (w ∷ [])

abbrev pub emit : Option Text → List Text → List Text
emit none ws = ws
emit (some w) ws = w ∷ ws

-- What a text of plain characters and blanks adds: the words that it ends, and the word it leaves open.
unfoldable pub feed : Option Text → Text → List Text × Option Text
feed w [] = ([], w)
feed w (c ∷ t) =
    if c == b' '
    then (emit w (feed none t).0, (feed none t).1)
    else feed (some (so_far w ++ c ∷ [])) t

unfoldable pub all_plain : Text → Bool
all_plain [] = true
all_plain (c ∷ t) = (c == b' ' || is_plain c) && all_plain t

abbrev pub cons_words : List Text → Option (List Text) → Option (List Text)
cons_words [] r = r
cons_words (w ∷ ws) r = cons_word w (cons_words ws r)

module _ {quote : Text → Text} (sh : Shell quote) where
  open sh use {words, plain, quoted, blank, blank_after, ended, ended_after}

  after-blank :
      (w : Option Text) (s : Text) → words w (b' ' ∷ s) ≡ cons_words (emit w []) (words none s)
  after-blank none s = blank s
  after-blank (some w) s = blank_after w s

  pub emit-cons_words :
      (w : Option Text) (ws : List Text) (r : Option (List Text))
      → cons_words (emit w []) (cons_words ws r) ≡ cons_words (emit w ws) r
  emit-cons_words none ws r = refl
  emit-cons_words (some w) ws r = refl

  pub words-literal :
      (w : Option Text) (t s : Text)
      → all_plain t ≡ true
      → words w (t ++ s) ≡ cons_words (feed w t).0 (words (feed w t).1 s)
  unfolding feed all_plain
  words-literal w [] s h = refl
  words-literal w (c ∷ t) s h = elim (Bool-cases (c == b' ')) [
    | inl is_blank ↦
        let e : c ≡ b' ' = ground arith in
        let rest = words-literal none t s (ground arith) in
        let fed : feed w (c ∷ t) ≡ (emit w (feed none t).0, (feed none t).1) = rw is_blank refl in
        ap (λ x. words w (x ∷ (t ++ s))) e
        ∙ (after-blank w (t ++ s)
            ∙ (ap (cons_words (emit w [])) rest
                ∙ (emit-cons_words w (feed none t).0 _
                    ∙ ap (λ (x : List Text × Option Text). cons_words x.0 (words x.1 s))
                        (sym fed))))
    | inr other ↦
        let w' = some (so_far w ++ c ∷ []) in
        let fed : feed w (c ∷ t) ≡ feed w' t = rw other refl in
        plain w c (t ++ s) (ground arith)
        ∙ (words-literal w' t s (ground arith)
            ∙ ap (λ (x : List Text × Option Text). cons_words x.0 (words x.1 s)) (sym fed))
  ]
