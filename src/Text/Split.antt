-- ===== src/Text/Split.antt =====
-- Texts, their literals and equality; `strings.Split` and `strings.SplitN(_, _, 2)`.
use Prim.Native.Char.{code}
use nomad_pot_driver.Base.{
  ℕ, String, Bool, true, false, ◌&&◌, ◌≡◌, ◌≢◌, ◌↔◌, refl, List, [], ◌∷◌, ◌++◌, arith, ◌==◌,
  if◌then◌else◌, All,
}

abbrev pub Text : Type 0
Text = List ℕ

-- The code points of a literal.
unfoldable pub codes : String → Text
codes String.[] = []
codes (String.◌∷◌ c s) = code c ∷ codes s

-- Go's `==` on strings.
unfoldable pub text_eq : Text → Text → Bool
text_eq [] [] = true
text_eq [] (b ∷ t) = false
text_eq (a ∷ s) [] = false
text_eq (a ∷ s) (b ∷ t) = a == b && text_eq s t

pub text_eq→eq : (s t : Text) → text_eq s t ≡ true → s ≡ t
unfolding text_eq
text_eq→eq [] [] h = refl
text_eq→eq [] (b ∷ t) h = cc
text_eq→eq (a ∷ s) [] h = cc
text_eq→eq (a ∷ s) (b ∷ t) h = ground (arith, text_eq→eq s t)

pub text_eq_refl : (s : Text) → text_eq s s ≡ true
unfolding text_eq
text_eq_refl [] = refl
text_eq_refl (a ∷ s) = ground (arith, text_eq_refl s)

pub text_eq_iff : (s t : Text) → (text_eq s t ≡ true) ↔ (s ≡ t)
text_eq_iff s t = (text_eq→eq s t, λ e. subst_eq e)
  where
    subst_eq : s ≡ t → text_eq s t ≡ true
    subst_eq e = rw e (text_eq_refl t)

-- Puts a code point in front of the first part.
abbrev pub cons_head : ℕ → List Text → List Text
cons_head c [] = (c ∷ []) ∷ []
cons_head c (p ∷ ps) = (c ∷ p) ∷ ps

-- `strings.Split(s, sep)` for a separator of one code point.
unfoldable pub split : Text → ℕ → List Text
split [] sep = [] ∷ []
split (c ∷ s) sep = let rest = split s sep in if c == sep then [] ∷ rest else cons_head c rest

-- `strings.SplitN(s, sep, 2)`.
unfoldable pub split_two : Text → ℕ → List Text
split_two [] sep = [] ∷ []
split_two (c ∷ s) sep = if c == sep then [] ∷ s ∷ [] else cons_head c (split_two s sep)

abbrev pub Lacks : ℕ → Text → Type 0
Lacks sep = All (λ c. c ≢ sep)

split-last : (sep : ℕ) (s : Text) → Lacks sep s → split s sep ≡ s ∷ []
unfolding split
split-last sep [] h = refl
split-last sep (c ∷ s) h = ground (arith, split-last sep s)

split-part : (sep : ℕ) (p s : Text) → Lacks sep p → split (p ++ sep ∷ s) sep ≡ p ∷ split s sep
unfolding split
split-part sep [] s h = ground arith
split-part sep (c ∷ p) s h = ground (arith, split-part sep p s)

-- Three parts without the separator, joined by it, split into just these parts.
pub split_three :
    (sep : ℕ) (a b c : Text)
    → Lacks sep a
    → Lacks sep b
    → Lacks sep c
    → split (a ++ sep ∷ (b ++ sep ∷ c)) sep ≡ a ∷ b ∷ c ∷ []
split_three sep a b c ha hb hc =
    rw (split-part sep a _ ha, split-part sep b c hb, split-last sep c hc)

pub split_pair :
    (sep : ℕ) (a b : Text) → Lacks sep a → Lacks sep b → split (a ++ sep ∷ b) sep ≡ a ∷ b ∷ []
split_pair sep a b ha hb = rw (split-part sep a b ha, split-last sep b hb)

pub split_two_lem : (sep : ℕ) (a b : Text) → Lacks sep a → split_two (a ++ sep ∷ b) sep ≡ a ∷ b ∷ []
unfolding split_two
split_two_lem sep [] b h = ground arith
split_two_lem sep (c ∷ a) b h = ground (arith, split_two_lem sep a b)
