-- ===== src/Text/Cut.antt =====
-- The last separator of a text.
use nomad_pot_driver.Base.{
  ℕ, ◌≡◌, refl, Option, none, some, [], ◌∷◌, ◌++◌, ◌⊎◌, arith, ◌==◌, if◌then◌else◌,
}
use nomad_pot_driver.Text.Split.{Text, Lacks}

-- What stands before and behind the last separator.
cut_last : ℕ → Text → Option (Text × Text)
cut_last sep [] = none
cut_last sep (c ∷ s) = elim (cut_last sep s) [
  | some (p, q) ↦ some (c ∷ p, q)
  | none ↦ if c == sep then some ([], s) else none
]

cut_last-none : (sep : ℕ) (s : Text) → Lacks sep s → cut_last sep s ≡ none
unfolding cut_last
cut_last-none sep [] h = refl
cut_last-none sep (c ∷ s) h = ground (arith, cut_last-none sep s)

cut_last-append : (sep : ℕ) (p q : Text) → Lacks sep q → cut_last sep (p ++ sep ∷ q) ≡ some (p, q)
unfolding cut_last
cut_last-append sep [] q h = ground (arith, cut_last-none sep q h)
cut_last-append sep (c ∷ p) q h = ground (arith, cut_last-append sep p q h)

-- Two texts that are joined by a separator can be told apart if the second has none.
pub append-injective_last :
    (sep : ℕ) (p q p' q' : Text)
    → Lacks sep q
    → Lacks sep q'
    → p ++ sep ∷ q ≡ p' ++ sep ∷ q'
    → (p ≡ p') × (q ≡ q')
append-injective_last sep p q p' q' h h' e =
    ground (arith, cut_last-append sep p q h, cut_last-append sep p' q' h', ap_cut)
  where
    ap_cut : cut_last sep (p ++ sep ∷ q) ≡ cut_last sep (p' ++ sep ∷ q')
    ap_cut = rw e

-- The separator occurs.
abbrev pub Has : ℕ → Text → Type 0
Has sep [] = ⊥
Has sep (c ∷ s) = (c ≡ sep) ⊎ Has sep s
