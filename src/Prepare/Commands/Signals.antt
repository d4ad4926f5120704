-- ===== src/Prepare/Commands/Signals.antt =====
-- The table of signal names that reverseSignalMap makes.
use nomad_pot_driver.Base.{
  ℕ, ◌≡◌, ◌≢◌, refl, ◌⊎◌, inl, inr, none, some, List, [], ◌∷◌, arith, ◌==◌, if◌then◌else◌,
  Bool-cases,
}
use mathlib.Core.List.{Memᴰ}
use nomad_pot_driver.Text.Split.{Text}
use nomad_pot_driver.Prepare.Commands.{assign, reverse_from, reverse_signal_map, signal_name}

signal_name-assign :
    (n : List (ℕ × Text)) (sig s : ℕ) (name : Text)
    → signal_name (assign n sig name) s ≡ (if sig == s then some name else signal_name n s)
unfolding signal_name assign
signal_name-assign [] sig s name = refl
signal_name-assign ((t, old) ∷ n) sig s name = ground (arith, signal_name-assign n sig s name)

-- A name is found in what the rest of the table adds, or was there before.
reverse_from-mem :
    (m : List (Text × ℕ)) (n : List (ℕ × Text)) (sig : ℕ) (name : Text)
    → signal_name (reverse_from n m) sig ≡ some name
    → Memᴰ (name, sig) m ⊎ (signal_name n sig ≡ some name)
unfolding reverse_from
reverse_from-mem [] n sig name h = inr h
reverse_from-mem ((k, v) ∷ m) n sig name h = elim (reverse_from-mem m (assign n v k) sig name h) [
  | inl later ↦ inl (Memᴰ.tail later)
  | inr now ↦ elim (Bool-cases (v == sig)) [
    | inl same ↦ inl (Memᴰ.head (ground (arith, signal_name-assign n v sig k)))
    | inr other ↦ inr (ground (arith, signal_name-assign n v sig k))
  ]
]

reverse_from_found :
    (m : List (Text × ℕ)) (n : List (ℕ × Text)) (sig : ℕ)
    → signal_name n sig ≢ none
    → signal_name (reverse_from n m) sig ≢ none
unfolding reverse_from
reverse_from_found [] n sig h = h
reverse_from_found ((k, v) ∷ m) n sig h =
    reverse_from_found m (assign n v k) sig (ground (arith, signal_name-assign n v sig k))

reverse_from_total :
    (m : List (Text × ℕ)) (n : List (ℕ × Text)) (sig : ℕ) (name : Text)
    → Memᴰ (name, sig) m
    → signal_name (reverse_from n m) sig ≢ none
unfolding reverse_from
reverse_from_total [] n sig name h = elim h [ ]
reverse_from_total ((k, v) ∷ m) n sig name (Memᴰ.head e) =
    reverse_from_found m (assign n v k) sig (ground (arith, signal_name-assign n v sig k))
reverse_from_total ((k, v) ∷ m) n sig name (Memᴰ.tail later) =
    reverse_from_total m (assign n v k) sig name later

-- In whatever order the table is visited, the reversed table gives a signal only a name that the
-- table gives this signal, and gives every signal of the table a name.
pub reverse_signal_map_lem :
    (m : List (Text × ℕ)) (sig : ℕ)
    → ((name : Text) → signal_name (reverse_signal_map m) sig ≡ some name → Memᴰ (name, sig) m)
      × ((name : Text) → Memᴰ (name, sig) m → signal_name (reverse_signal_map m) sig ≢ none)
unfolding reverse_signal_map
reverse_signal_map_lem m sig = (
  λ name h. elim (reverse_from-mem m [] sig name h) [
    | inl found ↦ found
    | inr nothing ↦ absurd (unfold signal_name in cc nothing)
  ],
  λ name h. reverse_from_total m [] sig name h,
)
