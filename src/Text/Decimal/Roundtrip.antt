-- ===== src/Text/Decimal/Roundtrip.antt =====
-- Numbers that are printed and read again.
use nomad_pot_driver.Base.{
  ℕ, zero, suc, ◌+◌, ◌-◌, ◌*◌, ◌/◌, ◌%◌, ◌^◌, ◌≤◌, ◌<◌, ◌≡◌, ◌∙◌, none, some, [], ◌∷◌, ◌++◌, arith,
  ℤ, pos, negsuc, All,
}
use nomad_pot_driver.Text.Split.{Text}
use nomad_pot_driver.Text.Decimal.{to_digits, itoa, read_digits, read_number, in_range, atoi}

abbrev pub IsDigit : ℕ → Type 0
IsDigit c = (48 ≤ c) × (c ≤ 57)

to_digits-IsDigit : (f n : ℕ) (out : Text) → All IsDigit out → All IsDigit (to_digits f n out)
unfolding to_digits
to_digits-IsDigit zero n out h = h
to_digits-IsDigit (suc f) n out h =
    ground (arith, to_digits-IsDigit f (n / 10) ((48 + n % 10) ∷ out))

-- The digits, read from the left, give the number, and then what stands behind them is read.
read_digits-to_digits :
    (f n : ℕ) (out : Text) → n < f → read_digits 0 (to_digits f n out) ≡ read_digits n out
unfolding to_digits read_digits
read_digits-to_digits zero n out h = absurd (omega arith)
read_digits-to_digits (suc f) n out h =
    ground (arith, read_digits-to_digits f (n / 10) ((48 + n % 10) ∷ out))

-- The text begins with a digit.
abbrev pub Starts : Text → Type 0
Starts [] = ⊥
Starts (c ∷ s) = IsDigit c

to_digits-Starts : (f n : ℕ) (out : Text) → n < f → Starts (to_digits f n out)
unfolding to_digits
to_digits-Starts zero n out h = absurd (omega arith)
to_digits-Starts (suc f) n out h = ground (arith, to_digits-Starts f (n / 10) ((48 + n % 10) ∷ out))

read_number-to_digits :
    (f n : ℕ) (out : Text) → n < f → read_number (to_digits f n out) ≡ read_digits n out
unfolding read_number
read_number-to_digits f n out h =
    from_start (to_digits f n out) (to_digits-Starts f n out h) (read_digits-to_digits f n out h)
  where
    from_start :
        (t : Text)
        → Starts t
        → read_digits 0 t ≡ read_digits n out
        → read_number t ≡ read_digits n out
    from_start [] s e = absurd s
    from_start (c ∷ t) s e = e

atoi-Starts : (t : Text) → Starts t → atoi t ≡ in_range (read_number t)
unfolding atoi
atoi-Starts [] h = absurd h
atoi-Starts (c ∷ t) h = ground arith

-- The range of a 64-bit `int`.
abbrev pub IsInt64 : ℤ → Type 0
IsInt64 (pos n) = n < 2 ^ 63
IsInt64 (negsuc n) = n < 2 ^ 63

-- strconv.Atoi reads what strconv.Itoa has printed of a number in the range of an `int`.
pub atoi-itoa : (z : ℤ) → IsInt64 z → atoi (itoa z) ≡ some z
unfolding itoa read_digits atoi
atoi-itoa (pos n) h =
    atoi-Starts (to_digits (suc n) n []) (to_digits-Starts (suc n) n [] (omega arith))
    ∙ rw (read_number-to_digits (suc n) n [] (omega arith)) (ground arith)
atoi-itoa (negsuc n) h =
    rw (read_number-to_digits (suc (suc n)) (suc n) [] (omega arith)) (ground arith)

-- A text with a code point that is no digit, other than a sign in front, is no number.
read_digits-none : (n : ℕ) (s t : Text) (c : ℕ) → c < 48 → read_digits n (s ++ c ∷ t) ≡ none
unfolding read_digits
read_digits-none n [] t c h = ground arith
read_digits-none n (d ∷ s) t c h = ground (arith, read_digits-none (n * 10 + (d - 48)) s t c h)

pub atoi-none : (s t : Text) (c : ℕ) → Starts s → c < 48 → atoi (s ++ c ∷ t) ≡ none
unfolding atoi
atoi-none [] t c b h = absurd b
atoi-none (d ∷ s) t c b h = ground (arith, read_digits-none 0 (d ∷ s) t c h)

-- What Itoa prints of a number that is not negative is digits only, and at least one.
pub itoa-digits : (n : ℕ) → Starts (itoa (pos n)) × All IsDigit (itoa (pos n))
unfolding itoa
itoa-digits n = (to_digits-Starts (suc n) n [] (omega arith), to_digits-IsDigit (suc n) n [] tt)
