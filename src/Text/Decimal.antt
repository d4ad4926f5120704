-- ===== src/Text/Decimal.antt =====
-- `strconv.Itoa`, `strconv.FormatInt(_, 10)` and `strconv.Atoi`.
pub mod Roundtrip
use nomad_pot_driver.Base.{
  ℕ, zero, suc, ◌+◌, ◌-◌, ◌*◌, ◌/◌, ◌%◌, ◌^◌, ◌&&◌, Option, none, some, [], ◌∷◌, ◌==◌, leb, ltb,
  if◌then◌else◌, ℤ, pos, negsuc,
}
use nomad_pot_driver.Text.Split.{Text}

-- The digits of `n` in front of `out`. The fuel is one more than the number; each round divides it.
unfoldable pub to_digits : ℕ → ℕ → Text → Text
to_digits zero n out = out
to_digits (suc f) n out =
    let rest = to_digits f (n / 10) ((48 + n % 10) ∷ out) in
    if ltb n 10 then (48 + n) ∷ out else rest

unfoldable pub itoa : ℤ → Text
unfolding to_digits
itoa (pos n) = to_digits (suc n) n []
itoa (negsuc n) = b'-' ∷ to_digits (suc (suc n)) (suc n) []

-- Reads digits to the end; `none` is a syntax error.
unfoldable pub read_digits : ℕ → Text → Option ℕ
read_digits n [] = some n
read_digits n (c ∷ s) =
    let rest = read_digits (n * 10 + (c - 48)) s in if leb 48 c && leb c 57 then rest else none

unfoldable pub read_number : Text → Option ℕ
unfolding read_digits
read_number [] = none
read_number (c ∷ s) = read_digits 0 (c ∷ s)

-- The range check of a 64-bit `int`, for a text without a sign or with `+`, and with `-`.
abbrev pub in_range : Option ℕ → Option ℤ
in_range none = none
in_range (some n) = if ltb n (2 ^ 63) then some (pos n) else none

abbrev pub in_range_neg : Option ℕ → Option ℤ
in_range_neg none = none
in_range_neg (some zero) = some (pos 0)
in_range_neg (some (suc n)) = if ltb n (2 ^ 63) then some (negsuc n) else none

-- `strconv.Atoi`; `none` stands for its error.
unfoldable pub atoi : Text → Option ℤ
unfolding read_number
atoi [] = none
atoi (c ∷ s) =
    if c == b'-'
    then in_range_neg (read_number s)
    else if c == b'+'
    then in_range (read_number s)
    else in_range (read_number (c ∷ s))
