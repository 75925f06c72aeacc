-- ===== src/Scanner/Operand/Bounds.antt =====
-- The numbers that the scanner accepts have at most nine characters, so they fit in an int.
use simbly.Prelude.{
  ℕ, zero, suc, ◌+◌, ◌-◌, ◌*◌, ◌<◌, ◌≤◌, ◌≡◌, refl, ◌⊎◌, inl, inr, true, [], ◌∷◌, Bytes, fits_int,
  abs, arith, is_digit,
}
use simbly.Scanner.Operand.{at_stop, scan_number, digits_value, atoi}

abbrev tens : ℕ → ℕ
tens zero = 1
tens (suc m) = 10 * tens m

tens_pos : (m : ℕ) → 1 ≤ tens m
tens_pos zero = omega arith
tens_pos (suc m) = omega (arith, tens_pos m)

small-lt : (acc m : ℕ) → acc < (acc + 1) * tens m
small-lt acc m = let h = tens_pos m in grind arith

digit-lt : (acc d m x : ℕ) → d ≤ 9 → x < (acc * 10 + d + 1) * tens m → x < (acc + 1) * (10 * tens m)
digit-lt acc d m x h l = grind arith

-- `m` more digits multiply by at most `tens m`.
digits_value-lt :
    (stop m k acc : ℕ) (s : Bytes)
    → (stop ≡ 0) ⊎ (stop ≡ b']')
    → m + k ≡ 9
    → scan_number stop k s ≡ at_stop
    → digits_value acc s < (acc + 1) * tens m
unfolding scan_number digits_value
digits_value-lt stop m k acc [] z e h = small-lt acc m
digits_value-lt stop zero k acc (b ∷ s) z e h = ground arith
digits_value-lt stop (suc m) k acc (b ∷ s) z e h = ground (
  arith,
  small-lt acc (suc m),
  digits_value-lt stop m (k + 1) (acc * 10 + (b - b'0')) s z,
  digit-lt acc (b - b'0') m (digits_value (acc * 10 + (b - b'0')) s),
)

-- Where the scanner accepts what stands behind a digit or a minus sign, up to the terminator or a
-- bracket, as a number, its value is below a thousand million in size: it is an int.
pub atoi_small :
    (stop b : ℕ) (s : Bytes)
    → (stop ≡ 0) ⊎ (stop ≡ b']')
    → (b ≡ b'-') ⊎ (is_digit b ≡ true)
    → scan_number stop 1 s ≡ at_stop
    → (abs (atoi (b ∷ s)) < 1_000_000_000) × (fits_int (atoi (b ∷ s)) ≡ true)
unfolding atoi digits_value
atoi_small stop b s z (inl minus) h = ground (arith, digits_value-lt stop 8 1 0 s z refl h)
atoi_small stop b s z (inr digit) h =
    ground (arith, digits_value-lt stop 8 1 (0 + (b - b'0')) s z refl h)
