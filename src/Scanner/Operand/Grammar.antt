-- ===== src/Scanner/Operand/Grammar.antt =====
-- The grammar of arguments, and that the scanner reads what it spells.
use simbly.Prelude.{
  ℕ, zero, suc, ◌+◌, ◌-◌, ◌<◌, ◌≤◌, ◌≡◌, refl, Bool, true, [], ◌∷◌, ◌++◌, Bytes, pos, arith, length,
  is_alpha, is_alnum, is_digit, ◌∙◌, ap, length-append, ◌⊎◌, inl, ◌*◌,
}
use mathlib.Core.List.{append_assoc}
use simbly.Program.{Reader, Operand, int_val, int_var, int_arr}
use simbly.Scanner.Operand.{
  at_stop, at_bracket, scan_name, scan_number, digits_value, index_found, parse_index,
  closing_brackets,
}

abbrev pub AllOf : (ℕ → Bool) → Bytes → Type 0
AllOf test [] = Unit
AllOf test (b ∷ s) = (test b ≡ true) × AllOf test s

-- A letter and up to 127 letters or digits.
pub data IsName : Bytes → Type 0 where
  name :
      (b : ℕ) (w : Bytes) → is_alpha b ≡ true → AllOf is_alnum w → length w ≤ 127 → IsName (b ∷ w)

-- One to nine digits.
pub data IsNumber : Bytes → Type 0 where
  digits :
      (b : ℕ) (w : Bytes) → is_digit b ≡ true → AllOf is_digit w → length w ≤ 8 → IsNumber (b ∷ w)

-- The text of an index, the operand that it stands for, and the count of its brackets.
pub data SpellsIndex : Bytes → Operand → ℕ → Type 0 where
  number : {w : Bytes} → IsNumber w → SpellsIndex w (int_val (pos (digits_value 0 w))) 0
  variable : {w : Bytes} → IsName w → SpellsIndex (b'$' ∷ w) (int_var w) 0
  element :
      {w s : Bytes} {i : Operand} {d : ℕ}
      → IsName w
      → SpellsIndex s i d
      → SpellsIndex (b'$' ∷ (w ++ (b'[' ∷ (s ++ (b']' ∷ []))))) (int_arr w i) (suc d)

-- The loop over a name passes its letters and digits.
scan_name-stop :
    (k : ℕ) (w rest : Bytes)
    → AllOf is_alnum w
    → k + length w ≤ 127
    → scan_name b']' k (w ++ (b']' ∷ rest)) ≡ (w, b']' ∷ rest, at_stop)
unfolding scan_name
scan_name-stop k [] rest a l = refl
scan_name-stop k (b ∷ w) rest a l = ground (arith, scan_name-stop (k + 1) w rest a.1)

pub scan_name-bracket :
    (stop k : ℕ) (w rest : Bytes)
    → (stop ≡ b']') ⊎ (stop ≡ 0)
    → AllOf is_alnum w
    → k + length w ≤ 127
    → scan_name stop k (w ++ (b'[' ∷ rest)) ≡ (w, b'[' ∷ rest, at_bracket)
unfolding scan_name
scan_name-bracket stop k [] rest s a l = ground arith
scan_name-bracket stop k (b ∷ w) rest s a l =
    ground (arith, scan_name-bracket stop (k + 1) w rest s a.1)

pub scan_name-end :
    (k : ℕ) (w : Bytes) → AllOf is_alnum w → k + length w ≤ 127 → scan_name 0 k w ≡ (w, [], at_stop)
unfolding scan_name
scan_name-end k [] a l = refl
scan_name-end k (b ∷ w) a l = ground (arith, scan_name-end (k + 1) w a.1)

scan_number-stop :
    (k : ℕ) (w rest : Bytes)
    → AllOf is_digit w
    → k + length w ≤ 9
    → scan_number b']' k (w ++ (b']' ∷ rest)) ≡ at_stop
unfolding scan_number
scan_number-stop k [] rest a l = refl
scan_number-stop k (b ∷ w) rest a l = ground (arith, scan_number-stop (k + 1) w rest a.1)

pub scan_number-end :
    (k : ℕ) (w : Bytes) → AllOf is_digit w → k + length w ≤ 9 → scan_number 0 k w ≡ at_stop
unfolding scan_number
scan_number-end k [] a l = refl
scan_number-end k (b ∷ w) a l = ground (arith, scan_number-end (k + 1) w a.1)

-- atoi stops at the bracket.
digits_value-stop :
    (acc : ℕ) (w rest : Bytes)
    → AllOf is_digit w
    → digits_value acc (w ++ (b']' ∷ rest)) ≡ digits_value acc w
unfolding digits_value
digits_value-stop acc [] rest a = refl
digits_value-stop acc (b ∷ w) rest a =
    ground (arith, digits_value-stop (acc * 10 + (b - b'0')) w rest a.1)

parse_index-number :
    (fuel : ℕ) {w : Bytes} (rest : Bytes) (depth : ℕ) (r : Reader)
    → IsNumber w
    → parse_index (suc fuel) (w ++ (b']' ∷ rest)) depth r
      ≡ index_found r (int_val (pos (digits_value 0 w))) depth
unfolding parse_index
parse_index-number fuel rest depth r (digits b w h a l) =
    ground (arith, scan_number-stop 1 w rest a, digits_value-stop 0 (b ∷ w) rest (h, a))

parse_index-variable :
    (fuel : ℕ) {w : Bytes} (rest : Bytes) (depth : ℕ) (r : Reader)
    → IsName w
    → parse_index (suc fuel) (b'$' ∷ (w ++ (b']' ∷ rest))) depth r ≡ index_found r (int_var w) depth
unfolding parse_index
parse_index-variable fuel rest depth r (name b w h a l) = ground (arith, scan_name-stop 0 w rest a)

-- A `[` behind a name leads to the call for the index.
parse_index-element :
    (fuel : ℕ) {w : Bytes} (rest : Bytes) (depth : ℕ) (r : Reader) (i : Operand) (d : ℕ)
    → IsName w
    → parse_index fuel rest (depth + 1) r ≡ index_found r i d
    → parse_index (suc fuel) (b'$' ∷ (w ++ (b'[' ∷ rest))) depth r ≡ index_found r (int_arr w i) d
unfolding parse_index
parse_index-element fuel rest depth r i d (name b w h a l) e =
    ground (arith, scan_name-bracket b']' 0 w rest (inl refl) a)

length-element : (w s : Bytes) → length (w ++ (b'[' ∷ (s ++ (b']' ∷ [])))) ≡ length w + length s + 2
length-element w s =
    omega (arith, length-append {0} w (b'[' ∷ (s ++ (b']' ∷ []))), length-append {0} s (b']' ∷ []))

length-spelled : {s : Bytes} {i : Operand} {d : ℕ} → SpellsIndex s i d → 0 < length s
length-spelled (number (digits b w h a l)) = omega arith
length-spelled (variable n) = omega arith
length-spelled (element n k) = omega arith

-- With as much fuel as the text has characters, the scanner reads the index that a text spells, up to
-- the bracket behind it, adds the count of its brackets and leaves the program alone.
pub parse_index-spelled :
    (fuel : ℕ) {s : Bytes} {i : Operand} {d : ℕ} (rest : Bytes) (depth : ℕ) (r : Reader)
    → SpellsIndex s i d
    → length s ≤ fuel
    → parse_index fuel (s ++ (b']' ∷ rest)) depth r ≡ index_found r i (depth + d)
parse_index-spelled zero rest depth r h l = absurd (omega (arith, length-spelled h))
parse_index-spelled (suc fuel) rest depth r (number n) l =
    parse_index-number fuel rest depth r n ∙ ap (index_found r _) (omega arith)
parse_index-spelled (suc fuel) rest depth r (variable n) l =
    parse_index-variable fuel rest depth r n ∙ ap (index_found r _) (omega arith)
parse_index-spelled (suc fuel) rest depth r (element {w} {s} {i} {d} n k) l = simp append_assoc (
    parse_index-element fuel (s ++ (b']' ∷ b']' ∷ rest)) depth r i (depth + suc d) n (
      parse_index-spelled fuel (b']' ∷ rest) (depth + 1) r k (omega (arith, length-element w s))
      ∙ ap (index_found r i) {x = depth + 1 + d} {y = depth + suc d} (omega arith)))

-- The brackets that a piece of text closes before the rest.
closing_brackets-name :
    (w rest : Bytes) → AllOf is_alnum w → closing_brackets (w ++ rest) ≡ closing_brackets rest
unfolding closing_brackets
closing_brackets-name [] rest a = refl
closing_brackets-name (b ∷ w) rest a = ground (arith, closing_brackets-name w rest a.1)

closing_brackets-number :
    (w rest : Bytes) → AllOf is_digit w → closing_brackets (w ++ rest) ≡ closing_brackets rest
unfolding closing_brackets
closing_brackets-number [] rest a = refl
closing_brackets-number (b ∷ w) rest a = ground (arith, closing_brackets-number w rest a.1)

pub closing_brackets-spelled :
    {s : Bytes} {i : Operand} {d : ℕ} (rest : Bytes)
    → SpellsIndex s i d
    → closing_brackets (s ++ rest) ≡ d + closing_brackets rest
unfolding closing_brackets
closing_brackets-spelled rest (number (digits b w h a l)) =
    closing_brackets-number (b ∷ w) rest (h, a) ∙ omega arith
closing_brackets-spelled rest (variable (name b w h a l)) =
    ground (arith, closing_brackets-name w rest a)
closing_brackets-spelled rest (element {w} {s} {i} {d} (name b v h a l) k) = simp append_assoc (
    ground (
      arith,
      closing_brackets-name v (b'[' ∷ (s ++ (b']' ∷ rest))) a,
      closing_brackets-spelled (b']' ∷ rest) k,
    ))
