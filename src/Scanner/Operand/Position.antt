-- ===== src/Scanner/Operand/Position.antt =====
-- parse_varval_token does not move in the file: it works on the word read before.
use simbly.Prelude.{ℕ, zero, suc, ◌+◌, refl, Bytes, ◌||◌, ◌==◌, drop, is_alpha, is_digit, if_both}
use simbly.Program.{Reader}
use simbly.Scanner.Chars.Position.{Advances, Advances-refl, same_position}
use simbly.Scanner.Operand.{
  char_at, NameEnd, at_stop, at_bracket, bad_char, too_long, Scan, scan_name, scan_number, Index,
  index_name, index_number, parse_index,
}

abbrev pub Stays : Reader → Index → Type 0
Stays r i = Advances r i.reader

index_name-Stays :
    (nested : Bytes → Index) (first depth : ℕ) (r : Reader) (s : Scan)
    → Stays r (nested (drop 1 s.1))
    → Stays r (index_name nested first depth r s)
index_name-Stays nested first depth r (w, rest, at_stop) h = Advances-refl r
index_name-Stays nested first depth r (w, rest, at_bracket) h = h
index_name-Stays nested first depth r (w, rest, bad_char) h =
    same_position r _ refl refl refl (λ e. e)
index_name-Stays nested first depth r (w, rest, too_long) h =
    same_position r _ refl refl refl (λ e. e)

index_number-Stays :
    (s : Bytes) (depth : ℕ) (r : Reader) (e : NameEnd) → Stays r (index_number s depth r e)
index_number-Stays s depth r at_stop = Advances-refl r
index_number-Stays s depth r at_bracket = same_position r _ refl refl refl (λ e. e)
index_number-Stays s depth r bad_char = same_position r _ refl refl refl (λ e. e)
index_number-Stays s depth r too_long = same_position r _ refl refl refl (λ e. e)

pub parse_index-Stays :
    (fuel : ℕ) (s : Bytes) (depth : ℕ) (r : Reader) → Stays r (parse_index fuel s depth r)
unfolding parse_index
parse_index-Stays zero s depth r = Advances-refl r
parse_index-Stays (suc fuel) s depth r =
    if_both (Stays r) (char_at s 0 == b'$')
      (if_both (Stays r) (is_alpha (char_at s 1))
        (index_name-Stays (λ rest. parse_index fuel rest (depth + 1) r) (char_at s 1) depth r
          (scan_name b']' 0 (drop 2 s))
          (parse_index-Stays fuel (drop 1 (scan_name b']' 0 (drop 2 s)).1) (depth + 1) r))
        (same_position r _ refl refl refl (λ e. e)))
      (if_both (Stays r) (char_at s 0 == b'-' || is_digit (char_at s 0))
        (if_both (Stays r) (char_at s 0 == b'-') (same_position r _ refl refl refl (λ e. e))
          (index_number-Stays s depth r (scan_number b']' 1 (drop 1 s))))
        (same_position r _ refl refl refl (λ e. e)))
