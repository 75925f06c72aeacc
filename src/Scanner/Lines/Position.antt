-- ===== src/Scanner/Lines/Position.antt =====
-- A label is checked in place.
use simbly.Prelude.{ℕ, refl, not, ◌&&◌, codes, str_eq, ◌==◌, drop}
use simbly.Program.{Reader}
use simbly.Scanner.Chars.Position.{Advances, Advances-refl, same_position, either}
use simbly.Scanner.Lines.{all_alnum, is_valid_label}
use simbly.Scanner.Operand.{char_at}

pub is_valid_label-Advances : (r : Reader) (len : ℕ) → Advances r (is_valid_label r len).0
unfolding is_valid_label
is_valid_label-Advances r len = either r (len == 0) _ _ (Advances-refl r) (
    either r (char_at r.input 0 == b'L' && not (str_eq r.input (codes "LOAD"))) _ _
      (either r (len == 1) _ _ (same_position r _ refl refl refl (λ e. e)) (
        either r (all_alnum (drop 1 r.input)) _ _ (Advances-refl r)
          (same_position r _ refl refl refl (λ e. e))))
      (Advances-refl r))
