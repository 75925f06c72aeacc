-- ===== src/Scanner/Magic/Position.antt =====
-- parse_magic of src/scanner.c goes forward in the file.
use simbly.Prelude.{
  ℕ, zero, suc, Bool, true, false, not, none, some, [], ◌∷◌, ◌++◌, Bytes, ◌==◌, refl, str_eq, take,
  if_both,
}
use simbly.Program.{Reader, program_stop}
use simbly.Scanner.Chars.{next_char, flush_up_to_char, is_char}
use simbly.Scanner.Chars.Position.{
  Advances, Advances-refl, Advances-trans, same_position, read_byte-Advances,
  flush_up_to_char-Advances,
}
use simbly.Scanner.Magic.{
  magic_bytes, read_magic, check_magic, after_magic, magic_tail, parse_magic_from, parse_magic,
}

next_char-Advances : (r : Reader) → Advances r (next_char r)
unfolding next_char
next_char-Advances r = read_byte-Advances r.unread r refl

read_magic-Advances : (n : ℕ) (r : Reader) (w : Bytes) → Advances r (read_magic n r w).0
unfolding read_magic
read_magic-Advances zero r w = Advances-refl r
read_magic-Advances (suc n) r w =
    let r' = next_char r in
    elim r'.c
      as (λ o.
        Advances r
          (elim o as (λ _. Reader × Bytes × Bool) [
            | none ↦ (program_stop false r', w, false)
            | some b ↦ read_magic n r' (w ++ b ∷ [])
          ]).0) [
            | none ↦
                Advances-trans (next_char-Advances r) (same_position r' _ refl refl refl (λ e. e))
            | some b ↦
                Advances-trans (next_char-Advances r) (read_magic-Advances n r' (w ++ b ∷ []))
          ]

after_magic-Advances : (this_line : ℕ) (o : Reader × Bool) → Advances o.0 (after_magic this_line o)
after_magic-Advances this_line (r, found) =
    if_both (Advances r) (this_line == r.line) (same_position r _ refl refl refl (λ e. e)) (
      if_both (Advances r) (not found) (same_position r _ refl refl refl (λ e. e))
        (same_position r _ refl refl refl (λ e. e)))

magic_tail-Advances : (r : Reader) → Advances r (magic_tail r)
magic_tail-Advances r =
    if_both (Advances r) (not (is_char b'\n' r.c))
      (Advances-trans (flush_up_to_char-Advances r)
        (after_magic-Advances r.line (flush_up_to_char r)))
      (same_position r _ refl refl refl (λ e. e))

check_magic-Advances : (r : Reader) → Advances r (check_magic r)
check_magic-Advances r =
    if_both (Advances r) (str_eq magic_bytes r.input) (Advances-refl r)
      (same_position r _ refl refl refl (λ e. e))

from-Advances : (o : Reader × Bytes × Bool) → Advances o.0 (parse_magic_from o)
from-Advances (r, w, false) = Advances-refl r
from-Advances (r, w, true) =
    let r' = record r { input = take 8 w } in
    Advances-trans (same_position r r' refl refl refl (λ e. e))
      (Advances-trans (check_magic-Advances r') (magic_tail-Advances (check_magic r')))

pub parse_magic-Advances : (r : Reader) → Advances r (parse_magic r)
unfolding parse_magic
parse_magic-Advances r =
    Advances-trans (read_magic-Advances 9 r []) (from-Advances (read_magic 9 r []))
