-- ===== src/Scanner/Lines/Forward.antt =====
-- read_string goes forward in the file.
use simbly.Prelude.{
  ◌≡◌, refl, Bool, true, false, not, none, some, [], ◌∷◌, ◌++◌, Bytes, leb, ◌==◌, if◌then◌else◌,
  if_both, length, is_print, is_space,
}
use simbly.Program.{Reader, stop_with, print_eof, string_no_space}
use simbly.Scanner.Chars.{read_byte, next_char}
use simbly.Scanner.Chars.Position.{
  Advances, Advances-trans, same_position, read_byte-Advances, read_byte-unread,
}
use simbly.Scanner.Lines.{max_input_str_len, string_end, read_string}

-- Either branch of a test on what read_string gives.
either_end :
    (r : Reader) (b : Bool) (x y : Reader × Bytes × Bool)
    → Advances r x.0
    → Advances r y.0
    → Advances r (if b then x else y).0
either_end r b x y p q = if_both {A = Reader × Bytes × Bool} (λ o. Advances r o.0) b p q

next_char-Advances : (r : Reader) → Advances r (next_char r)
unfolding next_char
next_char-Advances r = read_byte-Advances r.unread r refl

string_end-Advances : (r : Reader) (w : Bytes) → Advances r (string_end r w).0
string_end-Advances r w =
    let u = next_char (record r { input = w }) in
    let a =
      Advances-trans (same_position r (record r { input = w }) refl refl refl (λ e. e))
        (next_char-Advances (record r { input = w })) in
    elim u.c
      as (λ c.
        Advances r
          (elim c as (λ _. Reader × Bytes × Bool) [
            | none ↦ (stop_with print_eof u, w, false)
            | some b ↦ if is_space b then (u, w, true) else (stop_with string_no_space u, w, false)
          ]).0) [
            | none ↦ Advances-trans a (same_position u _ refl refl refl (λ e. e))
            | some b ↦
                either_end r (is_space b) _ _ a
                  (Advances-trans a (same_position u _ refl refl refl (λ e. e)))
          ]

pub read_string-Advances :
    (bs : Bytes) (r : Reader) (w : Bytes) → r.unread ≡ bs → Advances r (read_string bs r w).0
unfolding read_string
read_string-Advances [] r w h =
    Advances-trans (read_byte-Advances [] r h)
      (same_position (read_byte [] r) _ refl refl refl (λ e. e))
read_string-Advances (b ∷ bs) r w h =
    let r' = read_byte (b ∷ bs) r in
    let step = read_byte-Advances (b ∷ bs) r h in
    let rest = read_string-Advances bs r' (w ++ b ∷ []) (read_byte-unread b bs r) in
    either_end r (leb max_input_str_len (length w)) _ _
      (Advances-trans step (same_position r' _ refl refl refl (λ e. e)))
      (either_end r (not (is_print b)) _ _
        (Advances-trans step (same_position r' _ refl refl refl (λ e. e)))
        (either_end r (b == b'"') _ _ (Advances-trans step (string_end-Advances r' w))
          (Advances-trans step rest)))
