-- ===== src/Scanner/Magic.antt =====
-- The first line of a program: parse_magic of src/scanner.c.
pub mod Header
pub mod Position
use simbly.Prelude.{
  ℕ, zero, suc, Bool, true, false, not, none, some, [], ◌∷◌, ◌++◌, Bytes, codes, str_eq, take, ◌==◌,
  if◌then◌else◌,
}
use simbly.Program.{
  Reader, instruction_line, finished, program_stop, stop_with, bad_magic, text_after_magic,
}
use simbly.Scanner.Chars.{next_char, flush_up_to_char, is_char}

abbrev pub magic_bytes : Bytes
magic_bytes = codes "#PROGRAM"

-- The `for` loop, with the characters stored so far; `false` where it returns at EOF.
unfoldable pub read_magic : ℕ → Reader → Bytes → Reader × Bytes × Bool
unfolding next_char
read_magic zero r w = (r, w, true)
read_magic (suc n) r w =
    let r' = next_char r in
    elim r'.c [ none ↦ (program_stop false r', w, false) | some b ↦ read_magic n r' (w ++ b ∷ []) ]

-- `strncmp` and the message; the function goes on in both cases.
abbrev pub check_magic : Reader → Reader
check_magic r = if str_eq magic_bytes r.input then r else stop_with bad_magic r

-- The last test, on the line and the results of flush_up_to_char.
abbrev pub after_magic : ℕ → Reader × Bool → Reader
after_magic this_line (r, found) =
    if this_line == r.line
    then stop_with text_after_magic r
    else if not found
    then record r { state = finished }
    else record r { state = instruction_line }

abbrev pub magic_tail : Reader → Reader
magic_tail r =
    if not (is_char b'\n' r.c)
    then after_magic r.line (flush_up_to_char r)
    else record r { state = instruction_line }

abbrev pub parse_magic_from : Reader × Bytes × Bool → Reader
parse_magic_from (r, w, false) = r
parse_magic_from (r, w, true) = magic_tail (check_magic (record r { input = take 8 w }))

unfoldable pub parse_magic : Reader → Reader
unfolding read_magic flush_up_to_char str_eq
parse_magic r = parse_magic_from (read_magic 9 r [])
