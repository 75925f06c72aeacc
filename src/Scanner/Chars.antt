-- ===== src/Scanner/Chars.antt =====
-- Characters and words: NEXT_CHAR, flush_up_to_char, flush_up_to_newline and get_next_word of
-- src/scanner.c. Each loop reads a character a round, so it recurs on the bytes not yet read.
pub mod Word
pub mod Position
pub mod Progress
use simbly.Prelude.{
  ℕ, ◌+◌, ◌%◌, Bool, true, false, not, ◌&&◌, Option, none, some, [], ◌∷◌, ◌++◌, Bytes, u32_mod,
  length, is_space, ◌==◌, if◌then◌else◌,
}
use simbly.Program.{Reader, last_line, symbol_too_big, stop_with}

abbrev pub after_newline : ℕ → Bytes → Reader → Reader
after_newline b bs r = record r {
  c = some b;
  unread = bs;
  offset = r.offset + 1;
  prev_col = r.column;
  line = (r.line + 1) % u32_mod;
  column = 1;
}

abbrev pub after_char : ℕ → Bytes → Reader → Reader
after_char b bs r = record r {
  c = some b;
  unread = bs;
  offset = r.offset + 1;
  column = (r.column + 1) % u32_mod;
}

-- NEXT_CHAR on the bytes not yet read: at the end of the file it counts a column and reads EOF.
unfoldable pub read_byte : Bytes → Reader → Reader
read_byte [] r = record r { c = none; column = (r.column + 1) % u32_mod }
read_byte (b ∷ bs) r = if b == b'\n' then after_newline b bs r else after_char b bs r

unfoldable pub next_char : Reader → Reader
unfolding read_byte
next_char r = read_byte r.unread r

unfoldable pub flush_chars : Bytes → Reader → Reader × Bool
unfolding read_byte
flush_chars [] r = (read_byte [] r, false)
flush_chars (b ∷ bs) r =
    let r' = read_byte (b ∷ bs) r in if is_space b then flush_chars bs r' else (r', true)

-- Skips whitespace up to a character (`true`) or the end of the file (`false`). It always reads
-- one character.
unfoldable pub flush_up_to_char : Reader → Reader × Bool
unfolding flush_chars
flush_up_to_char r = flush_chars r.unread r

-- The results 1, LINE_NOT_EMPTY and 0 of flush_up_to_newline.
pub data Flush : Type 0 where
  at_newline line_not_empty at_eof : Flush

abbrev pub is_char : ℕ → Option ℕ → Bool
is_char b none = false
is_char b (some c) = c == b

abbrev pub is_space_char : Option ℕ → Bool
is_space_char none = false
is_space_char (some c) = is_space c

unfoldable pub flush_line : Bytes → Reader → Reader × Flush
unfolding read_byte
flush_line [] r = if is_char b'\n' r.c then (r, at_newline) else (read_byte [] r, at_eof)
flush_line (b ∷ bs) r =
    let r' = read_byte (b ∷ bs) r in
    let rest = flush_line bs r' in
    if is_char b'\n' r.c
    then (r, at_newline)
    else if not (is_space b)
    then (r', line_not_empty)
    else rest

unfoldable pub flush_up_to_newline : Reader → Reader × Flush
unfolding flush_line
flush_up_to_newline r = flush_line r.unread r

-- `(char)prog->c`: EOF is -1, which is stored as the byte 255.
abbrev pub char_of : Option ℕ → ℕ
char_of none = 255
char_of (some c) = c

abbrev pub word_too_big : Bytes → Reader → Reader × ℕ
word_too_big w r = (stop_with symbol_too_big (record r { input = w }), 0)

-- The loop of get_next_word, with the characters stored so far.
unfoldable pub word_loop : ℕ → Bytes → Reader → Bytes → Reader × ℕ
unfolding read_byte
word_loop max_len [] r w =
    let r' = read_byte [] r in
    if length w == max_len
    then word_too_big w r'
    else (record r' { state = last_line; input = w }, length w)
word_loop max_len (b ∷ bs) r w =
    let r' = read_byte (b ∷ bs) r in
    let rest = word_loop max_len bs r' (w ++ b ∷ []) in
    if length w == max_len
    then word_too_big w r'
    else if is_space b
    then (record r' { input = w }, length w)
    else rest

abbrev pub get_next_word_from : ℕ → Bool → ℕ → Reader × Bool → Reader × ℕ
get_next_word_from max_len this_line prev_line (r, false) = (r, 0)
get_next_word_from max_len this_line prev_line (r, true) =
    if this_line && not (prev_line == r.line)
    then (r, 0)
    else word_loop max_len r.unread r (char_of r.c ∷ [])

-- Reads the next word into `input` and returns its length, or 0: on this line only, if the flag is
-- set.
unfoldable pub get_next_word : ℕ → Bool → Reader → Reader × ℕ
unfolding flush_up_to_char word_loop
get_next_word max_len this_line r =
    if this_line && is_char b'\n' r.c
    then (r, 0)
    else get_next_word_from max_len this_line r.line
        (if is_space_char r.c then flush_up_to_char r else (r, true))
