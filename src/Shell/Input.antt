-- ===== src/Shell/Input.antt =====
-- read_line of src/main.c: a line of standard input in a buffer that grows, without the whitespace in
-- front, and with each run of blanks as one space.
pub mod Room
pub mod Squeeze
use simbly.Prelude.{
  ℕ, suc, ◌+◌, ◌%◌, Bool, true, false, ◌&&◌, ◌||◌, Option, none, some, List, [], ◌∷◌, ◌++◌, Bytes,
  size_mod, length, is_space, ltb, leb, ◌==◌, if◌then◌else◌, Outcome, done, undefined, ◌>>=◌,
  out_of_bounds,
}

-- MAX_ALLOC_SIZE
abbrev pub max_alloc_size : ℕ
max_alloc_size = 128

abbrev pub is_blank : ℕ → Bool
is_blank c = c == 32 || c == 9

-- `buff`, with the bytes that have been written to it, and curr_size. `idx` is their number.
pub record Buffer : Type 0 where
  pub bytes : Bytes
  pub size : ℕ

-- `if (idx >= curr_size)`, with its realloc.
abbrev pub with_room : Buffer → Buffer
with_room b =
    if leb b.size (length b.bytes)
    then record b { size = (b.size + max_alloc_size) % size_mod }
    else b

-- `buff[idx++] = c`
abbrev pub put : ℕ → Buffer → Outcome Buffer
put c b =
    if ltb (length b.bytes) b.size
    then done (record b { bytes = b.bytes ++ c ∷ [] })
    else undefined out_of_bounds

abbrev pub put_char : ℕ → Buffer → Outcome Buffer
put_char c b = put (if is_blank c then 32 else c) (with_room b)

-- Where the loops stop: the last character read, the bytes not yet read, and the buffer.
pub record Stop : Type 0 where
  pub c : Option ℕ
  pub unread : Bytes
  pub buffer : Buffer

-- The loops behind the first character, on the bytes not yet read; `blanks` is whether they are in the
-- inner one, which passes over blanks.
unfoldable pub read_chars : Bool → Bytes → Buffer → Outcome Stop
read_chars blanks [] b =
    done (record { c = none; unread = []; buffer = if blanks then with_room b else b })
read_chars blanks (x ∷ xs) b =
    let rest = read_chars (is_blank x) xs in
    if x == b'\n'
    then done (record { c = some x; unread = xs; buffer = if blanks then with_room b else b })
    else if blanks && is_blank x
    then rest b
    else (put_char x b >>= rest)

-- What read_line returns, NULL as `none`, what is unread then, and how often it has told the user
-- that the input is empty.
pub record Line : Type 0 where
  pub line : Option Bytes
  pub unread : Bytes
  pub empty_inputs : ℕ

-- The terminator, for which the buffer may grow by one.
abbrev pub terminated : Buffer → Outcome Bytes
terminated b =
    if leb b.size (length b.bytes)
    then (if ltb (length b.bytes) ((b.size + 1) % size_mod)
        then done b.bytes
        else undefined out_of_bounds)
    else done b.bytes

abbrev pub finish : ℕ → Stop → Outcome Line
finish n s = elim s.c [
  | none ↦ done (record { line = none; unread = s.unread; empty_inputs = n })
  | some _ ↦ terminated s.buffer >>= λ l.
      done (record { line = some l; unread = s.unread; empty_inputs = n })
]

-- The loop over the whitespace in front, with the lines that it has passed.
abbrev pub skip_space : ℕ → Bytes → Outcome Line
skip_space n [] = done (record { line = none; unread = []; empty_inputs = n })
skip_space n (x ∷ xs) =
    let rest = skip_space (if x == b'\n' then suc n else n) xs in
    if is_space x
    then rest
    else ((put_char x (record { bytes = []; size = max_alloc_size }) >>= read_chars (is_blank x) xs)
        >>= finish n)

unfoldable pub read_line : Bytes → Outcome Line
unfolding read_chars
read_line input = skip_space 0 input
