-- ===== src/Program/Init.antt =====
-- program_init and generate_program_id of src/program.c, for a file that has been opened.
use simbly.Prelude.{
  ℕ, false, none, List, [], ◌∷◌, Bytes, ℤ, pos, ◌+ℤ◌, length, fits_int, if◌then◌else◌, Outcome,
  done, undefined, ◌>>=◌, signed_overflow,
}
use simbly.Program.Defs.{Program, Reader, Token, Cell, magic_line}
use simbly.Voids.{HashTable, RingBuffer}

-- `id = id_cnt++`: the new counter and the ID.
unfoldable pub generate_program_id : ℤ → Outcome (ℤ × ℤ)
unfolding ◌+ℤ◌
generate_program_id id_cnt =
    if fits_int (id_cnt +ℤ pos 1) then done (id_cnt +ℤ pos 1, id_cnt) else undefined signed_overflow

-- A file that is open for reading, from its first byte. `c` and `input` are not written before
-- parse_magic, which does not read them first: here they are EOF and the empty string.
abbrev pub open_file : Bytes → Reader
open_file text = record {
  text = text;
  unread = text;
  offset = 0;
  c = none;
  input = [];
  line = 1;
  column = 1;
  prev_col = 0;
  state = magic_line;
  error_flag = false;
  messages = [];
}

-- DEFAULT_TRANSLATED_LINE_LEN, of the buffer of tokens.
abbrev default_translated_line_len : ℕ
default_translated_line_len = 8

module _ (vars : HashTable Cell) (ring : RingBuffer Token) where
  -- `argc` is the count of the arguments. `sleep_left`, `sem` and `blocked_idx` are written when a program goes to sleep or is blocked.
  abbrev pub program_with_id : Bytes → List ℤ → ℤ → Program vars.Table ring.Buffer
  program_with_id text args id = record {
    reader = open_file text;
    vartable = vars.init;
    sleep_sec = pos 0;
    sleep_nsec = pos 0;
    argv = id ∷ pos (length args) ∷ args;
    translated_line = ring.init default_translated_line_len;
    sem = none;
    blocked_idx = 0;
  }

  unfoldable pub program_init : ℤ → Bytes → List ℤ → Outcome (ℤ × Program vars.Table ring.Buffer)
  unfolding generate_program_id
  program_init id_cnt text args =
      generate_program_id id_cnt >>= λ (next, id). done (next, program_with_id text args id)
