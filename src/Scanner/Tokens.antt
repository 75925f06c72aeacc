-- ===== src/Scanner/Tokens.antt =====
-- The tokens of a line: add_new_token of src/scanner.c, over the ring buffer of libvoids.
pub mod Append
pub mod Closed
pub mod Kinds
use simbly.Prelude.{ℕ, ◌+◌, Bool, true, false, if◌then◌else◌, Outcome, done, fatal}
use simbly.Program.{Program, Payload, Token}
use simbly.Voids.{RingBuffer}

-- DEFAULT_TRANSLATED_LINE_LEN
abbrev pub default_translated_line_len : ℕ
default_translated_line_len = 8

module _ {VarTable : Type 0} (ring : RingBuffer Token) where
  open ring use {Buffer, size, write, resize, alloc}

  abbrev write_again : Program VarTable Buffer → Buffer × Bool → Outcome (Program VarTable Buffer)
  write_again p (b, true) = done (record p { translated_line = b })
  write_again p (b, false) = fatal

  -- VDS around the resizing and the second write.
  abbrev write_resized :
      Program VarTable Buffer → Token → Buffer × Bool → Outcome (Program VarTable Buffer)
  write_resized p tok (b, true) = write_again p (write b tok)
  write_resized p tok (b, false) = fatal

  abbrev write_or_grow :
      Program VarTable Buffer → Token → Buffer × Bool → Outcome (Program VarTable Buffer)
  write_or_grow p tok (b, true) = done (record p { translated_line = b })
  write_or_grow p tok (b, false) =
      write_resized p tok (resize b (size b + default_translated_line_len))

  abbrev pub new_token : Program VarTable Buffer → Payload → Token
  new_token p payload = record {
    payload = payload;
    line = p.line;
    column = p.column;
    prev_col = p.prev_col;
  }

  -- ENO around the malloc of the token and that of its data: without memory the process ends.
  unfoldable pub add_new_token :
      Program VarTable Buffer → Payload → Outcome (Program VarTable Buffer)
  add_new_token p payload =
      let tok = new_token p payload in
      if alloc tok then write_or_grow p tok (write p.translated_line tok) else fatal
