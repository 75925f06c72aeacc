-- ===== src/Exec/Machine.antt =====
-- What a line of a program works on, and the steps that the handlers of src/exec.c share: reading
-- tokens, labels, jumps and the names of global variables.
pub mod Drain
use simbly.Prelude.{
  ℕ, zero, suc, ◌-◌, Bool, true, false, Option, none, some, List, Bytes, ℤ, pos, negsuc, size_mod,
  ltb, ◌==◌, if◌then◌else◌, length, drop, Outcome, done, fatal, undefined, ◌>>=◌, null_dereference,
  out_of_bounds,
}
use simbly.Program.{
  Reader, Program, Token, Message, int_val, int_var, int_arr, unset, Payload, label, instruction,
  operand, string, LabelData, Cell, array, label_data, program_stop, err_msg, redefined_label,
}
use simbly.Exec.Values.{get_value, move_to, at_token, reset}
use simbly.Global.{}
use simbly.Voids.{HashTable, RingBuffer}

-- A line that PRINT has written: the program's ID, the string and the values.
pub record Printed : Type 0 where
  pub id : ℤ
  pub text : Bytes
  pub values : List ℤ

-- A program, the table of global variables, and what has gone to stdout.
pub record Machine (VarTable TokenBuffer GlobalTable : Type 0) : Type 0 where
  pub program : Program VarTable TokenBuffer
  pub globals : GlobalTable
  pub output : List Printed

-- `(size_t)tmp`
abbrev pub to_size : ℤ → ℕ
to_size (pos n) = n
to_size (negsuc n) = size_mod - 1 - n

-- sizeof(label_data_s): four ints and a long
abbrev pub label_data_size : ℕ
label_data_size = 24

-- fseek(prog->fd, offset, SEEK_SET), and the character that get_next_word skips.
abbrev pub seek : ℕ → Reader → Reader
seek offset r = record r { c = some 32; unread = drop offset r.text; offset = offset }

module _ (max_alloc : ℕ) (vars : HashTable Cell) (ring : RingBuffer Token) where
  open vars use {Table, find, insert}
  open ring use {Buffer, items, read}

  -- `prog->line = lbl->line; … fseek(…)`
  abbrev pub jump_to : LabelData → Program Table Buffer → Program Table Buffer
  jump_to l p =
      let q = move_to max_alloc vars ring l.line l.column l.prev_col p in
      record q { reader = seek l.offset q.reader }

  -- `program_stop(prog, 1)`, and the message at the position of a token.
  abbrev pub stop_at : Token → Message → Program Table Buffer → Program Table Buffer
  stop_at tok m p =
      let q = record p { reader = program_stop true p.reader } in
      let q' = at_token max_alloc vars ring tok q in
      reset max_alloc vars ring q (record q' { reader = err_msg m q'.reader })

  abbrev pub took :
      Program Table Buffer → Option Token × Buffer → Option Token × Program Table Buffer
  took p (tok, b) = (tok, record p { translated_line = b })

  unfoldable pub next_token : Program Table Buffer → Option Token × Program Table Buffer
  next_token p = took p (read p.translated_line)

  abbrev pub read_or : {A : Type 0} → Outcome A → Option Token → (Token → Outcome A) → Outcome A
  read_or missing none f = missing
  read_or missing (some tok) f = f tok

  -- VDS around RingBuffer_read: an empty buffer ends the process.
  abbrev pub read_token :
      {A : Type 0} → Program Table Buffer → (Token → Program Table Buffer → Outcome A) → Outcome A
  read_token p f = let (tok, q) = next_token p in read_or fatal tok (λ tok. f tok q)

  -- The same with no test of the result, which is then NULL.
  abbrev pub read_unchecked :
      {A : Type 0} → Program Table Buffer → (Token → Program Table Buffer → Outcome A) → Outcome A
  read_unchecked p f =
      let (tok, q) = next_token p in read_or (undefined null_dereference) tok (λ tok. f tok q)

  -- The rest of a line that a branch passes over.
  unfoldable pub drain : ℕ → Program Table Buffer → Program Table Buffer
  unfolding next_token
  drain zero p = p
  drain (suc fuel) p =
      let (tok, q) = next_token p in
      let rest = drain fuel q in elim tok [ none ↦ q | some _ ↦ rest ]

  abbrev pub drain_all : Program Table Buffer → Program Table Buffer
  drain_all p = drain (suc (length (items p.translated_line))) p

  abbrev Labelled : Type 0
  Labelled = Outcome (Program Table Buffer × Option LabelData)

  -- A name that the table has: the data of a label is compared with the new one, by offset.
  abbrev pub known_label : Program Table Buffer → Token → LabelData → Option Cell → Labelled
  known_label p tok l none = undefined null_dereference
  known_label p tok l (some (array xs)) = undefined out_of_bounds
  known_label p tok l (some (label_data k)) =
      if k.offset == l.offset then done (p, some l) else done (stop_at tok redefined_label p, none)

  abbrev pub insert_result :
      Program Table Buffer → Token → Bytes → LabelData → Table × Bool → Labelled
  insert_result p tok name l (t, true) = done (record p { vartable = t }, some l)
  insert_result p tok name l (t, false) =
      known_label (record p { vartable = t }) tok l (find t name)

  abbrev pub label_of : Token → ℕ → LabelData
  label_of tok offset = record {
    line = tok.line;
    column = tok.column;
    prev_col = tok.prev_col;
    offset = offset;
  }

  -- insert_label_to_vartable; NULL is `none`.
  unfoldable pub insert_label_to_vartable : Program Table Buffer → Token → Bytes → ℕ → Labelled
  insert_label_to_vartable p tok name offset =
      if ltb max_alloc label_data_size
      then fatal
      else insert_result p tok name (label_of tok offset)
          (insert p.vartable name (label_data (label_of tok offset)))

  abbrev Key : Type 0
  Key = Program Table Buffer × Option (Bytes × ℕ)

  abbrev pub element_key : Bytes → Program Table Buffer × Option ℤ → Outcome Key
  element_key name (p, none) = done (p, none)
  element_key name (p, some v) = done (p, some (name, to_size v))

  -- The name and the index of a global variable. Any other data is taken for a pointer: the value
  -- of a number, too.
  abbrev pub global_key : Program Table Buffer → Payload → Outcome Key
  global_key p (operand (int_arr name i)) = get_value max_alloc vars ring p i >>= element_key name
  global_key p (operand (int_var name)) = done (p, some (name, 0))
  global_key p (operand (int_val v)) = undefined null_dereference
  global_key p (operand unset) = undefined null_dereference
  global_key p (label name offset) = done (p, some (name, 0))
  global_key p (string name) = done (p, some (name, 0))
  global_key p (instruction code) = undefined null_dereference
