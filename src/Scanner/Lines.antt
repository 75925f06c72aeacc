-- ===== src/Scanner/Lines.antt =====
-- Lines: is_valid_label, the handlers of src/scanner.c, call_instruction_handler and
-- tokenize_next_line. A handler of the source calls get_next_word and parse_varval_token once for
-- each argument, with the same tests each time; `argument` is that piece of code.
pub mod Quoted
pub mod Position
pub mod Forward
pub mod Fuel
pub mod Shapes
pub mod Typed
pub mod Keeps
pub mod Printing
use simbly.Prelude.{
  ℕ, zero, suc, Bool, true, false, not, ◌&&◌, ◌||◌, Option, none, some, [], ◌∷◌, ◌++◌, Bytes, codes,
  str_eq, leb, ◌==◌, if◌then◌else◌, drop, length, is_alnum, is_digit, is_print, is_space, Outcome,
  done, ◌>>=◌,
}
use simbly.Program.{
  Reader, Program, Token, Message, State, instruction_line, last_line, stop_with, Instruction,
  load_sym, store_sym, set_sym, add_sym, sub_sym, mul_sym, div_sym, mod_sym, brgt_sym, brge_sym,
  brlt_sym, brle_sym, breq_sym, bra_sym, down_sym, up_sym, sleep_sym, print_sym, return_sym, label,
  string, bad_label_name, bad_label_char, expects_arguments, expects_variable, expects_label,
  too_many_arguments, expects_string, string_eof, string_too_big, non_printable, print_eof,
  string_no_space,
}
use simbly.Scanner.Chars.{
  read_byte, next_char, flush_up_to_char, flush_up_to_newline, Flush, line_not_empty, get_next_word,
  is_char,
}
use simbly.Scanner.Tokens.{add_new_token}
use simbly.Scanner.Operand.{char_at, max_allowed_symbol_len, parse_varval_token}
use simbly.Voids.{RingBuffer}

-- MAX_INPUT_STR_LEN
abbrev pub max_input_str_len : ℕ
max_input_str_len = 1023

-- The `for` loop of is_valid_label, over the characters behind the `L`.
unfoldable pub all_alnum : Bytes → Bool
all_alnum [] = true
all_alnum (b ∷ s) = is_alnum b && all_alnum s

-- is_valid_label, on the word of length `len` in `input`.
unfoldable pub is_valid_label : Reader → ℕ → Reader × Bool
unfolding all_alnum str_eq
is_valid_label r len =
    if len == 0
    then (r, false)
    else if char_at r.input 0 == b'L' && not (str_eq r.input (codes "LOAD"))
    then (if len == 1
        then (stop_with bad_label_name r, false)
        else if all_alnum (drop 1 r.input)
        then (r, true)
        else (stop_with bad_label_char r, false))
    else (r, false)

-- What print_handler's loop reads: the string behind the opening quote, and whether it is closed
-- and followed by whitespace.
abbrev pub string_end : Reader → Bytes → Reader × Bytes × Bool
string_end r w =
    let r' = next_char (record r { input = w }) in
    elim r'.c [
      | none ↦ (stop_with print_eof r', w, false)
      | some b ↦ if is_space b then (r', w, true) else (stop_with string_no_space r', w, false)
    ]

unfoldable pub read_string : Bytes → Reader → Bytes → Reader × Bytes × Bool
unfolding next_char
read_string [] r w = (stop_with string_eof (record (read_byte [] r) { input = w }), w, false)
read_string (b ∷ bs) r w =
    let r' = read_byte (b ∷ bs) r in
    let rest = read_string bs r' (w ++ b ∷ []) in
    if leb max_input_str_len (length w)
    then (stop_with string_too_big (record r' { input = w }), w, false)
    else if not (is_print b)
    then (stop_with non_printable (record r' { input = w }), w, false)
    else if b == b'"'
    then string_end r' w
    else rest

abbrev pub is_last_line : State → Bool
is_last_line last_line = true
is_last_line _ = false

abbrev pub is_eof : Option ℕ → Bool
is_eof none = true
is_eof (some _) = false

abbrev pub is_bra : Instruction → Bool
is_bra bra_sym = true
is_bra _ = false

module _ {VarTable : Type 0} (ring : RingBuffer Token) where
  open ring use {Buffer}

  abbrev pub refuse : Program VarTable Buffer → Message → Outcome (Program VarTable Buffer)
  refuse p m = done (record p { reader = stop_with m p.reader })

  -- Goes on with the rest of a handler unless the step has returned 0.
  abbrev pub and_then :
      Outcome (Program VarTable Buffer × Bool)
      → (Program VarTable Buffer → Outcome (Program VarTable Buffer))
      → Outcome (Program VarTable Buffer)
  and_then m f = m >>= λ (p, go_on). if go_on then f p else done p

  abbrev pub argument_word :
      Bool → Program VarTable Buffer → ℕ → Outcome (Program VarTable Buffer × Bool)
  argument_word variable p len =
      if len == 0
      then done (record p { reader = stop_with expects_arguments p.reader }, false)
      else if variable && (char_at p.input 0 == b'-' || is_digit (char_at p.input 0))
      then done (record p { reader = stop_with expects_variable p.reader }, false)
      else parse_varval_token ring p

  -- Reads one argument; the flag says that it has to be a variable.
  unfoldable pub argument :
      Bool → Program VarTable Buffer → Outcome (Program VarTable Buffer × Bool)
  unfolding get_next_word parse_varval_token
  argument variable p =
      let (r, len) = get_next_word max_allowed_symbol_len true p.reader in
      argument_word variable (record p { reader = r }) len

  abbrev pub end_of_line_from : Program VarTable Buffer → Reader × Flush → Program VarTable Buffer
  end_of_line_from p (r, line_not_empty) = record p { reader = stop_with too_many_arguments r }
  end_of_line_from p (r, _) = record p { reader = r }

  -- The test with flush_up_to_newline at a handler's end.
  unfoldable pub end_of_line : Program VarTable Buffer → Program VarTable Buffer
  unfolding flush_up_to_newline
  end_of_line p = end_of_line_from p (flush_up_to_newline p.reader)

  -- loadstore_handler, and set_handler with the same calls
  unfoldable pub loadstore_handler : Program VarTable Buffer → Outcome (Program VarTable Buffer)
  unfolding argument end_of_line
  loadstore_handler p =
      and_then (argument true p) λ p. and_then (argument false p) λ p. done (end_of_line p)

  unfoldable pub set_handler : Program VarTable Buffer → Outcome (Program VarTable Buffer)
  unfolding argument end_of_line
  set_handler p =
      and_then (argument true p) λ p. and_then (argument false p) λ p. done (end_of_line p)

  unfoldable pub primitive_op_handler : Program VarTable Buffer → Outcome (Program VarTable Buffer)
  unfolding argument end_of_line
  primitive_op_handler p =
      and_then (argument true p)
        λ p. and_then (argument false p) λ p. and_then (argument false p) λ p. done (end_of_line p)

  -- A branch on the last line is no end of the program.
  abbrev pub resume_instructions : Program VarTable Buffer → Program VarTable Buffer
  resume_instructions p =
      if is_eof p.c || is_last_line p.state
      then record p { reader = record p.reader { state = instruction_line } }
      else p

  abbrev pub branch_label_from :
      Program VarTable Buffer → Reader × Bool → Outcome (Program VarTable Buffer)
  branch_label_from p (r, false) = refuse (record p { reader = r }) expects_label
  branch_label_from p (r, true) =
      add_new_token ring (record p { reader = r }) (label r.input r.offset) >>= λ q.
      done (resume_instructions (end_of_line q))

  unfoldable pub branch_label : Program VarTable Buffer → Outcome (Program VarTable Buffer)
  unfolding get_next_word is_valid_label add_new_token end_of_line
  branch_label p =
      let (r, len) = get_next_word max_allowed_symbol_len true p.reader in
      branch_label_from (record p { reader = r }) (is_valid_label r len)

  unfoldable pub branch_handler :
      Instruction → Program VarTable Buffer → Outcome (Program VarTable Buffer)
  unfolding argument branch_label
  branch_handler code p =
      if is_bra code
      then branch_label p
      else and_then (argument false p) λ p. and_then (argument false p) λ p. branch_label p

  unfoldable pub semaphore_handler : Program VarTable Buffer → Outcome (Program VarTable Buffer)
  unfolding argument end_of_line
  semaphore_handler p = and_then (argument true p) λ p. done (end_of_line p)

  unfoldable pub sleep_handler : Program VarTable Buffer → Outcome (Program VarTable Buffer)
  unfolding argument end_of_line
  sleep_handler p = and_then (argument false p) λ p. done (end_of_line p)

  abbrev pub print_argument :
      (Program VarTable Buffer → Outcome (Program VarTable Buffer))
      → Program VarTable Buffer
      → Reader × ℕ
      → Outcome (Program VarTable Buffer)
  print_argument again p (r, len) =
      if len == 0
      then done (record p { reader = r })
      else and_then (parse_varval_token ring (record p { reader = r })) again

  -- The loop over the arguments of PRINT: each round that goes on has read a character, so fuel
  -- above the count of unread bytes is enough.
  unfoldable pub print_arguments : ℕ → Program VarTable Buffer → Outcome (Program VarTable Buffer)
  unfolding get_next_word parse_varval_token
  print_arguments zero p = done p
  print_arguments (suc fuel) p =
      print_argument (λ q. print_arguments fuel q) p
        (get_next_word max_allowed_symbol_len true p.reader)

  abbrev pub print_line :
      Program VarTable Buffer → ℕ → Reader × Bool → Outcome (Program VarTable Buffer)
  print_line p this_line (r, found) =
      if not found || not (this_line == r.line)
      then done (record p { reader = if is_eof r.c then record r { state = last_line } else r })
      else print_arguments (suc (suc (length r.unread))) (record p { reader = r })

  abbrev pub print_string :
      Program VarTable Buffer → ℕ → Reader × Bytes × Bool → Outcome (Program VarTable Buffer)
  print_string p this_line (r, w, false) = done (record p { reader = r })
  print_string p this_line (r, w, true) =
      add_new_token ring (record p { reader = r }) (string w) >>= λ q.
      print_line q this_line (flush_up_to_char q.reader)

  abbrev pub print_quote :
      Program VarTable Buffer → Reader × Bool → Outcome (Program VarTable Buffer)
  print_quote p (r, found) =
      if not found || not (is_char b'"' r.c)
      then refuse (record p { reader = r }) expects_string
      else print_string p r.line (read_string r.unread r [])

  unfoldable pub print_handler : Program VarTable Buffer → Outcome (Program VarTable Buffer)
  unfolding flush_up_to_char read_string add_new_token print_arguments
  print_handler p = print_quote p (flush_up_to_char p.reader)

  abbrev pub return_handler : Program VarTable Buffer → Outcome (Program VarTable Buffer)
  return_handler p = done p

  -- The handlers of `instruction_array`.
  unfoldable pub handler : Instruction → Program VarTable Buffer → Outcome (Program VarTable Buffer)
  unfolding loadstore_handler set_handler primitive_op_handler branch_handler semaphore_handler
      sleep_handler print_handler
  handler load_sym p = loadstore_handler p
  handler store_sym p = loadstore_handler p
  handler set_sym p = set_handler p
  handler add_sym p = primitive_op_handler p
  handler sub_sym p = primitive_op_handler p
  handler mul_sym p = primitive_op_handler p
  handler div_sym p = primitive_op_handler p
  handler mod_sym p = primitive_op_handler p
  handler brgt_sym p = branch_handler brgt_sym p
  handler brge_sym p = branch_handler brge_sym p
  handler brlt_sym p = branch_handler brlt_sym p
  handler brle_sym p = branch_handler brle_sym p
  handler breq_sym p = branch_handler breq_sym p
  handler bra_sym p = branch_handler bra_sym p
  handler down_sym p = semaphore_handler p
  handler up_sym p = semaphore_handler p
  handler sleep_sym p = sleep_handler p
  handler print_sym p = print_handler p
  handler return_sym p = return_handler p
