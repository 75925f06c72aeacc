-- ===== src/Program/Defs.antt =====
-- The data of src/program.h and src/scanner.h: the states, the tokens and the struct of a running
-- program. The struct is split in two: `Reader` holds what the scanner reads and moves, `Program`
-- adds the variables, the tokens and what the runtime keeps.
use simbly.Prelude.{ℕ, Bool, Option, List, Bytes, ℤ}

-- program_state_e
pub data State : Type 0 where
  magic_line instruction_line last_line sleeping blocked finished : State

-- instruction_id_e
pub data Instruction : Type 0 where
  load_sym store_sym set_sym add_sym sub_sym mul_sym div_sym mod_sym : Instruction
  brgt_sym brge_sym brlt_sym brle_sym breq_sym bra_sym : Instruction
  down_sym up_sym sleep_sym print_sym return_sym : Instruction

-- The argument of an instruction, as INT_VAL_TOK, INT_VAR_TOK and INT_ARR_TOK with its
-- `int_arr_tok_s` describe it. `unset` is the index of an `int_arr_tok_s` that was allocated and
-- never written.
pub data Operand : Type 0 where
  int_val : ℤ → Operand
  int_var : Bytes → Operand
  int_arr : Bytes → Operand → Operand
  unset : Operand

-- What a token carries, by its type; a label also carries the file offset behind it.
pub data Payload : Type 0 where
  label : Bytes → ℕ → Payload
  instruction : Instruction → Payload
  operand : Operand → Payload
  string : Bytes → Payload

-- token_s. `len` is the length of the name with its terminator, so it is not kept.
pub record Token : Type 0 where
  pub payload : Payload
  pub line : ℕ
  pub column : ℕ
  pub prev_col : ℕ

-- The texts that err_msg and warn_msg are called with.
pub data Message : Type 0 where
  symbol_too_big bad_variable_name symbol_too_long unclosed_bracket bad_index_symbol : Message
  bad_number number_too_long unclosed_number unrecognized_operand : Message
  bad_magic text_after_magic bad_label_name bad_label_char : Message
  unrecognized_instruction label_without_instruction : Message
  expects_arguments expects_variable expects_label too_many_arguments : Message
  expects_string string_eof string_too_big non_printable print_eof string_no_space : Message
  outside_argv label_with_same_name array_by_name negative_index : Message
  argc_is_constant argv_is_constant redefined_label : Message
  branch_to_variable undefined_label negative_sleep : Message

-- A line on stderr: an error or a warning, with the position that it names.
pub record Diagnostic : Type 0 where
  pub is_error : Bool
  pub at_line : ℕ
  pub at_column : ℕ
  pub message : Message

-- The part of program_s that the scanner works on. `text` is the whole file, `unread` what fgetc
-- has not yet returned and `offset` its position; `c` is `none` for EOF; `input` is the C string in
-- the buffer; `messages` is what has gone to stderr.
pub record Reader : Type 0 where
  pub text : Bytes
  pub unread : Bytes
  pub offset : ℕ
  pub c : Option ℕ
  pub input : Bytes
  pub line : ℕ
  pub column : ℕ
  pub prev_col : ℕ
  pub state : State
  pub error_flag : Bool
  pub messages : List Diagnostic

-- The rest of program_s. `argv` holds the ID, argc and the arguments; `sem` is the key of the
-- global variable that the program waits for.
pub record Program (VarTable TokenBuffer : Type 0) : Type 0 where
  pub reader : Reader
  pub open reader use *
  pub vartable : VarTable
  pub sleep_sec : ℤ
  pub sleep_nsec : ℤ
  pub argv : List ℤ
  pub translated_line : TokenBuffer
  pub sem : Option Bytes
  pub blocked_idx : ℕ

-- label_data_s; `placeholder` is what tells it from an array.
pub record LabelData : Type 0 where
  pub line : ℕ
  pub column : ℕ
  pub prev_col : ℕ
  pub offset : ℕ

-- What `vartable` maps a name to: the elements of an int array, whose length is in its first int,
-- or the data of a label.
pub data Cell : Type 0 where
  array : List ℤ → Cell
  label_data : LabelData → Cell
