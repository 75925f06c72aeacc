-- ===== src/Exec/Lines.antt =====
-- exec_instruction_line and interpret_next_line of src/exec.c: a line from its characters to its
-- effect.
use simbly.Prelude.{ℕ, Option, none, some, Outcome, done, undefined, ◌>>=◌, uninitialised_read}
use simbly.Program.{
  Program, Token, Payload, label, instruction, LabelData, Cell, State, magic_line, instruction_line,
  last_line, finished, Instruction, load_sym, store_sym, set_sym, add_sym, sub_sym, mul_sym,
  div_sym, mod_sym, brgt_sym, brge_sym, brlt_sym, brle_sym, breq_sym, bra_sym, down_sym, up_sym,
  sleep_sym, print_sym, return_sym,
}
use simbly.Exec.Branch.{branch_handler}
use simbly.Exec.Handlers.{
  load_handler, store_handler, set_handler, primitive_op_handler, semaphore_handler, sleep_handler,
  print_handler, return_handler,
}
use simbly.Exec.Machine.{Machine, next_token, read_unchecked, insert_label_to_vartable}
use simbly.Global.{GlobalVar}
use simbly.Scanner.Magic.{parse_magic}
use simbly.Scanner.Tokenize.{tokenize_next_line}
use simbly.Voids.{HashTable, RingBuffer}

module _ (max_alloc : ℕ) (instructions : HashTable Instruction) (vars : HashTable Cell)
    (ring : RingBuffer Token) (globals : HashTable (Option GlobalVar))
    (table : instructions.Table) where
  open ring use {Buffer}

  abbrev Step : Type 0
  Step = Outcome (Machine vars.Table Buffer globals.Table)

  abbrev pub with_program :
      Machine vars.Table Buffer globals.Table
      → Program vars.Table Buffer
      → Machine vars.Table Buffer globals.Table
  with_program m p = record m { program = p }

  abbrev pub branch : Instruction → Machine vars.Table Buffer globals.Table → Step
  branch code m = branch_handler max_alloc instructions vars ring table code m.program >>= λ p.
      done (with_program m p)

  -- The handlers of the `instruction_array` of src/exec.c.
  unfoldable pub handler : Instruction → Machine vars.Table Buffer globals.Table → Step
  unfolding load_handler store_handler set_handler primitive_op_handler semaphore_handler
      sleep_handler print_handler branch_handler
  handler load_sym m = load_handler max_alloc vars ring globals m
  handler store_sym m = store_handler max_alloc vars ring globals m
  handler set_sym m = set_handler max_alloc vars ring globals m
  handler add_sym m = primitive_op_handler max_alloc vars ring globals add_sym m
  handler sub_sym m = primitive_op_handler max_alloc vars ring globals sub_sym m
  handler mul_sym m = primitive_op_handler max_alloc vars ring globals mul_sym m
  handler div_sym m = primitive_op_handler max_alloc vars ring globals div_sym m
  handler mod_sym m = primitive_op_handler max_alloc vars ring globals mod_sym m
  handler brgt_sym m = branch brgt_sym m
  handler brge_sym m = branch brge_sym m
  handler brlt_sym m = branch brlt_sym m
  handler brle_sym m = branch brle_sym m
  handler breq_sym m = branch breq_sym m
  handler bra_sym m = branch bra_sym m
  handler down_sym m = semaphore_handler max_alloc vars ring globals down_sym m
  handler up_sym m = semaphore_handler max_alloc vars ring globals up_sym m
  handler sleep_sym m = sleep_handler max_alloc vars ring globals m
  handler print_sym m = print_handler max_alloc vars ring globals m
  handler return_sym m = return_handler max_alloc vars ring globals m

  -- `instruction_tok->data.value`, which only an instruction token has.
  abbrev pub call_handler : Payload → Machine vars.Table Buffer globals.Table → Step
  call_handler (instruction code) m = handler code m
  call_handler _ m = undefined uninitialised_read

  abbrev pub after_label :
      Machine vars.Table Buffer globals.Table → Program vars.Table Buffer × Option LabelData → Step
  after_label m (p, none) = done (with_program m p)
  after_label m (p, some l) =
      read_unchecked max_alloc vars ring p λ tok q. call_handler tok.payload (with_program m q)

  abbrev pub exec_token :
      Machine vars.Table Buffer globals.Table → Program vars.Table Buffer → Token → Payload → Step
  exec_token m p tok (label name offset) =
      insert_label_to_vartable max_alloc vars ring p tok name offset >>= after_label m
  exec_token m p tok payload = call_handler payload (with_program m p)

  abbrev pub set_state : State → Program vars.Table Buffer → Program vars.Table Buffer
  set_state s p = record p { reader = record p.reader { state = s } }

  abbrev pub exec_first :
      Machine vars.Table Buffer globals.Table → Option Token × Program vars.Table Buffer → Step
  exec_first m (none, p) = done (with_program m (set_state finished p))
  exec_first m (some tok, p) = exec_token m p tok tok.payload

  unfoldable pub exec_instruction_line : Machine vars.Table Buffer globals.Table → Step
  unfolding next_token insert_label_to_vartable handler
  exec_instruction_line m = exec_first m (next_token max_alloc vars ring m.program)

  -- `prog->state = (prog->state == LAST_LINE) ? FINISHED : prog->state;`
  abbrev after_last : State → State
  after_last last_line = finished
  after_last s = s

  abbrev pub finish_last :
      Machine vars.Table Buffer globals.Table → Machine vars.Table Buffer globals.Table
  finish_last m = with_program m (set_state (after_last m.program.state) m.program)

  abbrev pub exec_if_ready : State → Machine vars.Table Buffer globals.Table → Step
  exec_if_ready instruction_line m = exec_instruction_line m >>= λ m'. done (finish_last m')
  exec_if_ready last_line m = exec_instruction_line m >>= λ m'. done (finish_last m')
  exec_if_ready _ m = done m

  abbrev pub tokenize : Machine vars.Table Buffer globals.Table → Step
  tokenize m = tokenize_next_line instructions ring table m.program >>= λ p. done (with_program m p)

  -- The case MAGIC_LINE falls through to the tokens unless the program has finished.
  abbrev pub after_magic : State → Machine vars.Table Buffer globals.Table → Step
  after_magic finished m = done m
  after_magic _ m = tokenize m

  abbrev pub scan_line : State → Machine vars.Table Buffer globals.Table → Step
  scan_line magic_line m =
      let m' = with_program m (record m.program { reader = parse_magic m.program.reader }) in
      after_magic m'.program.state m'
  scan_line instruction_line m = tokenize m
  scan_line _ m = done m

  unfoldable pub interpret_next_line : Machine vars.Table Buffer globals.Table → Step
  unfolding parse_magic tokenize_next_line exec_instruction_line
  interpret_next_line m = scan_line m.program.state m >>= λ m'. exec_if_ready m'.program.state m'
