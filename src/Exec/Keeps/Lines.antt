-- ===== src/Exec/Keeps/Lines.antt =====
-- A line of a program keeps what is kept by each change: interpret_next_line of src/exec.c.
use simbly.Exec.Branch.{branch_handler}
use simbly.Exec.Keeps.Branches.{branch_handler-Always}
use simbly.Exec.Keeps.Handlers.{
  Holds, load_handler-Holds, store_handler-Holds, set_handler-Holds, primitive_op_handler-Holds,
  semaphore_handler-Holds, sleep_handler-Holds, print_handler-Holds, return_handler-Holds,
}
use simbly.Exec.Keeps.Values.{next_token-Kept, read_unchecked-Always, insert_label-With}
use simbly.Exec.Keeps.{Kept, Kept-Closed, same_place}
use simbly.Exec.Lines.{
  branch, handler, call_handler, after_label, exec_token, set_state, exec_first,
  exec_instruction_line, finish_last, exec_if_ready, tokenize, after_magic, scan_line,
  interpret_next_line,
}
use simbly.Exec.Machine.{Machine, next_token, insert_label_to_vartable}
use simbly.Global.{GlobalVar}
use simbly.Prelude.{ℕ, Option, none, some, refl, Outcome, done, ◌>>=◌, Always, Always->>=}
use simbly.Program.{
  Program, Token, Payload, label, instruction, operand, string, LabelData, Cell, State, magic_line,
  instruction_line, last_line, finished, sleeping, blocked, Instruction, load_sym, store_sym,
  set_sym, add_sym, sub_sym, mul_sym, div_sym, mod_sym, brgt_sym, brge_sym, brlt_sym, brle_sym,
  breq_sym, bra_sym, down_sym, up_sym, sleep_sym, print_sym, return_sym,
}
use simbly.Scanner.Magic.{parse_magic}
use simbly.Scanner.Magic.Position.{parse_magic-Advances}
use simbly.Scanner.Tokenize.Keeps.{tokenize_next_line-Keeps}
use simbly.Scanner.Tokenize.{tokenize_next_line}
use simbly.Voids.{HashTable, RingBuffer}

module _ (max_alloc : ℕ) (instructions : HashTable Instruction) (vars : HashTable Cell)
    (ring : RingBuffer Token) (globals : HashTable (Option GlobalVar)) (table : instructions.Table)
    {P : Program vars.Table ring.Buffer → Type 0} (k : Kept max_alloc vars ring P) where
  open ring use {Buffer}

  abbrev M : Type 0
  M = Machine vars.Table Buffer globals.Table

  -- The step leaves a program that has `P`.
  abbrev Keeps : Outcome M → Type 0
  Keeps = Always (Holds max_alloc vars ring globals k)

  branch-Keeps :
      (code : Instruction) (m : M)
      → P m.program
      → Keeps (branch max_alloc instructions vars ring globals table code m)
  branch-Keeps code m h =
      Always->>= P (λ n. P n.program)
        (branch_handler max_alloc instructions vars ring table code m.program) _
        (branch_handler-Always max_alloc instructions vars ring table k code m.program h) (λ p a. a)

  handler-Keeps :
      (code : Instruction) (m : M)
      → P m.program
      → Keeps (handler max_alloc instructions vars ring globals table code m)
  unfolding handler
  handler-Keeps load_sym m h = load_handler-Holds max_alloc vars ring globals k m h
  handler-Keeps store_sym m h = store_handler-Holds max_alloc vars ring globals k m h
  handler-Keeps set_sym m h = set_handler-Holds max_alloc vars ring globals k m h
  handler-Keeps add_sym m h = primitive_op_handler-Holds max_alloc vars ring globals k add_sym m h
  handler-Keeps sub_sym m h = primitive_op_handler-Holds max_alloc vars ring globals k sub_sym m h
  handler-Keeps mul_sym m h = primitive_op_handler-Holds max_alloc vars ring globals k mul_sym m h
  handler-Keeps div_sym m h = primitive_op_handler-Holds max_alloc vars ring globals k div_sym m h
  handler-Keeps mod_sym m h = primitive_op_handler-Holds max_alloc vars ring globals k mod_sym m h
  handler-Keeps brgt_sym m h = branch-Keeps brgt_sym m h
  handler-Keeps brge_sym m h = branch-Keeps brge_sym m h
  handler-Keeps brlt_sym m h = branch-Keeps brlt_sym m h
  handler-Keeps brle_sym m h = branch-Keeps brle_sym m h
  handler-Keeps breq_sym m h = branch-Keeps breq_sym m h
  handler-Keeps bra_sym m h = branch-Keeps bra_sym m h
  handler-Keeps down_sym m h = semaphore_handler-Holds max_alloc vars ring globals k down_sym m h
  handler-Keeps up_sym m h = semaphore_handler-Holds max_alloc vars ring globals k up_sym m h
  handler-Keeps sleep_sym m h = sleep_handler-Holds max_alloc vars ring globals k m h
  handler-Keeps print_sym m h = print_handler-Holds max_alloc vars ring globals k m h
  handler-Keeps return_sym m h = return_handler-Holds max_alloc vars ring globals k m h

  call_handler-Keeps :
      (w : Payload) (m : M)
      → P m.program
      → Keeps (call_handler max_alloc instructions vars ring globals table w m)
  call_handler-Keeps (instruction code) m h = handler-Keeps code m h
  call_handler-Keeps (label x n) m h = tt
  call_handler-Keeps (operand o) m h = tt
  call_handler-Keeps (string w) m h = tt

  after_label-Keeps :
      (m : M) (o : Program vars.Table Buffer × Option LabelData)
      → P o.0
      → Keeps (after_label max_alloc instructions vars ring globals table m o)
  after_label-Keeps m (p, none) h = h
  after_label-Keeps m (p, some l) h =
      read_unchecked-Always max_alloc vars ring k (λ n. P n.program) p
        (λ tok q.
          call_handler max_alloc instructions vars ring globals table tok.payload
            (record m { program = q }))
        h (λ tok q a. call_handler-Keeps tok.payload (record m { program = q }) a)

  exec_token-Keeps :
      (m : M) (p : Program vars.Table Buffer) (tok : Token) (w : Payload)
      → P p
      → Keeps (exec_token max_alloc instructions vars ring globals table m p tok w)
  exec_token-Keeps m p tok (label name offset) h =
      Always->>= (λ o. P o.0) (λ n. P n.program)
        (insert_label_to_vartable max_alloc vars ring p tok name offset) _
        (insert_label-With max_alloc vars ring k p tok name offset h) (after_label-Keeps m)
  exec_token-Keeps m p tok (instruction code) h = handler-Keeps code (record m { program = p }) h
  exec_token-Keeps m p tok (operand o) h = tt
  exec_token-Keeps m p tok (string w) h = tt

  set_state-Kept :
      (s : State) (p : Program vars.Table Buffer)
      → P p
      → P (set_state max_alloc instructions vars ring globals table s p)
  set_state-Kept s p h = same_place max_alloc vars ring k p _ refl refl refl h

  exec_first-Keeps :
      (m : M) (o : Option Token) (p : Program vars.Table Buffer)
      → P p
      → Keeps (exec_first max_alloc instructions vars ring globals table m (o, p))
  exec_first-Keeps m none p h = set_state-Kept finished p h
  exec_first-Keeps m (some tok) p h = exec_token-Keeps m p tok tok.payload h

  exec_instruction_line-Keeps :
      (m : M)
      → P m.program
      → Keeps (exec_instruction_line max_alloc instructions vars ring globals table m)
  unfolding exec_instruction_line
  exec_instruction_line-Keeps m h =
      exec_first-Keeps m (next_token max_alloc vars ring m.program).0 _
        (next_token-Kept max_alloc vars ring k m.program h)

  ran-Keeps :
      (m : M)
      → P m.program
      → Keeps (
          exec_instruction_line max_alloc instructions vars ring globals table m >>= λ n.
          done (finish_last max_alloc instructions vars ring globals table n))
  ran-Keeps m h =
      Always->>= (λ n. P n.program) (λ n. P n.program)
        (exec_instruction_line max_alloc instructions vars ring globals table m) _
        (exec_instruction_line-Keeps m h) (λ n a. set_state-Kept _ n.program a)

  exec_if_ready-Keeps :
      (s : State) (m : M)
      → P m.program
      → Keeps (exec_if_ready max_alloc instructions vars ring globals table s m)
  exec_if_ready-Keeps instruction_line m h = ran-Keeps m h
  exec_if_ready-Keeps last_line m h = ran-Keeps m h
  exec_if_ready-Keeps magic_line m h = h
  exec_if_ready-Keeps sleeping m h = h
  exec_if_ready-Keeps blocked m h = h
  exec_if_ready-Keeps finished m h = h

  tokenize-Keeps :
      (m : M) → P m.program → Keeps (tokenize max_alloc instructions vars ring globals table m)
  tokenize-Keeps m h =
      Always->>= P (λ n. P n.program) (tokenize_next_line instructions ring table m.program) _
        (tokenize_next_line-Keeps instructions ring table (Kept-Closed max_alloc vars ring k)
          m.program h)
        (λ p a. a)

  after_magic-Keeps :
      (s : State) (m : M)
      → P m.program
      → Keeps (after_magic max_alloc instructions vars ring globals table s m)
  after_magic-Keeps finished m h = h
  after_magic-Keeps magic_line m h = tokenize-Keeps m h
  after_magic-Keeps instruction_line m h = tokenize-Keeps m h
  after_magic-Keeps last_line m h = tokenize-Keeps m h
  after_magic-Keeps sleeping m h = tokenize-Keeps m h
  after_magic-Keeps blocked m h = tokenize-Keeps m h

  scan_line-Keeps :
      (s : State) (m : M)
      → P m.program
      → Keeps (scan_line max_alloc instructions vars ring globals table s m)
  scan_line-Keeps magic_line m h =
      let r = parse_magic m.program.reader in
      after_magic-Keeps r.state (record m { program = record m.program { reader = r } })
        ((Kept-Closed max_alloc vars ring k).reads m.program r
          (parse_magic-Advances m.program.reader) h)
  scan_line-Keeps instruction_line m h = tokenize-Keeps m h
  scan_line-Keeps last_line m h = h
  scan_line-Keeps sleeping m h = h
  scan_line-Keeps blocked m h = h
  scan_line-Keeps finished m h = h

  -- What is kept by each kind of change is kept by interpret_next_line.
  pub interpret_next_line-Keeps :
      (m : M)
      → P m.program
      → Keeps (interpret_next_line max_alloc instructions vars ring globals table m)
  unfolding interpret_next_line
  interpret_next_line-Keeps m h =
      Always->>= (λ n. P n.program) (λ n. P n.program)
        (scan_line max_alloc instructions vars ring globals table m.program.state m) _
        (scan_line-Keeps m.program.state m h) (λ n a. exec_if_ready-Keeps n.program.state n a)
