-- ===== src/Scanner/Tokenize.antt =====
-- The instruction table (lexer_init), call_instruction_handler and tokenize_next_line of
-- src/scanner.c.
pub mod Table
pub mod Position
pub mod Keeps
pub mod Progress
pub mod Typed
use simbly.Prelude.{
  ℕ, Bool, true, false, Option, none, some, List, [], ◌∷◌, Bytes, codes, ◌==◌, if◌then◌else◌,
  Outcome, done, fatal, ◌>>=◌,
}
use simbly.Program.{
  Reader, Program, Token, State, finished, stop_with, Instruction, load_sym, store_sym, set_sym,
  add_sym, sub_sym, mul_sym, div_sym, mod_sym, brgt_sym, brge_sym, brlt_sym, brle_sym, breq_sym,
  bra_sym, down_sym, up_sym, sleep_sym, print_sym, return_sym, label, instruction,
  unrecognized_instruction, label_without_instruction,
}
use simbly.Scanner.Chars.{get_next_word}
use simbly.Scanner.Tokens.{add_new_token}
use simbly.Scanner.Operand.{max_allowed_symbol_len}
use simbly.Scanner.Lines.{is_valid_label, handler}
use simbly.Voids.{HashTable, RingBuffer}

-- instruction_array; its handlers are `handler`.
abbrev pub instruction_array : List (Bytes × Instruction)
instruction_array =
    (codes "LOAD", load_sym)
    ∷ (codes "STORE", store_sym)
    ∷ (codes "SET", set_sym)
    ∷ (codes "ADD", add_sym)
    ∷ (codes "SUB", sub_sym)
    ∷ (codes "MUL", mul_sym)
    ∷ (codes "DIV", div_sym)
    ∷ (codes "MOD", mod_sym)
    ∷ (codes "BRGT", brgt_sym)
    ∷ (codes "BRGE", brge_sym)
    ∷ (codes "BRLT", brlt_sym)
    ∷ (codes "BRLE", brle_sym)
    ∷ (codes "BREQ", breq_sym)
    ∷ (codes "BRA", bra_sym)
    ∷ (codes "DOWN", down_sym)
    ∷ (codes "UP", up_sym)
    ∷ (codes "SLEEP", sleep_sym)
    ∷ (codes "PRINT", print_sym)
    ∷ (codes "RETURN", return_sym)
    ∷ []

module _ (instructions : HashTable Instruction) where
  open instructions use {Table, init, find, insert}

  -- The loop of lexer_init: VDS ends the process where an insertion does not succeed.
  unfoldable pub insert_all : List (Bytes × Instruction) → Table → Outcome Table
  insert_all [] t = done t
  insert_all ((name, code) ∷ rest) t =
      let (t', success) = insert t name code in
      let more = insert_all rest t' in if success then more else fatal

  unfoldable pub lexer_init : Outcome Table
  unfolding insert_all
  lexer_init = insert_all instruction_array init

  module _ {VarTable : Type 0} (ring : RingBuffer Token) (table : Table) where
    open ring use {Buffer}

    abbrev pub call_found :
        Program VarTable Buffer → Option Instruction → Outcome (Program VarTable Buffer)
    call_found p none = done (record p { reader = stop_with unrecognized_instruction p.reader })
    call_found p (some code) = add_new_token ring p (instruction code) >>= λ q. handler ring code q

    -- call_instruction_handler, on the word of length `len` in `input`.
    unfoldable pub call_instruction_handler :
        Program VarTable Buffer → ℕ → Outcome (Program VarTable Buffer)
    unfolding add_new_token handler
    call_instruction_handler p len = if len == 0 then done p else call_found p (find table p.input)

    abbrev pub call_unless_finished :
        State → Program VarTable Buffer → ℕ → Outcome (Program VarTable Buffer)
    call_unless_finished finished p len = done p
    call_unless_finished _ p len = call_instruction_handler p len

    -- The second word of a line with a label.
    abbrev pub after_label : Program VarTable Buffer → Outcome (Program VarTable Buffer)
    after_label p =
        let (r, len) = get_next_word max_allowed_symbol_len true p.reader in
        let r' = if len == 0 then stop_with label_without_instruction r else r in
        call_unless_finished r'.state (record p { reader = r' }) len

    abbrev pub tokenize_word :
        Program VarTable Buffer → ℕ → Reader × Bool → Outcome (Program VarTable Buffer)
    tokenize_word p len (r, true) =
        add_new_token ring (record p { reader = r }) (label r.input r.offset) >>= after_label
    tokenize_word p len (r, false) = call_unless_finished r.state (record p { reader = r }) len

    unfoldable pub tokenize_next_line : Program VarTable Buffer → Outcome (Program VarTable Buffer)
    unfolding get_next_word is_valid_label add_new_token call_instruction_handler
    tokenize_next_line p =
        let (r, len) = get_next_word max_allowed_symbol_len false p.reader in
        tokenize_word p len (is_valid_label r len)
