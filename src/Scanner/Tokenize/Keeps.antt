-- ===== src/Scanner/Tokenize/Keeps.antt =====
-- tokenize_next_line: what holds through reading forward and adding tokens holds through a whole line.
use simbly.Prelude.{
  ℕ, refl, Bool, true, false, Option, none, some, ◌==◌, if◌then◌else◌, if_both, Always,
}
use simbly.Program.{
  Reader, Program, Token, State, magic_line, instruction_line, last_line, sleeping, blocked,
  finished, Instruction, label, instruction, stop_with, label_without_instruction,
}
use simbly.Scanner.Chars.{get_next_word}
use simbly.Scanner.Chars.Position.{Advances, Advances-trans, get_next_word-Advances}
use simbly.Scanner.Lines.{is_valid_label, handler}
use simbly.Scanner.Lines.Keeps.{word-Keeps}
use simbly.Scanner.Lines.Printing.{handler-Keeps}
use simbly.Scanner.Lines.Position.{is_valid_label-Advances}
use simbly.Scanner.Operand.{max_allowed_symbol_len}
use simbly.Scanner.Operand.Keeps.{same_place}
use simbly.Scanner.Tokens.Closed.{Closed, with_token}
use simbly.Scanner.Tokenize.{
  call_found, call_instruction_handler, call_unless_finished, after_label, tokenize_word,
  tokenize_next_line,
}
use simbly.Voids.{HashTable, RingBuffer}

module _ {VarTable : Type 0} (instructions : HashTable Instruction) (ring : RingBuffer Token)
    (table : instructions.Table) {P : Program VarTable ring.Buffer → Type 0}
    (c : Closed ring P) where
  open instructions use {Table, find}
  open ring use {Buffer}

  found-Keeps :
      (p : Program VarTable Buffer) (o : Option Instruction)
      → P p
      → Always P (call_found instructions ring table p o)
  found-Keeps p none h = same_place ring c p _ refl refl refl (λ e. e) h
  found-Keeps p (some code) h =
      with_token ring (Always P) p (instruction code) (handler ring code) tt
        λ b. handler-Keeps ring c code _ (c.tokens p b h)

  call-Keeps :
      (p : Program VarTable Buffer) (len : ℕ)
      → P p
      → Always P (call_instruction_handler instructions ring table p len)
  unfolding call_instruction_handler
  call-Keeps p len h = if_both (Always P) (len == 0) h (found-Keeps p (find table p.input) h)

  unless-Keeps :
      (s : State) (p : Program VarTable Buffer) (len : ℕ)
      → P p
      → Always P (call_unless_finished instructions ring table s p len)
  unless-Keeps finished p len h = h
  unless-Keeps magic_line p len h = call-Keeps p len h
  unless-Keeps instruction_line p len h = call-Keeps p len h
  unless-Keeps last_line p len h = call-Keeps p len h
  unless-Keeps sleeping p len h = call-Keeps p len h
  unless-Keeps blocked p len h = call-Keeps p len h

  after_label-Keeps :
      (p : Program VarTable Buffer) → P p → Always P (after_label instructions ring table p)
  after_label-Keeps p h =
      let (r, len) = get_next_word max_allowed_symbol_len true p.reader in
      let q : Program VarTable Buffer = record p { reader = r } in
      let k : P q = word-Keeps ring c true p h in
      let r' = if len == 0 then stop_with label_without_instruction r else r in
      unless-Keeps r'.state (record p { reader = r' }) len
        (if_both (λ u. P (record p { reader = u })) (len == 0)
          (same_place ring c q _ refl refl refl (λ e. e) k) k)

  pub tokenize_word-Keeps :
      (p : Program VarTable Buffer) (len : ℕ) (o : Reader × Bool)
      → Advances p.reader o.0
      → P p
      → Always P (tokenize_word instructions ring table p len o)
  tokenize_word-Keeps p len (r, true) a h =
      let q : Program VarTable Buffer = record p { reader = r } in
      with_token ring (Always P) q (label r.input r.offset) (after_label instructions ring table) tt
        λ b. after_label-Keeps _ (c.tokens q b (c.reads p r a h))
  tokenize_word-Keeps p len (r, false) a h =
      unless-Keeps r.state (record p { reader = r }) len (c.reads p r a h)

  -- The scanner only reads forward and adds tokens.
  pub tokenize_next_line-Keeps :
      (p : Program VarTable Buffer) → P p → Always P (tokenize_next_line instructions ring table p)
  unfolding tokenize_next_line
  tokenize_next_line-Keeps p h =
      let (r, len) = get_next_word max_allowed_symbol_len false p.reader in
      tokenize_word-Keeps p len (is_valid_label r len)
        (Advances-trans (get_next_word-Advances max_allowed_symbol_len false p.reader)
          (is_valid_label-Advances r len))
        h
