-- ===== src/Scanner/Lines/Printing.antt =====
-- PRINT, and the handlers of src/scanner.c together: what holds through reading forward and adding
-- tokens holds through them.
use simbly.Prelude.{
  ℕ, suc, refl, Bool, true, false, not, ◌||◌, [], Bytes, ◌==◌, if_both, length, Always,
}
use simbly.Program.{
  Reader, Program, Token, Instruction, load_sym, store_sym, set_sym, add_sym, sub_sym, mul_sym,
  div_sym, mod_sym, brgt_sym, brge_sym, brlt_sym, brle_sym, breq_sym, bra_sym, down_sym, up_sym,
  sleep_sym, print_sym, return_sym, string,
}
use simbly.Scanner.Chars.{flush_up_to_char, is_char}
use simbly.Scanner.Chars.Position.{Advances, Advances-trans, flush_up_to_char-Advances}
use simbly.Scanner.Lines.{
  read_string, is_eof, print_line, print_string, print_quote, print_handler, handler,
}
use simbly.Scanner.Lines.Forward.{read_string-Advances}
use simbly.Scanner.Lines.Keeps.{
  loadstore_handler-Keeps, set_handler-Keeps, primitive_op_handler-Keeps, branch_handler-Keeps,
  semaphore_handler-Keeps, sleep_handler-Keeps, print_arguments-Keeps,
}
use simbly.Scanner.Operand.Keeps.{same_place}
use simbly.Scanner.Tokens.Closed.{Closed, with_token}
use simbly.Voids.{RingBuffer}

module _ {VarTable : Type 0} (ring : RingBuffer Token) {P : Program VarTable ring.Buffer → Type 0}
    (c : Closed ring P) where
  open ring use {Buffer}

  line_from :
      (p : Program VarTable Buffer) (this_line : ℕ) (o : Reader × Bool)
      → Advances p.reader o.0
      → P p
      → Always P (print_line ring p this_line o)
  line_from p this_line (r, found) a h =
      let q : Program VarTable Buffer = record p { reader = r } in
      let k : P q = c.reads p r a h in
      if_both (Always P) (not found || not (this_line == r.line))
        (if_both (λ u. P (record p { reader = u })) (is_eof r.c)
          (same_place ring c q _ refl refl refl (λ e. e) k) k)
        (print_arguments-Keeps ring c (suc (suc (length r.unread))) q k)

  string_from :
      (p : Program VarTable Buffer) (this_line : ℕ) (o : Reader × Bytes × Bool)
      → Advances p.reader o.0
      → P p
      → Always P (print_string ring p this_line o)
  string_from p this_line (r, w, false) a h = c.reads p r a h
  string_from p this_line (r, w, true) a h =
      let q : Program VarTable Buffer = record p { reader = r } in
      with_token ring (Always P) q (string w) _ tt λ b.
        let s : Program VarTable Buffer = record q { translated_line = b } in
        line_from s this_line (flush_up_to_char r) (flush_up_to_char-Advances r)
          (c.tokens q b (c.reads p r a h))

  quote_from :
      (p : Program VarTable Buffer) (o : Reader × Bool)
      → Advances p.reader o.0
      → P p
      → Always P (print_quote ring p o)
  quote_from p (r, found) a h =
      if_both (Always P) (not found || not (is_char b'"' r.c))
        (same_place ring c (record p { reader = r }) _ refl refl refl (λ e. e) (c.reads p r a h))
        (string_from p r.line (read_string r.unread r [])
          (Advances-trans a (read_string-Advances r.unread r [] refl)) h)

  print_handler-Keeps : (p : Program VarTable Buffer) → P p → Always P (print_handler ring p)
  unfolding print_handler
  print_handler-Keeps p h =
      quote_from p (flush_up_to_char p.reader) (flush_up_to_char-Advances p.reader) h

  pub handler-Keeps :
      (code : Instruction) (p : Program VarTable Buffer) → P p → Always P (handler ring code p)
  unfolding handler
  handler-Keeps load_sym p h = loadstore_handler-Keeps ring c p h
  handler-Keeps store_sym p h = loadstore_handler-Keeps ring c p h
  handler-Keeps set_sym p h = set_handler-Keeps ring c p h
  handler-Keeps add_sym p h = primitive_op_handler-Keeps ring c p h
  handler-Keeps sub_sym p h = primitive_op_handler-Keeps ring c p h
  handler-Keeps mul_sym p h = primitive_op_handler-Keeps ring c p h
  handler-Keeps div_sym p h = primitive_op_handler-Keeps ring c p h
  handler-Keeps mod_sym p h = primitive_op_handler-Keeps ring c p h
  handler-Keeps brgt_sym p h = branch_handler-Keeps ring c brgt_sym p h
  handler-Keeps brge_sym p h = branch_handler-Keeps ring c brge_sym p h
  handler-Keeps brlt_sym p h = branch_handler-Keeps ring c brlt_sym p h
  handler-Keeps brle_sym p h = branch_handler-Keeps ring c brle_sym p h
  handler-Keeps breq_sym p h = branch_handler-Keeps ring c breq_sym p h
  handler-Keeps bra_sym p h = branch_handler-Keeps ring c bra_sym p h
  handler-Keeps down_sym p h = semaphore_handler-Keeps ring c p h
  handler-Keeps up_sym p h = semaphore_handler-Keeps ring c p h
  handler-Keeps sleep_sym p h = sleep_handler-Keeps ring c p h
  handler-Keeps print_sym p h = print_handler-Keeps p h
  handler-Keeps return_sym p h = h
