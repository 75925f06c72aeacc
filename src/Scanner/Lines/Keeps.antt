-- ===== src/Scanner/Lines/Keeps.antt =====
-- The arguments of an instruction and the handlers of src/scanner.c, but for PRINT: what holds through
-- reading forward and adding tokens holds through them.
use simbly.Prelude.{
  ℕ, zero, suc, refl, Bool, true, false, ◌&&◌, ◌||◌, ◌==◌, if_both, is_digit, Outcome, Always,
  Always->>=,
}
use simbly.Program.{Reader, Program, Token, Instruction, label}
use simbly.Scanner.Chars.{Flush, at_newline, line_not_empty, at_eof, get_next_word}
use simbly.Scanner.Chars.Position.{Advances, flush_up_to_newline-Advances, get_next_word-Advances}
use simbly.Scanner.Lines.{
  is_valid_label, is_eof, is_bra, and_then, argument, end_of_line_from, end_of_line,
  loadstore_handler, set_handler, primitive_op_handler, resume_instructions, branch_label_from,
  branch_label, branch_handler, semaphore_handler, sleep_handler, print_arguments, is_last_line,
}
use simbly.Scanner.Operand.{max_allowed_symbol_len, char_at, parse_varval_token}
use simbly.Scanner.Lines.Position.{is_valid_label-Advances}
use simbly.Scanner.Operand.Keeps.{KeepsWith, same_place, parse_varval_token-Keeps}
use simbly.Scanner.Tokens.Closed.{Closed, with_token}
use simbly.Voids.{RingBuffer}

module _ {VarTable : Type 0} (ring : RingBuffer Token) {P : Program VarTable ring.Buffer → Type 0}
    (c : Closed ring P) where
  open ring use {Buffer}

  and_then-Keeps :
      (m : Outcome (Program VarTable Buffer × Bool))
      (f : Program VarTable Buffer → Outcome (Program VarTable Buffer))
      → KeepsWith ring c m
      → ((p : Program VarTable Buffer) → P p → Always P (f p))
      → Always P (and_then ring m f)
  and_then-Keeps m f h k =
      Always->>= (λ o. P o.0) P m _ h λ (p, go_on) a. if_both (Always P) go_on (k p a) a

  -- What reading a word keeps, and a message behind it.
  pub word-Keeps :
      (this_line : Bool) (p : Program VarTable Buffer)
      → P p
      → P (record p { reader = (get_next_word max_allowed_symbol_len this_line p.reader).0 })
  word-Keeps this_line p h =
      c.reads p _ (get_next_word-Advances max_allowed_symbol_len this_line p.reader) h

  argument-Keeps :
      (variable : Bool) (p : Program VarTable Buffer)
      → P p
      → KeepsWith ring c (argument ring variable p)
  unfolding argument
  argument-Keeps variable p h =
      let (r, len) = get_next_word max_allowed_symbol_len true p.reader in
      let q : Program VarTable Buffer = record p { reader = r } in
      let k : P q = word-Keeps true p h in
      if_both (KeepsWith ring c) (len == 0) (same_place ring c q _ refl refl refl (λ e. e) k) (
        if_both (KeepsWith ring c)
          (variable && (char_at q.input 0 == b'-' || is_digit (char_at q.input 0)))
          (same_place ring c q _ refl refl refl (λ e. e) k) (parse_varval_token-Keeps ring c q k))

  end_from :
      (p : Program VarTable Buffer) (o : Reader × Flush)
      → Advances p.reader o.0
      → P p
      → P (end_of_line_from ring p o)
  end_from p (u, at_newline) a h = c.reads p u a h
  end_from p (u, line_not_empty) a h =
      same_place ring c (record p { reader = u }) _ refl refl refl (λ e. e) (c.reads p u a h)
  end_from p (u, at_eof) a h = c.reads p u a h

  end_of_line-Keeps : (p : Program VarTable Buffer) → P p → P (end_of_line ring p)
  unfolding end_of_line
  end_of_line-Keeps p h = end_from p _ (flush_up_to_newline-Advances p.reader) h

  -- A handler that reads arguments, the first of which may have to be a variable.
  argument_then :
      (variable : Bool) (p : Program VarTable Buffer)
      (f : Program VarTable Buffer → Outcome (Program VarTable Buffer))
      → P p
      → ((q : Program VarTable Buffer) → P q → Always P (f q))
      → Always P (and_then ring (argument ring variable p) f)
  argument_then variable p f h =
      and_then-Keeps (argument ring variable p) f (argument-Keeps variable p h)

  pub loadstore_handler-Keeps :
      (p : Program VarTable Buffer) → P p → Always P (loadstore_handler ring p)
  unfolding loadstore_handler
  loadstore_handler-Keeps p h =
      argument_then true p _ h λ q k. argument_then false q _ k end_of_line-Keeps

  pub set_handler-Keeps : (p : Program VarTable Buffer) → P p → Always P (set_handler ring p)
  unfolding set_handler
  set_handler-Keeps p h =
      argument_then true p _ h λ q k. argument_then false q _ k end_of_line-Keeps

  pub primitive_op_handler-Keeps :
      (p : Program VarTable Buffer) → P p → Always P (primitive_op_handler ring p)
  unfolding primitive_op_handler
  primitive_op_handler-Keeps p h =
      argument_then true p _ h
        λ q k. argument_then false q _ k λ s l. argument_then false s _ l end_of_line-Keeps

  pub semaphore_handler-Keeps :
      (p : Program VarTable Buffer) → P p → Always P (semaphore_handler ring p)
  unfolding semaphore_handler
  semaphore_handler-Keeps p h = argument_then true p _ h end_of_line-Keeps

  pub sleep_handler-Keeps : (p : Program VarTable Buffer) → P p → Always P (sleep_handler ring p)
  unfolding sleep_handler
  sleep_handler-Keeps p h = argument_then false p _ h end_of_line-Keeps

  resume-Keeps : (p : Program VarTable Buffer) → P p → P (resume_instructions ring p)
  resume-Keeps p h =
      if_both P (is_eof p.c || is_last_line p.state)
        (same_place ring c p _ refl refl refl (λ e. e) h) h

  label_from :
      (p : Program VarTable Buffer) (o : Reader × Bool)
      → Advances p.reader o.0
      → P p
      → Always P (branch_label_from ring p o)
  label_from p (r, false) a h =
      same_place ring c (record p { reader = r }) _ refl refl refl (λ e. e) (c.reads p r a h)
  label_from p (r, true) a h =
      let q : Program VarTable Buffer = record p { reader = r } in
      with_token ring (Always P) q (label r.input r.offset) _ tt
        λ b. resume-Keeps _ (end_of_line-Keeps _ (c.tokens q b (c.reads p r a h)))

  branch_label-Keeps : (p : Program VarTable Buffer) → P p → Always P (branch_label ring p)
  unfolding branch_label
  branch_label-Keeps p h =
      let (r, len) = get_next_word max_allowed_symbol_len true p.reader in
      label_from (record p { reader = r }) (is_valid_label r len) (is_valid_label-Advances r len)
        (word-Keeps true p h)

  pub branch_handler-Keeps :
      (code : Instruction) (p : Program VarTable Buffer)
      → P p
      → Always P (branch_handler ring code p)
  unfolding branch_handler
  branch_handler-Keeps code p h =
      if_both (Always P) (is_bra code) (branch_label-Keeps p h)
        (argument_then false p _ h λ q k. argument_then false q _ k branch_label-Keeps)

  pub print_arguments-Keeps :
      (fuel : ℕ) (p : Program VarTable Buffer) → P p → Always P (print_arguments ring fuel p)
  unfolding print_arguments
  print_arguments-Keeps zero p h = h
  print_arguments-Keeps (suc fuel) p h =
      let (r, len) = get_next_word max_allowed_symbol_len true p.reader in
      let q : Program VarTable Buffer = record p { reader = r } in
      let k : P q = word-Keeps true p h in
      if_both (Always P) (len == 0) k (
        and_then-Keeps (parse_varval_token ring q) (λ q. print_arguments ring fuel q)
          (parse_varval_token-Keeps ring c q k) (print_arguments-Keeps fuel))
