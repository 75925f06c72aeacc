-- ===== src/Scanner/Lines/Typed.antt =====
-- What PRINT, and each handler of src/scanner.c, leaves in the buffer: the tokens of its instruction, or a
-- program that has been stopped.
use simbly.Prelude.{
  ℕ, zero, suc, ◌≡◌, refl, ◌⊎◌, inl, inr, Bool, true, false, not, ◌||◌, ◌==◌, none, some, [], ◌∷◌,
  ◌++◌, List, Bytes, length, leb, is_print, is_space, replicate, if_both, if◌then◌else◌, Always,
  Always-map,
}
use simbly.Program.{
  Reader, Program, Token, Instruction, load_sym, store_sym, set_sym, add_sym, sub_sym, mul_sym,
  div_sym, mod_sym, brgt_sym, brge_sym, brlt_sym, brle_sym, breq_sym, bra_sym, down_sym, up_sym,
  sleep_sym, print_sym, return_sym, string, finished, stop_with, print_eof, string_no_space,
}
use simbly.Scanner.Chars.{read_byte, next_char, flush_up_to_char, get_next_word, is_char}
use simbly.Scanner.Lines.{
  max_input_str_len, string_end, read_string, branch_handler, semaphore_handler, sleep_handler,
  print_arguments, print_line, print_string, print_quote, print_handler, handler, is_eof,
}
use simbly.Scanner.Operand.{max_allowed_symbol_len, parse_varval_token}
use simbly.Scanner.Operand.Adds.{parse_varval_token-Went}
use simbly.Scanner.Tokens.Kinds.{Kind, an_operand, a_string, Fits, after, Has, more_token}
use simbly.Voids.{RingBuffer}
use simbly.Scanner.Lines.Shapes.{
  Leaves, and_then-Leaves, two_operands, set_operands, three_operands, one_operand, bra_label,
  compared_label,
}

-- A string that is not closed as it is to be stops the program.
abbrev Ends : Reader × Bytes × Bool → Type 0
Ends (r, w, true) = Unit
Ends (r, w, false) = r.state ≡ finished

string_end-Ends : (r : Reader) (w : Bytes) → Ends (string_end r w)
string_end-Ends r w =
    let u = next_char (record r { input = w }) in
    elim u.c
      as (λ c. Ends (elim c as (λ _. Reader × Bytes × Bool) [
        | none ↦ (stop_with print_eof u, w, false)
        | some b ↦ if is_space b then (u, w, true) else (stop_with string_no_space u, w, false)
      ])) [ none ↦ refl | some b ↦ if_both Ends (is_space b) tt refl ]

read_string-Ends : (bs : Bytes) (r : Reader) (w : Bytes) → Ends (read_string bs r w)
unfolding read_string
read_string-Ends [] r w = refl
read_string-Ends (b ∷ bs) r w = if_both Ends (leb max_input_str_len (length w)) refl (
    if_both Ends (not (is_print b)) refl (
      if_both Ends (b == b'"') (string_end-Ends (read_byte (b ∷ bs) r) w)
        (read_string-Ends bs (read_byte (b ∷ bs) r) (w ++ b ∷ []))))

module _ {VarTable : Type 0} (ring : RingBuffer Token) where
  open ring use {Buffer}

  abbrev Printed : List Kind → Program VarTable Buffer → Type 0
  Printed ks q = (q.state ≡ finished) ⊎ ((n : ℕ) × Has ring (after ks (replicate n an_operand)) q)

  print_arguments-Printed :
      (fuel : ℕ) (ks : List Kind) (p : Program VarTable Buffer)
      → Has ring ks p
      → Always (Printed ks) (print_arguments ring fuel p)
  unfolding print_arguments
  print_arguments-Printed zero ks p h = inr (0, h)
  print_arguments-Printed (suc fuel) ks p h =
      let (r, len) = get_next_word max_allowed_symbol_len true p.reader in
      let q : Program VarTable Buffer = record p { reader = r } in
      if_both (Always (Printed ks)) (len == 0) (inr (0, h)) (
        and_then-Leaves ring (Printed ks) (ks ++ (an_operand ∷ [])) (parse_varval_token ring q)
          (print_arguments ring fuel) (parse_varval_token-Went ring ks q h) (λ s e. inl e)
          λ s k.
            Always-map (Printed (ks ++ (an_operand ∷ []))) (Printed ks)
              (print_arguments ring fuel s)
              (print_arguments-Printed fuel (ks ++ (an_operand ∷ [])) s k) one_more)
    where
      one_more : (q : Program VarTable Buffer) → Printed (ks ++ (an_operand ∷ [])) q → Printed ks q
      one_more q (inl e) = inl e
      one_more q (inr (n, e)) = inr (suc n, e)

  line_from :
      (ks : List Kind) (p : Program VarTable Buffer) (this_line : ℕ) (o : Reader × Bool)
      → Has ring ks p
      → Always (Printed ks) (print_line ring p this_line o)
  line_from ks p this_line (r, found) h =
      if_both (Always (Printed ks)) (not found || not (this_line == r.line))
        (if_both (λ u. Printed ks (record p { reader = u })) (is_eof r.c) (inr (0, h)) (inr (0, h)))
        (print_arguments-Printed (suc (suc (length r.unread))) ks (record p { reader = r }) h)

  string_from :
      (ks : List Kind) (p : Program VarTable Buffer) (this_line : ℕ) (o : Reader × Bytes × Bool)
      → Ends o
      → Has ring ks p
      → Always (Leaves ring (Fits print_sym) ks) (print_string ring p this_line o)
  string_from ks p this_line (r, w, false) e h = inl e
  string_from ks p this_line (r, w, true) e h =
      more_token ring (Always (Leaves ring (Fits print_sym) ks)) ks (record p { reader = r })
        (string w) _ h tt
        λ b k.
          Always-map (Printed (ks ++ (a_string ∷ []))) (Leaves ring (Fits print_sym) ks) _
            (line_from (ks ++ (a_string ∷ [])) (record p { reader = r; translated_line = b })
              this_line (flush_up_to_char r) k)
            put
    where
      put :
          (q : Program VarTable Buffer)
          → Printed (ks ++ (a_string ∷ [])) q
          → Leaves ring (Fits print_sym) ks q
      put q (inl e) = inl e
      put q (inr (n, e)) = inr (a_string ∷ replicate n an_operand, (n, refl), e)

  quote_from :
      (ks : List Kind) (p : Program VarTable Buffer) (o : Reader × Bool)
      → Has ring ks p
      → Always (Leaves ring (Fits print_sym) ks) (print_quote ring p o)
  quote_from ks p (r, found) h =
      if_both (Always (Leaves ring (Fits print_sym) ks)) (not found || not (is_char b'"' r.c))
        (inl refl)
        (string_from ks p r.line (read_string r.unread r []) (read_string-Ends r.unread r []) h)

  print_handler-Leaves :
      (ks : List Kind) (p : Program VarTable Buffer)
      → Has ring ks p
      → Always (Leaves ring (Fits print_sym) ks) (print_handler ring p)
  unfolding print_handler
  print_handler-Leaves ks p h = quote_from ks p (flush_up_to_char p.reader) h

  -- Every handler leaves the tokens of its instruction, or a program that has been stopped.
  pub handler-Leaves :
      (code : Instruction) (ks : List Kind) (p : Program VarTable Buffer)
      → Has ring ks p
      → Always (Leaves ring (Fits code) ks) (handler ring code p)
  unfolding handler branch_handler semaphore_handler sleep_handler
  handler-Leaves load_sym ks p h = two_operands ring (Fits load_sym) ks p refl h
  handler-Leaves store_sym ks p h = two_operands ring (Fits store_sym) ks p refl h
  handler-Leaves set_sym ks p h = set_operands ring (Fits set_sym) ks p refl h
  handler-Leaves add_sym ks p h = three_operands ring (Fits add_sym) ks p refl h
  handler-Leaves sub_sym ks p h = three_operands ring (Fits sub_sym) ks p refl h
  handler-Leaves mul_sym ks p h = three_operands ring (Fits mul_sym) ks p refl h
  handler-Leaves div_sym ks p h = three_operands ring (Fits div_sym) ks p refl h
  handler-Leaves mod_sym ks p h = three_operands ring (Fits mod_sym) ks p refl h
  handler-Leaves brgt_sym ks p h = compared_label ring (Fits brgt_sym) ks p refl h
  handler-Leaves brge_sym ks p h = compared_label ring (Fits brge_sym) ks p refl h
  handler-Leaves brlt_sym ks p h = compared_label ring (Fits brlt_sym) ks p refl h
  handler-Leaves brle_sym ks p h = compared_label ring (Fits brle_sym) ks p refl h
  handler-Leaves breq_sym ks p h = compared_label ring (Fits breq_sym) ks p refl h
  handler-Leaves bra_sym ks p h = bra_label ring (Fits bra_sym) ks p refl h
  handler-Leaves down_sym ks p h = one_operand ring (Fits down_sym) ks true p refl h
  handler-Leaves up_sym ks p h = one_operand ring (Fits up_sym) ks true p refl h
  handler-Leaves sleep_sym ks p h = one_operand ring (Fits sleep_sym) ks false p refl h
  handler-Leaves print_sym ks p h = print_handler-Leaves ks p h
  handler-Leaves return_sym ks p h = inr ([], refl, h)
