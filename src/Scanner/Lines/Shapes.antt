-- ===== src/Scanner/Lines/Shapes.antt =====
-- What the handlers of src/scanner.c, but for PRINT, leave in the buffer: the tokens of their instructions,
-- or a program that has been stopped.
use simbly.Prelude.{
  ◌≡◌, refl, ◌⊎◌, inl, inr, Bool, true, false, ◌||◌, ◌&&◌, ◌==◌, [], ◌∷◌, ◌++◌, List, is_digit,
  if_both, if◌then◌else◌, Outcome, done, Always, Always->>=,
}
use simbly.Program.{Reader, Program, Token, bra_sym, label, finished}
use simbly.Scanner.Chars.{
  flush_up_to_newline, Flush, at_newline, line_not_empty, at_eof, get_next_word,
}
use simbly.Scanner.Lines.{
  is_valid_label, and_then, argument, end_of_line_from, end_of_line, loadstore_handler, set_handler,
  primitive_op_handler, resume_instructions, branch_label_from, branch_label, branch_handler,
  is_eof, is_last_line,
}
use simbly.Scanner.Operand.{char_at, max_allowed_symbol_len}
use simbly.Scanner.Operand.Adds.{Went, parse_varval_token-Went}
use simbly.Scanner.Tokens.Kinds.{Kind, a_label, an_operand, after, Has, more_token}
use simbly.Voids.{RingBuffer}

module _ {VarTable : Type 0} (ring : RingBuffer Token) where
  open ring use {Buffer}

  -- The program has been stopped, or it has tokens of these types behind those it had.
  abbrev pub Leaves : (List Kind → Type 0) → List Kind → Program VarTable Buffer → Type 0
  Leaves F ks q = (q.state ≡ finished) ⊎ ((ts : List Kind) × F ts × Has ring (after ks ts) q)

  pub and_then-Leaves :
      (R : Program VarTable Buffer → Type 0) (ks : List Kind)
      (m : Outcome (Program VarTable Buffer × Bool))
      (f : Program VarTable Buffer → Outcome (Program VarTable Buffer))
      → Always (Went ring ks) m
      → ((q : Program VarTable Buffer) → q.state ≡ finished → R q)
      → ((q : Program VarTable Buffer) → Has ring ks q → Always R (f q))
      → Always R (and_then ring m f)
  and_then-Leaves R ks m f h stop go = Always->>= (Went ring ks) R m _ h step
    where
      step :
          (o : Program VarTable Buffer × Bool)
          → Went ring ks o
          → Always R (if o.1 then f o.0 else done o.0)
      step (q, true) k = go q k
      step (q, false) k = stop q k

  argument-Went :
      (ks : List Kind) (variable : Bool) (p : Program VarTable Buffer)
      → Has ring ks p
      → Always (Went ring (ks ++ (an_operand ∷ []))) (argument ring variable p)
  unfolding argument
  argument-Went ks variable p h =
      let (r, len) = get_next_word max_allowed_symbol_len true p.reader in
      let q : Program VarTable Buffer = record p { reader = r } in
      let all = Always (Went ring (ks ++ (an_operand ∷ []))) in
      if_both all (len == 0) refl (
        if_both all (variable && (char_at q.input 0 == b'-' || is_digit (char_at q.input 0))) refl
          (parse_varval_token-Went ring ks q h))

  -- One argument more, and what follows it.
  argument_then :
      (F : List Kind → Type 0) (ks ls : List Kind) (variable : Bool) (p : Program VarTable Buffer)
      (f : Program VarTable Buffer → Outcome (Program VarTable Buffer))
      → Has ring ks p
      → ((q : Program VarTable Buffer)
          → Has ring (ks ++ (an_operand ∷ [])) q
          → Always (Leaves F ls) (f q))
      → Always (Leaves F ls) (and_then ring (argument ring variable p) f)
  argument_then F ks ls variable p f h =
      and_then-Leaves (Leaves F ls) (ks ++ (an_operand ∷ [])) (argument ring variable p) f
        (argument-Went ks variable p h) (λ q e. inl e)

  end_from :
      (ks : List Kind) (p : Program VarTable Buffer) (o : Reader × Flush)
      → Has ring ks p
      → Has ring ks (end_of_line_from ring p o)
  end_from ks p (u, at_newline) h = h
  end_from ks p (u, line_not_empty) h = h
  end_from ks p (u, at_eof) h = h

  end_of_line-Has :
      (ks : List Kind) (p : Program VarTable Buffer)
      → Has ring ks p
      → Has ring ks (end_of_line ring p)
  unfolding end_of_line
  end_of_line-Has ks p h = end_from ks p (flush_up_to_newline p.reader) h

  resume-Has :
      (ks : List Kind) (p : Program VarTable Buffer)
      → Has ring ks p
      → Has ring ks (resume_instructions ring p)
  resume-Has ks p h = if_both (Has ring ks) (is_eof p.c || is_last_line p.state) h h

  pub two_operands :
      (F : List Kind → Type 0) (ks : List Kind) (p : Program VarTable Buffer)
      → F (an_operand ∷ an_operand ∷ [])
      → Has ring ks p
      → Always (Leaves F ks) (loadstore_handler ring p)
  unfolding loadstore_handler
  two_operands F ks p f h = argument_then F ks ks true p _ h λ q a.
      argument_then F (ks ++ (an_operand ∷ [])) ks false q _ a
        λ r b. inr (an_operand ∷ an_operand ∷ [], f, end_of_line-Has _ r b)

  pub set_operands :
      (F : List Kind → Type 0) (ks : List Kind) (p : Program VarTable Buffer)
      → F (an_operand ∷ an_operand ∷ [])
      → Has ring ks p
      → Always (Leaves F ks) (set_handler ring p)
  unfolding set_handler
  set_operands F ks p f h = argument_then F ks ks true p _ h λ q a.
      argument_then F (ks ++ (an_operand ∷ [])) ks false q _ a
        λ r b. inr (an_operand ∷ an_operand ∷ [], f, end_of_line-Has _ r b)

  pub three_operands :
      (F : List Kind → Type 0) (ks : List Kind) (p : Program VarTable Buffer)
      → F (an_operand ∷ an_operand ∷ an_operand ∷ [])
      → Has ring ks p
      → Always (Leaves F ks) (primitive_op_handler ring p)
  unfolding primitive_op_handler
  three_operands F ks p f h = argument_then F ks ks true p _ h λ q a.
      argument_then F (ks ++ (an_operand ∷ [])) ks false q _ a λ r b.
        argument_then F ((ks ++ (an_operand ∷ [])) ++ (an_operand ∷ [])) ks false r _ b
          λ s c. inr (an_operand ∷ an_operand ∷ an_operand ∷ [], f, end_of_line-Has _ s c)

  pub one_operand :
      (F : List Kind → Type 0) (ks : List Kind) (variable : Bool) (p : Program VarTable Buffer)
      → F (an_operand ∷ [])
      → Has ring ks p
      → Always
          (Leaves F ks)
          (and_then ring (argument ring variable p) λ q. done (end_of_line ring q))
  one_operand F ks variable p f h =
      argument_then F ks ks variable p _ h λ q a. inr (an_operand ∷ [], f, end_of_line-Has _ q a)

  label_from :
      (F : List Kind → Type 0) (ks pre : List Kind) (ts : List Kind) (p : Program VarTable Buffer)
      (o : Reader × Bool)
      → F ts
      → after ks ts ≡ pre ++ (a_label ∷ [])
      → Has ring pre p
      → Always (Leaves F ks) (branch_label_from ring (record p { reader = o.0 }) o)
  label_from F ks pre ts p (r, false) f e h = inl refl
  label_from F ks pre ts p (r, true) f e h =
      more_token ring (Always (Leaves F ks)) pre (record p { reader = r }) (label r.input r.offset)
        _ h tt λ b k. inr (ts, f, rw e (resume-Has _ _ (end_of_line-Has _ _ k)))

  branch_label-Leaves :
      (F : List Kind → Type 0) (ks pre ts : List Kind) (p : Program VarTable Buffer)
      → F ts
      → after ks ts ≡ pre ++ (a_label ∷ [])
      → Has ring pre p
      → Always (Leaves F ks) (branch_label ring p)
  unfolding branch_label
  branch_label-Leaves F ks pre ts p f e h =
      let (r, len) = get_next_word max_allowed_symbol_len true p.reader in
      label_from F ks pre ts (record p { reader = r }) (is_valid_label r len) f e h

  pub bra_label :
      (F : List Kind → Type 0) (ks : List Kind) (p : Program VarTable Buffer)
      → F (a_label ∷ [])
      → Has ring ks p
      → Always (Leaves F ks) (branch_handler ring bra_sym p)
  unfolding branch_handler
  bra_label F ks p f h = branch_label-Leaves F ks ks (a_label ∷ []) p f refl h

  -- A branch that compares.
  pub compared_label :
      (F : List Kind → Type 0) (ks : List Kind) (p : Program VarTable Buffer)
      → F (an_operand ∷ an_operand ∷ a_label ∷ [])
      → Has ring ks p
      → Always (Leaves F ks) (
          and_then ring
            (argument ring false p)
            λ q. and_then ring (argument ring false q) (branch_label ring))
  compared_label F ks p f h = argument_then F ks ks false p _ h λ q a.
      argument_then F (ks ++ (an_operand ∷ [])) ks false q _ a λ r b.
        branch_label-Leaves F ks ((ks ++ (an_operand ∷ [])) ++ (an_operand ∷ []))
          (an_operand ∷ an_operand ∷ a_label ∷ []) r f refl b
