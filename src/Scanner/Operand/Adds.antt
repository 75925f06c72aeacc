-- ===== src/Scanner/Operand/Adds.antt =====
-- parse_varval_token adds one operand where it returns 1, and stops the program where it returns 0.
use simbly.Prelude.{
  ℕ, suc, ◌≡◌, Bool, true, false, not, ◌||◌, ◌==◌, [], ◌∷◌, ◌++◌, List, Bytes, drop, length,
  is_alpha, is_digit, if_both, Outcome, done, fatal, undefined, Always, Always->>=,
}
use simbly.Program.{Program, Token, Operand, int_val, int_var, int_arr, operand, finished}
use simbly.Scanner.Operand.{
  char_at, NameEnd, at_stop, at_bracket, bad_char, too_long, Scan, scan_name, scan_number, Index,
  parse_index, parse_varval_token, atoi, word_name, word_number, word_array, add_operand,
  closing_brackets,
}
use simbly.Scanner.Operand.Refusal.{Settles, parse_varval_token-Settles}
use simbly.Scanner.Tokens.Kinds.{Kind, an_operand, Has, more_token}
use simbly.Voids.{RingBuffer}

module _ {VarTable : Type 0} (ring : RingBuffer Token) where
  open ring use {Buffer}

  -- A call that goes on leaves these tokens, and one that does not has stopped the program.
  abbrev pub Went : List Kind → Program VarTable Buffer × Bool → Type 0
  Went ks (q, true) = Has ring ks q
  Went ks (q, false) = q.state ≡ finished

  -- A call that goes on leaves these tokens.
  abbrev Adds : List Kind → Program VarTable Buffer × Bool → Type 0
  Adds ks (q, true) = Has ring ks q
  Adds ks (q, false) = Unit

  add_operand-Adds :
      (ks : List Kind) (p : Program VarTable Buffer) (o : Operand)
      → Has ring ks p
      → Always (Adds (ks ++ (an_operand ∷ []))) (add_operand ring p o true)
  add_operand-Adds ks p o h =
      more_token ring (Always (Adds (ks ++ (an_operand ∷ [])))) ks p (operand o)
        (λ q. done (q, true)) h tt (λ b k. k)

  word_array-Adds :
      (ks : List Kind) (p : Program VarTable Buffer) (name rest : Bytes) (i : Index)
      → Has ring ks p
      → Always (Adds (ks ++ (an_operand ∷ []))) (word_array ring p name rest i)
  word_array-Adds ks p name rest i h =
      let all = Always (Adds (ks ++ (an_operand ∷ []))) in
      Always->>= (λ o. Has ring (ks ++ (an_operand ∷ [])) o.0) (Adds (ks ++ (an_operand ∷ [])))
        (add_operand ring p (int_arr name i.idx) true) _
        (more_token ring (Always λ o. Has ring (ks ++ (an_operand ∷ [])) o.0) ks p
          (operand (int_arr name i.idx)) (λ q. done (q, true)) h tt (λ b k. k))
        λ (q, _) k.
          if_both all (not i.success) tt (if_both all (closing_brackets rest == i.depth) k tt)

  word_number-Adds :
      (ks : List Kind) (p : Program VarTable Buffer) (e : NameEnd)
      → Has ring ks p
      → Always (Adds (ks ++ (an_operand ∷ []))) (word_number ring p e)
  word_number-Adds ks p at_stop h = add_operand-Adds ks p (int_val (atoi p.input)) h
  word_number-Adds ks p at_bracket h = tt
  word_number-Adds ks p bad_char h = tt
  word_number-Adds ks p too_long h = tt

  word_name-Adds :
      (ks : List Kind) (p : Program VarTable Buffer) (first : ℕ) (s : Scan)
      → Has ring ks p
      → Always (Adds (ks ++ (an_operand ∷ []))) (word_name ring p first s)
  word_name-Adds ks p first (w, rest, at_stop) h = add_operand-Adds ks p (int_var (first ∷ w)) h
  word_name-Adds ks p first (w, rest, at_bracket) h =
      word_array-Adds ks p (first ∷ w) (drop 1 rest)
        (parse_index (suc (length rest)) (drop 1 rest) 1 p.reader) h
  word_name-Adds ks p first (w, rest, bad_char) h = tt
  word_name-Adds ks p first (w, rest, too_long) h = tt

  parse_varval_token-Adds :
      (ks : List Kind) (p : Program VarTable Buffer)
      → Has ring ks p
      → Always (Adds (ks ++ (an_operand ∷ []))) (parse_varval_token ring p)
  unfolding parse_varval_token
  parse_varval_token-Adds ks p h =
      let all = Always (Adds (ks ++ (an_operand ∷ []))) in
      if_both all (char_at p.input 0 == b'$')
        (if_both all (is_alpha (char_at p.input 1))
          (word_name-Adds ks p (char_at p.input 1) (scan_name 0 0 (drop 2 p.input)) h) tt)
        (if_both all (char_at p.input 0 == b'-' || is_digit (char_at p.input 0))
          (word_number-Adds ks p (scan_number 0 1 (drop 1 p.input)) h) tt)

  both :
      (ks : List Kind) (p : Program VarTable Buffer) (o : Outcome (Program VarTable Buffer × Bool))
      → Settles ring p o
      → Always (Adds ks) o
      → Always (Went ks) o
  both ks p (done (q, true)) s a = a
  both ks p (done (q, false)) s a = s.0
  both ks p fatal s a = tt
  both ks p (undefined u) s a = tt

  pub parse_varval_token-Went :
      (ks : List Kind) (p : Program VarTable Buffer)
      → Has ring ks p
      → Always (Went (ks ++ (an_operand ∷ []))) (parse_varval_token ring p)
  parse_varval_token-Went ks p h =
      both (ks ++ (an_operand ∷ [])) p (parse_varval_token ring p)
        (parse_varval_token-Settles ring p) (parse_varval_token-Adds ks p h)
