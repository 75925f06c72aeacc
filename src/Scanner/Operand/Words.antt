-- ===== src/Scanner/Operand/Words.antt =====
-- parse_varval_token on a whole word: each argument that the grammar spells becomes one token.
use simbly.Prelude.{
  ℕ, suc, ◌≤◌, ◌≡◌, refl, inr, true, [], ◌∷◌, ◌++◌, Bytes, pos, sub_ℕ, arith, length, is_digit,
  done, length-append,
}
use simbly.Program.{Program, Token, Operand, int_val, int_var, int_arr, operand}
use simbly.Scanner.Operand.Grammar.{
  AllOf, IsName, name, IsNumber, digits, SpellsIndex, scan_name-bracket, scan_name-end,
  scan_number-end, parse_index-spelled, closing_brackets-spelled,
}
use simbly.Scanner.Operand.{digits_value, closing_brackets, parse_varval_token}
use simbly.Scanner.Tokens.Append.{Lacks, add_new_token_returns}
use simbly.Scanner.Tokens.{new_token}
use simbly.Voids.{RingBuffer}

-- The text of an argument. A minus sign may be followed by up to eight digits, or by none.
pub data Spells : Bytes → Operand → Type 0 where
  number : {w : Bytes} → IsNumber w → Spells w (int_val (pos (digits_value 0 w)))
  negative :
      (w : Bytes)
      → AllOf is_digit w
      → length w ≤ 8
      → Spells (b'-' ∷ w) (int_val (sub_ℕ 0 (digits_value 0 w)))
  variable : {w : Bytes} → IsName w → Spells (b'$' ∷ w) (int_var w)
  element :
      {w s : Bytes} {i : Operand} {d : ℕ}
      → IsName w
      → SpellsIndex s i d
      → Spells (b'$' ∷ (w ++ (b'[' ∷ (s ++ (b']' ∷ []))))) (int_arr w i)

closing_bracket_end : closing_brackets (b']' ∷ []) ≡ 1
unfolding closing_brackets
closing_bracket_end = refl

module _ {VarTable : Type 0} (ring : RingBuffer Token) where
  open ring use {Buffer, items}

  -- The call returns 1 and has added one token.
  abbrev pub Reads : Program VarTable Buffer → Operand → Type 0
  Reads p o =
      (b : Buffer) × (parse_varval_token ring p ≡ done (record p { translated_line = b }, true))
      × (items b ≡ items p.translated_line ++ new_token ring p (operand o) ∷ [])

  word-Reads :
      (p : Program VarTable Buffer) (w : Bytes) (o : Operand)
      → p.input ≡ w
      → (Lacks ring p (operand o) → ⊥)
      → Spells w o
      → Reads p o
  unfolding parse_varval_token
  word-Reads p w o e memory (number (digits b v h a l)) =
      let (buf, done_, its) = add_new_token_returns ring p (operand o) memory in
      (buf, ground (arith, scan_number-end 1 v a), its)
  word-Reads p w o e memory (negative v a l) =
      let (buf, done_, its) = add_new_token_returns ring p (operand o) memory in
      (buf, ground (arith, scan_number-end 1 v a), its)
  word-Reads p w o e memory (variable (name b v h a l)) =
      let (buf, done_, its) = add_new_token_returns ring p (operand o) memory in
      (buf, ground (arith, scan_name-end 0 v a), its)
  word-Reads p w o e memory (element {w = u} {s} {i} {d} (name b v h a l) k) =
      let (buf, done_, its) = add_new_token_returns ring p (operand o) memory in
      let rest = s ++ (b']' ∷ []) in
      (
        buf,
        ground (
          arith,
          scan_name-bracket 0 0 v rest (inr refl) a,
          parse_index-spelled (suc (length (b'[' ∷ rest))) [] 1 p.reader k,
          closing_brackets-spelled (b']' ∷ []) k,
          closing_bracket_end,
          length-append {0} s (b']' ∷ []),
        ),
        its,
      )

  -- The scanner accepts every argument of the grammar: a variable, a number, or an element with indices
  -- at any depth becomes one token with the operand that it spells, at the position of the program,
  -- and nothing else changes. It takes that there is memory for the token and, where the
  -- buffer is full, for eight more places.
  pub parse_varval_token-Reads :
      (p : Program VarTable Buffer) (o : Operand)
      → (Lacks ring p (operand o) → ⊥)
      → Spells p.input o
      → Reads p o
  parse_varval_token-Reads p o memory s = word-Reads p p.input o refl memory s
