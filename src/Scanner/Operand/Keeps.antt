-- ===== src/Scanner/Operand/Keeps.antt =====
-- parse_varval_token adds at most one token and does not move in the file.
use simbly.Prelude.{
  ℕ, none, suc, ◌∷◌, ◌≡◌, refl, Bool, true, not, Bytes, ◌||◌, ◌==◌, drop, length, is_alpha,
  is_digit, Outcome, done, Always, Always->>=, if_both, subst, sym,
}
use simbly.Program.{Reader, Program, Token, Operand, int_val, int_var, int_arr, operand}
use simbly.Scanner.Chars.Position.{Advances, same_position}
use simbly.Scanner.Operand.{
  char_at, NameEnd, at_stop, at_bracket, bad_char, too_long, Scan, scan_name, scan_number, Index,
  parse_varval_token, atoi, word_name, word_number, word_array, add_operand, closing_brackets,
}
use simbly.Scanner.Tokens.Closed.{Closed, with_token}
use simbly.Scanner.Operand.Position.{Stays, parse_index-Stays}
use simbly.Voids.{RingBuffer}

module _ {VarTable : Type 0} (ring : RingBuffer Token) {P : Program VarTable ring.Buffer → Type 0}
    (c : Closed ring P) where
  open ring use {Buffer}

  -- The program that is returned has `P`.
  abbrev pub KeepsWith : Outcome (Program VarTable Buffer × Bool) → Type 0
  KeepsWith = Always λ o. P o.0

  -- The same program with another message.
  pub same_place :
      (p : Program VarTable Buffer) (r : Reader)
      → p.unread ≡ r.unread
      → r.offset ≡ p.offset
      → r.text ≡ p.text
      → (p.c ≡ none → r.c ≡ none)
      → P p
      → P (record p { reader = r })
  same_place p r u o t e h = c.reads p r (same_position p.reader r u o t e) h

  add_operand-Keeps :
      (p : Program VarTable Buffer) (o : Operand) (success : Bool)
      → P p
      → KeepsWith (add_operand ring p o success)
  add_operand-Keeps p o success h =
      with_token ring KeepsWith p (operand o) (λ q. done (q, success)) tt (λ b. c.tokens p b h)

  word_array-Keeps :
      (p : Program VarTable Buffer) (name rest : Bytes) (i : Index)
      → Stays p.reader i
      → P p
      → KeepsWith (word_array ring p name rest i)
  word_array-Keeps p name rest i a h =
      Always->>= (λ o. P o.0 × (o.0.reader ≡ p.reader)) (λ o. P o.0)
        (add_operand ring p (int_arr name i.idx) true) _
        (with_token ring (Always λ o. P o.0 × (o.0.reader ≡ p.reader)) p
          (operand (int_arr name i.idx)) (λ q. done (q, true)) tt (λ b. (c.tokens p b h, refl)))
        λ (q, _) (k, e).
          let moved = c.reads q i.reader (subst (λ r. Advances r i.reader) (sym e) a) k in
          if_both KeepsWith (not i.success) moved (
            if_both KeepsWith (closing_brackets rest == i.depth) moved
              (same_place (record q { reader = i.reader }) _ refl refl refl (λ e. e) moved))

  word_number-Keeps :
      (p : Program VarTable Buffer) (e : NameEnd) → P p → KeepsWith (word_number ring p e)
  word_number-Keeps p at_stop h = add_operand-Keeps p (int_val (atoi p.input)) true h
  word_number-Keeps p at_bracket h = same_place p _ refl refl refl (λ e. e) h
  word_number-Keeps p bad_char h = same_place p _ refl refl refl (λ e. e) h
  word_number-Keeps p too_long h = same_place p _ refl refl refl (λ e. e) h

  word_name-Keeps :
      (p : Program VarTable Buffer) (first : ℕ) (s : Scan)
      → P p
      → KeepsWith (word_name ring p first s)
  word_name-Keeps p first (w, rest, at_stop) h = add_operand-Keeps p (int_var (first ∷ w)) true h
  word_name-Keeps p first (w, rest, at_bracket) h =
      word_array-Keeps p (first ∷ w) (drop 1 rest) _
        (parse_index-Stays (suc (length rest)) (drop 1 rest) 1 p.reader) h
  word_name-Keeps p first (w, rest, bad_char) h = same_place p _ refl refl refl (λ e. e) h
  word_name-Keeps p first (w, rest, too_long) h = same_place p _ refl refl refl (λ e. e) h

  pub parse_varval_token-Keeps :
      (p : Program VarTable Buffer) → P p → KeepsWith (parse_varval_token ring p)
  unfolding parse_varval_token
  parse_varval_token-Keeps p h =
      if_both KeepsWith (char_at p.input 0 == b'$')
        (if_both KeepsWith (is_alpha (char_at p.input 1))
          (word_name-Keeps p (char_at p.input 1) (scan_name 0 0 (drop 2 p.input)) h)
          (same_place p _ refl refl refl (λ e. e) h))
        (if_both KeepsWith (char_at p.input 0 == b'-' || is_digit (char_at p.input 0))
          (word_number-Keeps p (scan_number 0 1 (drop 1 p.input)) h)
          (same_place p _ refl refl refl (λ e. e) h))
