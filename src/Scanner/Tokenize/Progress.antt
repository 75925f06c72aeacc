-- ===== src/Scanner/Tokenize/Progress.antt =====
-- A line that tokenize_next_line (src/scanner.c) has read leaves fewer words in the file, or it has no tokens.
use simbly.Prelude.{
  ℕ, ◌≤◌, ◌<◌, ◌≡◌, refl, ap, ◌⊎◌, inl, inr, false, Bool-cases, Option, none, some, [], ◌∷◌, arith,
  Bytes, length, ◌==◌, Always, Always-map,
}
use simbly.Program.{
  Reader, Program, Token, State, magic_line, instruction_line, last_line, sleeping, blocked,
  finished, Instruction,
}
use simbly.Scanner.Chars.{get_next_word}
use simbly.Scanner.Chars.Position.{Advances}
use simbly.Scanner.Chars.Progress.{
  words_left, words_left-le, Progress, get_next_word-Progress, Advances-le,
}
use simbly.Scanner.Lines.{is_valid_label}
use simbly.Scanner.Lines.Position.{is_valid_label-Advances}
use simbly.Scanner.Operand.{max_allowed_symbol_len}
use simbly.Scanner.Tokenize.Keeps.{tokenize_word-Keeps, tokenize_next_line-Keeps}
use simbly.Scanner.Tokens.Closed.{Closed}
use simbly.Scanner.Tokenize.{
  call_instruction_handler, call_unless_finished, tokenize_word, tokenize_next_line,
}
use simbly.Voids.{HashTable, RingBuffer}

-- Reading on never leaves more words.
Advances-words_left :
    (r u : Reader) → Advances r u → words_left u.c u.unread ≤ words_left r.c r.unread
Advances-words_left r u a = from r.c r.unread u.unread refl refl refl (Advances-le r u a)
  where
    from :
        (c : Option ℕ) (xs ys : Bytes)
        → r.c ≡ c
        → r.unread ≡ xs
        → u.unread ≡ ys
        → length u.unread ≤ length r.unread
        → words_left u.c ys ≤ words_left c xs
    from none [] [] e f g l = rw (a.ended e f) (omega arith)
    from none [] (y ∷ ys) e f g l = absurd (omega (arith, l, ap length f, ap length g))
    from (some b) [] ys e f g l = omega (arith, l, ap length f, ap length g, words_left-le u.c ys)
    from none (x ∷ xs) ys e f g l = omega (arith, l, ap length f, ap length g, words_left-le u.c ys)
    from (some b) (x ∷ xs) ys e f g l =
        omega (arith, l, ap length f, ap length g, words_left-le u.c ys)

not_label : (r : Reader) (len : ℕ) → r.input ≡ 255 ∷ [] → is_valid_label r len ≡ (r, false)
unfolding is_valid_label
not_label r len e = elim (Bool-cases (len == 0)) [
  | inl nothing ↦ rw nothing refl
  | inr word ↦ rw (word, e) refl
]

nothing_read : (r : Reader) → is_valid_label r 0 ≡ (r, false)
unfolding is_valid_label
nothing_read r = refl

module _ {VarTable : Type 0} (instructions : HashTable Instruction) (ring : RingBuffer Token)
    (table : instructions.Table) where
  open instructions use {find}
  open ring use {Buffer}

  abbrev AtMost : ℕ → Program VarTable Buffer → Type 0
  AtMost n q = words_left q.c q.unread ≤ n

  AtMost-Closed : (n : ℕ) → Closed ring (AtMost n)
  AtMost-Closed n = record {
    reads = λ q r a h. omega (arith, h, Advances-words_left q.reader r a);
    tokens = λ q b h. h;
  }

  -- A line never leaves more words.
  pub tokenize_next_line-AtMost :
      (n : ℕ) (p : Program VarTable Buffer)
      → words_left p.c p.unread ≤ n
      → Always (λ q. words_left q.c q.unread ≤ n) (tokenize_next_line instructions ring table p)
  tokenize_next_line-AtMost n p h =
      tokenize_next_line-Keeps instructions ring table (AtMost-Closed n) p h

  -- Fewer words are left than `n`, or the tokens are those of `p`.
  abbrev pub LessOrSame : ℕ → Program VarTable Buffer → Program VarTable Buffer → Type 0
  LessOrSame n p q = (words_left q.c q.unread < n) ⊎ (q.translated_line ≡ p.translated_line)

  -- No instruction is called, so there are no tokens.
  no_word :
      (s : State) (n : ℕ) (p q : Program VarTable Buffer)
      → q.translated_line ≡ p.translated_line
      → Always (LessOrSame n p) (call_unless_finished instructions ring table s q 0)
  unfolding call_instruction_handler
  no_word finished n p q e = inr e
  no_word magic_line n p q e = inr e
  no_word instruction_line n p q e = inr e
  no_word last_line n p q e = inr e
  no_word sleeping n p q e = inr e
  no_word blocked n p q e = inr e

  called_eof :
      (n len : ℕ) (p q : Program VarTable Buffer)
      → find table (255 ∷ []) ≡ none
      → q.input ≡ 255 ∷ []
      → q.translated_line ≡ p.translated_line
      → Always (LessOrSame n p) (call_instruction_handler instructions ring table q len)
  unfolding call_instruction_handler
  called_eof n len p q f i e = elim (Bool-cases (len == 0)) [
    | inl nothing ↦ rw nothing (inr e)
    | inr word ↦ rw (word, i, f) (inr e)
  ]

  unless_eof :
      (s : State) (n len : ℕ) (p q : Program VarTable Buffer)
      → find table (255 ∷ []) ≡ none
      → q.input ≡ 255 ∷ []
      → q.translated_line ≡ p.translated_line
      → Always (LessOrSame n p) (call_unless_finished instructions ring table s q len)
  unless_eof finished n len p q f i e = inr e
  unless_eof magic_line n len p q f i e = called_eof n len p q f i e
  unless_eof instruction_line n len p q f i e = called_eof n len p q f i e
  unless_eof last_line n len p q f i e = called_eof n len p q f i e
  unless_eof sleeping n len p q f i e = called_eof n len p q f i e
  unless_eof blocked n len p q f i e = called_eof n len p q f i e

  word-LessOrSame :
      (n len : ℕ) (p : Program VarTable Buffer) (r : Reader)
      → find table (255 ∷ []) ≡ none
      → Progress n (r, len)
      → Always (LessOrSame n p) (
          tokenize_word instructions ring table
            (record p { reader = r })
            len
            (is_valid_label r len))
  word-LessOrSame n len p r f (inl e) =
      rw (e, nothing_read r) (no_word r.state n p (record p { reader = r }) refl)
  word-LessOrSame n len p r f (inr (inr eof)) =
      rw (not_label r len eof) (unless_eof r.state n len p (record p { reader = r }) f eof refl)
  word-LessOrSame n len p r f (inr (inl less)) =
      Always-map (AtMost (words_left r.c r.unread)) (LessOrSame n p) _
        (tokenize_word-Keeps instructions ring table (AtMost-Closed (words_left r.c r.unread))
          (record p { reader = r }) len (is_valid_label r len) (is_valid_label-Advances r len)
          (omega arith))
        (λ q l. inl (omega (arith, l, less)))

  -- A line that is read leaves fewer words in the file, or it adds no token. It takes that the byte that EOF makes
  -- is the name of no instruction.
  pub tokenize_next_line-LessOrSame :
      (p : Program VarTable Buffer)
      → find table (255 ∷ []) ≡ none
      → Always
          (LessOrSame (words_left p.c p.unread) p)
          (tokenize_next_line instructions ring table p)
  unfolding tokenize_next_line
  tokenize_next_line-LessOrSame p f =
      let (r, len) = get_next_word max_allowed_symbol_len false p.reader in
      word-LessOrSame (words_left p.c p.unread) len p r f
        (get_next_word-Progress max_allowed_symbol_len false p.reader)
