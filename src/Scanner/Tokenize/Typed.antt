-- ===== src/Scanner/Tokenize/Typed.antt =====
-- The tokens of a line that tokenize_next_line of src/scanner.c accepts.
use simbly.Prelude.{
  ℕ, ◌≡◌, refl, sym, ap, subst, ◌⊎◌, inl, inr, Bool, true, false, ◌==◌, Bool-cases, Option, none,
  some, [], ◌∷◌, ◌++◌, List, Always, Always-map,
}
use simbly.Program.{
  Reader, Program, Token, State, magic_line, instruction_line, last_line, sleeping, blocked,
  finished, Instruction, label, instruction,
}
use simbly.Scanner.Chars.{get_next_word}
use simbly.Scanner.Lines.{is_valid_label, handler}
use simbly.Scanner.Lines.Shapes.{Leaves}
use simbly.Scanner.Lines.Typed.{handler-Leaves}
use simbly.Scanner.Operand.{max_allowed_symbol_len}
use simbly.Scanner.Tokenize.{
  call_found, call_instruction_handler, call_unless_finished, after_label, tokenize_word,
  tokenize_next_line,
}
use simbly.Scanner.Tokens.Kinds.{
  Kind, a_label, an_instruction, Fits, IsLine, kinds, after, after_lem, Has, more_token,
}
use simbly.Voids.{HashTable, RingBuffer}

-- The tokens before an instruction: a label or none.
data Before : List Kind → Type 0 where
  nothing : Before []
  its_label : Before (a_label ∷ [])

line_of :
    {ks : List Kind} (code : Instruction) (ts : List Kind)
    → Before ks
    → Fits code ts
    → IsLine (after (ks ++ (an_instruction code ∷ [])) ts)
line_of code ts nothing f = rw (after_lem (an_instruction code ∷ []) ts) f
line_of code ts its_label f = rw (after_lem (a_label ∷ an_instruction code ∷ []) ts) f

module _ {VarTable : Type 0} (instructions : HashTable Instruction) (ring : RingBuffer Token)
    (table : instructions.Table) where
  open instructions use {find}
  open ring use {Buffer, items}

  -- The program has been stopped, or what it has behind these tokens makes a line.
  abbrev pub Accepts : Program VarTable Buffer → Type 0
  Accepts q = (q.state ≡ finished) ⊎ IsLine (kinds (items q.translated_line))

  found-Accepts :
      {ks : List Kind} (p : Program VarTable Buffer) (o : Option Instruction)
      → Before ks
      → Has ring ks p
      → Always Accepts (call_found instructions ring table p o)
  found-Accepts p none a h = inl refl
  found-Accepts {ks = ks} p (some code) a h =
      more_token ring (Always Accepts) ks p (instruction code) (handler ring code) h tt λ b k.
        Always-map (Leaves ring (Fits code) (ks ++ (an_instruction code ∷ []))) Accepts _
          (handler-Leaves ring code (ks ++ (an_instruction code ∷ [])) _ k) accept
    where
      accept :
          (q : Program VarTable Buffer)
          → Leaves ring (Fits code) (ks ++ (an_instruction code ∷ [])) q
          → Accepts q
      accept q (inl e) = inl e
      accept q (inr (ts, f, e)) = inr (subst IsLine (sym e) (line_of code ts a f))

  call-Accepts :
      {ks : List Kind} (p : Program VarTable Buffer) (len : ℕ)
      → Before ks
      → Has ring ks p
      → ((len == 0) ≡ true → Accepts p)
      → Always Accepts (call_instruction_handler instructions ring table p len)
  unfolding call_instruction_handler
  call-Accepts p len a h z = elim (Bool-cases (len == 0)) [
    | inl nothing_there ↦ rw nothing_there (z nothing_there)
    | inr word ↦ rw word (found-Accepts p (find table p.input) a h)
  ]

  unless-Accepts :
      {ks : List Kind} (s : State) (p : Program VarTable Buffer) (len : ℕ)
      → Before ks
      → Has ring ks p
      → p.state ≡ s
      → ((len == 0) ≡ true → Accepts p)
      → Always Accepts (call_unless_finished instructions ring table s p len)
  unless-Accepts finished p len a h e z = inl e
  unless-Accepts magic_line p len a h e z = call-Accepts p len a h z
  unless-Accepts instruction_line p len a h e z = call-Accepts p len a h z
  unless-Accepts last_line p len a h e z = call-Accepts p len a h z
  unless-Accepts sleeping p len a h e z = call-Accepts p len a h z
  unless-Accepts blocked p len a h e z = call-Accepts p len a h z

  after_label-Accepts :
      (p : Program VarTable Buffer)
      → Has ring (a_label ∷ []) p
      → Always Accepts (after_label instructions ring table p)
  after_label-Accepts p h =
      let (r, len) = get_next_word max_allowed_symbol_len true p.reader in
      elim (Bool-cases (len == 0)) [
        | inl missing ↦ rw missing (inl refl)
        | inr word ↦ rw word (
            unless-Accepts r.state (record p { reader = r }) len its_label h refl
              (λ e. absurd (cc (word, e))))
      ]

  word-Accepts :
      (p : Program VarTable Buffer) (len : ℕ) (o : Reader × Bool)
      → Has ring [] p
      → Always Accepts (tokenize_word instructions ring table p len o)
  word-Accepts p len (r, true) h =
      more_token ring (Always Accepts) [] (record p { reader = r }) (label r.input r.offset)
        (after_label instructions ring table) h tt (λ b k. after_label-Accepts _ k)
  word-Accepts p len (r, false) h =
      unless-Accepts r.state (record p { reader = r }) len nothing h refl
        (λ e. inr (subst IsLine (sym h) tt))

  -- From an empty buffer, tokenize_next_line leaves a program that has been stopped, or a line that is
  -- well formed: no token at all, or an instruction, with a label before it or none, and behind it
  -- the operands that this instruction takes, in their number and order.
  pub tokenize_next_line-Accepts :
      (p : Program VarTable Buffer)
      → items p.translated_line ≡ []
      → Always Accepts (tokenize_next_line instructions ring table p)
  unfolding tokenize_next_line
  tokenize_next_line-Accepts p e =
      let (r, len) = get_next_word max_allowed_symbol_len false p.reader in
      word-Accepts (record p { reader = r }) len (is_valid_label r len) (ap kinds e)
