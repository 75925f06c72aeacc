-- ===== src/Scanner/Tokens/Kinds.antt =====
-- The tokens of a line by their types: what a line of each instruction has.
use mathlib.Core.List.{append_assoc}
use simbly.Prelude.{
  ℕ, ◌≡◌, refl, sym, ap, subst, ◌∙◌, List, [], ◌∷◌, ◌++◌, inl, inr, Outcome, fatal, ◌>>=◌,
  replicate,
}
use simbly.Program.{
  Program, Payload, Token, Instruction, label, instruction, operand, string, load_sym, store_sym,
  set_sym, add_sym, sub_sym, mul_sym, div_sym, mod_sym, brgt_sym, brge_sym, brlt_sym, brle_sym,
  breq_sym, bra_sym, down_sym, up_sym, sleep_sym, print_sym, return_sym,
}
use simbly.Scanner.Tokens.{new_token, add_new_token}
use simbly.Scanner.Tokens.Append.{add_new_token-Appends}
use simbly.Voids.{RingBuffer}

-- The type of a token, and of an instruction which.
pub data Kind : Type 0 where
  a_label an_operand a_string : Kind
  an_instruction : Instruction → Kind

abbrev pub kind_of : Payload → Kind
kind_of (label x n) = a_label
kind_of (instruction code) = an_instruction code
kind_of (operand o) = an_operand
kind_of (string w) = a_string

abbrev pub kinds : List Token → List Kind
kinds [] = []
kinds (tok ∷ toks) = kind_of tok.payload ∷ kinds toks

-- What stands behind an instruction: operands, for a branch a label, and for PRINT a string and any number of
-- operands.
abbrev pub Fits : Instruction → List Kind → Type 0
Fits load_sym ts = ts ≡ an_operand ∷ an_operand ∷ []
Fits store_sym ts = ts ≡ an_operand ∷ an_operand ∷ []
Fits set_sym ts = ts ≡ an_operand ∷ an_operand ∷ []
Fits add_sym ts = ts ≡ an_operand ∷ an_operand ∷ an_operand ∷ []
Fits sub_sym ts = ts ≡ an_operand ∷ an_operand ∷ an_operand ∷ []
Fits mul_sym ts = ts ≡ an_operand ∷ an_operand ∷ an_operand ∷ []
Fits div_sym ts = ts ≡ an_operand ∷ an_operand ∷ an_operand ∷ []
Fits mod_sym ts = ts ≡ an_operand ∷ an_operand ∷ an_operand ∷ []
Fits brgt_sym ts = ts ≡ an_operand ∷ an_operand ∷ a_label ∷ []
Fits brge_sym ts = ts ≡ an_operand ∷ an_operand ∷ a_label ∷ []
Fits brlt_sym ts = ts ≡ an_operand ∷ an_operand ∷ a_label ∷ []
Fits brle_sym ts = ts ≡ an_operand ∷ an_operand ∷ a_label ∷ []
Fits breq_sym ts = ts ≡ an_operand ∷ an_operand ∷ a_label ∷ []
Fits bra_sym ts = ts ≡ a_label ∷ []
Fits down_sym ts = ts ≡ an_operand ∷ []
Fits up_sym ts = ts ≡ an_operand ∷ []
Fits sleep_sym ts = ts ≡ an_operand ∷ []
Fits print_sym ts = (n : ℕ) × (ts ≡ a_string ∷ replicate n an_operand)
Fits return_sym ts = ts ≡ []

-- No token, or an instruction with what stands behind it, and a label before it or none.
abbrev pub IsLine : List Kind → Type 0
IsLine [] = Unit
IsLine (a_label ∷ an_instruction code ∷ ts) = Fits code ts
IsLine (an_instruction code ∷ ts) = Fits code ts
IsLine _ = ⊥

-- The tokens behind others, one after another.
abbrev pub after : List Kind → List Kind → List Kind
after ks [] = ks
after ks (t ∷ ts) = after (ks ++ (t ∷ [])) ts

pub after_lem : (ks ts : List Kind) → after ks ts ≡ ks ++ ts
after_lem ks [] = sym (nil ks)
  where
    nil : (ks : List Kind) → ks ++ [] ≡ ks
    nil [] = refl
    nil (k ∷ ks) = ap (λ l. k ∷ l) (nil ks)
after_lem ks (t ∷ ts) = after_lem (ks ++ (t ∷ [])) ts ∙ append_assoc ks (t ∷ []) ts

pub kinds-append : (xs ys : List Token) → kinds (xs ++ ys) ≡ kinds xs ++ kinds ys
kinds-append [] ys = refl
kinds-append (x ∷ xs) ys = ap (λ l. kind_of x.payload ∷ l) (kinds-append xs ys)

module _ {VarTable : Type 0} (ring : RingBuffer Token) where
  open ring use {Buffer, items}

  -- The program has tokens of these types.
  abbrev pub Has : List Kind → Program VarTable Buffer → Type 0
  Has ks p = kinds (items p.translated_line) ≡ ks

  -- A token is added, whatever is done with the program then, or the process ends.
  pub more_token :
      {A : Type 0} (Q : Outcome A → Type 0) (ks : List Kind) (p : Program VarTable Buffer)
      (payload : Payload) (f : Program VarTable Buffer → Outcome A)
      → Has ks p
      → Q fatal
      → ((b : Buffer)
          → Has (ks ++ (kind_of payload ∷ [])) (record p { translated_line = b })
          → Q (f (record p { translated_line = b })))
      → Q (add_new_token ring p payload >>= f)
  more_token Q ks p payload f h z k = elim (add_new_token-Appends ring p payload) [
    | inl (b, e, i) ↦
        let has : kinds (items b) ≡ ks ++ (kind_of payload ∷ []) =
          ap kinds i
          ∙ kinds-append (items p.translated_line) (new_token ring p payload ∷ [])
          ∙ ap (λ l. l ++ (kind_of payload ∷ [])) h in
        subst (λ o. Q (o >>= f)) (sym e) (k b has)
    | inr (e, lacks) ↦ subst (λ o. Q (o >>= f)) (sym e) z
  ]
