-- ===== src/Scanner/Tokens/Closed.antt =====
-- What holds through all that the scanner does to a program: it moves its reader forward in the file
-- and adds tokens.
use simbly.Prelude.{sym, subst, inl, inr, Outcome, fatal, ◌>>=◌}
use simbly.Program.{Reader, Program, Payload, Token}
use simbly.Scanner.Chars.Position.{Advances}
use simbly.Scanner.Tokens.Append.{add_new_token-Appends}
use simbly.Scanner.Tokens.{add_new_token}
use simbly.Voids.{RingBuffer}

module _ {VarTable : Type 0} (ring : RingBuffer Token) where
  open ring use {Buffer}

  pub record Closed (P : Program VarTable Buffer → Type 0) : Type 0 where
    pub reads :
        (q : Program VarTable Buffer) (r : Reader)
        → Advances q.reader r
        → P q
        → P (record q { reader = r })
    pub tokens :
        (q : Program VarTable Buffer) (b : Buffer) → P q → P (record q { translated_line = b })

  -- A token is added, whatever is done with the program then, or the process ends.
  pub with_token {ℓ} :
      {A : Type 0} (Q : Outcome A → Type ℓ) (p : Program VarTable Buffer) (payload : Payload)
      (f : Program VarTable Buffer → Outcome A)
      → Q fatal
      → ((b : Buffer) → Q (f (record p { translated_line = b })))
      → Q (add_new_token ring p payload >>= f)
  with_token Q p payload f z h = elim (add_new_token-Appends ring p payload) [
    | inl (b, e, i) ↦ subst (λ o. Q (o >>= f)) (sym e) (h b)
    | inr (e, lacks) ↦ subst (λ o. Q (o >>= f)) (sym e) z
  ]
