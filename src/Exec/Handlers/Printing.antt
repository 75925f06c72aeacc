-- ===== src/Exec/Handlers/Printing.antt =====
-- The loop over the values of PRINT.
use simbly.Exec.Handlers.{print_value, print_values}
use simbly.Exec.Machine.{next_token}
use simbly.Exec.Values.Ensures.{Names, Steps, Ensures}
use simbly.Exec.Values.Induction.{get_value-Ensures}
use simbly.Exec.Values.{Value, at_token, get_value, reset_value, value_of, varval_get_value}
use simbly.Global.{GlobalVar}
use simbly.Prelude.{
  ℕ, zero, suc, ◌<◌, ◌≡◌, refl, ap, ◌∙◌, Option, none, some, List, [], ◌∷◌, ◌++◌, Bytes, ℤ, arith,
  length, Outcome, done, fatal, undefined, ◌>>=◌,
}
use simbly.Program.{
  Program, Token, Cell, Payload, Operand, operand, label, instruction, string, int_val, int_var,
  int_arr, unset,
}
use simbly.Voids.{HashTable, RingBuffer}

abbrev Anything : Bytes → Type 0
Anything x = Unit

all_names_lem : (o : Operand) → Names Anything o
all_names_lem (int_val v) = tt
all_names_lem unset = tt
all_names_lem (int_var x) = tt
all_names_lem (int_arr x i) = (tt, all_names_lem i)

module _ (max_alloc : ℕ) (vars : HashTable Cell) (ring : RingBuffer Token)
    (globals : HashTable (Option GlobalVar)) where
  open vars use {Table}
  open ring use {Buffer, items, read, read_empty, read_next}

  abbrev KeepsTokens : Program Table Buffer → Value max_alloc vars ring → Type 0
  KeepsTokens p (done (q, r)) = q.translated_line ≡ p.translated_line
  KeepsTokens p _ = Unit

  tokens_steps :
      (p : Program Table Buffer)
      → Steps max_alloc vars ring (λ q. q.translated_line ≡ p.translated_line) Anything
  tokens_steps p = record {
    message = λ q r h. h;
    new_name = λ q x xs n h l new. h;
    write = λ q x xs n h l b. h;
  }

  ensured :
      (p : Program Table Buffer) (m : Value max_alloc vars ring)
      → Ensures max_alloc vars ring (tokens_steps p) m
      → KeepsTokens p m
  ensured p (done (q, r)) h = h
  ensured p fatal h = tt
  ensured p (undefined u) h = tt

  value_of-KeepsTokens :
      (p : Program Table Buffer) (o : Payload) → KeepsTokens p (value_of max_alloc vars ring p o)
  value_of-KeepsTokens p (operand o) =
      ensured p (get_value max_alloc vars ring p o)
        (get_value-Ensures max_alloc vars ring (tokens_steps p) p o (all_names_lem o) refl)
  value_of-KeepsTokens p (label name offset) = refl
  value_of-KeepsTokens p (instruction code) = refl
  value_of-KeepsTokens p (string w) = refl

  reset-KeepsTokens :
      (p u : Program Table Buffer) (m : Value max_alloc vars ring)
      → KeepsTokens u m
      → KeepsTokens u (reset_value max_alloc vars ring p m)
  reset-KeepsTokens p u (done (q, r)) h = h
  reset-KeepsTokens p u fatal h = tt
  reset-KeepsTokens p u (undefined x) h = tt

  varval_get_value-KeepsTokens :
      (p : Program Table Buffer) (tok : Token)
      → KeepsTokens
          (at_token max_alloc vars ring tok p)
          (varval_get_value max_alloc vars ring p tok)
  unfolding varval_get_value
  varval_get_value-KeepsTokens p tok =
      let u = at_token max_alloc vars ring tok p in
      reset-KeepsTokens p u (value_of max_alloc vars ring u tok.payload)
        (value_of-KeepsTokens u tok.payload)

  abbrev Loop : Type 0
  Loop = Program Table Buffer → List ℤ → Outcome (Program Table Buffer × List ℤ)

  -- Two ways to go on that agree on the tokens left.
  value_cong :
      (f g : Loop) (p : Program Table Buffer) (vs : List ℤ) (m : Value max_alloc vars ring)
      → KeepsTokens p m
      → ((q : Program Table Buffer) (ws : List ℤ)
          → q.translated_line ≡ p.translated_line
          → f q ws ≡ g q ws)
      → (m >>= print_value max_alloc vars ring globals f vs)
        ≡ (m >>= print_value max_alloc vars ring globals g vs)
  value_cong f g p vs (done (q, none)) h k = refl
  value_cong f g p vs (done (q, some v)) h k = k q (vs ++ v ∷ []) h
  value_cong f g p vs fatal h k = refl
  value_cong f g p vs (undefined u) h k = refl

  next_token-next :
      (p : Program Table Buffer) (x : Token) (xs : List Token)
      → items p.translated_line ≡ x ∷ xs
      → (next_token max_alloc vars ring p
          ≡ (some x, record p { translated_line = (read p.translated_line).1 }))
        × (items (read p.translated_line).1 ≡ xs)
  unfolding next_token
  next_token-next p x xs e = ground (arith, read_next p.translated_line x xs e)

  next_token-empty :
      (p : Program Table Buffer)
      → items p.translated_line ≡ []
      → next_token max_alloc vars ring p ≡ (none, p)
  unfolding next_token
  next_token-empty p e = ground (arith, read_empty p.translated_line e)

  agree :
      (xs : List Token) (f g : ℕ) (p : Program Table Buffer) (vs : List ℤ)
      → items p.translated_line ≡ xs
      → length xs < f
      → length xs < g
      → print_values max_alloc vars ring globals f p vs
        ≡ print_values max_alloc vars ring globals g p vs
  unfolding print_values
  agree xs zero g p vs e a b = absurd (omega (arith, a))
  agree xs (suc f) zero p vs e a b = absurd (omega (arith, b))
  agree [] (suc f) (suc g) p vs e a b = rw (next_token-empty p e) refl
  agree (x ∷ xs) (suc f) (suc g) p vs e a b =
      let q : Program Table Buffer = record p { translated_line = (read p.translated_line).1 } in
      let (next, left) = next_token-next p x xs e in
      rw next (
        value_cong (λ q ws. print_values max_alloc vars ring globals f q ws)
          (λ q ws. print_values max_alloc vars ring globals g q ws)
          (at_token max_alloc vars ring x q) vs (varval_get_value max_alloc vars ring q x)
          (varval_get_value-KeepsTokens q x)
          (λ u ws h. agree xs f g u ws (ap items h ∙ left) (omega arith) (omega arith)))

  -- The loop over the values of PRINT gives the same for any two amounts of fuel above the count of
  -- the tokens that are left: it never ends for want of fuel.
  pub print_values-fuel :
      (f g : ℕ) (p : Program Table Buffer) (vs : List ℤ)
      → length (items p.translated_line) < f
      → length (items p.translated_line) < g
      → print_values max_alloc vars ring globals f p vs
        ≡ print_values max_alloc vars ring globals g p vs
  print_values-fuel f g p vs a b = agree (items p.translated_line) f g p vs refl a b
