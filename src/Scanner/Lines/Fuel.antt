-- ===== src/Scanner/Lines/Fuel.antt =====
-- The loop over the arguments of PRINT has enough fuel (src/scanner.c).
use simbly.Prelude.{
  ℕ, zero, suc, ◌+◌, ◌≤◌, ◌<◌, ◌≡◌, refl, ◌⊎◌, inl, inr, Bool, true, false, [], ◌∷◌, arith, length,
  ◌==◌, Bool-cases, if◌then◌else◌, Outcome, done, fatal, undefined, Always, Always-map, same_bind,
}
use simbly.Program.{Reader, Program, Token}
use simbly.Scanner.Chars.{get_next_word}
use simbly.Scanner.Chars.Progress.{words_left, words_left-le, Progress, get_next_word-Progress}
use simbly.Scanner.Lines.{print_argument, print_arguments}
use simbly.Scanner.Operand.{max_allowed_symbol_len, parse_varval_token}
use simbly.Scanner.Operand.Refusal.{Settles, parse_varval_token-Settles}
use simbly.Voids.{RingBuffer}

module _ {VarTable : Type 0} (ring : RingBuffer Token) where
  open ring use {Buffer}

  -- The word that EOF makes is no argument.
  eof_refused :
      (p : Program VarTable Buffer)
      → p.input ≡ 255 ∷ []
      → Always (λ o. o.1 ≡ false) (parse_varval_token ring p)
  unfolding parse_varval_token
  eof_refused p e = rw e refl

  abbrev Goes : Program VarTable Buffer → Program VarTable Buffer × Bool → Type 0
  Goes p (q, true) = q.reader ≡ p.reader
  Goes p (q, false) = Unit

  accepted :
      (p : Program VarTable Buffer) (o : Outcome (Program VarTable Buffer × Bool))
      → Settles ring p o
      → Always (Goes p) o
  accepted p (done (q, true)) h = h
  accepted p (done (q, false)) h = tt
  accepted p fatal h = tt
  accepted p (undefined u) h = tt

  -- What is known of the program behind an argument that has been accepted.
  abbrev Fewer : ℕ → Program VarTable Buffer × Bool → Type 0
  Fewer n (q, true) = words_left q.c q.unread < n
  Fewer n (q, false) = Unit

  argument-Fewer :
      (n : ℕ) (p : Program VarTable Buffer)
      → (words_left p.c p.unread < n) ⊎ (p.input ≡ 255 ∷ [])
      → Always (Fewer n) (parse_varval_token ring p)
  argument-Fewer n p (inl less) =
      Always-map (Goes p) (Fewer n) (parse_varval_token ring p)
        (accepted p (parse_varval_token ring p) (parse_varval_token-Settles ring p)) (same p less)
    where
      same :
          (p : Program VarTable Buffer)
          → words_left p.c p.unread < n
          → (o : Program VarTable Buffer × Bool) → Goes p o
          → Fewer n o
      same p l (q, true) e = rw e l
      same p l (q, false) e = tt
  argument-Fewer n p (inr eof) =
      Always-map (λ o. o.1 ≡ false) (Fewer n) (parse_varval_token ring p) (eof_refused p eof) stops
    where
      stops : (o : Program VarTable Buffer × Bool) → o.1 ≡ false → Fewer n o
      stops (q, true) e = cc
      stops (q, false) e = tt

  -- Two loops that agree on what is behind the next argument agree.
  argument_agree :
      (f g : Program VarTable Buffer → Outcome (Program VarTable Buffer)) (n : ℕ)
      (p : Program VarTable Buffer) (o : Reader × ℕ)
      → Progress n o
      → ((q : Program VarTable Buffer) → words_left q.c q.unread < n → f q ≡ g q)
      → print_argument ring f p o ≡ print_argument ring g p o
  argument_agree f g n p (r, len) (inl e) h = rw e refl
  argument_agree f g n p (r, len) (inr k) h = elim (Bool-cases (len == 0)) [
    | inl nothing ↦ rw nothing refl
    | inr word ↦ rw word (
        same_bind (parse_varval_token ring (record p { reader = r })) _ _ (
          Always-map (Fewer n) _ (parse_varval_token ring (record p { reader = r }))
            (argument-Fewer n (record p { reader = r }) k) both))
  ]
    where
      both :
          (o : Program VarTable Buffer × Bool)
          → Fewer n o
          → (if o.1 then f o.0 else done o.0) ≡ (if o.1 then g o.0 else done o.0)
      both (q, true) l = h q l
      both (q, false) l = refl

  agree :
      (f g : ℕ) (p : Program VarTable Buffer)
      → words_left p.c p.unread < f
      → words_left p.c p.unread < g
      → print_arguments ring f p ≡ print_arguments ring g p
  unfolding print_arguments
  agree zero g p a b = absurd (omega (arith, a))
  agree (suc f) zero p a b = absurd (omega (arith, b))
  agree (suc f) (suc g) p a b =
      argument_agree (print_arguments ring f) (print_arguments ring g) (words_left p.c p.unread) p
        (get_next_word max_allowed_symbol_len true p.reader)
        (get_next_word-Progress max_allowed_symbol_len true p.reader)
        (λ q l. agree f g q (omega (arith, a, l)) (omega (arith, b, l)))

  -- The loop over the arguments of PRINT gives the same for any two amounts of fuel that are two more
  -- than the count of the unread bytes, or above that: it never ends for want of fuel.
  pub print_arguments-fuel :
      (f g : ℕ) (p : Program VarTable Buffer)
      → length p.unread + 2 ≤ f
      → length p.unread + 2 ≤ g
      → print_arguments ring f p ≡ print_arguments ring g p
  print_arguments-fuel f g p a b =
      agree f g p (omega (arith, a, words_left-le p.c p.unread))
        (omega (arith, b, words_left-le p.c p.unread))
