-- ===== src/Exec/Machine/Drain.antt =====
-- The loop of branch_handler over the tokens that are left.
use simbly.Prelude.{ℕ, suc, ◌≡◌, refl, ap, ◌∙◌, [], ◌∷◌, List, arith, length}
use simbly.Exec.Machine.{next_token, drain, drain_all}
use simbly.Program.{Program, Token, Cell}
use simbly.Voids.{HashTable, RingBuffer}

module _ (max_alloc : ℕ) (vars : HashTable Cell) (ring : RingBuffer Token) where
  open vars use {Table}
  open ring use {Buffer, items, read, read_empty, read_next}

  drain-step :
      (fuel : ℕ) (p : Program Table Buffer) (x : Token) (xs : List Token)
      → items p.translated_line ≡ x ∷ xs
      → (drain max_alloc vars ring (suc fuel) p
          ≡ drain max_alloc vars ring fuel
              (record p { translated_line = (read p.translated_line).1 }))
        × (items (read p.translated_line).1 ≡ xs)
  unfolding drain next_token
  drain-step fuel p x xs e = ground (arith, read_next p.translated_line x xs e)

  drain-stop :
      (fuel : ℕ) (p : Program Table Buffer)
      → items p.translated_line ≡ []
      → drain max_alloc vars ring (suc fuel) p ≡ p
  unfolding drain next_token
  drain-stop fuel p e = ground (arith, read_empty p.translated_line e)

  drain-empties :
      (xs : List Token) (p : Program Table Buffer)
      → items p.translated_line ≡ xs
      → let q = drain max_alloc vars ring (suc (length xs)) p in
        (items q.translated_line ≡ []) × (q.reader ≡ p.reader) × (q.vartable ≡ p.vartable)
  drain-empties [] p e =
      let s = drain-stop 0 p e in
      (ap (λ q. items q.translated_line) s ∙ e, ap (λ q. q.reader) s, ap (λ q. q.vartable) s)
  drain-empties (x ∷ xs) p e =
      let (s, left) = drain-step (suc (length xs)) p x xs e in
      let f = drain-empties xs (record p { translated_line = (read p.translated_line).1 }) left in
      (
        ap (λ q. items q.translated_line) s ∙ f.0,
        ap (λ q. q.reader) s ∙ f.1,
        ap (λ q. q.vartable) s ∙ f.2,
      )

  -- The loop with which a branch passes over the rest of a line ends with no token left, however
  -- many there were, and it changes neither the position in the file nor the variables.
  pub drain_all-empties :
      (p : Program Table Buffer)
      → let q = drain_all max_alloc vars ring p in
        (items q.translated_line ≡ []) × (q.reader ≡ p.reader) × (q.vartable ≡ p.vartable)
  drain_all-empties p = drain-empties (items p.translated_line) p refl
