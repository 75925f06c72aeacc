-- ===== src/Exec/Values/Frame.antt =====
-- What reading or setting a value leaves alone: other names, the tokens of the line, the arguments.
use simbly.Prelude.{ℕ, ◌≡◌, refl, ◌≢◌, Bytes, ℤ, done, ◌∙◌}
use simbly.Exec.Values.Ensures.{Names, Steps}
use simbly.Exec.Values.Induction.{get_value-Ensures, set_value-Ensures}
use simbly.Exec.Values.{Value, get_value, set_value}
use simbly.Program.{Program, Token, Operand, Cell, array}
use simbly.Voids.{HashTable, RingBuffer}

-- The name is not in the operand.
abbrev pub Avoids : Bytes → Operand → Type 0
Avoids y = Names (λ x. y ≢ x)

module _ (max_alloc : ℕ) (vars : HashTable Cell) (ring : RingBuffer Token) where
  open vars use {Table, find, insert, find-insert_ne, find-update_ne}
  open ring use {Buffer}

  -- The binding of `y`, the tokens of the line and the arguments are those of `p`.
  abbrev Same : Bytes → Program Table Buffer → Program Table Buffer → Type 0
  Same y p q =
      (find q.vartable y ≡ find p.vartable y)
      × (q.translated_line ≡ p.translated_line)
      × (q.argv ≡ p.argv)

  -- A call that returns has left them alone.
  abbrev pub Keeps : Bytes → Program Table Buffer → Value max_alloc vars ring → Type 0
  Keeps y p (done (q, r)) = Same y p q
  Keeps y p _ = Unit

  Same-Steps :
      (y : Bytes) (p : Program Table Buffer) → Steps max_alloc vars ring (Same y p) (λ x. y ≢ x)
  Same-Steps y p = record {
    message = λ q r h. h;
    new_name = λ q x xs ne h l t. (find-insert_ne q.vartable x y (array xs) ne ∙ h.0, h.1, h.2);
    write = λ q x xs ne h l b. (find-update_ne q.vartable x y (array xs) ne ∙ h.0, h.1, h.2);
  }

  -- Reading a value, with its indices at any depth, leaves every name alone that is not in the
  -- operand, and the tokens and the arguments of the program too.
  get_value-Keeps :
      (y : Bytes) (p : Program Table Buffer) (o : Operand)
      → Avoids y o
      → Keeps y p (get_value max_alloc vars ring p o)
  get_value-Keeps y p o a =
      get_value-Ensures max_alloc vars ring (Same-Steps y p) p o a (refl, refl, refl)

  -- Setting a value leaves every name alone that is not in the operand, and the tokens and the
  -- arguments of the program too.
  pub set_value-Keeps :
      (y : Bytes) (p : Program Table Buffer) (o : Operand) (v : ℤ)
      → Avoids y o
      → Keeps y p (set_value max_alloc vars ring p o v)
  set_value-Keeps y p o v a =
      set_value-Ensures max_alloc vars ring (Same-Steps y p) p o v a (refl, refl, refl)
