-- ===== src/Exec/Values/Induction.antt =====
-- The induction over operands: get_value and set_value keep what their steps keep.
use simbly.Prelude.{refl, inl, inr, ℕ, Bytes, codes, str_eq, ℤ, Bool-cases}
use simbly.Exec.Values.Ensures.{
  Names, Steps, Ensures, get_var-Ensures, set_var-Ensures, get_element-Ensures, set_element-Ensures,
  get_argv-Ensures,
}
use simbly.Exec.Values.{get_value, set_value}
use simbly.Program.{Program, Token, Operand, Cell, int_val, int_var, int_arr, unset}
use simbly.Voids.{HashTable, RingBuffer}

module _ (max_alloc : ℕ) (vars : HashTable Cell) (ring : RingBuffer Token) where
  open vars use {Table, find}
  open ring use {Buffer}

  module _ {P : Program Table Buffer → Type 0} {N : Bytes → Type 0}
      (s : Steps max_alloc vars ring P N) where
    -- Reading a value keeps `P`.
    pub get_value-Ensures :
        (p : Program Table Buffer) (o : Operand)
        → Names N o
        → P p
        → Ensures max_alloc vars ring s (get_value max_alloc vars ring p o)
    unfolding get_value
    get_value-Ensures p (int_val v) a h = h
    get_value-Ensures p unset a h = tt
    get_value-Ensures p (int_var x) a h = elim (Bool-cases (str_eq (codes "argc") x)) [
      | inl const ↦ rw const h
      | inr other ↦ rw other (get_var-Ensures max_alloc vars ring s p x (find p.vartable x) a h)
    ]
    get_value-Ensures p (int_arr x i) a h = elim (Bool-cases (str_eq (codes "argv") x)) [
      | inl const ↦
          rw const (get_argv-Ensures max_alloc vars ring s _ (get_value-Ensures p i a.1 h))
      | inr other ↦ rw other (
          get_element-Ensures max_alloc vars ring s p x _ (find p.vartable x) a.0 h
            (get_value-Ensures p i a.1 h))
    ]

    -- Setting a value keeps `P`.
    pub set_value-Ensures :
        (p : Program Table Buffer) (o : Operand) (v : ℤ)
        → Names N o
        → P p
        → Ensures max_alloc vars ring s (set_value max_alloc vars ring p o v)
    unfolding set_value
    set_value-Ensures p (int_val w) v a h = h
    set_value-Ensures p unset v a h = h
    set_value-Ensures p (int_var x) v a h = elim (Bool-cases (str_eq (codes "argc") x)) [
      | inl const ↦ rw const (s.message p _ h)
      | inr other ↦
          rw other (set_var-Ensures max_alloc vars ring s p x v (find p.vartable x) refl a h)
    ]
    set_value-Ensures p (int_arr x i) v a h = elim (Bool-cases (str_eq (codes "argv") x)) [
      | inl const ↦ rw const (s.message p _ h)
      | inr other ↦ rw other (
          set_element-Ensures max_alloc vars ring s p x v _ (find p.vartable x) a.0 h
            (get_value-Ensures p i a.1 h))
    ]
