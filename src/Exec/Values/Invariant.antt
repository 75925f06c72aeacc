-- ===== src/Exec/Values/Invariant.antt =====
-- The invariant of the local variables: an array has at least one element.
use simbly.Prelude.{
  ℕ, ◌<◌, ◌≡◌, ◌≢◌, inl, inr, true, List, Option, none, some, Bytes, ℤ, arith, length, done,
  Option-cases, name_cases,
}
use simbly.Exec.Values.Ensures.{Names, Steps}
use simbly.Exec.Values.Induction.{get_value-Ensures, set_value-Ensures}
use simbly.Exec.Values.{Value, get_value, set_value}
use simbly.Program.{
  Program, Token, Operand, Cell, LabelData, array, label_data, int_val, int_var, int_arr, unset,
}
use simbly.Voids.{HashTable, RingBuffer}

abbrev pub CellIsValid : Option Cell → Type 0
CellIsValid none = Unit
CellIsValid (some (label_data l)) = Unit
CellIsValid (some (array xs)) = 0 < length xs

abbrev Anything : Bytes → Type 0
Anything x = Unit

module _ (max_alloc : ℕ) (vars : HashTable Cell) (ring : RingBuffer Token) where
  open vars use {
    Table, init, find, insert, update, find-init, insert_old, insert_new, find-insert_self,
    find-insert_ne, find-update_self, find-update_ne,
  }
  open ring use {Buffer}

  -- No array is empty.
  abbrev pub IsValid : Table → Type 0
  IsValid t = (y : Bytes) → CellIsValid (find t y)

  pub init-IsValid : IsValid init
  init-IsValid y = rw (find-init y) tt

  pub insert-IsValid :
      (t : Table) (x : Bytes) (xs : List ℤ)
      → IsValid t
      → 0 < length xs
      → (insert t x (array xs)).1 ≡ true
      → IsValid (insert t x (array xs)).0
  insert-IsValid t x xs h l new y = elim (name_cases y x) [
    | inl same ↦ elim (Option-cases (find t x)) [
      | inl free ↦ rw (same, find-insert_self t x (array xs) free) l
      | inr (c, taken) ↦ absurd (ground (arith, insert_old t x (array xs)))
    ]
    | inr other ↦ rw (find-insert_ne t x y (array xs) other) (h y)
  ]

  pub insert_label-IsValid :
      (t : Table) (x : Bytes) (l : LabelData) → IsValid t → IsValid (insert t x (label_data l)).0
  insert_label-IsValid t x l h y = elim (name_cases y x) [
    | inl same ↦ elim (Option-cases (find t x)) [
      | inl free ↦ rw (same, find-insert_self t x (label_data l) free) tt
      | inr (c, taken) ↦ rw (insert_old t x (label_data l) (λ m. cc)) (h y)
    ]
    | inr other ↦ rw (find-insert_ne t x y (label_data l) other) (h y)
  ]

  pub update-IsValid :
      (t : Table) (x : Bytes) (xs : List ℤ)
      → IsValid t
      → 0 < length xs
      → find t x ≢ none
      → IsValid (update t x (array xs))
  update-IsValid t x xs h l b y = elim (name_cases y x) [
    | inl same ↦ rw (same, find-update_self t x (array xs) b) l
    | inr other ↦ rw (find-update_ne t x y (array xs) other) (h y)
  ]

  IsValid-Steps : Steps max_alloc vars ring (λ p. IsValid p.vartable) Anything
  IsValid-Steps = record {
    message = λ q r h. h;
    new_name = λ q x xs n h l new. insert-IsValid q.vartable x xs h l new;
    write = λ q x xs n h l b. update-IsValid q.vartable x xs h l b;
  }

  all-Names : (o : Operand) → Names Anything o
  all-Names (int_val v) = tt
  all-Names unset = tt
  all-Names (int_var x) = tt
  all-Names (int_arr x i) = (tt, all-Names i)

  -- What a call that returns has left is valid.
  abbrev pub LeavesValid : Value max_alloc vars ring → Type 0
  LeavesValid (done (q, r)) = IsValid q.vartable
  LeavesValid _ = Unit

  -- Where no array of the variables is empty, none is where reading a value has returned, whatever the
  -- operand.
  get_value-IsValid :
      (p : Program Table Buffer) (o : Operand)
      → IsValid p.vartable
      → LeavesValid (get_value max_alloc vars ring p o)
  get_value-IsValid p o h = get_value-Ensures max_alloc vars ring IsValid-Steps p o (all-Names o) h

  -- Where no array of the variables is empty, none is where setting a value has returned, whatever
  -- the operand.
  pub set_value-IsValid :
      (p : Program Table Buffer) (o : Operand) (v : ℤ)
      → IsValid p.vartable
      → LeavesValid (set_value max_alloc vars ring p o v)
  set_value-IsValid p o v h =
      set_value-Ensures max_alloc vars ring IsValid-Steps p o v (all-Names o) h
