-- ===== src/Exec/Values/Store.antt =====
-- The local variables as a store: what is set is read back, and other names keep their values.
use simbly.Prelude.{
  ℕ, ◌+◌, ◌-◌, ◌≤◌, ◌≡◌, refl, false, List, Option, none, some, [], ◌∷◌, Bytes, codes, str_eq, ℤ,
  pos, arith, length, set, replicate, take, done, length-set, length-replicate, length-take,
  length-append, get_or-set_self, Bool-cases, inl, inr,
}
use simbly.Exec.Values.{grow, allocate, get_value, set_value, set_var, set_element}
use simbly.Program.{Program, Token, Cell, array, label_data, int_val, int_var, int_arr}
use simbly.Voids.{HashTable, RingBuffer}

-- A reallocated array has the length that was asked for, if it was shorter.
pub length-grow : (m : ℕ) (xs : List ℤ) → length xs ≤ m → length (grow m xs) ≡ m
length-grow m xs h = omega (
  arith,
  length-append {0} (take (length xs - 1) xs) (replicate (m - (length xs - 1)) (pos 0)),
  length-take {0} (length xs - 1) xs,
  length-replicate {0} (m - (length xs - 1)) (pos 0),
)

module _ (max_alloc : ℕ) (vars : HashTable Cell) (ring : RingBuffer Token) where
  open vars use {Table, find, insert, update, insert_new, find-insert_self, find-update_self}
  open ring use {Buffer}

  set_var-get :
      (p : Program Table Buffer) (x : Bytes) (v : ℤ) {q : Program Table Buffer} {w : ℤ}
      (o : Option Cell)
      → str_eq (codes "argc") x ≡ false
      → find p.vartable x ≡ o
      → set_var max_alloc vars ring p x v o ≡ done (q, some w)
      → get_value max_alloc vars ring q (int_var x) ≡ done (q, some v)
  unfolding get_value allocate
  set_var-get p x v none n e h = ground (
    arith,
    insert_new p.vartable x (array (v ∷ [])) e,
    find-insert_self p.vartable x (array (v ∷ [])) e,
  )
  set_var-get p x v (some (label_data l)) n e h = cc
  set_var-get p x v (some (array [])) n e h = cc
  set_var-get p x v (some (array (y ∷ ys))) n e h =
      ground (arith, find-update_self p.vartable x (array (v ∷ ys)))

  -- Where setting a variable succeeds, reading it succeeds, gives the value set and changes nothing.
  get_value-set_var :
      (p : Program Table Buffer) (x : Bytes) (v : ℤ) {q : Program Table Buffer} {w : ℤ}
      → set_value max_alloc vars ring p (int_var x) v ≡ done (q, some w)
      → get_value max_alloc vars ring q (int_var x) ≡ done (q, some v)
  unfolding set_value
  get_value-set_var p x v h = elim (Bool-cases (str_eq (codes "argc") x)) [
    | inl const ↦ absurd (ground arith)
    | inr other ↦ set_var-get p x v (find p.vartable x) other refl (rw other at h)
  ]

  set_element-get :
      (p : Program Table Buffer) (x : Bytes) (n : ℕ) (v : ℤ) {q : Program Table Buffer} {w : ℤ}
      (o : Option Cell)
      → str_eq (codes "argv") x ≡ false
      → find p.vartable x ≡ o
      → set_element max_alloc vars ring p x v (done (p, some (pos n))) o ≡ done (q, some w)
      → get_value max_alloc vars ring q (int_arr x (int_val (pos n))) ≡ done (q, some v)
  unfolding get_value allocate
  set_element-get p x n v none a e h =
      let ys = set (replicate (n + 1) (pos 0)) n v in
      ground (
        arith,
        insert_new p.vartable x (array ys) e,
        find-insert_self p.vartable x (array ys) e,
        length-set (replicate (n + 1) (pos 0)) n v,
        length-replicate (n + 1) (pos 0),
        get_or-set_self (replicate (n + 1) (pos 0)) n v (pos 0),
      )
  set_element-get p x n v (some (label_data l)) a e h = cc
  set_element-get p x n v (some (array xs)) a e h = ground (
    arith,
    find-update_self p.vartable x (array (set xs n v)),
    find-update_self p.vartable x (array (set (grow (n + 1) xs) n v)),
    length-set xs n v,
    length-set (grow (n + 1) xs) n v,
    length-grow (n + 1) xs,
    get_or-set_self xs n v (pos 0),
    get_or-set_self (grow (n + 1) xs) n v (pos 0),
  )

  -- Where setting an element at an index given as a number succeeds, reading it there succeeds, gives
  -- the value set and changes nothing.
  pub get_value-set_element :
      (p : Program Table Buffer) (x : Bytes) (n : ℕ) (v : ℤ) {q : Program Table Buffer} {w : ℤ}
      → set_value max_alloc vars ring p (int_arr x (int_val (pos n))) v ≡ done (q, some w)
      → get_value max_alloc vars ring q (int_arr x (int_val (pos n))) ≡ done (q, some v)
  unfolding set_value get_value
  get_value-set_element p x n v h = elim (Bool-cases (str_eq (codes "argv") x)) [
    | inl const ↦ absurd (ground arith)
    | inr other ↦ set_element-get p x n v (find p.vartable x) other refl (rw other at h)
  ]
