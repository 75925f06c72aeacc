-- ===== src/Exec/Values.antt =====
-- The local variables: __varval_get_value, __varval_set_value and their wrappers of src/exec.c. A
-- result of 0 is `none`; the int that `*value` receives is in `some`. Memory that is not needed
-- any more is left to the allocator: `free` has no counterpart here.
pub mod Store
pub mod Frame
pub mod Ensures
pub mod Induction
pub mod Growth
pub mod Again
pub mod Invariant
use simbly.Prelude.{
  ℕ, zero, suc, ◌+◌, ◌-◌, ◌*◌, Bool, true, false, Option, none, some, List, [], ◌∷◌, ◌++◌, Bytes,
  codes, str_eq, ℤ, pos, negsuc, leb_ℤ, int_bound, ltb, leb, ◌==◌, if◌then◌else◌, length, get_elem?,
  get_or, set, take, replicate, Outcome, done, fatal, undefined, ◌>>=◌, use_after_free,
  out_of_bounds, signed_overflow, uninitialised_read,
}
use simbly.Program.{
  Program, Token, Message, Operand, int_val, int_var, int_arr, unset, Payload, operand, Cell, array,
  label_data, stop_with, outside_argv, label_with_same_name, array_by_name, negative_index,
  argc_is_constant, argv_is_constant,
}
use simbly.Voids.{HashTable, RingBuffer}

-- An array that is reallocated to `m` ints: `for (i = arr[0]; i < m + 1; i++) arr[i] = 0;` starts at
-- the last element of the old array, since `arr[0]` is the length and the elements follow it.
abbrev pub grow : ℕ → List ℤ → List ℤ
grow m xs = take (length xs - 1) xs ++ replicate (m - (length xs - 1)) (pos 0)

-- Room for the length and the elements up to `n`, where allocations fail above `max_alloc` bytes:
-- the int `n + 2` may overflow.
unfoldable pub allocate : ℕ → ℕ → List ℤ → Outcome (List ℤ)
allocate max_alloc n xs =
    if leb int_bound (n + 2)
    then undefined signed_overflow
    else if ltb max_alloc (4 * (n + 2))
    then fatal
    else done xs

-- The array that a pair's `pData` was read from before the index was computed. If computing the
-- index has reallocated it, the pointer is stale.
abbrev same_array : List ℤ → Option Cell → Outcome (List ℤ)
same_array xs (some (array ys)) =
    if length ys == length xs then done ys else undefined use_after_free
same_array xs _ = undefined use_after_free

-- argv[tmp_idx + 2], where the array begins with the ID and argc.
abbrev argv_slot : ℤ → Option ℕ
argv_slot (pos n) = some (n + 2)
argv_slot (negsuc zero) = some 1
argv_slot (negsuc (suc zero)) = some 0
argv_slot (negsuc (suc (suc n))) = none

abbrev slot_value : List ℤ → Option ℕ → Outcome ℤ
slot_value argv none = undefined out_of_bounds
slot_value argv (some k) = elim (get_elem? argv k) [
  | none ↦ undefined out_of_bounds
  | some v ↦ done v
]

abbrev pub argc : List ℤ → ℤ
argc argv = get_or argv 1 (pos 0)

module _ (max_alloc : ℕ) (vars : HashTable Cell) (ring : RingBuffer Token) where
  open vars use {Table, find, insert, update}
  open ring use {Buffer}

  abbrev pub Value : Type 0
  Value = Outcome (Program Table Buffer × Option ℤ)

  abbrev fail : Program Table Buffer → Message → Value
  fail p m = done (record p { reader = stop_with m p.reader }, none)

  -- VDS around QuadHash_insert: a key that exists ends the process.
  abbrev inserted : Program Table Buffer → ℤ → Table × Bool → Value
  inserted p v (t, true) = done (record p { vartable = t }, some v)
  inserted p v (t, false) = fatal

  abbrev pub updated : Program Table Buffer → Bytes → List ℤ → Program Table Buffer
  updated p x xs = record p { vartable = update p.vartable x (array xs) }

  -- Goes on with the value of an index, unless computing it has failed or it is negative.
  abbrev with_index : (Program Table Buffer → ℕ → Value) → Program Table Buffer × Option ℤ → Value
  with_index f (p, none) = done (p, none)
  with_index f (p, some (negsuc n)) = fail p negative_index
  with_index f (p, some (pos n)) =
      if leb int_bound (n + 1) then undefined signed_overflow else f p n

  -- The arguments of the program.
  abbrev get_argv : Program Table Buffer × Option ℤ → Value
  get_argv (p, none) = done (p, none)
  get_argv (p, some i) =
      if leb_ℤ (argc p.argv) i
      then fail p outside_argv
      else slot_value p.argv (argv_slot i) >>= λ v. done (p, some v)

  -- A variable, by what its name is bound to.
  abbrev get_var : Program Table Buffer → Bytes → Option Cell → Value
  get_var p x (some (label_data l)) = fail p label_with_same_name
  get_var p x (some (array xs)) =
      if ltb 1 (length xs)
      then fail p array_by_name
      else slot_value xs (some 0) >>= λ v. done (p, some v)
  get_var p x none = allocate max_alloc 0 (pos 0 ∷ []) >>= λ ys.
      inserted p (pos 0) (insert p.vartable x (array ys))

  abbrev get_at : Bytes → Program Table Buffer → ℕ → List ℤ → Value
  get_at x p n xs =
      if ltb n (length xs)
      then done (p, some (get_or xs n (pos 0)))
      else allocate max_alloc n (grow (n + 1) xs) >>= λ ys. done (updated p x ys, some (pos 0))

  -- An element, by what its array's name was bound to before its index was computed.
  abbrev get_element : Program Table Buffer → Bytes → Value → Option Cell → Value
  get_element p x index (some (label_data l)) = fail p label_with_same_name
  get_element p x index (some (array xs)) =
      index >>= with_index λ q n. same_array xs (find q.vartable x) >>= get_at x q n
  get_element p x index none =
      index
      >>= with_index λ q n. allocate max_alloc n (replicate (n + 1) (pos 0)) >>= λ ys.
          inserted q (pos 0) (insert q.vartable x (array ys))

  -- __varval_get_value
  unfoldable pub get_value : Program Table Buffer → Operand → Value
  unfolding allocate str_eq
  get_value p (int_val v) = done (p, some v)
  get_value p unset = undefined uninitialised_read
  get_value p (int_var x) =
      if str_eq (codes "argc") x
      then done (p, some (argc p.argv))
      else get_var p x (find p.vartable x)
  get_value p (int_arr x i) =
      let index = get_value p i in
      if str_eq (codes "argv") x
      then index >>= get_argv
      else get_element p x index (find p.vartable x)

  abbrev set_var : Program Table Buffer → Bytes → ℤ → Option Cell → Value
  set_var p x v (some (label_data l)) = fail p label_with_same_name
  set_var p x v (some (array xs)) =
      if ltb 1 (length xs)
      then fail p array_by_name
      else slot_value xs (some 0) >>= λ _. done (updated p x (set xs 0 v), some v)
  set_var p x v none =
      allocate max_alloc 0 (v ∷ []) >>= λ ys. inserted p v (insert p.vartable x (array ys))

  abbrev set_at : Bytes → ℤ → Program Table Buffer → ℕ → List ℤ → Value
  set_at x v p n xs =
      if ltb n (length xs)
      then done (updated p x (set xs n v), some v)
      else allocate max_alloc n (grow (n + 1) xs) >>= λ ys. done (updated p x (set ys n v), some v)

  abbrev set_element : Program Table Buffer → Bytes → ℤ → Value → Option Cell → Value
  set_element p x v index (some (label_data l)) = fail p label_with_same_name
  set_element p x v index (some (array xs)) =
      index >>= with_index λ q n. same_array xs (find q.vartable x) >>= set_at x v q n
  set_element p x v index none =
      index
      >>= with_index λ q n. allocate max_alloc n (replicate (n + 1) (pos 0)) >>= λ ys.
          inserted q v (insert q.vartable x (array (set ys n v)))

  -- __varval_set_value; a result of 1 is `some` of the value set.
  unfoldable pub set_value : Program Table Buffer → Operand → ℤ → Value
  unfolding allocate get_value str_eq
  set_value p (int_val _) v = done (p, none)
  set_value p unset v = done (p, none)
  set_value p (int_var x) v =
      if str_eq (codes "argc") x then fail p argc_is_constant else set_var p x v (find p.vartable x)
  set_value p (int_arr x i) v =
      if str_eq (codes "argv") x
      then fail p argv_is_constant
      else set_element p x v (get_value p i) (find p.vartable x)

  -- SET_PARSER_IDX and RESET_PARSER_IDX
  abbrev pub move_to : ℕ → ℕ → ℕ → Program Table Buffer → Program Table Buffer
  move_to l col prev p = record p {
    reader = record p.reader { line = l; column = col; prev_col = prev };
  }

  abbrev pub at_token : Token → Program Table Buffer → Program Table Buffer
  at_token tok = move_to tok.line tok.column tok.prev_col

  abbrev pub reset : Program Table Buffer → Program Table Buffer → Program Table Buffer
  reset p = move_to p.line p.column p.prev_col

  abbrev pub reset_value : Program Table Buffer → Value → Value
  reset_value p m = m >>= λ (q, v). done (reset p q, v)

  -- The type and the data of a token: only an operand has a value.
  abbrev pub value_of : Program Table Buffer → Payload → Value
  value_of p (operand o) = get_value p o
  value_of p _ = done (p, none)

  abbrev pub assign_to : Program Table Buffer → Payload → ℤ → Value
  assign_to p (operand o) v = set_value p o v
  assign_to p _ v = done (p, none)

  unfoldable pub varval_get_value : Program Table Buffer → Token → Value
  unfolding get_value
  varval_get_value p tok = reset_value p (value_of (at_token tok p) tok.payload)

  unfoldable pub varval_set_value : Program Table Buffer → Token → ℤ → Value
  unfolding set_value
  varval_set_value p tok v = reset_value p (assign_to (at_token tok p) tok.payload v)
