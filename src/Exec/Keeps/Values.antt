-- ===== src/Exec/Keeps/Values.antt =====
-- Reading and setting values, taking tokens, naming a global variable and binding a label keep what is
-- kept by each change.
use simbly.Exec.Keeps.{Kept, Kept-Steps, same_place}
use simbly.Exec.Machine.{
  read_or, next_token, read_token, read_unchecked, drain, drain_all, element_key, global_key,
  label_data_size, known_label, insert_result, label_of, insert_label_to_vartable, stop_at,
}
use simbly.Exec.Values.Ensures.{Names, Ensures}
use simbly.Exec.Values.Induction.{get_value-Ensures, set_value-Ensures}
use simbly.Exec.Values.{
  Value, get_value, set_value, at_token, reset, reset_value, value_of, assign_to, varval_get_value,
  varval_set_value,
}
use simbly.Prelude.{
  ℕ, zero, suc, refl, ◌==◌, Bool, true, false, Option, none, some, Bytes, ℤ, length, ltb, if_both,
  Outcome, done, fatal, undefined, Always, Always->>=,
}
use simbly.Program.{
  Message, Program, Token, Operand, int_val, int_var, int_arr, unset, Payload, label, instruction,
  operand, string, LabelData, Cell, array, label_data,
}
use simbly.Voids.{HashTable, RingBuffer}

all-Names : (o : Operand) → Names (λ x. Unit) o
all-Names (int_val v) = tt
all-Names unset = tt
all-Names (int_var x) = tt
all-Names (int_arr x i) = (tt, all-Names i)

module _ (max_alloc : ℕ) (vars : HashTable Cell) (ring : RingBuffer Token)
    {P : Program vars.Table ring.Buffer → Type 0} (k : Kept max_alloc vars ring P) where
  open vars use {Table, find, insert}
  open ring use {Buffer, items, read}

  -- The program in a result has `P`.
  abbrev pub With : {A : Type 0} → Outcome (Program Table Buffer × A) → Type 0
  With = Always λ o. P o.0

  Ensures-With :
      (m : Value max_alloc vars ring)
      → Ensures max_alloc vars ring (Kept-Steps max_alloc vars ring k) m
      → With m
  Ensures-With (done (q, v)) h = h
  Ensures-With fatal h = h
  Ensures-With (undefined u) h = h

  get_value-With :
      (p : Program Table Buffer) (o : Operand) → P p → With (get_value max_alloc vars ring p o)
  get_value-With p o h =
      Ensures-With (get_value max_alloc vars ring p o) (
        get_value-Ensures max_alloc vars ring (Kept-Steps max_alloc vars ring k) p o (all-Names o)
          h)

  set_value-With :
      (p : Program Table Buffer) (o : Operand) (v : ℤ)
      → P p
      → With (set_value max_alloc vars ring p o v)
  set_value-With p o v h = Ensures-With (set_value max_alloc vars ring p o v) (
      set_value-Ensures max_alloc vars ring (Kept-Steps max_alloc vars ring k) p o v (all-Names o)
        h)

  pub value_of-With :
      (p : Program Table Buffer) (payload : Payload)
      → P p
      → With (value_of max_alloc vars ring p payload)
  value_of-With p (operand o) h = get_value-With p o h
  value_of-With p (label x n) h = h
  value_of-With p (instruction code) h = h
  value_of-With p (string w) h = h

  assign_to-With :
      (p : Program Table Buffer) (payload : Payload) (v : ℤ)
      → P p
      → With (assign_to max_alloc vars ring p payload v)
  assign_to-With p (operand o) v h = set_value-With p o v h
  assign_to-With p (label x n) v h = h
  assign_to-With p (instruction code) v h = h
  assign_to-With p (string w) v h = h

  -- The position that messages name is set and set back.
  pub at_token-Kept :
      (tok : Token) (p : Program Table Buffer) → P p → P (at_token max_alloc vars ring tok p)
  at_token-Kept tok p h = same_place max_alloc vars ring k p _ refl refl refl h

  pub reset-Kept : (p q : Program Table Buffer) → P q → P (reset max_alloc vars ring p q)
  reset-Kept p q h = same_place max_alloc vars ring k q _ refl refl refl h

  reset_value-With :
      (p : Program Table Buffer) (m : Value max_alloc vars ring)
      → With m
      → With (reset_value max_alloc vars ring p m)
  reset_value-With p m h = Always->>= (λ o. P o.0) (λ o. P o.0) m _ h λ (q, v) a. reset-Kept p q a

  pub varval_get_value-With :
      (p : Program Table Buffer) (tok : Token)
      → P p
      → With (varval_get_value max_alloc vars ring p tok)
  unfolding varval_get_value
  varval_get_value-With p tok h =
      reset_value-With p _
        (value_of-With (at_token max_alloc vars ring tok p) tok.payload (at_token-Kept tok p h))

  pub varval_set_value-With :
      (p : Program Table Buffer) (tok : Token) (v : ℤ)
      → P p
      → With (varval_set_value max_alloc vars ring p tok v)
  unfolding varval_set_value
  varval_set_value-With p tok v h =
      reset_value-With p _
        (assign_to-With (at_token max_alloc vars ring tok p) tok.payload v (at_token-Kept tok p h))

  pub next_token-Kept : (p : Program Table Buffer) → P p → P (next_token max_alloc vars ring p).1
  unfolding next_token
  next_token-Kept p h = k.tokens p (read p.translated_line).1 h

  read_or-Always :
      {A : Type 0} (Q : A → Type 0) (missing : Outcome A) (o : Option Token) (f : Token → Outcome A)
      → Always Q missing
      → ((tok : Token) → Always Q (f tok))
      → Always Q (read_or max_alloc vars ring missing o f)
  read_or-Always Q missing none f m h = m
  read_or-Always Q missing (some tok) f m h = h tok

  -- What follows a token that is taken, or the end of the process, or a fault.
  pub read_token-Always :
      {A : Type 0} (Q : A → Type 0) (p : Program Table Buffer)
      (f : Token → Program Table Buffer → Outcome A)
      → P p
      → ((tok : Token) (q : Program Table Buffer) → P q → Always Q (f tok q))
      → Always Q (read_token max_alloc vars ring p f)
  read_token-Always Q p f h g =
      read_or-Always Q fatal (next_token max_alloc vars ring p).0 _ tt
        (λ tok. g tok _ (next_token-Kept p h))

  pub read_unchecked-Always :
      {A : Type 0} (Q : A → Type 0) (p : Program Table Buffer)
      (f : Token → Program Table Buffer → Outcome A)
      → P p
      → ((tok : Token) (q : Program Table Buffer) → P q → Always Q (f tok q))
      → Always Q (read_unchecked max_alloc vars ring p f)
  read_unchecked-Always Q p f h g =
      read_or-Always Q (undefined _) (next_token max_alloc vars ring p).0 _ tt
        (λ tok. g tok _ (next_token-Kept p h))

  drain-Kept : (fuel : ℕ) (p : Program Table Buffer) → P p → P (drain max_alloc vars ring fuel p)
  unfolding drain
  drain-Kept zero p h = h
  drain-Kept (suc fuel) p h =
      let (tok, q) = next_token max_alloc vars ring p in
      let a : P q = next_token-Kept p h in
      elim tok
        as (λ t. P (elim t as (λ _. Program Table Buffer) [
          | none ↦ q
          | some _ ↦ drain max_alloc vars ring fuel q
        ])) [ none ↦ a | some _ ↦ drain-Kept fuel q a ]

  pub drain_all-Kept : (p : Program Table Buffer) → P p → P (drain_all max_alloc vars ring p)
  drain_all-Kept p h = drain-Kept (suc (length (items p.translated_line))) p h

  element_key-With :
      (name : Bytes) (o : Program Table Buffer × Option ℤ)
      → P o.0
      → With (element_key max_alloc vars ring name o)
  element_key-With name (q, none) h = h
  element_key-With name (q, some v) h = h

  pub global_key-With :
      (p : Program Table Buffer) (payload : Payload)
      → P p
      → With (global_key max_alloc vars ring p payload)
  global_key-With p (operand (int_arr name i)) h =
      Always->>= (λ o. P o.0) (λ o. P o.0) (get_value max_alloc vars ring p i) _
        (get_value-With p i h) λ o a. element_key-With name o a
  global_key-With p (operand (int_var name)) h = h
  global_key-With p (operand (int_val v)) h = tt
  global_key-With p (operand unset) h = tt
  global_key-With p (label name offset) h = h
  global_key-With p (string name) h = h
  global_key-With p (instruction code) h = tt

  pub stop_at-Kept :
      (tok : Token) (m : Message) (p : Program Table Buffer)
      → P p
      → P (stop_at max_alloc vars ring tok m p)
  stop_at-Kept tok m p h = same_place max_alloc vars ring k p _ refl refl refl h

  known_label-With :
      (p : Program Table Buffer) (tok : Token) (l : LabelData) (o : Option Cell)
      → P p
      → With (known_label max_alloc vars ring p tok l o)
  known_label-With p tok l none h = tt
  known_label-With p tok l (some (array xs)) h = tt
  known_label-With p tok l (some (label_data m)) h =
      if_both With (m.offset == l.offset) h (stop_at-Kept tok _ p h)

  insert_result-With :
      (p : Program Table Buffer) (tok : Token) (name : Bytes) (l : LabelData) (o : Table × Bool)
      → P (record p { vartable = o.0 })
      → With (insert_result max_alloc vars ring p tok name l o)
  insert_result-With p tok name l (t, true) h = h
  insert_result-With p tok name l (t, false) h =
      known_label-With (record p { vartable = t }) tok l (find t name) h

  pub insert_label-With :
      (p : Program Table Buffer) (tok : Token) (name : Bytes) (offset : ℕ)
      → P p
      → With (insert_label_to_vartable max_alloc vars ring p tok name offset)
  unfolding insert_label_to_vartable
  insert_label-With p tok name offset h = if_both With (ltb max_alloc label_data_size) tt (
      insert_result-With p tok name (label_of max_alloc vars ring tok offset) _
        (k.labels p name (label_of max_alloc vars ring tok offset) h))
