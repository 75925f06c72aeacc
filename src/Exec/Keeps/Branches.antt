-- ===== src/Exec/Keeps/Branches.antt =====
-- Branches of src/exec.c keep what is kept by each change: a jump moves the reader in its file, and the
-- search for a label reads lines as the scanner does.
use simbly.Exec.Branch.{
  compare_op, is_finished, jump_if_new, search_on, passed_line, search_label, search_fuel,
  branch_found, name_of, jump, jump_if, compared, branch_always, branch_compare, branch_handler,
}
use simbly.Exec.Keeps.Values.{
  varval_get_value-With, read_token-Always, read_unchecked-Always, drain_all-Kept, stop_at-Kept,
  insert_label-With,
}
use simbly.Exec.Keeps.{Kept, Kept-Closed}
use simbly.Exec.Machine.{jump_to, read_token, drain_all, insert_label_to_vartable}
use simbly.Exec.Values.{varval_get_value}
use simbly.Prelude.{
  ℕ, zero, suc, Bool, true, false, Option, none, some, Bytes, str_eq, ℤ, refl, if_both, Outcome,
  ◌>>=◌, Always, Always->>=,
}
use simbly.Program.{
  Program, Token, Payload, label, instruction, operand, string, LabelData, Cell, array, label_data,
  Instruction, load_sym, store_sym, set_sym, add_sym, sub_sym, mul_sym, div_sym, mod_sym, brgt_sym,
  brge_sym, brlt_sym, brle_sym, breq_sym, bra_sym, down_sym, up_sym, sleep_sym, print_sym,
  return_sym,
}
use simbly.Scanner.Tokenize.{tokenize_next_line}
use simbly.Scanner.Tokenize.Keeps.{tokenize_next_line-Keeps}
use simbly.Voids.{HashTable, RingBuffer}

module _ (max_alloc : ℕ) (instructions : HashTable Instruction) (vars : HashTable Cell)
    (ring : RingBuffer Token) (table : instructions.Table)
    {P : Program vars.Table ring.Buffer → Type 0} (k : Kept max_alloc vars ring P) where
  open ring use {Buffer}

  abbrev Next : Type 0
  Next = Outcome (Program vars.Table Buffer)

  with_token :
      (p : Program vars.Table Buffer) (f : Token → Program vars.Table Buffer → Next)
      → P p
      → ((tok : Token) (q : Program vars.Table Buffer) → P q → Always P (f tok q))
      → Always P (read_token max_alloc vars ring p f)
  with_token = read_token-Always max_alloc vars ring k P

  -- fseek to the place that a label names.
  jump_to-Kept :
      (l : LabelData) (p : Program vars.Table Buffer) → P p → P (jump_to max_alloc vars ring l p)
  jump_to-Kept l p h = k.reads p (jump_to max_alloc vars ring l p).reader (refl, λ _. refl) h

  jump_if_new-Always :
      (o : Program vars.Table Buffer × Option LabelData)
      → P o.0
      → Always P (jump_if_new max_alloc instructions vars ring table o)
  jump_if_new-Always (p, none) h = h
  jump_if_new-Always (p, some l) h = jump_to-Kept l p h

  search_on-Always :
      (again : Program vars.Table Buffer → Next) (tok : Token) (p : Program vars.Table Buffer)
      → Always P (again p)
      → P p
      → Always P (search_on max_alloc instructions vars ring table again tok p)
  search_on-Always again tok p g h =
      if_both (Always P) (is_finished p.state) (stop_at-Kept max_alloc vars ring k tok _ p h) g

  passed_line-Always :
      (again : Program vars.Table Buffer → Next) (tok : Token) (name : Bytes) (new : Token)
      (payload : Payload) (p : Program vars.Table Buffer)
      → Always P (again p)
      → P p
      → Always P (passed_line max_alloc instructions vars ring table again tok name new payload p)
  passed_line-Always again tok name new (label found offset) p g h =
      if_both (Always P) (str_eq found name)
        (Always->>= (λ o. P o.0) P (insert_label_to_vartable max_alloc vars ring p new found offset)
          _ (insert_label-With max_alloc vars ring k p new found offset h)
          (λ o a. jump_if_new-Always o a))
        (search_on-Always again tok p g h)
  passed_line-Always again tok name new (instruction code) p g h = search_on-Always again tok p g h
  passed_line-Always again tok name new (operand o) p g h = search_on-Always again tok p g h
  passed_line-Always again tok name new (string w) p g h = search_on-Always again tok p g h

  search_label-Always :
      (fuel : ℕ) (tok : Token) (name : Bytes) (p : Program vars.Table Buffer)
      → P p
      → Always P (search_label max_alloc instructions vars ring table fuel tok name p)
  unfolding search_label
  search_label-Always zero tok name p h = h
  search_label-Always (suc fuel) tok name p h =
      Always->>= P P (tokenize_next_line instructions ring table p) _
        (tokenize_next_line-Keeps instructions ring table (Kept-Closed max_alloc vars ring k) p h)
        λ p' a.
          read_unchecked-Always max_alloc vars ring k P p'
            (λ new q.
              passed_line max_alloc instructions vars ring table
                (search_label max_alloc instructions vars ring table fuel tok name) tok name new
                new.payload (drain_all max_alloc vars ring q))
            a
            λ new q b.
              let c = drain_all-Kept max_alloc vars ring k q b in
              passed_line-Always (search_label max_alloc instructions vars ring table fuel tok name)
                tok name new new.payload (drain_all max_alloc vars ring q)
                (search_label-Always fuel tok name _ c) c

  branch_found-Always :
      (p : Program vars.Table Buffer) (tok : Token) (name : Bytes) (o : Option Cell)
      → P p
      → Always P (branch_found max_alloc instructions vars ring table p tok name o)
  branch_found-Always p tok name (some (label_data l)) h = jump_to-Kept l p h
  branch_found-Always p tok name (some (array xs)) h = stop_at-Kept max_alloc vars ring k tok _ p h
  branch_found-Always p tok name none h =
      search_label-Always (search_fuel max_alloc instructions vars ring table p) tok name p h

  jump-Always :
      (p : Program vars.Table Buffer) (tok : Token)
      → P p
      → Always P (jump max_alloc instructions vars ring table p tok)
  unfolding jump
  jump-Always p tok h = from tok.payload
    where
      from :
          (w : Payload)
          → Always P (
              name_of max_alloc instructions vars ring table w >>= λ name.
              branch_found max_alloc instructions vars ring table p tok name
                (vars.find p.vartable name))
      from (label name offset) = branch_found-Always p tok name _ h
      from (string name) = branch_found-Always p tok name _ h
      from (instruction code) = tt
      from (operand o) = tt

  jump_if-Always :
      (b : Option Bool) (p : Program vars.Table Buffer) (tok : Token)
      → P p
      → Always P (jump_if max_alloc instructions vars ring table b p tok)
  jump_if-Always none p tok h = h
  jump_if-Always (some false) p tok h = h
  jump_if-Always (some true) p tok h = jump-Always p tok h

  compared-Always :
      (o : Program vars.Table Buffer × Option ℤ) (f : ℤ → Program vars.Table Buffer → Next)
      → P o.0
      → ((v : ℤ) (p : Program vars.Table Buffer) → P p → Always P (f v p))
      → Always P (compared max_alloc instructions vars ring table o f)
  compared-Always (p, none) f h g = h
  compared-Always (p, some v) f h g = g v p h

  -- A value is read, or the step has returned 0.
  with_value :
      (p : Program vars.Table Buffer) (tok : Token) (f : ℤ → Program vars.Table Buffer → Next)
      → P p
      → ((v : ℤ) (q : Program vars.Table Buffer) → P q → Always P (f v q))
      → Always P (
          varval_get_value max_alloc vars ring p tok >>= λ pv.
          compared max_alloc instructions vars ring table pv f)
  with_value p tok f h g =
      Always->>= (λ o. P o.0) P (varval_get_value max_alloc vars ring p tok) _
        (varval_get_value-With max_alloc vars ring k p tok h) (λ o a. compared-Always o f a g)

  branch_always-Always :
      (p : Program vars.Table Buffer)
      → P p
      → Always P (branch_always max_alloc instructions vars ring table p)
  unfolding branch_always
  branch_always-Always p h = with_token p _ h (λ tok q a. jump-Always q tok a)

  branch_compare-Always :
      (code : Instruction) (p : Program vars.Table Buffer)
      → P p
      → Always P (branch_compare max_alloc instructions vars ring table code p)
  unfolding branch_compare
  branch_compare-Always code p h = with_token p _ h λ varval1 q a. with_token q _ a λ varval2 r b.
      with_value r varval1 _ b λ x s c.
        with_value s varval2 _ c
          λ y t d. with_token t _ d λ tok u e. jump_if-Always (compare_op code x y) u tok e

  pub branch_handler-Always :
      (code : Instruction) (p : Program vars.Table Buffer)
      → P p
      → Always P (branch_handler max_alloc instructions vars ring table code p)
  unfolding branch_handler
  branch_handler-Always bra_sym p h = branch_always-Always p h
  branch_handler-Always brgt_sym p h = branch_compare-Always brgt_sym p h
  branch_handler-Always brge_sym p h = branch_compare-Always brge_sym p h
  branch_handler-Always brlt_sym p h = branch_compare-Always brlt_sym p h
  branch_handler-Always brle_sym p h = branch_compare-Always brle_sym p h
  branch_handler-Always breq_sym p h = branch_compare-Always breq_sym p h
  branch_handler-Always load_sym p h = branch_compare-Always load_sym p h
  branch_handler-Always store_sym p h = branch_compare-Always store_sym p h
  branch_handler-Always set_sym p h = branch_compare-Always set_sym p h
  branch_handler-Always add_sym p h = branch_compare-Always add_sym p h
  branch_handler-Always sub_sym p h = branch_compare-Always sub_sym p h
  branch_handler-Always mul_sym p h = branch_compare-Always mul_sym p h
  branch_handler-Always div_sym p h = branch_compare-Always div_sym p h
  branch_handler-Always mod_sym p h = branch_compare-Always mod_sym p h
  branch_handler-Always down_sym p h = branch_compare-Always down_sym p h
  branch_handler-Always up_sym p h = branch_compare-Always up_sym p h
  branch_handler-Always sleep_sym p h = branch_compare-Always sleep_sym p h
  branch_handler-Always print_sym p h = branch_compare-Always print_sym p h
  branch_handler-Always return_sym p h = branch_compare-Always return_sym p h
