-- ===== src/Exec/Branch.antt =====
-- Branches (src/exec.c): the comparison, a jump to a label that is known, and the search for one
-- that is not.
pub mod Jump
pub mod Compare
pub mod Fuel
use simbly.Prelude.{
  ℕ, zero, suc, Bool, true, false, Option, none, some, Bytes, str_eq, ℤ, ltb_ℤ, leb_ℤ, eqb_ℤ,
  if◌then◌else◌, length, Outcome, done, undefined, ◌>>=◌, null_dereference,
}
use simbly.Program.{
  Program, Token, Payload, label, string, LabelData, Cell, array, label_data, State, finished,
  branch_to_variable, undefined_label, Instruction, brgt_sym, brge_sym, brlt_sym, brle_sym,
  breq_sym, bra_sym,
}
use simbly.Exec.Values.{varval_get_value}
use simbly.Exec.Machine.{
  jump_to, stop_at, next_token, read_token, read_unchecked, drain, drain_all,
  insert_label_to_vartable,
}
use simbly.Scanner.Tokenize.{tokenize_next_line}
use simbly.Voids.{HashTable, RingBuffer}

-- The switch of branch_handler; `none` is its `default`.
unfoldable pub compare_op : Instruction → ℤ → ℤ → Option Bool
compare_op brgt_sym a b = some (ltb_ℤ b a)
compare_op brge_sym a b = some (leb_ℤ b a)
compare_op brlt_sym a b = some (ltb_ℤ a b)
compare_op brle_sym a b = some (leb_ℤ a b)
compare_op breq_sym a b = some (eqb_ℤ a b)
compare_op _ a b = none

abbrev pub is_finished : State → Bool
is_finished finished = true
is_finished _ = false

module _ (max_alloc : ℕ) (instructions : HashTable Instruction) (vars : HashTable Cell)
    (ring : RingBuffer Token) (table : instructions.Table) where
  open ring use {Buffer}

  abbrev Next : Type 0
  Next = Outcome (Program vars.Table Buffer)

  abbrev pub jump_if_new : Program vars.Table Buffer × Option LabelData → Next
  jump_if_new (p, none) = done p
  jump_if_new (p, some l) = done (jump_to max_alloc vars ring l p)

  abbrev pub search_on :
      (Program vars.Table Buffer → Next) → Token → Program vars.Table Buffer → Next
  search_on again tok p =
      if is_finished p.state
      then done (stop_at max_alloc vars ring tok undefined_label p)
      else again p

  -- The first token of a line that was passed over: the label, or another line.
  abbrev pub passed_line :
      (Program vars.Table Buffer → Next)
      → Token
      → Bytes
      → Token
      → Payload
      → Program vars.Table Buffer
      → Next
  passed_line again tok name new (label found offset) p =
      if str_eq found name
      then insert_label_to_vartable max_alloc vars ring p new found offset >>= jump_if_new
      else search_on again tok p
  passed_line again tok name new _ p = search_on again tok p

  -- The loop over the lines ahead, for the label of token `tok`. Nothing tests whether the line had
  -- a token at all. Each round that goes on has read a character, but for the first, which may
  -- still have tokens of the line before: `search_fuel` is enough.
  unfoldable pub search_label : ℕ → Token → Bytes → Program vars.Table Buffer → Next
  unfolding tokenize_next_line next_token drain insert_label_to_vartable str_eq
  search_label zero tok name p = done p
  search_label (suc fuel) tok name p = tokenize_next_line instructions ring table p >>= λ p'.
      read_unchecked max_alloc vars ring p' λ new q.
        passed_line (λ r. search_label fuel tok name r) tok name new new.payload
          (drain_all max_alloc vars ring q)

  abbrev pub search_fuel : Program vars.Table Buffer → ℕ
  search_fuel p = suc (suc (suc (length p.unread)))

  abbrev pub branch_found : Program vars.Table Buffer → Token → Bytes → Option Cell → Next
  branch_found p tok name (some (label_data l)) = done (jump_to max_alloc vars ring l p)
  branch_found p tok name (some (array xs)) =
      done (stop_at max_alloc vars ring tok branch_to_variable p)
  branch_found p tok name none = search_label (search_fuel p) tok name p

  abbrev pub name_of : Payload → Outcome Bytes
  name_of (label name offset) = done name
  name_of (string name) = done name
  name_of _ = undefined null_dereference

  unfoldable pub jump : Program vars.Table Buffer → Token → Next
  unfolding search_label
  jump p tok = name_of tok.payload >>= λ name. branch_found p tok name (vars.find p.vartable name)

  abbrev pub jump_if : Option Bool → Program vars.Table Buffer → Token → Next
  jump_if none p tok = done p
  jump_if (some false) p tok = done p
  jump_if (some true) p tok = jump p tok

  abbrev pub compared :
      Program vars.Table Buffer × Option ℤ → (ℤ → Program vars.Table Buffer → Next) → Next
  compared (p, none) f = done p
  compared (p, some v) f = f v p

  -- branch_handler, for BRA and for the instructions that compare.
  unfoldable pub branch_always : Program vars.Table Buffer → Next
  unfolding next_token jump
  branch_always p = read_token max_alloc vars ring p λ tok q. jump q tok

  unfoldable pub branch_compare : Instruction → Program vars.Table Buffer → Next
  unfolding next_token varval_get_value jump compare_op
  branch_compare code p = read_token max_alloc vars ring p λ varval1 p.
      read_token max_alloc vars ring p λ varval2 p.
        varval_get_value max_alloc vars ring p varval1 >>= λ pv. compared pv λ a p.
          varval_get_value max_alloc vars ring p varval2 >>= λ pv.
          compared pv
            λ b p. read_token max_alloc vars ring p λ tok q. jump_if (compare_op code a b) q tok

  unfoldable pub branch_handler : Instruction → Program vars.Table Buffer → Next
  unfolding branch_always branch_compare
  branch_handler bra_sym p = branch_always p
  branch_handler code p = branch_compare code p
