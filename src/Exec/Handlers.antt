-- ===== src/Exec/Handlers.antt =====
-- The handlers of src/exec.c, but for branches.
pub mod Arithmetic
pub mod Printing
use simbly.Prelude.{
  ℕ, zero, suc, Option, none, some, List, [], ◌∷◌, ◌++◌, Bytes, ℤ, pos, ◌+ℤ◌, ◌-ℤ◌, ◌*ℤ◌, quot_ℤ,
  rem_ℤ, ltb_ℤ, eqb_ℤ, fits_int, if◌then◌else◌, length, get_or, Outcome, done, undefined, ◌>>=◌,
  signed_overflow, division_by_zero, null_dereference,
}
use simbly.Program.{
  Program, Token, Payload, string, label, Cell, sleeping, finished, warn_msg, negative_sleep,
  Instruction, add_sym, sub_sym, mul_sym, div_sym, mod_sym, down_sym, up_sym,
}
use simbly.Exec.Values.{get_value, value_of, varval_get_value, varval_set_value, at_token, reset}
use simbly.Exec.Machine.{Machine, next_token, read_token, read_unchecked, global_key}
use simbly.Global.{GlobalVar, global_var_load, global_var_store, global_var_up, global_var_down}
use simbly.Voids.{HashTable, RingBuffer}

-- An int, or undefined behaviour where the exact result is none.
abbrev in_range : ℤ → Outcome ℤ
in_range v = if fits_int v then done v else undefined signed_overflow

abbrev nonzero : ℤ → Outcome ℤ → Outcome ℤ
nonzero b r = if eqb_ℤ b (pos 0) then undefined division_by_zero else r

-- The switch of primitive_op_handler; `none` is its `default`. `INT_MIN % -1` is undefined with
-- `INT_MIN / -1`.
unfoldable pub primitive_op : Instruction → ℤ → ℤ → Option (Outcome ℤ)
unfolding ◌+ℤ◌ ◌-ℤ◌ ◌*ℤ◌ quot_ℤ rem_ℤ
primitive_op add_sym a b = some (in_range (a +ℤ b))
primitive_op sub_sym a b = some (in_range (a -ℤ b))
primitive_op mul_sym a b = some (in_range (a *ℤ b))
primitive_op div_sym a b = some (nonzero b (in_range (quot_ℤ a b)))
primitive_op mod_sym a b = some (nonzero b (in_range (quot_ℤ a b) >>= λ _. in_range (rem_ℤ a b)))
primitive_op _ a b = none

module _ (max_alloc : ℕ) (vars : HashTable Cell) (ring : RingBuffer Token)
    (globals : HashTable (Option GlobalVar)) where
  open ring use {Buffer, items}

  abbrev Step : Type 0
  Step = Outcome (Machine vars.Table Buffer globals.Table)

  abbrev pub with_program :
      Machine vars.Table Buffer globals.Table
      → Program vars.Table Buffer
      → Machine vars.Table Buffer globals.Table
  with_program m p = record m { program = p }

  -- Goes on with a value, unless the step has returned 0.
  abbrev pub if_some :
      {A : Type 0}
      → Machine vars.Table Buffer globals.Table
      → Outcome (Program vars.Table Buffer × Option A)
      → (Program vars.Table Buffer → A → Step)
      → Step
  if_some m o f = o >>= λ (p, v). elim v [ none ↦ done (with_program m p) | some a ↦ f p a ]

  abbrev pub assign :
      Machine vars.Table Buffer globals.Table → Program vars.Table Buffer → Token → ℤ → Step
  assign m p tok v =
      varval_set_value max_alloc vars ring p tok v >>= λ (q, _). done (with_program m q)

  unfoldable pub load_handler : Machine vars.Table Buffer globals.Table → Step
  unfolding next_token varval_set_value global_var_load
  load_handler m = read_token max_alloc vars ring m.program λ varval_tok p.
      read_token max_alloc vars ring p λ global_tok q.
        if_some m (global_key max_alloc vars ring q global_tok.payload) λ p' (key, idx).
          global_var_load max_alloc globals m.globals key idx >>= λ (g, v).
          assign (record m { globals = g }) p' varval_tok v

  unfoldable pub store_handler : Machine vars.Table Buffer globals.Table → Step
  unfolding next_token varval_get_value global_var_store
  store_handler m = read_token max_alloc vars ring m.program λ global_tok p.
      read_token max_alloc vars ring p λ varval_tok q.
        if_some m (global_key max_alloc vars ring q global_tok.payload) λ p' (key, idx).
          if_some m (varval_get_value max_alloc vars ring p' varval_tok) λ q' v.
            global_var_store max_alloc globals m.globals key idx v >>= λ (g, _).
            done (record m { program = q'; globals = g })

  unfoldable pub set_handler : Machine vars.Table Buffer globals.Table → Step
  unfolding next_token varval_get_value varval_set_value
  set_handler m = read_token max_alloc vars ring m.program λ var_tok p.
      read_token max_alloc vars ring p λ val_tok q.
        if_some m (varval_get_value max_alloc vars ring q val_tok) λ p' v. assign m p' var_tok v

  abbrev pub op_result :
      Machine vars.Table Buffer globals.Table
      → Program vars.Table Buffer
      → Token
      → Option (Outcome ℤ)
      → Step
  op_result m p res none = done (with_program m p)
  op_result m p res (some v) = v >>= assign m p res

  unfoldable pub primitive_op_handler : Instruction → Machine vars.Table Buffer globals.Table → Step
  unfolding next_token varval_get_value varval_set_value primitive_op
  primitive_op_handler code m = read_token max_alloc vars ring m.program λ res p.
      read_token max_alloc vars ring p λ varval1 p. read_token max_alloc vars ring p λ varval2 p.
        if_some m (varval_get_value max_alloc vars ring p varval1) λ p a.
          if_some m (varval_get_value max_alloc vars ring p varval2)
            λ p b. op_result m p res (primitive_op code a b)

  abbrev pub semaphore_op :
      Instruction
      → Machine vars.Table Buffer globals.Table
      → Program vars.Table Buffer
      → Bytes × ℕ
      → Step
  semaphore_op down_sym m p (key, idx) =
      global_var_down max_alloc globals p m.globals key idx >>= λ (q, g).
      done (record m { program = q; globals = g })
  semaphore_op up_sym m p (key, idx) =
      global_var_up max_alloc globals m.globals key idx >>= λ (g, _).
      done (record m { program = p; globals = g })
  semaphore_op _ m p _ = done (with_program m p)

  unfoldable pub semaphore_handler : Instruction → Machine vars.Table Buffer globals.Table → Step
  unfolding next_token global_var_down global_var_up
  semaphore_handler code m = read_token max_alloc vars ring m.program λ global_tok p.
      if_some m (global_key max_alloc vars ring p global_tok.payload) (semaphore_op code m)

  abbrev pub sleep_for : ℤ → Program vars.Table Buffer → Program vars.Table Buffer
  sleep_for v p =
      if ltb_ℤ (pos 0) v
      then record p {
        reader = record p.reader { state = sleeping };
        sleep_sec = v;
        sleep_nsec = pos 0;
      }
      else record p { reader = warn_msg negative_sleep p.reader }

  -- An early return of sleep_handler leaves the position of the token in the program.
  abbrev pub sleep_with :
      Machine vars.Table Buffer globals.Table
      → Program vars.Table Buffer
      → Program vars.Table Buffer × Option ℤ
      → Step
  sleep_with m p (q, none) = done (with_program m q)
  sleep_with m p (q, some v) = done (with_program m (reset max_alloc vars ring p (sleep_for v q)))

  unfoldable pub sleep_handler : Machine vars.Table Buffer globals.Table → Step
  unfolding next_token get_value
  sleep_handler m = read_unchecked max_alloc vars ring m.program λ tok p.
      value_of max_alloc vars ring (at_token max_alloc vars ring tok p) tok.payload
      >>= sleep_with m p

  abbrev Values : Type 0
  Values = Outcome (Program vars.Table Buffer × List ℤ)

  abbrev pub print_value :
      (Program vars.Table Buffer → List ℤ → Values)
      → List ℤ
      → Program vars.Table Buffer × Option ℤ
      → Values
  print_value again vs (p, none) = done (p, vs)
  print_value again vs (p, some v) = again p (vs ++ v ∷ [])

  abbrev pub print_next :
      (Program vars.Table Buffer → List ℤ → Values)
      → List ℤ
      → Option Token × Program vars.Table Buffer
      → Values
  print_next again vs (none, p) = done (p, vs)
  print_next again vs (some tok, p) =
      varval_get_value max_alloc vars ring p tok >>= print_value again vs

  -- The loop of print_handler, with the values printed so far. It reads a token a round, so fuel
  -- above the count of tokens is enough.
  unfoldable pub print_values : ℕ → Program vars.Table Buffer → List ℤ → Values
  unfolding next_token varval_get_value
  print_values zero p vs = done (p, vs)
  print_values (suc fuel) p vs =
      print_next (λ q ws. print_values fuel q ws) vs (next_token max_alloc vars ring p)

  abbrev pub string_of : Payload → Outcome Bytes
  string_of (string w) = done w
  string_of (label w offset) = done w
  string_of _ = undefined null_dereference

  unfoldable pub print_handler : Machine vars.Table Buffer globals.Table → Step
  unfolding next_token print_values
  print_handler m = read_unchecked max_alloc vars ring m.program λ tok p.
      string_of tok.payload >>= λ w.
      print_values (suc (length (items p.translated_line))) p [] >>= λ (q, vs). done (record m {
        program = q;
        output = m.output ++ (record { id = get_or q.argv 0 (pos 0); text = w; values = vs } ∷ []);
      })

  abbrev pub return_handler : Machine vars.Table Buffer globals.Table → Step
  return_handler m =
      done (
        with_program m (record m.program { reader = record m.program.reader { state = finished } }))
