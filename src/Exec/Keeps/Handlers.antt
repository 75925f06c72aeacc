-- ===== src/Exec/Keeps/Handlers.antt =====
-- The handlers of src/exec.c, but for branches, keep what is kept by each change.
use simbly.Exec.Handlers.{
  if_some, assign, op_result, primitive_op, semaphore_op, sleep_for, sleep_with, print_value,
  print_next, string_of, print_values, load_handler, store_handler, set_handler,
  primitive_op_handler, semaphore_handler, sleep_handler, print_handler, return_handler,
}
use simbly.Exec.Keeps.Values.{
  With, value_of-With, at_token-Kept, reset-Kept, varval_get_value-With, varval_set_value-With,
  next_token-Kept, read_token-Always, read_unchecked-Always, global_key-With,
}
use simbly.Exec.Keeps.{Kept, same_place}
use simbly.Exec.Machine.{Machine, next_token, read_token}
use simbly.Exec.Values.{value_of, varval_get_value, varval_set_value, at_token}
use simbly.Global.{
  GlobalVar, global_var_load, global_var_store, global_var_up, global_var_down, down_found, block,
}
use simbly.Prelude.{
  ℕ, zero, suc, Option, none, some, List, [], ◌∷◌, ◌++◌, Bytes, ℤ, pos, ltb_ℤ, length, get_or, refl,
  if_both, Outcome, done, ◌>>=◌, Always, Always->>=, any_outcome,
}
use simbly.Program.{Program, Token, Cell, Instruction, down_sym, up_sym}
use simbly.Voids.{HashTable, RingBuffer}

module _ (max_alloc : ℕ) (vars : HashTable Cell) (ring : RingBuffer Token)
    (globals : HashTable (Option GlobalVar)) {P : Program vars.Table ring.Buffer → Type 0}
    (k : Kept max_alloc vars ring P) where
  open ring use {Buffer, items}

  -- The program of a machine has `P`.
  abbrev pub Holds : Machine vars.Table Buffer globals.Table → Type 0
  Holds m = P m.program

  if_some-Holds :
      {A : Type 0} (m : Machine vars.Table Buffer globals.Table)
      (o : Outcome (Program vars.Table Buffer × Option A))
      (f : Program vars.Table Buffer → A → Outcome (Machine vars.Table Buffer globals.Table))
      → With max_alloc vars ring k o
      → ((p : Program vars.Table Buffer) (a : A) → P p → Always Holds (f p a))
      → Always Holds (if_some max_alloc vars ring globals m o f)
  if_some-Holds m o f h g =
      Always->>= (λ o. P o.0) Holds o _ h
        λ (p, v) a.
          elim v
            as (λ v.
              Always Holds (elim v as (λ _. Outcome (Machine vars.Table Buffer globals.Table)) [
                | none ↦ done (record m { program = p })
                | some x ↦ f p x
              ])) [ none ↦ a | some x ↦ g p x a ]

  assign-Holds :
      (m : Machine vars.Table Buffer globals.Table) (p : Program vars.Table Buffer) (tok : Token)
      (v : ℤ)
      → P p
      → Always Holds (assign max_alloc vars ring globals m p tok v)
  assign-Holds m p tok v h =
      Always->>= (λ o. P o.0) Holds (varval_set_value max_alloc vars ring p tok v) _
        (varval_set_value-With max_alloc vars ring k p tok v h) (λ o a. a)

  -- A token is taken, or the process ends.
  with_token :
      (p : Program vars.Table Buffer)
      (f : Token → Program vars.Table Buffer → Outcome (Machine vars.Table Buffer globals.Table))
      → P p
      → ((tok : Token) (q : Program vars.Table Buffer) → P q → Always Holds (f tok q))
      → Always Holds (read_token max_alloc vars ring p f)
  with_token = read_token-Always max_alloc vars ring k Holds

  pub load_handler-Holds :
      (m : Machine vars.Table Buffer globals.Table)
      → Holds m
      → Always Holds (load_handler max_alloc vars ring globals m)
  unfolding load_handler
  load_handler-Holds m h = with_token m.program _ h λ varval_tok p a.
      with_token p _ a λ global_tok q b.
        if_some-Holds m _ _ (global_key-With max_alloc vars ring k q global_tok.payload b)
          λ s (key, idx) c.
            Always->>= (λ o. Unit) Holds (global_var_load max_alloc globals m.globals key idx) _
              (any_outcome _) λ (g, v) _. assign-Holds (record m { globals = g }) s varval_tok v c

  stored-Holds :
      (m : Machine vars.Table Buffer globals.Table) (p : Program vars.Table Buffer) (key : Bytes)
      (idx : ℕ) (v : ℤ)
      → P p
      → Always Holds (
          global_var_store max_alloc globals m.globals key idx v >>= λ (g, _).
          done (record m { program = p; globals = g }))
  stored-Holds m p key idx v h =
      Always->>= (λ o. Unit) Holds (global_var_store max_alloc globals m.globals key idx v)
        (λ o. done (record m { program = p; globals = o.0 })) (any_outcome _) (λ o _. h)

  pub store_handler-Holds :
      (m : Machine vars.Table Buffer globals.Table)
      → Holds m
      → Always Holds (store_handler max_alloc vars ring globals m)
  unfolding store_handler
  store_handler-Holds m h = with_token m.program _ h λ global_tok p a.
      with_token p _ a λ varval_tok q b.
        if_some-Holds m _ _ (global_key-With max_alloc vars ring k q global_tok.payload b)
          λ s (key, idx) c.
            if_some-Holds m _ _ (varval_get_value-With max_alloc vars ring k s varval_tok c)
              λ t v d. stored-Holds m t key idx v d

  pub set_handler-Holds :
      (m : Machine vars.Table Buffer globals.Table)
      → Holds m
      → Always Holds (set_handler max_alloc vars ring globals m)
  unfolding set_handler
  set_handler-Holds m h = with_token m.program _ h λ var_tok p a. with_token p _ a λ val_tok q b.
      if_some-Holds m _ _ (varval_get_value-With max_alloc vars ring k q val_tok b)
        λ s v c. assign-Holds m s var_tok v c

  op_result-Holds :
      (m : Machine vars.Table Buffer globals.Table) (p : Program vars.Table Buffer) (res : Token)
      (o : Option (Outcome ℤ))
      → P p
      → Always Holds (op_result max_alloc vars ring globals m p res o)
  op_result-Holds m p res none h = h
  op_result-Holds m p res (some v) h =
      Always->>= (λ v. Unit) Holds v _ (any_outcome v) λ x _. assign-Holds m p res x h

  pub primitive_op_handler-Holds :
      (code : Instruction) (m : Machine vars.Table Buffer globals.Table)
      → Holds m
      → Always Holds (primitive_op_handler max_alloc vars ring globals code m)
  unfolding primitive_op_handler
  primitive_op_handler-Holds code m h = with_token m.program _ h λ res p a.
      with_token p _ a λ varval1 q b. with_token q _ b λ varval2 s c.
        if_some-Holds m _ _ (varval_get_value-With max_alloc vars ring k s varval1 c) λ t x d.
          if_some-Holds m _ _ (varval_get_value-With max_alloc vars ring k t varval2 d)
            λ u y e. op_result-Holds m u res (primitive_op code x y) e

  block-Kept :
      (p : Program vars.Table Buffer) (key : Bytes) (idx : ℕ)
      → P p
      → P (block max_alloc globals p key idx)
  block-Kept p key idx h =
      k.waits _ (some key) idx (same_place max_alloc vars ring k p _ refl refl refl h)

  global_var_down-With :
      (p : Program vars.Table Buffer) (t : globals.Table) (key : Bytes) (idx : ℕ)
      → P p
      → Always (λ o. P o.0) (global_var_down max_alloc globals p t key idx)
  unfolding global_var_down
  global_var_down-With p t key idx h =
      Always->>= (λ o. Unit) (λ o. P o.0)
        (down_found max_alloc globals t key idx (globals.find t key)) _ (any_outcome _)
        λ o _. block-Kept p key idx h

  semaphore_op-Holds :
      (code : Instruction) (m : Machine vars.Table Buffer globals.Table)
      (p : Program vars.Table Buffer) (key : Bytes) (idx : ℕ)
      → P p
      → Always Holds (semaphore_op max_alloc vars ring globals code m p (key, idx))
  semaphore_op-Holds down_sym m p key idx h =
      Always->>= (λ o. P o.0) Holds (global_var_down max_alloc globals p m.globals key idx) _
        (global_var_down-With p m.globals key idx h) (λ o a. a)
  semaphore_op-Holds up_sym m p key idx h =
      Always->>= (λ o. Unit) Holds (global_var_up max_alloc globals m.globals key idx) _
        (any_outcome _) (λ o a. h)
  semaphore_op-Holds _ m p key idx h = h

  pub semaphore_handler-Holds :
      (code : Instruction) (m : Machine vars.Table Buffer globals.Table)
      → Holds m
      → Always Holds (semaphore_handler max_alloc vars ring globals code m)
  unfolding semaphore_handler
  semaphore_handler-Holds code m h = with_token m.program _ h λ global_tok p a.
      if_some-Holds m _ _ (global_key-With max_alloc vars ring k p global_tok.payload a)
        λ q (key, idx) b. semaphore_op-Holds code m q key idx b

  sleep_for-Kept :
      (v : ℤ) (p : Program vars.Table Buffer) → P p → P (sleep_for max_alloc vars ring globals v p)
  sleep_for-Kept v p h =
      if_both P (ltb_ℤ (pos 0) v)
        (k.sleeps _ v (pos 0) (same_place max_alloc vars ring k p _ refl refl refl h))
        (same_place max_alloc vars ring k p _ refl refl refl h)

  pub sleep_handler-Holds :
      (m : Machine vars.Table Buffer globals.Table)
      → Holds m
      → Always Holds (sleep_handler max_alloc vars ring globals m)
  unfolding sleep_handler
  sleep_handler-Holds m h =
      read_unchecked-Always max_alloc vars ring k Holds m.program _ h λ tok p a.
        Always->>= (λ o. P o.0) Holds
          (value_of max_alloc vars ring (at_token max_alloc vars ring tok p) tok.payload) _
          (value_of-With max_alloc vars ring k _ tok.payload
            (at_token-Kept max_alloc vars ring k tok p a))
          λ (q, v) b.
            elim v as (λ v. Always Holds (sleep_with max_alloc vars ring globals m p (q, v))) [
              | none ↦ b
              | some x ↦ reset-Kept max_alloc vars ring k p _ (sleep_for-Kept x q b)
            ]

  print_next-With :
      (again : Program vars.Table Buffer → List ℤ → Outcome (Program vars.Table Buffer × List ℤ))
      (vs : List ℤ) (o : Option Token) (p : Program vars.Table Buffer)
      → ((q : Program vars.Table Buffer) (ws : List ℤ)
          → P q
          → With max_alloc vars ring k (again q ws))
      → P p
      → With max_alloc vars ring k (print_next max_alloc vars ring globals again vs (o, p))
  print_next-With again vs none p g h = h
  print_next-With again vs (some tok) p g h =
      Always->>= (λ o. P o.0) (λ o. P o.0) (varval_get_value max_alloc vars ring p tok) _
        (varval_get_value-With max_alloc vars ring k p tok h)
        λ (q, v) a.
          elim v
            as (λ v.
              With max_alloc vars ring k
                (print_value max_alloc vars ring globals again vs (q, v))) [
                  | none ↦ a
                  | some x ↦ g q _ a
                ]

  print_values-With :
      (fuel : ℕ) (p : Program vars.Table Buffer) (vs : List ℤ)
      → P p
      → With max_alloc vars ring k (print_values max_alloc vars ring globals fuel p vs)
  unfolding print_values
  print_values-With zero p vs h = h
  print_values-With (suc fuel) p vs h =
      print_next-With _ vs (next_token max_alloc vars ring p).0 _ (print_values-With fuel)
        (next_token-Kept max_alloc vars ring k p h)

  printed-Holds :
      (m : Machine vars.Table Buffer globals.Table) (p : Program vars.Table Buffer) (w : Bytes)
      → P p
      → Always Holds (
          print_values max_alloc vars ring globals (suc (length (items p.translated_line))) p []
          >>= λ (q, vs). done (record m {
            program = q;
            output =
                m.output ++ (record { id = get_or q.argv 0 (pos 0); text = w; values = vs } ∷ []);
          }))
  printed-Holds m p w h =
      Always->>= (λ o. P o.0) Holds
        (print_values max_alloc vars ring globals (suc (length (items p.translated_line))) p []) _
        (print_values-With _ p [] h) (λ o b. b)

  pub print_handler-Holds :
      (m : Machine vars.Table Buffer globals.Table)
      → Holds m
      → Always Holds (print_handler max_alloc vars ring globals m)
  unfolding print_handler
  print_handler-Holds m h =
      read_unchecked-Always max_alloc vars ring k Holds m.program _ h λ tok p a.
        Always->>= (λ w. Unit) Holds (string_of max_alloc vars ring globals tok.payload) _
          (any_outcome _) (λ w _. printed-Holds m p w a)

  pub return_handler-Holds :
      (m : Machine vars.Table Buffer globals.Table)
      → Holds m
      → Always Holds (return_handler max_alloc vars ring globals m)
  return_handler-Holds m h = same_place max_alloc vars ring k m.program _ refl refl refl h
