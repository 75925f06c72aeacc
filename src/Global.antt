-- ===== src/Global.antt =====
-- The global variables: the functions of src/global.c on `global_table`. Each runs under the
-- table's lock or the variable's, so it is one step on the table. A variable lives on the heap and
-- is never moved by the table: its pointer is the key that it is found by, `none` is NULL.
pub mod Store
pub mod Elements
pub mod Semaphore
pub mod Permits
use simbly.Prelude.{
  ℕ, ◌+◌, ◌*◌, ◌%◌, Bool, true, false, Option, none, some, List, Bytes, ℤ, pos, ◌+ℤ◌, ◌-ℤ◌, leb_ℤ,
  fits_int, size_mod, ltb, ◌==◌, if◌then◌else◌, length, get_or, set, replicate, Outcome, done,
  fatal, undefined, ◌>>=◌, null_dereference, use_after_free, signed_overflow, out_of_bounds,
}
use simbly.Program.{Program, State, blocked, instruction_line}
use simbly.Voids.{HashTable}

-- global_var_s; `len` is the length of `count`, and the mutex and the condition have no data.
pub record GlobalVar : Type 0 where
  pub count : List ℤ

-- `idx + 1` on size_t
abbrev pub next_index : ℕ → ℕ
next_index idx = (idx + 1) % size_mod

-- `if (prog->state == BLOCKED) prog->state = INSTRUCTION_LINE;`
abbrev awake : State → State
awake blocked = instruction_line
awake s = s

-- The block that a pointer still refers to once the pointer has been passed to realloc.
pub data Freed : Type 0 where
  freed : Freed

-- `malloc`, `calloc` and `realloc` fail above `max_alloc` bytes, which ends the process.
module _ (max_alloc : ℕ) where
  -- calloc refuses a product that overflows, so it is not wrapped.
  unfoldable pub global_var_init : ℕ → Outcome (Option GlobalVar)
  global_var_init total =
      if total == 0
      then done none
      else if ltb max_alloc (total * 4)
      then fatal
      else done (some (record { count = replicate total (pos 0) }))

  -- `realloc(var, …)` under ENO, on the variable itself. Without memory the process ends. Otherwise
  -- the block at `var` is freed, whether the new one has its address or not.
  abbrev pub realloc_block : ℕ → Outcome Freed
  realloc_block bytes = if ltb max_alloc bytes then fatal else done freed

  -- `var->count = …`: the assignment of what realloc has returned goes through `var`, as the loop
  -- over `var->count`, `var->len` and the unlocking of `var->mtx` below it do.
  abbrev pub assign_count {ℓ} : {A : Type ℓ} → Freed → Outcome A
  assign_count freed = undefined use_after_free

  -- The lines for an element behind the end, which the four operations share. `sizeof(int)` times
  -- the length is a size_t.
  unfoldable pub realloc_var {ℓ} : {A : Type ℓ} → ℕ → Outcome A
  realloc_var idx = realloc_block ((4 * next_index idx) % size_mod) >>= assign_count

  module _ (globals : HashTable (Option GlobalVar)) where
    open globals use {Table, find, insert, update}

    abbrev inserted {ℓ} : {A : Type ℓ} → Table × Bool → A → Outcome (Table × A)
    inserted (t, true) a = done (t, a)
    inserted (t, false) a = fatal

    -- A new variable, with its element `idx` written.
    abbrev insert_with : Table → Bytes → ℕ → ℤ → Option GlobalVar → Outcome (Table × Unit {0})
    insert_with t key idx v none = undefined null_dereference
    insert_with t key idx v (some var) =
        inserted (insert t key (some (record { count = set var.count idx v }))) tt

    abbrev pub write_count : Table → Bytes → GlobalVar → ℕ → ℤ → Table
    write_count t key var idx v = update t key (some (record { count = set var.count idx v }))

    abbrev load_found : Table → Bytes → ℕ → Option (Option GlobalVar) → Outcome (Table × ℤ)
    load_found t key idx none =
        global_var_init (next_index idx) >>= λ var. inserted (insert t key var) (pos 0)
    load_found t key idx (some none) = undefined null_dereference
    load_found t key idx (some (some var)) =
        if ltb idx (length var.count)
        then done (t, get_or var.count idx (pos 0))
        else realloc_var idx

    unfoldable pub global_var_load : Table → Bytes → ℕ → Outcome (Table × ℤ)
    unfolding global_var_init realloc_var
    global_var_load t key idx = load_found t key idx (find t key)

    abbrev store_found :
        Table → Bytes → ℕ → ℤ → Option (Option GlobalVar) → Outcome (Table × Unit {0})
    store_found t key idx v none = global_var_init (next_index idx) >>= insert_with t key idx v
    store_found t key idx v (some none) = undefined null_dereference
    store_found t key idx v (some (some var)) =
        if ltb idx (length var.count)
        then done (write_count t key var idx v, tt)
        else realloc_var idx

    unfoldable pub global_var_store : Table → Bytes → ℕ → ℤ → Outcome (Table × Unit {0})
    unfolding global_var_init realloc_var
    global_var_store t key idx v = store_found t key idx v (find t key)

    abbrev increment : Table → Bytes → ℕ → GlobalVar → ℤ → Outcome (Table × Unit {0})
    increment t key idx var v =
        if fits_int v then done (write_count t key var idx v, tt) else undefined signed_overflow

    abbrev up_found : Table → Bytes → ℕ → Option (Option GlobalVar) → Outcome (Table × Unit {0})
    up_found t key idx none = global_var_init (next_index idx) >>= insert_with t key idx (pos 1)
    up_found t key idx (some none) = undefined null_dereference
    up_found t key idx (some (some var)) =
        if ltb idx (length var.count)
        then increment t key idx var (get_or var.count idx (pos 0) +ℤ pos 1)
        else realloc_var idx

    unfoldable pub global_var_up : Table → Bytes → ℕ → Outcome (Table × Unit {0})
    unfolding global_var_init realloc_var ◌+ℤ◌
    global_var_up t key idx = up_found t key idx (find t key)

    abbrev pub down_found :
        Table → Bytes → ℕ → Option (Option GlobalVar) → Outcome (Table × Unit {0})
    down_found t key idx none =
        global_var_init (next_index idx) >>= λ var. inserted (insert t key var) tt
    down_found t key idx (some none) = undefined null_dereference
    down_found t key idx (some (some var)) =
        if ltb idx (length var.count) then done (t, tt) else realloc_var idx

    abbrev pub var_at : Table → Option Bytes → Outcome (Bytes × GlobalVar)
    var_at t none = undefined null_dereference
    var_at t (some key) = elim (find t key) [
      | none ↦ undefined null_dereference
      | some none ↦ undefined null_dereference
      | some (some var) ↦ done (key, var)
    ]

    module _ {VarTable TokenBuffer : Type 0} where
      -- The last three lines of global_var_down.
      abbrev pub block : Program VarTable TokenBuffer → Bytes → ℕ → Program VarTable TokenBuffer
      block p key idx = record p {
        reader = record p.reader { state = blocked };
        blocked_idx = idx;
        sem = some key;
      }

      unfoldable pub global_var_down :
          Program VarTable TokenBuffer
          → Table
          → Bytes
          → ℕ
          → Outcome (Program VarTable TokenBuffer × Table)
      unfolding global_var_init realloc_var
      global_var_down p t key idx =
          down_found t key idx (find t key) >>= λ (t', _). done (block p key idx, t')

      abbrev pub wake : Program VarTable TokenBuffer → Program VarTable TokenBuffer
      wake p = record p { reader = record p.reader { state = awake p.state } }

      abbrev pub count_at : Program VarTable TokenBuffer → GlobalVar → Outcome ℤ
      count_at p var =
          if ltb p.blocked_idx (length var.count)
          then done (get_or var.count p.blocked_idx (pos 0))
          else undefined out_of_bounds

      -- Takes one from a count that is positive, and lets the program go on.
      abbrev pub take_one :
          Program VarTable TokenBuffer
          → Table
          → Bytes × GlobalVar
          → ℤ
          → Program VarTable TokenBuffer × Table
      take_one p t (key, var) v =
          if leb_ℤ v (pos 0)
          then (p, t)
          else (wake p, write_count t key var p.blocked_idx (v -ℤ pos 1))

      -- `wait` is what the other threads do to the table while pthread_cond_timedwait has the
      -- mutex free.
      unfoldable pub program_state_blocked :
          (Table → Table)
          → Program VarTable TokenBuffer
          → Table
          → Outcome (Program VarTable TokenBuffer × Table)
      unfolding ◌-ℤ◌
      program_state_blocked wait p t = var_at t p.sem >>= λ kv. count_at p kv.1 >>= λ v.
          if leb_ℤ v (pos 0)
          then (var_at (wait t) p.sem >>= λ kv'.
              count_at p kv'.1 >>= λ v'. done (take_one p (wait t) kv' v'))
          else done (take_one p t kv v)
