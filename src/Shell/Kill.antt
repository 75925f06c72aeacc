-- ===== src/Shell/Kill.antt =====
-- mark_program_as_finished of src/main.c.
pub mod Marks
pub mod Permit
pub mod Ends
use simbly.Global.{GlobalVar, var_at, write_count}
use simbly.Prelude.{
  ℕ, Bool, true, false, Option, none, some, List, [], ◌∷◌, Bytes, ℤ, pos, negsuc, eqb_ℤ, get_or,
  length, ltb, if◌then◌else◌, Outcome, done, undefined, ◌>>=◌, out_of_bounds,
}
use simbly.Program.{Program, Cell, Token, State, blocked, program_stop}
use simbly.Runtime.Thread.{Runtime}
use simbly.Voids.{HashTable, CircularList}

abbrev pub is_blocked : State → Bool
is_blocked blocked = true
is_blocked _ = false

module _ (max_alloc : ℕ) (globals : HashTable (Option GlobalVar)) where
  open globals use {Table}

  -- `var->count[prog->blocked_idx] = 1`
  abbrev set_permit : Table → ℕ → Bytes × GlobalVar → Outcome Table
  set_permit t idx (key, var) =
      if ltb idx (length var.count)
      then done (write_count max_alloc globals t key var idx (pos 1))
      else undefined out_of_bounds

module _ {VarTable TokenBuffer : Type 0} where
  abbrev pub id_of : Program VarTable TokenBuffer → ℤ
  id_of p = get_or p.argv 0 (pos 0)

  -- `program_stop(prog, 1)`
  abbrev pub killed : Program VarTable TokenBuffer → Program VarTable TokenBuffer
  killed p = record p { reader = program_stop true p.reader }

  -- The walk round the list, to the first program with the ID.
  abbrev pub find_id :
      {Node : Type 0}
      → ℤ
      → List (Node × Program VarTable TokenBuffer)
      → Option (Node × Program VarTable TokenBuffer)
  find_id id [] = none
  find_id id ((n, p) ∷ xs) = if eqb_ℤ (id_of p) id then some (n, p) else find_id id xs

  module _ (max_alloc : ℕ) (globals : HashTable (Option GlobalVar)) where
    open globals use {Table}

    unfoldable pub wake_blocked : Program VarTable TokenBuffer → Table → Outcome Table
    wake_blocked p t =
        let woken =
          var_at max_alloc globals t p.sem >>= set_permit max_alloc globals t p.blocked_idx in
        if is_blocked p.state then woken else done t

    module _ (list : CircularList (Program VarTable TokenBuffer)) where
      open list use {Chain, Node, items, write}

      abbrev pub R : Type 0
      R = Runtime Chain Node

      abbrev pub mark_found :
          R → Table → ℤ → Option (Node × Program VarTable TokenBuffer) → Outcome (R × Table × ℤ)
      mark_found rt t id none = done (rt, t, id)
      mark_found rt t id (some (n, p)) = wake_blocked p t >>= λ t'.
          done (record rt { programs = write rt.programs n (killed p) }, t', negsuc 0)

      -- The body of the loop: the ID behind it is -1 where a program was marked.
      unfoldable pub mark_in : R → Table → ℤ → Outcome (R × Table × ℤ)
      unfolding wake_blocked
      mark_in rt t id = mark_found rt t id (find_id id (items rt.programs))

      unfoldable pub mark_all : List R → Table → ℤ → Outcome (List R × Table × ℤ)
      unfolding mark_in
      mark_all [] t id = done ([], t, id)
      mark_all (rt ∷ rts) t id = mark_in rt t id >>= λ (rt', t', id').
          mark_all rts t' id' >>= λ (rts', u, last). done (rt' ∷ rts', u, last)

      -- The runtimes, the global variables, and the ID that was not found, if so.
      unfoldable pub mark_program_as_finished :
          List R → Table → ℤ → Outcome (List R × Table × Option ℤ)
      unfolding mark_all
      mark_program_as_finished rts t id = mark_all rts t id >>= λ (rts', t', last).
          done (rts', t', if eqb_ℤ last (negsuc 0) then none else some last)
