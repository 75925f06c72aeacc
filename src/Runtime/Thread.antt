-- ===== src/Runtime/Thread.antt =====
-- A runtime: runtime_init, runtime_attach_program, runtime_stop and the rounds of runtime_thread of
-- src/runtime.c. What the thread does to its list under the lock is one step.
pub mod Attach
pub mod Replaced
pub mod Queue
pub mod Invariant
pub mod Rounds
use simbly.Exec.Machine.{Machine, Printed}
use simbly.Global.{GlobalVar}
use simbly.Prelude.{
  ℕ, Bool, true, false, ◌||◌, Option, none, some, List, [], ◌∷◌, ◌++◌, ℤ, pos, ◌+ℤ◌, ◌-ℤ◌, get_or,
  fits_int, if◌then◌else◌, Outcome, done, fatal, undefined, ◌>>=◌, use_after_free, null_dereference,
  signed_overflow,
}
use simbly.Program.{Program, Cell, Token, Instruction, State, finished}
use simbly.Runtime.Clock.{Timespec}
use simbly.Runtime.Turn.{Moment, Turn, program_turn}
use simbly.Voids.{HashTable, RingBuffer, CircularList}

-- What shell_msg writes, for a program by its ID.
pub data Notice : Type 0 where
  program_finished program_killed : ℤ → Notice

-- What the runtimes share: the global variables, what PRINT has written, what shell_msg has, and how
-- long the threads have slept.
pub record Shared (GlobalTable : Type 0) : Type 0 where
  pub globals : GlobalTable
  pub output : List Printed
  pub notices : List Notice
  pub slept : List Timespec

-- runtime_s, without its thread and locks: `programs` is program_list, and NULL is `none`.
pub record Runtime (Chain Node : Type 0) : Type 0 where
  pub programs : Chain
  pub curr : Option Node
  pub running : Bool
  pub program_cnt : ℤ

abbrev pub is_finished : State → Bool
is_finished finished = true
is_finished _ = false

module _ {P : Type 0} (list : CircularList P) where
  open list use {Chain, Node, init, items, append}

  unfoldable pub runtime_init : Runtime Chain Node
  runtime_init = record { programs = init; curr = none; running = true; program_cnt = pos 0 }

  abbrev pub head_of : List (Node × P) → Option Node
  head_of [] = none
  head_of ((n, p) ∷ xs) = some n

  -- `rt->program_list`
  abbrev pub head : Chain → Option Node
  head c = head_of (items c)

  abbrev pub attached : Runtime Chain Node → ℤ → Chain × Bool → Outcome (Runtime Chain Node)
  attached rt cnt (c, true) = done (record rt { programs = c; program_cnt = cnt })
  attached rt cnt (c, false) = fatal

  unfoldable pub runtime_attach_program : Runtime Chain Node → P → Outcome (Runtime Chain Node)
  unfolding ◌+ℤ◌
  runtime_attach_program rt p =
      let cnt = rt.program_cnt +ℤ pos 1 in
      let rt' = attached rt cnt (append rt.programs p) in
      if fits_int cnt then rt' else undefined signed_overflow

  -- `rt->running = 0`; the list is destroyed when the thread has ended.
  unfoldable pub runtime_stop : Runtime Chain Node → Runtime Chain Node
  runtime_stop rt = record rt { running = false; programs = init }

-- The program of a node, or what a dangling pointer leads to.
abbrev pub deref : {A B : Type 0} → Option A → (A → Outcome B) → Outcome B
deref none f = undefined use_after_free
deref (some a) f = f a

module _ (max_alloc : ℕ) (instructions : HashTable Instruction) (vars : HashTable Cell)
    (ring : RingBuffer Token) (globals : HashTable (Option GlobalVar)) (table : instructions.Table)
    (list : CircularList (Program vars.Table ring.Buffer)) where
  open list use {Chain, Node, at, next, prev, write, delete}

  abbrev pub P : Type 0
  P = Program vars.Table ring.Buffer

  abbrev pub R : Type 0
  R = Runtime Chain Node

  abbrev pub S : Type 0
  S = Shared globals.Table

  -- The program that has had its turn leaves the list: `rt->curr` moves on, and the node before it is
  -- deleted.
  abbrev removed : R → Node → R
  removed rt n =
      let nxt = next rt.programs n in
      let rest = delete rt.programs (prev rt.programs nxt) in
      record rt {
        programs = rest;
        curr = elim (head list rest) [ none ↦ none | some _ ↦ some nxt ];
        program_cnt = rt.program_cnt -ℤ pos 1;
      }

  abbrev moved_on : R → Node → R
  moved_on rt n = record rt { curr = some (next rt.programs n) }

  abbrev notice : P → Notice
  notice p =
      if p.error_flag
      then program_killed (get_or p.argv 0 (pos 0))
      else program_finished (get_or p.argv 0 (pos 0))

  abbrev pub leaves : P → Bool
  leaves p = is_finished p.state || p.error_flag

  -- The end of a turn: the `if` behind the `switch`, on the program as the turn has left it.
  unfoldable pub end_turn : R → Node → P → S → R × S
  unfolding ◌-ℤ◌
  end_turn rt n p w =
      if leaves p
      then (removed rt n, record w { notices = w.notices ++ notice p ∷ [] })
      else (moved_on rt n, w)

  abbrev pub slept_for : List Timespec → Option Timespec → List Timespec
  slept_for ts none = ts
  slept_for ts (some t) = ts ++ t ∷ []

  -- What the program's turn has done to it, to the globals and to the output.
  abbrev pub after_turn : R → Node → S → Turn (Machine vars.Table ring.Buffer globals.Table) → R × S
  after_turn rt n w t =
      let m = t.machine in
      end_turn (record rt { programs = write rt.programs n m.program }) n m.program
        (record w { globals = m.globals; output = m.output; slept = slept_for w.slept t.slept })

  abbrev pub machine_of : P → S → Machine vars.Table ring.Buffer globals.Table
  machine_of p w = record { program = p; globals = w.globals; output = w.output }

  -- The loop's body, for a node.
  unfoldable pub turn : Moment globals.Table → R → Node → S → Outcome (R × S)
  unfolding program_turn end_turn
  turn moment rt n w = deref (at rt.programs n) λ p.
      program_turn max_alloc instructions vars ring globals table moment (machine_of p w) >>= λ t.
      done (after_turn rt n w t)

  abbrev step_at : Moment globals.Table → R → S → Option Node → Outcome (R × S)
  step_at moment rt w none = done (record rt { curr = head list rt.programs }, w)
  step_at moment rt w (some n) = turn moment rt n w

  -- One round of the thread's loops: a turn, or, where `curr` is NULL, the start of the list. A thread
  -- with an empty list waits; one that is not running has left its loops.
  unfoldable pub runtime_step : Moment globals.Table → R → S → Outcome (R × S)
  unfolding turn
  runtime_step moment rt w =
      let next_step = step_at moment rt w rt.curr in if rt.running then next_step else done (rt, w)
