-- ===== src/Runtime/Turn.antt =====
-- The turn of one program in runtime_thread of src/runtime.c: the `switch` on its state.
use simbly.Exec.Lines.{interpret_next_line}
use simbly.Exec.Machine.{Machine}
use simbly.Global.{GlobalVar, program_state_blocked}
use simbly.Prelude.{
  ℕ, Bool, true, false, ◌&&◌, Option, none, some, List, [], ◌∷◌, ℤ, pos, ◌+ℤ◌, ◌-ℤ◌, ltb_ℤ, eqb_ℤ,
  if◌then◌else◌, Outcome, done, ◌>>=◌,
}
use simbly.Program.{
  Program, Cell, Token, Instruction, State, magic_line, instruction_line, sleeping, blocked,
  last_line, finished,
}
use simbly.Runtime.Clock.{Timespec, nsec_per_sec, time_slice, line_cost}
use simbly.Voids.{HashTable, RingBuffer}

-- What a turn meets from outside: a random number, the clock before and after each line, and what
-- other threads do to the global variables during a timed wait.
pub record Moment (GlobalTable : Type 0) : Type 0 where
  pub random : ℤ
  pub clock : List (Timespec × Timespec)
  pub wait : GlobalTable → GlobalTable

abbrev pub is_instruction_line : State → Bool
is_instruction_line instruction_line = true
is_instruction_line _ = false

module _ {VarTable TokenBuffer : Type 0} where
  abbrev pub set_state : State → Program VarTable TokenBuffer → Program VarTable TokenBuffer
  set_state s p = record p { reader = record p.reader { state = s } }

  -- The case SLEEPING: the program, and how long nanosleep is called for.
  unfoldable pub sleep_turn :
      ℤ → Program VarTable TokenBuffer → Program VarTable TokenBuffer × Timespec
  unfolding ◌-ℤ◌ ◌+ℤ◌
  sleep_turn slice p =
      let diff = p.sleep_nsec -ℤ slice in
      if ltb_ℤ diff (pos 0)
      then (if eqb_ℤ p.sleep_sec (pos 0)
          then (set_state instruction_line p, record { sec = p.sleep_sec; nsec = p.sleep_nsec })
          else (
            record p { sleep_sec = p.sleep_sec -ℤ pos 1; sleep_nsec = diff +ℤ pos nsec_per_sec },
            record { sec = pos 0; nsec = slice },
          ))
      else (record p { sleep_nsec = diff }, record { sec = pos 0; nsec = slice })

-- A machine, and how long its runtime has slept.
pub record Turn (M : Type 0) : Type 0 where
  pub machine : M
  pub slept : Option Timespec

module _ (max_alloc : ℕ) (instructions : HashTable Instruction) (vars : HashTable Cell)
    (ring : RingBuffer Token) (globals : HashTable (Option GlobalVar))
    (table : instructions.Table) where
  open ring use {Buffer}

  abbrev pub M : Type 0
  M = Machine vars.Table Buffer globals.Table

  -- `time_slice -= diff`, and the condition of the loop.
  abbrev pub goes_on : ℤ → M → Bool
  goes_on slice m = ltb_ℤ (pos 0) slice && is_instruction_line m.program.state

  abbrev pub after_line : (ℤ → M → Outcome M) → ℤ → M → Option ℤ → Outcome M
  after_line again slice m none = done m
  after_line again slice m (some diff) =
      let rest = again (slice -ℤ diff) m in if goes_on (slice -ℤ diff) m then rest else done m

  -- The loop over lines, on the clock readings to come. Where they run out, the turn has been seen up
  -- to there.
  unfoldable pub run_lines : List (Timespec × Timespec) → ℤ → M → Outcome M
  unfolding interpret_next_line line_cost ◌-ℤ◌
  run_lines [] slice m = done m
  run_lines ((start, end) ∷ clock) slice m =
      interpret_next_line max_alloc instructions vars ring globals table m >>= λ m'.
      after_line (λ s q. run_lines clock s q) slice m' (line_cost start end)

  abbrev pub blocked_turn : Moment globals.Table → M → Outcome M
  blocked_turn moment m =
      program_state_blocked max_alloc globals moment.wait m.program m.globals >>= λ (p, t).
      done (record m { program = p; globals = t })

  abbrev awake_turn : Outcome M → Outcome (Turn M)
  awake_turn o = o >>= λ m. done (record { machine = m; slept = none })

  abbrev pub asleep : ℤ → M → Turn M
  asleep slice m =
      let (p, slept) = sleep_turn slice m.program in
      record { machine = record m { program = p }; slept = some slept }

  abbrev pub turn_in : State → Moment globals.Table → ℤ → M → Outcome (Turn M)
  turn_in magic_line moment slice m = awake_turn (run_lines moment.clock slice m)
  turn_in instruction_line moment slice m = awake_turn (run_lines moment.clock slice m)
  turn_in sleeping moment slice m = done (asleep slice m)
  turn_in blocked moment slice m = awake_turn (blocked_turn moment m)
  turn_in last_line moment slice m = done (record { machine = m; slept = none })
  turn_in finished moment slice m = done (record { machine = m; slept = none })

  unfoldable pub program_turn : Moment globals.Table → M → Outcome (Turn M)
  unfolding time_slice run_lines sleep_turn program_state_blocked
  program_turn moment m =
      time_slice moment.random >>= λ slice. turn_in m.program.state moment slice m
