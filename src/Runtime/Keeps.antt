-- ===== src/Runtime/Keeps.antt =====
-- What is kept by each kind of change to a program is kept by a turn of runtime_thread (src/runtime.c).
use simbly.Exec.Keeps.Lines.{interpret_next_line-Keeps}
use simbly.Exec.Keeps.{Kept, same_place}
use simbly.Exec.Lines.{interpret_next_line}
use simbly.Exec.Machine.{Machine}
use simbly.Global.{GlobalVar, take_one, count_at, var_at, program_state_blocked}
use simbly.Prelude.{
  ℕ, Option, none, some, List, [], ◌∷◌, Bytes, ℤ, pos, ◌-ℤ◌, leb_ℤ, ltb_ℤ, eqb_ℤ, refl, if_both,
  Outcome, Always, Always->>=, any_outcome,
}
use simbly.Program.{
  Program, Cell, Token, Instruction, State, magic_line, instruction_line, sleeping, blocked,
  last_line, finished,
}
use simbly.Runtime.Clock.{Timespec, time_slice, line_cost}
use simbly.Runtime.Turn.{
  Moment, sleep_turn, goes_on, after_line, run_lines, blocked_turn, turn_in, program_turn,
}
use simbly.Voids.{HashTable, RingBuffer}

module _ (max_alloc : ℕ) (instructions : HashTable Instruction) (vars : HashTable Cell)
    (ring : RingBuffer Token) (globals : HashTable (Option GlobalVar)) (table : instructions.Table)
    {P : Program vars.Table ring.Buffer → Type 0} (k : Kept max_alloc vars ring P) where
  open ring use {Buffer}

  abbrev M : Type 0
  M = Machine vars.Table Buffer globals.Table

  abbrev Has : M → Type 0
  Has m = P m.program

  after_line-Keeps :
      (again : ℤ → M → Outcome M) (slice : ℤ) (m : M) (o : Option ℤ)
      → ((s : ℤ) → Always Has (again s m))
      → Has m
      → Always Has (after_line max_alloc instructions vars ring globals table again slice m o)
  after_line-Keeps again slice m none g h = h
  after_line-Keeps again slice m (some diff) g h =
      if_both (Always Has)
        (goes_on max_alloc instructions vars ring globals table (slice -ℤ diff) m)
        (g (slice -ℤ diff)) h

  run_lines-Keeps :
      (clock : List (Timespec × Timespec)) (slice : ℤ) (m : M)
      → Has m
      → Always Has (run_lines max_alloc instructions vars ring globals table clock slice m)
  unfolding run_lines
  run_lines-Keeps [] slice m h = h
  run_lines-Keeps ((start, end) ∷ clock) slice m h =
      Always->>= Has Has (interpret_next_line max_alloc instructions vars ring globals table m) _
        (interpret_next_line-Keeps max_alloc instructions vars ring globals table k m h)
        (λ n a.
          after_line-Keeps (run_lines max_alloc instructions vars ring globals table clock) slice n
            (line_cost start end) (λ s. run_lines-Keeps clock s n a) a)

  take_one-Keeps :
      (p : Program vars.Table Buffer) (t : globals.Table) (kv : Bytes × GlobalVar) (v : ℤ)
      → P p
      → P (take_one max_alloc globals p t kv v).0
  take_one-Keeps p t (key, var) v h =
      if_both (λ (o : Program vars.Table Buffer × globals.Table). P o.0) (leb_ℤ v (pos 0)) h
        (same_place max_alloc vars ring k p _ refl refl refl h)

  program_state_blocked-Keeps :
      (wait : globals.Table → globals.Table) (p : Program vars.Table Buffer) (t : globals.Table)
      → P p
      → Always (λ o. P o.0) (program_state_blocked max_alloc globals wait p t)
  unfolding program_state_blocked
  program_state_blocked-Keeps wait p t h =
      Always->>= (λ x. Unit) (λ o. P o.0) (var_at max_alloc globals t p.sem) _ (any_outcome _)
        λ kv _.
          Always->>= (λ x. Unit) (λ o. P o.0) (count_at max_alloc globals p kv.1) _ (any_outcome _)
            λ v _.
              if_both (Always λ o. P o.0) (leb_ℤ v (pos 0))
                (Always->>= (λ x. Unit) (λ o. P o.0) (var_at max_alloc globals (wait t) p.sem) _
                  (any_outcome _)
                  λ kv' _.
                    Always->>= (λ x. Unit) (λ o. P o.0) (count_at max_alloc globals p kv'.1) _
                      (any_outcome _) λ v' _. take_one-Keeps p (wait t) kv' v' h)
                (take_one-Keeps p t kv v h)

  sleep_turn-Keeps : (slice : ℤ) (p : Program vars.Table Buffer) → P p → P (sleep_turn slice p).0
  unfolding sleep_turn
  sleep_turn-Keeps slice p h =
      let diff = p.sleep_nsec -ℤ slice in
      if_both (λ (o : Program vars.Table Buffer × Timespec). P o.0) (ltb_ℤ diff (pos 0))
        (if_both (λ (o : Program vars.Table Buffer × Timespec). P o.0) (eqb_ℤ p.sleep_sec (pos 0))
          (same_place max_alloc vars ring k p _ refl refl refl h) (k.sleeps p _ _ h))
        (k.sleeps p _ _ h)

  turn_in-Keeps :
      (s : State) (moment : Moment globals.Table) (slice : ℤ) (m : M)
      → Has m
      → Always
          (λ t. Has t.machine)
          (turn_in max_alloc instructions vars ring globals table s moment slice m)
  turn_in-Keeps magic_line moment slice m h =
      Always->>= Has (λ t. Has t.machine)
        (run_lines max_alloc instructions vars ring globals table moment.clock slice m) _
        (run_lines-Keeps moment.clock slice m h) (λ n a. a)
  turn_in-Keeps instruction_line moment slice m h =
      Always->>= Has (λ t. Has t.machine)
        (run_lines max_alloc instructions vars ring globals table moment.clock slice m) _
        (run_lines-Keeps moment.clock slice m h) (λ n a. a)
  turn_in-Keeps sleeping moment slice m h = sleep_turn-Keeps slice m.program h
  turn_in-Keeps blocked moment slice m h =
      Always->>= Has (λ t. Has t.machine)
        (blocked_turn max_alloc instructions vars ring globals table moment m) _
        (Always->>= (λ o. P o.0) Has
          (program_state_blocked max_alloc globals moment.wait m.program m.globals) _
          (program_state_blocked-Keeps moment.wait m.program m.globals h) (λ o a. a))
        (λ n a. a)
  turn_in-Keeps last_line moment slice m h = h
  turn_in-Keeps finished moment slice m h = h

  -- What is kept by each kind of change is kept by a turn, whatever the state of the program.
  pub program_turn-Keeps :
      (moment : Moment globals.Table) (m : M)
      → P m.program
      → Always
          (λ t. P t.machine.program)
          (program_turn max_alloc instructions vars ring globals table moment m)
  unfolding program_turn
  program_turn-Keeps moment m h =
      Always->>= (λ s. Unit) (λ t. P t.machine.program) (time_slice moment.random) _ (any_outcome _)
        (λ s _. turn_in-Keeps m.program.state moment s m h)
