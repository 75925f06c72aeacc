-- ===== src/Tests/Systems.antt =====
-- The whole system: a command starts a program, and its runtime runs the program to its end.
use simbly.Exec.Machine.{Machine, Printed}
use simbly.Global.{GlobalVar}
use simbly.Prelude.{
  ℕ, zero, suc, ◌≡◌, refl, Option, some, List, [], ◌∷◌, Bytes, codes, ℤ, pos, ◌+ℤ◌, ◌-ℤ◌, arith,
  str_eq, Outcome, done, undefined, out_of_bounds, ◌>>=◌,
}
use simbly.Program.Init.{program_with_id}
use simbly.Program.{Program, Cell, Token, Instruction}
use simbly.Runtime.Clock.{Timespec, line_cost}
use simbly.Runtime.Lines.{run_lines-slice}
use simbly.Runtime.Thread.{Runtime, Shared, Notice, program_finished, runtime_step}
use simbly.Runtime.Turn.{Moment, run_lines}
use simbly.Scanner.Operand.{digits_value}
use simbly.Scanner.Tokenize.{lexer_init}
use simbly.Shell.Commands.{shell_init, shell_step}
use simbly.Voids.Chain.{list_chain}
use simbly.Voids.Lists.{list_table, list_ring}

abbrev P : Type 0
P = Program (list_table Cell).Table (list_ring Token).Buffer

abbrev G : Type 0
G = (list_table (Option GlobalVar)).Table

abbrev R : Type 0
R = Runtime (list_chain P).Chain ℕ

-- Lines that take 5 nanoseconds each, in a slice of 9: two lines a turn.
abbrev tick : Timespec × Timespec
tick = (record { sec = pos 0; nsec = pos 0 }, record { sec = pos 0; nsec = pos 5 })

abbrev moment : Moment G
moment = record { random = pos 9; clock = tick ∷ tick ∷ tick ∷ []; wait = λ t. t }

unfoldable rounds : ℕ → (list_table Instruction).Table → R × Shared G → Outcome (R × Shared G)
unfolding runtime_step
rounds zero t o = done o
rounds (suc n) t (rt, w) =
    runtime_step 1000 (list_table Instruction) (list_table Cell) (list_ring Token)
      (list_table (Option GlobalVar)) t (list_chain P) moment rt w
    >>= rounds n t

abbrev files : Bytes → Option Bytes
files name = some (codes "#PROGRAM\nSET $n $argv[0]\nADD $n $n 1\nPRINT \"n\" $n\nRETURN \n")

abbrev first : List R → Outcome R
first [] = undefined out_of_bounds
first (rt ∷ rts) = done rt

unfoldable run_first : ℕ → Bytes → Outcome (ℤ × List Printed × List Notice)
unfolding lexer_init shell_init shell_step rounds
run_first n input = lexer_init (list_table Instruction) >>= λ t.
    shell_step 1000 (list_table Cell) (list_ring Token) (list_table (Option GlobalVar))
      (list_chain P) files input
      (shell_init 1000 (list_table Cell) (list_ring Token) (list_table (Option GlobalVar))
        (list_chain P) 1 [])
    >>= λ ((s, _), _). first s.runtimes >>= λ rt.
        rounds n t (rt, record { globals = []; output = []; notices = []; slept = [] })
        >>= λ (rt', w). done (rt'.program_cnt, w.output, w.notices)

-- `run f 41`: behind three turns the program has printed, and it has left its runtime.
prints_and_leaves :
    run_first 4 (codes "run f 41\n")
    ≡ done (
      pos 0,
      record { id = pos 1; text = codes "n"; values = pos 42 ∷ [] } ∷ [],
      program_finished (pos 1) ∷ [],
    )
unfolding run_first ◌+ℤ◌ digits_value str_eq
prints_and_leaves = refl

abbrev loop : Machine (list_table Cell).Table (list_ring Token).Buffer G
loop = record {
  program =
      program_with_id (list_table Cell) (list_ring Token) (codes "#PROGRAM\nSET $n 1\nBRA L\n") []
        (pos 1);
  globals = [];
  output = [];
}

run_lines-slice_example :
    run_lines 1000
      (list_table Instruction)
      (list_table Cell)
      (list_ring Token)
      (list_table (Option GlobalVar))
      []
      (tick ∷ tick ∷ tick ∷ [])
      (pos 9)
      loop
    ≡ run_lines 1000
        (list_table Instruction)
        (list_table Cell)
        (list_ring Token)
        (list_table (Option GlobalVar))
        []
        (tick ∷ tick ∷ [])
        (pos 9)
        loop
unfolding line_cost ◌-ℤ◌
run_lines-slice_example =
    run_lines-slice 1000 (list_table Instruction) (list_table Cell) (list_ring Token)
      (list_table (Option GlobalVar)) [] tick (tick ∷ []) (tick ∷ []) 9 loop (omega arith)
