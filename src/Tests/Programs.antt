-- ===== src/Tests/Programs.antt =====
-- Whole programs, from the text to what they print, on the list containers.
use simbly.Exec.Lines.{interpret_next_line}
use simbly.Exec.Machine.{Machine, Printed}
use simbly.Global.{GlobalVar}
use simbly.Prelude.{
  ℕ, zero, suc, ◌≡◌, refl, Bool, false, true, Option, List, [], ◌∷◌, Bytes, codes, ℤ, pos, Outcome,
  done, undefined, null_dereference, ◌>>=◌,
}
use simbly.Program.Init.{program_with_id}
use simbly.Program.{Cell, Token, Instruction, State, finished}
use simbly.Scanner.Tokenize.{lexer_init}
use simbly.Voids.Lists.{list_table, list_ring}

abbrev M : Type 0
M = Machine (list_table Cell).Table (list_ring Token).Buffer (list_table (Option GlobalVar)).Table

-- A program whose ID is 1.
abbrev start : Bytes → List ℤ → M
start text args = record {
  program = program_with_id (list_table Cell) (list_ring Token) text args (pos 1);
  globals = [];
  output = [];
}

unfoldable run : ℕ → M → Outcome M
unfolding lexer_init interpret_next_line
run zero m = done m
run (suc n) m = lexer_init (list_table Instruction) >>= λ t.
    interpret_next_line 1000 (list_table Instruction) (list_table Cell) (list_ring Token)
      (list_table (Option GlobalVar)) t m
    >>= λ m'. run n m'

unfoldable result : ℕ → Bytes → List ℤ → Outcome (State × Bool × List Printed)
unfolding run
result n text args =
    run n (start text args) >>= λ m. done (m.program.state, m.program.error_flag, m.output)

abbrev sum_n : Bytes
sum_n =
    codes
      "#PROGRAM\n\tBREQ $argc 2 LSTART\n\tPRINT \"Wrong number of arguments\"\n\tRETURN \nLSTART\tPRINT \"Hello from execution nr \" $argv[0]\n\tPRINT \"Summing up from 1 to \" $argv[1]\n\tSET $n 1\n\tSET $sum 0\nLOOP\tBRGT $n $argv[1] LEND\n\tADD $sum $sum $n\n\tADD $n $n 1\n\tBRA LOOP\nLEND\tPRINT \"Result is \" $sum\n\tRETURN\n"

-- The sample of the README with the arguments 7 and 3.
sums_up :
    result 30 sum_n (pos 7 ∷ pos 3 ∷ [])
    ≡ done (
      finished,
      false,
      record { id = pos 1; text = codes "Hello from execution nr "; values = pos 7 ∷ [] }
          ∷ record { id = pos 1; text = codes "Summing up from 1 to "; values = pos 3 ∷ [] }
          ∷ record { id = pos 1; text = codes "Result is "; values = pos 6 ∷ [] }
          ∷ [],
    )
unfolding result
sums_up = refl

-- A wrong first line sets the error flag, and the program runs on.
runs_on :
    result 2 (codes "#PROGRAX\nPRINT \"x\" 5 \n") []
    ≡ done (finished, true, record { id = pos 1; text = codes "x"; values = pos 5 ∷ [] } ∷ [])
unfolding result
runs_on = refl

-- An argument of PRINT at the very end of a file is refused.
refused_at_end : result 2 (codes "#PROGRAM\nPRINT \"x\" 5") [] ≡ done (finished, true, [])
unfolding result
refused_at_end = refl

-- A write behind the end of an array loses its last element.
loses_element :
    result 4 (codes "#PROGRAM\nSET $a[1] 5\nSET $a[3] 1\nPRINT \"x\" $a[1] $a[3]\n") []
    ≡ done
        (finished, false, record { id = pos 1; text = codes "x"; values = pos 0 ∷ pos 1 ∷ [] } ∷ [])
unfolding result
loses_element = refl

-- A branch to a label that is nowhere dereferences NULL at the end of the file.
nowhere : result 2 (codes "#PROGRAM\nBRA LX\n RETURN\n") [] ≡ undefined null_dereference
unfolding result
nowhere = refl
