-- ===== src/Tests/Reaches.antt =====
-- The theorems on lines and on the whole system at concrete inputs: a program that is started, has a
-- round of its runtime's thread, and is killed.
use simbly.Exec.Branch.Fuel.{search_label-fuel}
use simbly.Exec.Branch.{search_label}
use simbly.Exec.Keeps.Steady.{Steady, program_with_id-Steady, interpret_next_line-Steady}
use simbly.Exec.Lines.{interpret_next_line}
use simbly.Exec.Machine.{Machine}
use simbly.Global.{GlobalVar}
use simbly.Prelude.{
  ℕ, ◌≡◌, refl, true, none, Option, some, List, [], ◌∷◌, Bytes, codes, str_eq, pos, ◌+ℤ◌, done,
  Always, arith,
}
use simbly.Program.Init.{program_with_id}
use simbly.Program.{Program, Cell, Token, Instruction, label}
use simbly.Runtime.Thread.{Runtime, Shared, runtime_step}
use simbly.Runtime.Turn.{Moment}
use simbly.Scanner.Lines.Fuel.{print_arguments-fuel}
use simbly.Scanner.Lines.{print_arguments}
use simbly.Scanner.Operand.{digits_value}
use simbly.Scanner.Tokenize.Typed.{Accepts, tokenize_next_line-Accepts}
use simbly.Scanner.Tokenize.{instruction_array, lexer_init, tokenize_next_line}
use simbly.Shell.Commands.{Sh, shell_init, shell_step, kill_command}
use simbly.Shell.Kill.{killed, wake_blocked}
use simbly.System.Ids.{IsSystem}
use simbly.System.Invariant.{Reached-IsSystem}
use simbly.System.Kill.{kill_command-marks}
use simbly.System.{Reached, begins, commands, rounds}
use simbly.Voids.Chain.{list_chain}
use simbly.Voids.Lists.{list_table, list_ring}

abbrev P : Type 0
P = Program (list_table Cell).Table (list_ring Token).Buffer

abbrev G : Type 0
G = (list_table (Option GlobalVar)).Table

abbrev R : Type 0
R = Runtime (list_chain P).Chain ℕ

abbrev S : Type 0
S = Sh 1000 (list_table Cell) (list_ring Token) (list_table (Option GlobalVar)) (list_chain P)

abbrev text : Bytes
text = codes "#PROGRAM\nPRINT \"n\" $n 7\n"

abbrev prog : P
prog = program_with_id (list_table Cell) (list_ring Token) text (pos 41 ∷ []) (pos 1)

abbrev machine : Machine (list_table Cell).Table (list_ring Token).Buffer G
machine = record { program = prog; globals = []; output = [] }

interpret_next_line-Steady_example :
    Always
      (λ n. Steady 1000 (list_table Cell) (list_ring Token) text prog.argv n.program)
      (interpret_next_line 1000
        (list_table Instruction)
        (list_table Cell)
        (list_ring Token)
        (list_table (Option GlobalVar))
        []
        machine)
interpret_next_line-Steady_example =
    interpret_next_line-Steady 1000 (list_table Cell) (list_ring Token) (list_table Instruction)
      (list_table (Option GlobalVar)) [] machine text prog.argv
      (program_with_id-Steady 1000 (list_table Cell) (list_ring Token) text (pos 41 ∷ []) (pos 1))

-- A program behind the string of PRINT, and one in front of the lines that a branch searches.
abbrev before : Bytes → P
before rest = record prog { reader = record prog.reader { c = some 32; unread = rest } }

print_arguments-fuel_example :
    print_arguments (list_ring Token) 40 (before (codes "$n 7\n"))
    ≡ print_arguments (list_ring Token) 60 (before (codes "$n 7\n"))
print_arguments-fuel_example =
    print_arguments-fuel (list_ring Token) 40 60 (before (codes "$n 7\n")) (omega arith)
      (omega arith)

-- The table that is built has the last name in front.
abbrev in_front :
    List (Bytes × Instruction) → List (Bytes × Instruction) → List (Bytes × Instruction)
in_front [] t = t
in_front (x ∷ xs) t = in_front xs (x ∷ t)

abbrev built : (list_table Instruction).Table
built = in_front instruction_array []

is_built : lexer_init (list_table Instruction) ≡ done built
unfolding lexer_init str_eq
is_built = refl

abbrev line : P
line = before (codes "LX PRINT \"n\" $n 7\n")

tokenize_next_line-Accepts_example :
    Always {A = P}
      (Accepts (list_table Instruction) (list_ring Token) built)
      (tokenize_next_line (list_table Instruction) (list_ring Token) built line)
tokenize_next_line-Accepts_example =
    tokenize_next_line-Accepts (list_table Instruction) (list_ring Token) built line refl

abbrev to_there : Token
to_there = record { payload = label (codes "LX") 0; line = 1; column = 1; prev_col = 0 }

abbrev ahead : P
ahead = before (codes "SET $n 7\nLX RETURN\n")

search_label-fuel_example :
    search_label 1000
      (list_table Instruction)
      (list_table Cell)
      (list_ring Token)
      built
      30
      to_there
      (codes "LX")
      ahead
    ≡ search_label 1000
        (list_table Instruction)
        (list_table Cell)
        (list_ring Token)
        built
        60
        to_there
        (codes "LX")
        ahead
search_label-fuel_example =
    search_label-fuel 1000 (list_table Instruction) (list_table Cell) (list_ring Token) built 30 60
      to_there (codes "LX") ahead is_built (omega arith) (omega arith)

abbrev idle : R
idle = record { programs = (list_chain P).init; curr = none; running = true; program_cnt = pos 0 }

abbrev busy : Option ℕ → R
busy c = record {
  programs = ((list_chain P).append (list_chain P).init prog).0;
  curr = c;
  running = true;
  program_cnt = pos 1;
}

abbrev files : Bytes → Option Bytes
files name = some text

abbrev after_run : S
after_run = record {
  runtimes = busy none ∷ idle ∷ [];
  globals = [];
  id_cnt = pos 2;
  has_read = true;
  messages = [];
}

abbrev w : Shared G
w = record { globals = []; output = []; notices = []; slept = [] }

abbrev moment : Moment G
moment = record { random = pos 5; clock = []; wait = λ t. t }

abbrev after_round : S
after_round = record after_run { runtimes = busy (some 1) ∷ idle ∷ [] }

reached :
    Reached 1000
      (list_table Instruction)
      (list_table Cell)
      (list_ring Token)
      (list_table (Option GlobalVar))
      []
      (list_chain P)
      after_round
unfolding shell_init shell_step runtime_step str_eq digits_value ◌+ℤ◌
reached =
    rounds moment w w [] (idle ∷ []) (busy none) (busy (some 1))
      (commands files (codes "run f 41\n") [] after_run true (begins 2 []) refl) refl refl refl

Reached-IsSystem_example :
    IsSystem 1000
      (list_table Instruction)
      (list_table Cell)
      (list_ring Token)
      (list_table (Option GlobalVar))
      []
      (list_chain P)
      after_round.runtimes
      after_round.id_cnt
Reached-IsSystem_example =
    Reached-IsSystem 1000 (list_table Instruction) (list_table Cell) (list_ring Token)
      (list_table (Option GlobalVar)) [] (list_chain P) reached

kill_command-marks_example :
    (c : (list_chain P).Chain) × ((list_chain P).items c ≡ (1, killed prog) ∷ [])
    × (kill_command 1000
          (list_table Cell)
          (list_ring Token)
          (list_table (Option GlobalVar))
          (list_chain P)
          (codes "1" ∷ [])
          after_round
        ≡ done (record after_round {
          runtimes = record (busy (some 1)) { programs = c } ∷ idle ∷ [];
          globals = [];
        }))
unfolding wake_blocked digits_value
kill_command-marks_example =
    kill_command-marks 1000 (list_table Instruction) (list_table Cell) (list_ring Token)
      (list_table (Option GlobalVar)) [] (list_chain P) (codes "1") [] [] (idle ∷ [])
      (busy (some 1)) [] [] 1 prog [] reached refl refl refl (omega arith) refl refl
