-- ===== src/Tests/Shells.antt =====
-- The shell at concrete inputs: lines of input, their commands, and the theorems on them.
use simbly.Global.{GlobalVar}
use simbly.Prelude.{
  ℕ, zero, suc, ◌≡◌, refl, sym, get_elem?, fits_int, Bool, true, false, Option, none, some, List,
  [], ◌∷◌, ◌++◌, Bytes, codes, str_eq, ℤ, pos, ◌+ℤ◌, length, if◌then◌else◌, Outcome, done,
  undefined, uninitialised_read, ◌>>=◌, arith,
}
use simbly.Program.Init.{program_with_id}
use simbly.Program.{Program, Cell, Token}
use simbly.Runtime.Thread.{Runtime}
use simbly.Scanner.Operand.{digits_value}
use simbly.Shell.Args.Numbers.{InRange, read_args_lem}
use simbly.Shell.Args.{number_too_long, read_args, no_args}
use simbly.Shell.Balance.{IsLeast}
use simbly.Shell.Commands.Reads.{has_line, shell_step-line, shell_step-eof}
use simbly.Shell.Commands.Run.{run_command-attaches}
use simbly.Shell.Commands.{
  Sh, ShellMessage, empty_input, no_such_program, no_such_file, running, nothing_running, counts,
  run_command, command, shell_step,
}
use simbly.Shell.Input.Squeeze.{read_line_lem}
use simbly.Shell.Input.{read_line}
use simbly.Voids.Chain.{list_chain}
use simbly.Voids.Lists.{list_table, list_ring}

abbrev P : Type 0
P = Program (list_table Cell).Table (list_ring Token).Buffer

abbrev G : Type 0
G = (list_table (Option GlobalVar)).Table

abbrev R : Type 0
R = Runtime (list_chain P).Chain ℕ

abbrev S : Type 0
S = Sh 1000 (list_table Cell) (list_ring Token) (list_table (Option GlobalVar)) (list_chain P)

abbrev prog : ℤ → P
prog id = program_with_id (list_table Cell) (list_ring Token) (codes "#PROGRAM\n") [] id

abbrev idle : R
idle = record { programs = (list_chain P).init; curr = none; running = true; program_cnt = pos 0 }

abbrev busy : R
busy = record {
  programs = ((list_chain P).append (list_chain P).init (prog (pos 1))).0;
  curr = some 1;
  running = true;
  program_cnt = pos 1;
}

abbrev shell : S
shell = record {
  runtimes = busy ∷ idle ∷ idle ∷ [];
  globals = [];
  id_cnt = pos 2;
  has_read = false;
  messages = [];
}

abbrev files : Bytes → Option Bytes
files name = if str_eq name (codes "f") then some (codes "#PROGRAM\n") else none

abbrev run_line : Bytes
run_line = codes "\n  run \t f  7 42 \nq\n"

read_line_lem_example :
    read_line run_line
    ≡ done (record { line = some (codes "run f 7 42 "); unread = codes "q\n"; empty_inputs = 1 })
read_line_lem_example = read_line_lem run_line (omega arith)

read_args_lem_example :
    (read_args (codes "7" ∷ codes "123456789" ∷ []) no_args ≡ done number_too_long)
    × InRange number_too_long
read_args_lem_example = read_args_lem (codes "7" ∷ codes "123456789" ∷ [])

room :
    (i : ℕ) (x : ℤ)
    → get_elem? (pos 1 ∷ pos 0 ∷ pos 0 ∷ []) i ≡ some x
    → fits_int (x +ℤ pos 1) ≡ true
unfolding ◌+ℤ◌
room zero x h = let e : pos 1 ≡ x = cc in rw (sym e) refl
room (suc zero) x h = let e : pos 0 ≡ x = cc in rw (sym e) refl
room (suc (suc zero)) x h = let e : pos 0 ≡ x = cc in rw (sym e) refl
room (suc (suc (suc i))) x h = cc

run_command-attaches_example :
    (rs rest : List R) × (rt rt' : R) × (n : ℕ) × (shell.runtimes ≡ rs ++ (rt ∷ rest))
    × IsLeast
        (counts 1000
          (list_table Cell)
          (list_ring Token)
          (list_table (Option GlobalVar))
          (list_chain P)
          shell.runtimes)
        (length rs)
        rt.program_cnt
    × (run_command 1000
          (list_table Cell)
          (list_ring Token)
          (list_table (Option GlobalVar))
          (list_chain P)
          files
          (codes "f" ∷ codes "7" ∷ [])
          shell
        ≡ done (record shell { runtimes = rs ++ (rt' ∷ rest); id_cnt = pos 3 }))
    × ((list_chain P).items rt'.programs
        ≡ (list_chain P).items rt.programs
          ++ ((
            n,
            program_with_id
                (list_table Cell)
                (list_ring Token)
                (codes "#PROGRAM\n")
                (pos 7 ∷ [])
                (pos 2),
          )
              ∷ []))
    × (rt'.program_cnt ≡ rt.program_cnt +ℤ pos 1)
unfolding ◌+ℤ◌ str_eq digits_value
run_command-attaches_example =
    run_command-attaches 1000 (list_table Cell) (list_ring Token) (list_table (Option GlobalVar))
      (list_chain P) files (codes "f") (codes "#PROGRAM\n") (codes "7" ∷ []) (pos 7 ∷ []) shell busy
      (idle ∷ idle ∷ []) refl (omega arith) refl refl refl room

shell_step-line_example :
    (v : Bytes) × (ws : List Bytes) × (codes "run" ∷ codes "f" ∷ codes "7" ∷ codes "42" ∷ []
      ≡ v ∷ ws)
    × (shell_step 1000
          (list_table Cell)
          (list_ring Token)
          (list_table (Option GlobalVar))
          (list_chain P)
          files
          run_line
          shell
        ≡ (command 1000
              (list_table Cell)
              (list_ring Token)
              (list_table (Option GlobalVar))
              (list_chain P)
              files
              (v ∷ ws)
              (has_line 1000
                (list_table Cell)
                (list_ring Token)
                (list_table (Option GlobalVar))
                (list_chain P)
                1
                shell)
            >>= λ o. done (o, codes "q\n")))
shell_step-line_example =
    shell_step-line 1000 (list_table Cell) (list_ring Token) (list_table (Option GlobalVar))
      (list_chain P) files run_line (codes "run \t f  7 42 ") (codes "q\n") shell (omega arith) refl

shell_step-eof_example :
    shell_step 1000
      (list_table Cell)
      (list_ring Token)
      (list_table (Option GlobalVar))
      (list_chain P)
      files
      (codes "run f")
      shell
    ≡ undefined uninitialised_read
shell_step-eof_example =
    shell_step-eof 1000 (list_table Cell) (list_ring Token) (list_table (Option GlobalVar))
      (list_chain P) files (codes "run f") shell (omega arith) refl

unfoldable session : ℕ → Bytes → S → Outcome (S × Bool)
unfolding shell_step
session zero input s = done (s, true)
session (suc n) input s =
    shell_step 1000 (list_table Cell) (list_ring Token) (list_table (Option GlobalVar))
      (list_chain P) files input s
    >>= λ ((s', more), rest).
        let later = session n rest s' in if more then later else done (s', false)

abbrev said : Outcome (S × Bool) → Outcome (List ShellMessage × Bool)
said o = o >>= λ (s, more). done (s.messages, more)

-- A session that starts two programs beside the one that runs, kills one that is not there, and lists them.
lists_programs :
    said (session 6 (codes "run f\nrun f 1\n\nk 9\nrun g\nlist\nq\nrun f\n") shell)
    ≡ done (
      empty_input
          ∷ no_such_program (pos 9)
          ∷ no_such_file (codes "g")
          ∷ running (pos 1) 0 (pos 1)
          ∷ nothing_running 1
          ∷ nothing_running 2
          ∷ [],
      false,
    )
unfolding session ◌+ℤ◌ digits_value str_eq
lists_programs = refl
